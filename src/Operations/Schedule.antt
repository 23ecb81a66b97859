-- ===== src/Operations/Schedule.antt =====
-- When a scheduled task is next due (packages/operations/service.py, `next_due`).
pub mod Laws
use Prim.Native.String.{String}
use market_intelligence_lab.Prelude.{
  ℕ, zero, suc, ◌+◌, Option, none, some, max, leb, if◌then◌else◌, or_else,
}
use market_intelligence_lab.Moments.{Instant, seconds, days, day_length, date_of, weekday}

-- The upper-cased `schedule_type` of a definition.
pub data ScheduleType : Type 0 where
  interval daily weekly market_calendar dataset_cadence : ScheduleType
  unsupported : String → ScheduleType

-- The JSON object `schedule`: the keys that are read. A negative number acts as 0 does.
pub record ScheduleConfig : Type 0 where
  pub interval_seconds : Option ℕ
  pub cadence_days : Option ℕ

-- `while candidate.weekday() >= 5: candidate += timedelta(days=1)`; `none` when the fuel ran out.
unfoldable pub skip_weekend : ℕ → Instant → Option Instant
skip_weekend zero candidate = none
skip_weekend (suc fuel) candidate =
    let rest = skip_weekend fuel (candidate + days 1) in
    if leb 5 (weekday (date_of candidate)) then rest else some candidate

-- A weekend has two days.
abbrev pub weekend_fuel : ℕ
weekend_fuel = 3

pub data Due : Type 0 where
  due_at : Instant → Due
  unsupported_type : Due
  out_of_fuel : Due

abbrev due_of : Option Instant → Due
due_of (some t) = due_at t
due_of none = out_of_fuel

unfoldable pub next_due : ScheduleType → ScheduleConfig → Instant → Due
next_due interval c due = due_at (due + seconds (max 60 (or_else c.interval_seconds 3600)))
next_due daily c due = due_at (due + days 1)
next_due weekly c due = due_at (due + days 7)
next_due market_calendar c due =
    due_of (skip_weekend weekend_fuel (due + days (max 1 (or_else c.cadence_days 1))))
next_due dataset_cadence c due = due_at (due + days (max 1 (or_else c.cadence_days 1)))
next_due (unsupported name) c due = unsupported_type
