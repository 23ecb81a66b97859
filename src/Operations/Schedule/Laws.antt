-- ===== src/Operations/Schedule/Laws.antt =====
-- The next due time moves forward, and the market calendar stays off weekends.
use market_intelligence_lab.Prelude.{
  ◌+◌, ◌≤◌, ◌<◌, ◌≡◌, some, max, arith, leb, or_else, inl, inr, Bool-cases, Bool, true, false, refl,
  ap,
}
use market_intelligence_lab.Moments.{Instant, seconds, days, date_of, weekday}
use market_intelligence_lab.Operations.Schedule.{
  ScheduleType, interval, daily, weekly, market_calendar, dataset_cadence, unsupported,
  ScheduleConfig, due_of, due_at, unsupported_type, skip_weekend, next_due, weekend_fuel,
}

date_of-next_day : (t : Instant) → date_of (t + days 1) ≡ date_of t + 1
date_of-next_day t = omega arith

-- Three rounds are enough: the loop ends on the first weekday from its start, at most two days on.
pub skip_weekend_total :
    (t : Instant)
    → (u : Instant) × (skip_weekend weekend_fuel t ≡ some u)
      × (weekday (date_of u) < 5)
      × (t ≤ u)
      × (u ≤ t + days 2)
unfolding skip_weekend
skip_weekend_total t = elim (Bool-cases (leb 5 (weekday (date_of t)))) [
  | inr open_day ↦ (t, ground arith, ground arith, omega arith, omega arith)
  | inl weekend ↦ elim (Bool-cases (leb 5 (weekday (date_of (t + days 1))))) [
    | inr open_day ↦ (t + days 1, ground arith, ground arith, omega arith, omega arith)
    | inl sunday ↦ (t + days 1 + days 1, ground arith, ground arith, omega arith, omega arith)
  ]
]

abbrev pub is_supported : ScheduleType → Bool
is_supported (unsupported _) = false
is_supported _ = true

-- A supported schedule always has a next due time, which lies at least a minute after the due time,
-- and for a market calendar falls on a weekday at most two days past the cadence. An unsupported
-- one is an error.
pub next_due_advances :
    (s : ScheduleType) (c : ScheduleConfig) (due : Instant)
    → (is_supported s ≡ true
        → (t : Instant) × (next_due s c due ≡ due_at t)
          × (due + seconds 60 ≤ t)
          × (s ≡ market_calendar
              → (weekday (date_of t) < 5)
                × (t ≤ due + days (max 1 (or_else c.cadence_days 1)) + days 2)))
      × (is_supported s ≡ false → next_due s c due ≡ unsupported_type)
unfolding next_due
next_due_advances interval c due = (
  λ h. (due + seconds (max 60 (or_else c.interval_seconds 3600)), refl, omega arith, λ e. cc),
  λ h. cc,
)
next_due_advances daily c due = (λ h. (due + days 1, refl, omega arith, λ e. cc), λ h. cc)
next_due_advances weekly c due = (λ h. (due + days 7, refl, omega arith, λ e. cc), λ h. cc)
next_due_advances market_calendar c due =
    let (u, found, open_day, after, soon) =
      skip_weekend_total (due + days (max 1 (or_else c.cadence_days 1))) in
    (λ h. (u, ap due_of found, omega arith, λ e. (open_day, soon)), λ h. cc)
next_due_advances dataset_cadence c due =
    (λ h. (due + days (max 1 (or_else c.cadence_days 1)), refl, omega arith, λ e. cc), λ h. cc)
next_due_advances (unsupported name) c due = (λ h. cc, λ h. refl)
