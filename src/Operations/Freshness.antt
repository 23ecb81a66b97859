-- ===== src/Operations/Freshness.antt =====
-- How fresh a dataset is (packages/operations/service.py, `calculate_freshness`).
pub mod Laws
use market_intelligence_lab.Prelude.{
  ℕ, zero, suc, ◌+◌, ◌-◌, max, Bool, true, false, ◌&&◌, ◌||◌, Option, none, some, List, [], ◌∷◌,
  ltb, leb, ◌==◌, if◌then◌else◌, exists_row,
}
use market_intelligence_lab.Moments.{Instant, days, date_of, weekday, end_of_day}

pub data Freshness : Type 0 where
  provider_delayed unknown current due stale very_stale : Freshness

-- What a dataset was promised: its last success, the next expected one, and when it goes stale.
pub record Promise : Type 0 where
  pub last_success : Instant
  pub expected_next : Instant
  pub stale_after : Instant

abbrev pub is_closed : List ℕ → ℕ → Bool
is_closed holidays d = leb 5 (weekday d) || exists_row (λ h. h == d) holidays

-- `while probe.weekday() >= 5 or probe in closed: probe -= timedelta(days=1)`; `none` is the
-- OverflowError below the first day of the calendar.
unfoldable pub last_open : List ℕ → ℕ → Option ℕ
last_open holidays zero = if is_closed holidays zero then none else some zero
last_open holidays (suc d) =
    let earlier = last_open holidays d in
    if is_closed holidays (suc d) then earlier else some (suc d)

-- The comparison with the promise at the effective time.
unfoldable pub grade : Promise → Instant → Freshness
grade p t =
    if leb t p.expected_next
    then current
    else if leb t p.stale_after
    then due
    else if ltb (p.stale_after + max (p.stale_after - p.expected_next) (days 1)) t
    then very_stale
    else stale

-- Behind the last open day: up to date with it, or measured at its end.
unfoldable pub grade_at : Promise → Instant → Option ℕ → Option Freshness
unfolding grade
grade_at p now none = none
grade_at p now (some probe) =
    if ltb probe (date_of now)
    then some (if leb probe (date_of p.last_success) then current else grade p (end_of_day probe))
    else some (grade p now)

calendar_grade : Promise → Instant → Bool → List ℕ → Option Freshness
unfolding grade_at last_open
calendar_grade p now false holidays = some (grade p now)
calendar_grade p now true holidays = grade_at p now (last_open holidays (date_of now))

-- All three times must be known.
promised : Option Instant → Option Instant → Option Instant → Option Promise
promised (some l) (some e) (some s) =
    some (record { last_success = l; expected_next = e; stale_after = s })
promised _ _ _ = none

calculate_promised : Option Promise → Instant → Bool → List ℕ → Option Freshness
unfolding calendar_grade
calculate_promised none now market_calendar holidays = some unknown
calculate_promised (some p) now market_calendar holidays =
    calendar_grade p now market_calendar holidays

unfoldable pub calculate_freshness :
    Instant
    → Option Instant
    → Option Instant
    → Option Instant
    → Bool
    → Bool
    → List ℕ
    → Option Freshness
unfolding calculate_promised promised
calculate_freshness now last_success expected_next stale_after market_calendar is_delayed holidays =
    if is_delayed
    then some provider_delayed
    else calculate_promised (promised last_success expected_next stale_after) now market_calendar
        holidays
