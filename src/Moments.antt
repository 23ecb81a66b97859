-- ===== src/Moments.antt =====
-- Instants as the program's aware UTC datetimes: microseconds since 0001-01-01T00:00Z, which was
-- a Monday. The end of the calendar in the year 9999 is not modelled.
use market_intelligence_lab.Prelude.{ℕ, ◌+◌, ◌*◌, ◌/◌, ◌%◌, ◌<◌, arith}

abbrev pub Instant : Type 0
Instant = ℕ

-- `timedelta(seconds=s)` and `timedelta(days=d)`
abbrev pub seconds : ℕ → ℕ
seconds s = s * 1000000

abbrev pub day_length : ℕ
day_length = 86400000000

abbrev pub days : ℕ → ℕ
days d = d * day_length

-- `t.date()`, as the number of days since 0001-01-01.
abbrev pub date_of : Instant → ℕ
date_of t = t / day_length

-- `date.weekday()`: 0 is Monday.
abbrev pub weekday : ℕ → ℕ
weekday d = d % 7

-- `datetime.combine(d, datetime.max.time(), tzinfo=UTC)`
abbrev pub end_of_day : ℕ → Instant
end_of_day d = d * day_length + 86399999999

pub end_of_day_bounds : (d t : ℕ) → d < date_of t → end_of_day d < t
end_of_day_bounds d t h = omega arith
