-- ===== src/RateLimits.antt =====
-- The limiter of requests in one process (packages/market_data/rate_limit.py,
-- `InProcessRateLimiter`). A key is a number and the clock's reading an argument; the lock makes each
-- call one step, so calls are a sequence.
pub mod Laws
pub mod Bounds
mod Tests
use market_intelligence_lab.Prelude.{
  ℕ, ◌+◌, Bool, true, false, List, [], ◌∷◌, ◌++◌, leb, ◌==◌, if◌then◌else◌, length,
}
use market_intelligence_lab.Moments.{Instant, seconds}

-- `_events` has an empty deque for every key that it lacks.
pub record Limiter : Type 0 where
  pub limit : ℕ
  pub window : ℕ
  pub events : ℕ → List Instant

abbrev pub new_limiter : ℕ → ℕ → Limiter
new_limiter limit window_seconds = record {
  limit = limit;
  window = seconds window_seconds;
  events = (λ key. []);
}

-- The loop that drops old events from the left.
unfoldable pub drop_old : ℕ → Instant → List Instant → List Instant
drop_old window now [] = []
drop_old window now (e ∷ es) =
    let rest = drop_old window now es in if leb (e + window) now then rest else e ∷ es

abbrev pub put : ℕ → List Instant → (ℕ → List Instant) → ℕ → List Instant
put key events old k = if k == key then events else old k

-- The answer with the events that are kept.
abbrev pub admit_event : ℕ → Instant → List Instant → Bool × List Instant
admit_event limit now events =
    if leb limit (length events) then (false, events) else (true, events ++ (now ∷ []))

unfoldable pub allow : ℕ → Instant → Limiter → Bool × Limiter
unfolding drop_old
allow key now l =
    let (ok, events) = admit_event l.limit now (drop_old l.window now (l.events key)) in
    (ok, record l { events = put key events l.events })

-- The answers to a sequence of calls.
unfoldable pub allow_all : List (ℕ × Instant) → Limiter → List Bool
unfolding allow
allow_all [] l = []
allow_all (c ∷ cs) l = let (ok, after) = allow c.0 c.1 l in ok ∷ allow_all cs after
