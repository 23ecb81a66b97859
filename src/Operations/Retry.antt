-- ===== src/Operations/Retry.antt =====
-- Retry delays: `compute_retry_delay` of packages/operations/service.py, and
-- `retry_delay_seconds` of packages/market_data/ingestion.py, in whole seconds.
pub mod Laws
use Prim.Native.String.{String}
use market_intelligence_lab.Prelude.{
  ℕ, ◌+◌, ◌-◌, ◌*◌, ◌/◌, ◌^◌, Option, none, some, min, max, ltb, if◌then◌else◌, Bool,
}

-- `random.Random(f"{jitter_seed}:{attempt}").randint(0, upper)`, by the jitter seed, the attempt
-- and the upper end.
abbrev pub Draw : Type 0
Draw = String → ℕ → ℕ → ℕ

-- The keyword arguments, with their defaults below.
pub record RetryPolicy : Type 0 where
  pub base_seconds : ℕ
  pub maximum_seconds : ℕ

abbrev pub default_retry : RetryPolicy
default_retry = record { base_seconds = 30; maximum_seconds = 3600 }

exponential : RetryPolicy → ℕ → ℕ
exponential p attempt = min p.maximum_seconds (p.base_seconds * 2 ^ (attempt - 1))

jittered : Draw → RetryPolicy → String → ℕ → ℕ
unfolding exponential
jittered draw p seed attempt =
    let e = exponential p attempt in min p.maximum_seconds (e + draw seed attempt (max 1 (e / 5)))

respect_retry_after : RetryPolicy → Option ℕ → ℕ → ℕ
respect_retry_after p none delay = delay
respect_retry_after p (some after) delay = max delay (min p.maximum_seconds after)

-- `none` is the ValueError on an attempt below 1.
unfoldable pub compute_retry_delay : Draw → RetryPolicy → ℕ → Option ℕ → String → Option ℕ
unfolding jittered respect_retry_after
compute_retry_delay draw p attempt retry_after seed =
    if ltb attempt 1
    then none
    else some (respect_retry_after p retry_after (jittered draw p seed attempt))

unfoldable pub retry_delay_seconds : RetryPolicy → ℕ → Option ℕ
retry_delay_seconds p attempt =
    if ltb attempt 1
    then none
    else some (min p.maximum_seconds (p.base_seconds * 2 ^ (attempt - 1)))
