-- ===== src/Operations/Retry/Laws.antt =====
-- Bounds on the retry delays.
use Prim.Native.String.{String}
use market_intelligence_lab.Prelude.{ℕ, ◌≤◌, ◌≡◌, Option, none, some, min, max, arith, or_else}
use market_intelligence_lab.Operations.Retry.{
  Draw, RetryPolicy, compute_retry_delay, retry_delay_seconds, exponential, jittered,
}

-- Every attempt from 1 on has a delay, between the exponential delay that the ingestion module
-- computes for the same policy and the maximum, and no shorter than what the provider asked for,
-- up to the maximum.
pub compute_retry_delay_bounds :
    (draw : Draw) (p : RetryPolicy) (attempt : ℕ) (retry_after : Option ℕ) (seed : String)
    → 1 ≤ attempt
    → (delay base : ℕ) × (compute_retry_delay draw p attempt retry_after seed ≡ some delay)
      × (retry_delay_seconds p attempt ≡ some base)
      × (base ≤ delay)
      × (delay ≤ p.maximum_seconds)
      × (min p.maximum_seconds (or_else retry_after 0) ≤ delay)
unfolding compute_retry_delay retry_delay_seconds
compute_retry_delay_bounds draw p attempt none seed h = (
  jittered draw p seed attempt,
  exponential p attempt,
  ground arith,
  ground arith,
  omega arith,
  omega arith,
  omega arith,
)
compute_retry_delay_bounds draw p attempt (some after) seed h = (
  max (jittered draw p seed attempt) (min p.maximum_seconds after),
  exponential p attempt,
  ground arith,
  ground arith,
  omega arith,
  omega arith,
  omega arith,
)
