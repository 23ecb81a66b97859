-- ===== src/Operations/Breaker.antt =====
-- The circuit breaker of a provider (packages/operations/service.py, `circuit_allows_request` and
-- `record_provider_result`) and the admission of work.
pub mod Laws
use Prim.Native.String.{String}
use market_intelligence_lab.Prelude.{
  ℕ, ◌+◌, Bool, true, false, Option, none, some, leb, if◌then◌else◌, or_else,
}
use market_intelligence_lab.Moments.{Instant, seconds}

-- The categories that RETRYABLE_CATEGORIES and PERMANENT_CATEGORIES list, and any other text.
pub data ErrorCategory : Type 0 where
  transient_network rate_limit provider_5xx timeout temporary_database unknown : ErrorCategory
  invalid_response auth_configuration schema_incompatible permanent_validation : ErrorCategory
  unlisted : String → ErrorCategory

abbrev pub is_retryable : ErrorCategory → Bool
is_retryable transient_network = true
is_retryable rate_limit = true
is_retryable provider_5xx = true
is_retryable timeout = true
is_retryable temporary_database = true
is_retryable unknown = true
is_retryable _ = false

pub data BreakerState : Type 0 where
  closed opened half_open : BreakerState

-- `state` and `consecutive_failures` are absent on a row that was never flushed.
pub record Breaker : Type 0 where
  pub state : Option BreakerState
  pub consecutive_failures : Option ℕ
  pub opened_at : Option Instant
  pub next_probe_at : Option Instant
  pub last_error_category : Option ErrorCategory

abbrev probe_due : Option Instant → Instant → Bool
probe_due none now = false
probe_due (some t) now = leb t now

-- On the state that `circuit_allows_request` reads.
allows_from : Option BreakerState → Breaker → Instant → Breaker × Bool
allows_from none b now = (b, true)
allows_from (some closed) b now = (b, true)
allows_from (some opened) b now =
    if probe_due b.next_probe_at now
    then (record b { state = some half_open }, true)
    else (b, false)
allows_from (some half_open) b now = (b, true)

unfoldable pub circuit_allows_request : Breaker → Instant → Breaker × Bool
unfolding allows_from
circuit_allows_request b now = allows_from b.state b now

-- The keyword arguments of `record_provider_result`.
pub record BreakerPolicy : Type 0 where
  pub failure_threshold : ℕ
  pub cooldown_seconds : ℕ

abbrev pub default_policy : BreakerPolicy
default_policy = record { failure_threshold = 3; cooldown_seconds = 300 }

record_success : Breaker → Breaker
record_success b = record {
  state = some closed;
  consecutive_failures = some 0;
  opened_at = none;
  next_probe_at = none;
  last_error_category = none;
}

record_failure : BreakerPolicy → Breaker → Instant → Option ErrorCategory → Breaker
record_failure p b now category =
    let failures = or_else b.consecutive_failures 0 + 1 in
    let counted = record b {
      consecutive_failures = some failures;
      last_error_category = some (or_else category unknown);
    } in
    if leb p.failure_threshold failures
    then record counted {
      state = some opened;
      opened_at = some now;
      next_probe_at = some (now + seconds p.cooldown_seconds);
    }
    else counted

unfoldable pub record_provider_result :
    BreakerPolicy → Breaker → Bool → Instant → Option ErrorCategory → Breaker
unfolding record_success record_failure
record_provider_result p b succeeded now category =
    if succeeded then record_success b else record_failure p b now category

pub data Admission : Type 0 where
  defer_backlog defer_concurrency admit : Admission

unfoldable pub admit_work : ℕ → ℕ → ℕ → ℕ → Admission
admit_work active backlog maximum_active maximum_backlog =
    if leb maximum_backlog backlog
    then defer_backlog
    else if leb maximum_active active
    then defer_concurrency
    else admit
