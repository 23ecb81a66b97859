-- ===== src/ImportJobs/Requests.antt =====
-- Requests on import jobs (packages/market_data/ingestion.py: the checks of `create_import_job` that
-- follow the symbols, `request_cancellation`, `restart_import_job`).
pub mod Laws
use Prim.Native.String.{String}
use text.Mathlib.Text.{◌==◌ as str_eq}
use market_intelligence_lab.Prelude.{
  ℕ, ◌+◌, Bool, true, false, ◌&&◌, ◌||◌, not, Option, none, some, List, [], ◌∷◌, ltb, leb, ◌==◌,
  length, if◌then◌else◌, find, or_else,
}
use market_intelligence_lab.Moments.{Instant}
use market_intelligence_lab.ImportJobs.Rows.{
  Job, JobStatus, queued, running, retrying, interrupted, failed, cancelled, succeeded, dead_letter,
  JobEvent,
}

-- TERMINAL_STATUSES and RESTARTABLE_STATUSES
abbrev pub is_terminal : JobStatus → Bool
is_terminal succeeded = true
is_terminal failed = true
is_terminal cancelled = true
is_terminal dead_letter = true
is_terminal _ = false

abbrev pub is_restartable : JobStatus → Bool
is_restartable failed = true
is_restartable retrying = true
is_restartable interrupted = true
is_restartable cancelled = true
is_restartable _ = false

pub data RequestError : Type 0 where
  invalid_mode invalid_range invalid_attempts invalid_priority invalid_adjustment : RequestError
  not_cancellable not_restartable : JobStatus → RequestError

pub data Reply (A : Type 0) : Type 0 where
  accepted : A → Reply A
  refused : RequestError → Reply A

-- What a request for a job says, once its provider and symbols are known to be good.
pub record JobRequest : Type 0 where
  pub workspace_id : Option ℕ
  pub provider_id : ℕ
  pub mode : String
  pub start : Instant
  pub end : Instant
  pub max_attempts : ℕ
  pub priority : ℕ
  pub adjustment_preference : String
  pub idempotency_key : Option String

-- The first check that fails, in the order of the code.
unfoldable pub validate_request : JobRequest → Option RequestError
validate_request r =
    if not (str_eq r.mode "full" || str_eq r.mode "incremental")
    then some invalid_mode
    else if leb r.end r.start
    then some invalid_range
    else if ltb r.max_attempts 1 || ltb 10 r.max_attempts
    then some invalid_attempts
    else if ltb 1000 r.priority
    then some invalid_priority
    else if not (
        str_eq r.adjustment_preference "adjusted"
        || str_eq r.adjustment_preference "unadjusted"
        || str_eq r.adjustment_preference "provider_default")
    then some invalid_adjustment
    else none

unfoldable pub new_job : ℕ → Instant → JobRequest → Job
new_job id now r = record {
  id = id;
  workspace_id = r.workspace_id;
  provider_id = r.provider_id;
  status = queued;
  cancel_requested = false;
  attempt = 0;
  max_attempts = r.max_attempts;
  priority = r.priority;
  idempotency_key = r.idempotency_key;
  requested_at = now;
  started_at = none;
  completed_at = none;
  next_retry_at = none;
  error_summary = none;
  symbol_index = 0;
  records_processed = 0;
  records_inserted = 0;
  records_skipped = 0;
}

-- `if idempotency_key:`, which an empty text fails.
abbrev pub key_matches : Option String → Option String → Bool
key_matches none key = false
key_matches (some String.[]) key = false
key_matches (some (String.◌∷◌ c s)) none = false
key_matches (some (String.◌∷◌ c s)) (some key) = str_eq key (String.◌∷◌ c s)

abbrev with_job : ℕ → Instant → JobRequest → List Job → Option Job → Job × List Job
with_job id now r jobs (some existing) = (existing, jobs)
with_job id now r jobs none = (new_job id now r, new_job id now r ∷ jobs)

abbrev create_checked :
    ℕ → Instant → JobRequest → List Job → Option RequestError → Reply (Job × List Job)
create_checked id now r jobs (some e) = refused e
create_checked id now r jobs none =
    accepted
      (with_job id now r jobs (find (λ j. key_matches r.idempotency_key j.idempotency_key) jobs))

unfoldable pub create_import_job : ℕ → Instant → JobRequest → List Job → Reply (Job × List Job)
unfolding validate_request new_job
create_import_job id now r jobs = create_checked id now r jobs (validate_request r)

abbrev pub cancel_queued : Instant → Job → Job
cancel_queued now job = elim job.status [
  | queued ↦ record job { status = cancelled; completed_at = some now }
  | _ ↦ job
]

abbrev pub cancellation_event : JobStatus → Job → JobEvent
cancellation_event from job = record {
  job_id = job.id;
  event_type = "cancellation_requested";
  from_status = from;
  to_status = job.status;
}

unfoldable pub request_cancellation : Instant → Job → List JobEvent → Reply (Job × List JobEvent)
request_cancellation now job events =
    if is_terminal job.status
    then refused (not_cancellable job.status)
    else let job' = cancel_queued now (record job { cancel_requested = true }) in
      accepted (job', cancellation_event job.status job' ∷ events)

unfoldable pub restart_import_job : Job → Reply Job
restart_import_job job =
    if is_restartable job.status
    then accepted (record job {
      status = queued;
      cancel_requested = false;
      completed_at = none;
      next_retry_at = none;
      error_summary = none;
    })
    else refused (not_restartable job.status)
