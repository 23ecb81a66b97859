-- ===== src/ImportJobs/Rows.antt =====
-- The rows of import jobs, their leases, workers and events, and the table of transitions
-- (packages/market_data/operations.py, STATE_TRANSITIONS and `transition_job`).
use Prim.Native.String.{String}
use market_intelligence_lab.Prelude.{
  ℕ, Bool, true, false, ◌&&◌, not, Option, none, some, List, ◌∷◌, leb, ◌==◌, if◌then◌else◌,
  exists_row,
}
use market_intelligence_lab.Moments.{Instant}

pub data JobStatus : Type 0 where
  queued running retrying interrupted failed cancelled succeeded dead_letter : JobStatus

pub record Job : Type 0 where
  pub id : ℕ
  pub workspace_id : Option ℕ
  pub provider_id : ℕ
  pub status : JobStatus
  pub cancel_requested : Bool
  pub attempt : ℕ
  pub max_attempts : ℕ
  pub priority : ℕ
  pub idempotency_key : Option String
  pub requested_at : Instant
  pub started_at : Option Instant
  pub completed_at : Option Instant
  pub next_retry_at : Option Instant
  pub error_summary : Option String
  pub symbol_index : ℕ
  pub records_processed : ℕ
  pub records_inserted : ℕ
  pub records_skipped : ℕ

pub record Lease : Type 0 where
  pub id : ℕ
  pub job_id : ℕ
  pub worker_id : ℕ
  pub acquired_at : Instant
  pub heartbeat_at : Instant
  pub expires_at : Instant

-- `working` is the status "running".
pub data WorkerStatus : Type 0 where
  starting idle working unavailable stopped : WorkerStatus

pub record Worker : Type 0 where
  pub id : ℕ
  pub status : WorkerStatus
  pub current_job_id : Option ℕ
  pub last_heartbeat_at : Instant
  pub stopped_at : Option Instant

pub record JobEvent : Type 0 where
  pub job_id : ℕ
  pub event_type : String
  pub from_status : JobStatus
  pub to_status : JobStatus

pub record Store : Type 0 where
  pub jobs : List Job
  pub leases : List Lease
  pub workers : List Worker
  pub events : List JobEvent

-- `to_status in STATE_TRANSITIONS.get(job.status, set())`
abbrev pub allowed : JobStatus → JobStatus → Bool
allowed queued running = true
allowed queued cancelled = true
allowed running succeeded = true
allowed running retrying = true
allowed running failed = true
allowed running cancelled = true
allowed running dead_letter = true
allowed retrying running = true
allowed retrying cancelled = true
allowed retrying dead_letter = true
allowed interrupted running = true
allowed interrupted cancelled = true
allowed interrupted dead_letter = true
allowed failed queued = true
allowed failed dead_letter = true
allowed cancelled queued = true
allowed _ _ = false

-- `none` is the ValueError.
unfoldable pub transition_job :
    String → JobStatus → Job → List JobEvent → Option (Job × List JobEvent)
transition_job event_type to job events =
    if allowed job.status to
    then some (
      record job { status = to },
      record { job_id = job.id; event_type = event_type; from_status = job.status; to_status = to }
          ∷ events,
    )
    else none

-- The statuses that `claim_next_job` takes, at an instant.
abbrev pub retry_due : Option Instant → Instant → Bool
retry_due none now = true
retry_due (some t) now = leb t now

abbrev pub is_ready : JobStatus → Option Instant → Instant → Bool
is_ready queued next_retry_at now = true
is_ready retrying next_retry_at now = retry_due next_retry_at now
is_ready interrupted next_retry_at now = true
is_ready _ next_retry_at now = false

abbrev pub is_leased : List Lease → ℕ → Bool
is_leased leases job = exists_row (λ l. l.job_id == job) leases

-- The whole filter of `claim_next_job`.
unfoldable pub is_claimable : List Lease → Instant → Job → Bool
is_claimable leases now job =
    not job.cancel_requested
    && is_ready job.status job.next_retry_at now
    && not (is_leased leases job.id)
