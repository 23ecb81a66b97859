-- ===== src/ImportJobs/Running.antt =====
-- The run of an import job over its symbols (packages/market_data/ingestion.py, `run_import_job`):
-- what becomes of the job's row. Each symbol's batch is what the provider and the storage made of it.
-- The heartbeats, the provider's health and the error rows are not modelled.
pub mod Steps
pub mod Laws
pub mod Resume
use Prim.Native.String.{String, ◌++◌ as join}
use market_intelligence_lab.Prelude.{
  ℕ, suc, ◌+◌, Bool, true, false, ◌&&◌, Option, none, some, List, [], ◌∷◌, ltb, max, if◌then◌else◌,
  or_else,
}
use market_intelligence_lab.Moments.{Instant, seconds}
use market_intelligence_lab.Operations.Retry.{default_retry, retry_delay_seconds}
use market_intelligence_lab.ImportJobs.Rows.{
  Job, JobStatus, queued, running, retrying, interrupted, failed, cancelled, succeeded, dead_letter,
}
use market_intelligence_lab.ImportJobs.Requests.{is_terminal}

-- How one symbol's batch ends: its records are stored, or fail the validation, or an exception of
-- one of the three caught kinds is raised, its text given, or one that no clause catches, with the
-- records that the job's row has counted by then. A rate limit may carry a delay in seconds.
pub data Batch : Type 0 where
  stored : (processed inserted skipped : ℕ) → Batch
  invalid : (processed : ℕ) → (symbol : String) → Batch
  temporary_error : String → Option ℕ → Batch
  provider_error : String → Batch
  value_error : String → Batch
  uncaught_error : (processed inserted skipped : ℕ) → Batch

-- `if job.status in TERMINAL_STATUSES: job.completed_at = now` at the end of the loop.
abbrev pub close : Instant → Job → Job
close now job = if is_terminal job.status then record job { completed_at = some now } else job

abbrev store : ℕ → ℕ → ℕ → ℕ → Job → Job
store sequence processed inserted skipped job = record job {
  records_processed = job.records_processed + processed;
  records_inserted = job.records_inserted + inserted;
  records_skipped = job.records_skipped + skipped;
  symbol_index = sequence + 1;
}

abbrev give_up : Instant → String → Job → Job
give_up now text job = record job {
  status = failed;
  next_retry_at = none;
  error_summary = some text;
  completed_at = some now;
}

-- The delay of `retry_delay_seconds(job.attempt)`, which is at least 1 here, and the provider's.
abbrev pub wait_seconds : ℕ → Option ℕ → ℕ
wait_seconds attempt hint =
    max (or_else (retry_delay_seconds default_retry attempt) 0) (or_else hint 0)

abbrev try_again : Instant → String → Option ℕ → Job → Job
try_again now text hint job =
    if ltb job.attempt job.max_attempts
    then record job {
      status = retrying;
      next_retry_at = some (now + seconds (wait_seconds job.attempt hint));
      error_summary = some text;
    }
    else give_up now text job

-- The row when a batch is broken off: its symbol is still to do.
abbrev break_off : ℕ → ℕ → ℕ → Job → Job
break_off processed inserted skipped job = record job {
  records_processed = job.records_processed + processed;
  records_inserted = job.records_inserted + inserted;
  records_skipped = job.records_skipped + skipped;
}

-- What ends the run at a batch, or the job to go on with; `raise` is an exception that is not caught.
pub data Turn : Type 0 where
  go_on : Job → Turn
  stop : Job → Turn
  raise : Job → Turn

-- How a run ends: refused with a ValueError before it begins, returned, or left by an exception that
-- no clause catches, with the row as it stands then in the transaction, which is the caller's.
pub data Run : Type 0 where
  refused : Run
  ended : Job → Run
  raised : Job → Run

unfoldable pub visit : Instant → ℕ → Batch → Job → Turn
visit now sequence (stored processed inserted skipped) job =
    go_on (store sequence processed inserted skipped job)
visit now sequence (invalid processed symbol) job = stop (
    close now (record job {
      records_processed = job.records_processed + processed;
      error_summary = some (join "validation failed for " symbol);
      status = failed;
    }))
visit now sequence (temporary_error text hint) job = stop (try_again now text hint job)
visit now sequence (provider_error text) job = stop (give_up now text job)
visit now sequence (value_error text) job = stop (give_up now text job)
visit now sequence (uncaught_error processed inserted skipped) job =
    raise (break_off processed inserted skipped job)

abbrev pub after : Turn → (Job → Run) → Run
after (go_on job) next = next job
after (stop job) next = ended job
after (raise job) next = raised job

-- The loop from a sequence number on: batches before `start_index` are passed over, and a
-- requested cancellation ends the run.
unfoldable pub run_batches : Instant → ℕ → ℕ → List Batch → Job → Run
unfolding visit
run_batches now start_index sequence [] job = ended (record job {
  status = succeeded;
  next_retry_at = none;
  error_summary = none;
  completed_at = some now;
})
run_batches now start_index sequence (b ∷ bs) job =
    let rest = λ (j : Job). run_batches now start_index (sequence + 1) bs j in
    if ltb sequence start_index
    then rest job
    else if job.cancel_requested
    then ended (close now (record job { status = cancelled }))
    else after (visit now sequence b job) rest

abbrev pub is_runnable : JobStatus → Bool
is_runnable queued = true
is_runnable retrying = true
is_runnable interrupted = true
is_runnable running = true
is_runnable _ = false

-- It is refused when the status is wrong, or the provider is missing, disabled or not registered. An
-- error of the database before the loop is not modelled.
unfoldable pub run_import_job : Bool → Instant → List Batch → Job → Run
unfolding run_batches
run_import_job provider_enabled now batches job =
    if is_runnable job.status && provider_enabled
    then run_batches now job.symbol_index 0 batches (record job {
      status = running;
      started_at = some (or_else job.started_at now);
      attempt = job.attempt + 1;
    })
    else refused
