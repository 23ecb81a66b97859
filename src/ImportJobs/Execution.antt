-- ===== src/ImportJobs/Execution.antt =====
-- The execution of a claimed job (packages/market_data/operations.py, `execute_claimed_job`). The
-- operational metrics and the text and details of the event are not modelled.
pub mod Laws
use Prim.Native.String.{String}
use market_intelligence_lab.Prelude.{
  ℕ, Bool, true, false, ◌&&◌, Option, none, some, List, ◌∷◌, ◌==◌, if◌then◌else◌, update_rows,
}
use market_intelligence_lab.Moments.{Instant}
use market_intelligence_lab.ImportJobs.Rows.{
  Job, JobStatus, running, succeeded, Lease, Worker, JobEvent, Store,
}
use market_intelligence_lab.ImportJobs.Leasing.{
  LeaseResult, done, not_owner, lease_expired, release_lease,
}
use market_intelligence_lab.ImportJobs.Running.{Batch, Run, refused, ended, raised, run_import_job}

abbrev pub finish_event : JobStatus → String
finish_event succeeded = "completed"
finish_event _ = "attempt_finished"

-- How an execution ends: with a ValueError, or with the tables, or left by an exception that the run
-- does not catch, with the tables as they stand then in the transaction, which is the caller's.
pub data Execution : Type 0 where
  rejected : Execution
  executed : Store → Execution
  broken_off : Store → Execution

-- The tables when the lease has been released.
abbrev pub released : Job → Worker → Store → LeaseResult (List Lease × Worker) → Execution
released job worker s (done (leases, freed)) = executed (record {
  jobs = update_rows (λ j. j.id == job.id) (λ j. job) s.jobs;
  leases = leases;
  workers = update_rows (λ w. w.id == worker.id) (λ w. freed) s.workers;
  events =
      record {
        job_id = job.id;
        event_type = finish_event job.status;
        from_status = running;
        to_status = job.status;
      }
      ∷ s.events;
})
released job worker s not_owner = rejected
released job worker s lease_expired = rejected

abbrev pub after_run : Instant → Lease → Worker → Store → Run → Execution
after_run now lease worker s refused = rejected
after_run now lease worker s (ended job) =
    released job worker s (release_lease now lease worker s.leases)
after_run now lease worker s (raised job) =
    broken_off (record s { jobs = update_rows (λ j. j.id == job.id) (λ j. job) s.jobs })

unfoldable pub execute_claimed_job :
    Bool → Instant → List Batch → Job → Lease → Worker → Store → Execution
execute_claimed_job provider_enabled now batches job lease worker s =
    if lease.job_id == job.id && lease.worker_id == worker.id
    then after_run now lease worker s (run_import_job provider_enabled now batches job)
    else rejected
