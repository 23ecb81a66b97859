-- ===== src/ImportJobs/Tests.antt =====
-- Sample import jobs, leases, batches and records.
use market_intelligence_lab.Prelude.{
  Memᴰ, where_rows, not, ◌+◌, ◌≤◌, ◌<◌, ◌≡◌, refl, ◌≢◌, ◌↔◌, ◌⊎◌, true, false, ◌&&◌, none, some,
  List, [], ◌∷◌, arith, All, ◌==◌,
}
use market_intelligence_lab.Moments.{Instant, seconds, days}
use market_intelligence_lab.ImportJobs.Rows.{
  Job, queued, running, retrying, failed, cancelled, succeeded, dead_letter, Lease, Worker, idle,
  working, JobEvent, Store, allowed, is_claimable,
}
use market_intelligence_lab.ImportJobs.Leasing.{
  candidate, claim_job, claimed_job, claims_before, claim_next_job, is_running, new_lease,
  recover_abandoned_jobs, stop_worker,
}
use market_intelligence_lab.ImportJobs.Leasing.Recovery.{job_of}
use market_intelligence_lab.ImportJobs.Leasing.Abandoned.{
  is_abandoned, recover_abandoned_jobs_lem, stop_worker_strands,
}
use market_intelligence_lab.ImportJobs.Ownership.{IsExclusive, claim_next_job_lem}
use market_intelligence_lab.ImportJobs.Execution.{executed, broken_off, execute_claimed_job}
use market_intelligence_lab.ImportJobs.Execution.Laws.{claim_then_execute}
use market_intelligence_lab.ImportJobs.Requests.{
  is_terminal, is_restartable, accepted, refused, JobRequest, request_cancellation,
  restart_import_job, not_restartable,
}
use market_intelligence_lab.ImportJobs.Requests.Laws.{
  request_cancellation_lem, restart_import_job_lem,
}
use market_intelligence_lab.ImportJobs.Running.{
  stored, temporary_error, uncaught_error, ended, raised, run_import_job, Batch as RunBatch,
}
use market_intelligence_lab.ImportJobs.Running.Laws.{IsForward, run_import_job_lem}
use market_intelligence_lab.ImportJobs.Storing.{Bar, Batch, store_records, empty_batch, flush_bars}
use market_intelligence_lab.ImportJobs.Storing.Laws.{reimport_inserts_nothing}

abbrev request : JobRequest
request = record {
  workspace_id = some 1;
  provider_id = 3;
  mode = "full";
  start = days 1;
  end = days 9;
  max_attempts = 3;
  priority = 100;
  adjustment_preference = "adjusted";
  idempotency_key = some "k";
}

abbrev waiting : Job
waiting = record {
  id = 5;
  workspace_id = some 1;
  provider_id = 3;
  status = queued;
  cancel_requested = false;
  attempt = 0;
  max_attempts = 3;
  priority = 100;
  idempotency_key = some "k";
  requested_at = 10;
  started_at = none;
  completed_at = none;
  next_retry_at = none;
  error_summary = none;
  symbol_index = 0;
  records_processed = 0;
  records_inserted = 0;
  records_skipped = 0;
}

abbrev under_way : Job
under_way = record waiting { id = 6; status = running; attempt = 1; symbol_index = 1 }

abbrev held : Lease
held = record {
  id = 1;
  job_id = 6;
  worker_id = 2;
  acquired_at = 20;
  heartbeat_at = 20;
  expires_at = 50;
}

abbrev worker : Worker
worker = record {
  id = 2;
  status = working;
  current_job_id = some 6;
  last_heartbeat_at = 20;
  stopped_at = none;
}

abbrev sample : Store
sample = record {
  jobs = waiting ∷ under_way ∷ [];
  leases = held ∷ [];
  workers = worker ∷ [];
  events = [];
}

claim_next_job_lem_example :
    ((claim_next_job 9 30 60 2 sample ≡ (none, sample))
      × All (λ j. is_claimable (held ∷ []) 30 j ≡ true → ⊥) (waiting ∷ under_way ∷ []))
    ⊎ ((job taken : Job) × (lease : Lease) × (s' : Store) × (claim_next_job 9 30 60 2 sample
          ≡ (some (taken, lease), s'))
        × Memᴰ job (waiting ∷ under_way ∷ [])
        × (is_claimable (held ∷ []) 30 job ≡ true)
        × All
            (λ j. is_claimable (held ∷ []) 30 j ≡ true → claims_before job j ≡ true)
            (waiting ∷ under_way ∷ [])
        × (taken.id ≡ job.id)
        × Memᴰ taken s'.jobs
        × All
            (λ j.
              (j.id == job.id) ≡ true
              → (j.status ≡ running) × ((later : Instant) → is_claimable s'.leases later j ≡ false))
            s'.jobs
        × (where_rows (λ j. not (j.id == job.id)) s'.jobs
            ≡ where_rows (λ j. not (j.id == job.id)) (waiting ∷ under_way ∷ []))
        × (lease.job_id ≡ job.id)
        × (lease.worker_id ≡ 2)
        × (lease.expires_at ≡ 30 + seconds 60)
        × (s'.leases ≡ lease ∷ held ∷ [])
        × IsExclusive s'.leases
        × All
            (λ w. (w.id == 2) ≡ true → (w.status ≡ working) × (w.current_job_id ≡ some job.id))
            s'.workers)
claim_next_job_lem_example = claim_next_job_lem 9 30 60 2 sample (refl, tt)

recover_abandoned_jobs_lem_example :
    (job' : Job) × (job_of 6 (recover_abandoned_jobs 60 sample).1.jobs ≡ some job')
    × (is_abandoned 60 sample 6 && true ≡ true
        → (1 < 3 → (job'.status ≡ retrying) × (job'.next_retry_at ≡ some 60))
          × (3 ≤ 1 → job'.status ≡ dead_letter))
    × (is_abandoned 60 sample 6 && true ≡ false → job' ≡ under_way)
recover_abandoned_jobs_lem_example = recover_abandoned_jobs_lem 60 6 sample {job = under_way} refl

stop_worker_strands_example :
    let s' = (recover_abandoned_jobs 90 (stop_worker 40 2 sample)).1 in
    (job_of 6 s'.jobs ≡ some under_way)
    × ((t : Instant) → is_claimable s'.leases t under_way ≡ false)
stop_worker_strands_example = stop_worker_strands 40 90 2 6 sample refl refl (λ h. refl, tt)

abbrev retried : Job
retried = record waiting { status = retrying; attempt = 1; next_retry_at = some 40 }

request_cancellation_lem_example :
    (job' : Job) × (events' : List JobEvent) × (request_cancellation 45 retried []
      ≡ accepted (job', events'))
    × (job'.cancel_requested ≡ true)
    × (retrying ≡ queued → (job'.status ≡ cancelled) × (job'.completed_at ≡ some 45))
    × (retrying ≢ queued → (job'.status ≡ retrying) × (job'.completed_at ≡ none))
    × ((leases : List Lease) (later : Instant) → is_claimable leases later job' ≡ false)
request_cancellation_lem_example = request_cancellation_lem 45 retried [] refl

restart_import_job_lem_example :
    (is_restartable retrying ≡ true
      → (job' : Job) × (restart_import_job retried ≡ accepted job')
        × (job'.status ≡ queued)
        × (job'.cancel_requested ≡ false)
        × (job'.attempt ≡ 1)
        × ((allowed retrying job'.status ≡ true) ↔ (is_terminal retrying ≡ true)))
    × (is_restartable retrying ≡ false
        → restart_import_job retried ≡ refused (not_restartable retrying))
restart_import_job_lem_example = restart_import_job_lem retried

abbrev batches : List RunBatch
batches = stored 3 2 1 ∷ stored 4 4 0 ∷ temporary_error "slow" (some 90) ∷ []

run_import_job_lem_example :
    ((job' : Job) × (run_import_job true 80 batches under_way ≡ ended job')
      × IsForward under_way job'
      × ((job'.status ≡ succeeded)
          ⊎ ((job'.status ≡ failed) ⊎ ((job'.status ≡ cancelled) ⊎ (job'.status ≡ retrying))))
      × (job'.status ≡ retrying → job'.attempt < 3)
      × (job'.status ≡ succeeded → 3 ≤ job'.symbol_index))
    ⊎ ((job' : Job) × (run_import_job true 80 batches under_way ≡ raised job')
        × IsForward under_way job'
        × (job'.status ≡ running)
        × (false ≡ true))
run_import_job_lem_example =
    run_import_job_lem 80 batches under_way refl (refl, (refl, (tt, tt))) (omega arith)

-- A database error in the second symbol's batch breaks the run off.
broken_run :
    run_import_job true 80 (stored 3 2 1 ∷ uncaught_error 2 1 0 ∷ []) waiting
    ≡ raised (record waiting {
      status = running;
      started_at = some 80;
      attempt = 1;
      symbol_index = 1;
      records_processed = 5;
      records_inserted = 3;
      records_skipped = 1;
    })
unfolding run_import_job
broken_run = refl

abbrev monday : Bar
monday = record { interval = "1d"; event_time = days 7; checksum = "a"; close = 101 }

abbrev tuesday : Bar
tuesday = record { interval = "1d"; event_time = days 8; checksum = "b"; close = 99 }

-- The provider's later value for the stored bar.
abbrev revised : Bar
revised = record monday { checksum = "c"; close = 100 }

reimport_inserts_nothing_example :
    let again = store_records false (tuesday ∷ monday ∷ []) (revised ∷ tuesday ∷ []) empty_batch in
    (again.added ≡ []) × (again.inserted ≡ 0) × (again.skipped ≡ 2)
unfolding flush_bars store_records
reimport_inserts_nothing_example =
    reimport_inserts_nothing (monday ∷ []) (tuesday ∷ monday ∷ []) (revised ∷ tuesday ∷ []) false
      refl

abbrev new_bars : Batch
new_bars = record empty_batch { added = tuesday ∷ []; inserted = 1 }

abbrev claimed_sample : Store
claimed_sample = claim_job 9 30 60 2 waiting sample

sample_claim :
    claim_next_job 9 30 60 2 sample
    ≡ (some (claimed_job 30 waiting, new_lease 9 30 60 2 waiting), claimed_sample)
unfolding claim_next_job candidate is_claimable
sample_claim = refl

claim_then_execute_example :
    ((after : Store) × (execute_claimed_job true 80 batches
          (claimed_job 30 waiting)
          (new_lease 9 30 60 2 waiting)
          worker
          claimed_sample
        ≡ executed after)
      × (after.leases ≡ held ∷ [])
      × All
          (λ j. (j.id == (claimed_job 30 waiting).id) ≡ true → is_running j.status ≡ false)
          after.jobs
      × All (λ w. (w.id == 2) ≡ true → (w.status ≡ idle) × (w.current_job_id ≡ none)) after.workers)
    ⊎ ((after : Store) × (execute_claimed_job true 80 batches
            (claimed_job 30 waiting)
            (new_lease 9 30 60 2 waiting)
            worker
            claimed_sample
          ≡ broken_off after)
        × (after.leases ≡ claimed_sample.leases)
        × (after.workers ≡ claimed_sample.workers)
        × All
            (λ j. (j.id == (claimed_job 30 waiting).id) ≡ true → is_running j.status ≡ true)
            after.jobs
        × (false ≡ true))
claim_then_execute_example =
    claim_then_execute 9 30 80 60 worker batches sample claimed_sample (claimed_job 30 waiting)
      (new_lease 9 30 60 2 waiting) refl sample_claim
