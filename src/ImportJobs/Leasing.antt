-- ===== src/ImportJobs/Leasing.antt =====
-- Claiming, renewing, releasing and recovering leases (packages/market_data/operations.py:
-- `heartbeat_worker`, `claim_next_job`, `renew_lease`, `release_lease`, `recover_abandoned_jobs`,
-- `stop_worker`).
pub mod Recovery
pub mod Abandoned
use Prim.Native.String.{String}
use market_intelligence_lab.Prelude.{
  ℕ, ◌+◌, Bool, true, false, ◌&&◌, ◌||◌, not, Option, none, some, List, [], ◌∷◌, ltb, leb, ◌==◌,
  length, if◌then◌else◌, exists_row, where_rows, update_rows, least, find, or_else, ◌++◌,
}
use market_intelligence_lab.Moments.{Instant, seconds}
use market_intelligence_lab.ImportJobs.Rows.{
  Job, JobStatus, queued, running, retrying, interrupted, failed, dead_letter, Lease, Worker,
  WorkerStatus, starting, idle, working, unavailable, stopped, JobEvent, Store, is_claimable,
}

-- `ORDER BY priority, requested_at, id`
abbrev pub claims_before : Job → Job → Bool
claims_before a b =
    ltb a.priority b.priority
    || (a.priority == b.priority
        && (ltb a.requested_at b.requested_at
            || (a.requested_at == b.requested_at && leb a.id b.id)))

unfoldable pub candidate : Instant → Store → Option Job
candidate now s = least claims_before (where_rows (is_claimable s.leases now) s.jobs)

unfoldable pub heartbeat_worker : Instant → Worker → Worker
heartbeat_worker now w =
    let beaten = record w { last_heartbeat_at = now } in
    elim w.status [ starting ↦ record beaten { status = idle } | _ ↦ beaten ]

-- What the claim writes to the job, the lease and the worker.
unfoldable pub claimed_job : Instant → Job → Job
claimed_job now job = record job {
  status = running;
  started_at = some (or_else job.started_at now);
}

unfoldable pub new_lease : ℕ → Instant → ℕ → ℕ → Job → Lease
new_lease lease_id now lease_seconds worker_id job = record {
  id = lease_id;
  job_id = job.id;
  worker_id = worker_id;
  acquired_at = now;
  heartbeat_at = now;
  expires_at = now + seconds lease_seconds;
}

unfoldable pub claim_job : ℕ → Instant → ℕ → ℕ → Job → Store → Store
unfolding claimed_job new_lease
claim_job lease_id now lease_seconds worker_id job s = record {
  jobs = update_rows (λ j. j.id == job.id) (claimed_job now) s.jobs;
  leases = new_lease lease_id now lease_seconds worker_id job ∷ s.leases;
  workers =
      update_rows (λ w. w.id == worker_id)
        (λ w. record w { status = working; current_job_id = some job.id; last_heartbeat_at = now })
        s.workers;
  events =
      record {
        job_id = job.id;
        event_type = "claimed";
        from_status = job.status;
        to_status = running;
      }
      ∷ s.events;
}

abbrev pub claim_found : ℕ → Instant → ℕ → ℕ → Store → Option Job → Option (Job × Lease) × Store
claim_found lease_id now lease_seconds worker_id s none = (none, s)
claim_found lease_id now lease_seconds worker_id s (some job) = (
  some (claimed_job now job, new_lease lease_id now lease_seconds worker_id job),
  claim_job lease_id now lease_seconds worker_id job s,
)

unfoldable pub claim_next_job : ℕ → Instant → ℕ → ℕ → Store → Option (Job × Lease) × Store
unfolding candidate
claim_next_job lease_id now lease_seconds worker_id s =
    claim_found lease_id now lease_seconds worker_id s (candidate now s)

pub data LeaseResult (A : Type 0) : Type 0 where
  done : A → LeaseResult A
  not_owner : LeaseResult A
  lease_expired : LeaseResult A

unfoldable pub renew_lease : Instant → ℕ → Lease → Worker → LeaseResult (Lease × Worker)
renew_lease now lease_seconds lease w =
    if lease.worker_id == w.id
    then (if leb lease.expires_at now
        then lease_expired
        else done (
          record lease { heartbeat_at = now; expires_at = now + seconds lease_seconds },
          record w { last_heartbeat_at = now },
        ))
    else not_owner

unfoldable pub release_lease :
    Instant → Lease → Worker → List Lease → LeaseResult (List Lease × Worker)
release_lease now lease w leases =
    if lease.worker_id == w.id
    then done (
      where_rows (λ l. not (l.id == lease.id)) leases,
      record w { current_job_id = none; status = idle; last_heartbeat_at = now },
    )
    else not_owner

-- What a recovery makes of a job that was running: it is tried again, or it is given up.
unfoldable pub recovery_target : Job → JobStatus
recovery_target job = if ltb job.attempt job.max_attempts then retrying else dead_letter

unfoldable pub recovered_job : Instant → Job → Job
unfolding recovery_target
recovered_job now job = record job {
  status = recovery_target job;
  next_retry_at = if ltb job.attempt job.max_attempts then some now else none;
  error_summary = some "Worker lease expired; job recovered";
}

abbrev pub is_running : JobStatus → Bool
is_running running = true
is_running _ = false

-- The event and the job's id, where the job was running.
abbrev pub recovery_event : Job → JobEvent
recovery_event job = record {
  job_id = job.id;
  event_type = "lease_expired";
  from_status = running;
  to_status = recovery_target job;
}

abbrev pub has_job : Option ℕ → ℕ → Bool
has_job none job = false
has_job (some current) job = current == job

recover_worker : Lease → Worker → Worker
recover_worker lease w =
    if w.id == lease.worker_id && has_job w.current_job_id lease.job_id
    then record w { status = unavailable; current_job_id = none }
    else w

-- One candidate: the lease is deleted, a running job is recovered, and its worker marked.
recover_job : Instant → Lease → Option Job → Store → List ℕ × Store
recover_job now lease none s = ([], s)
recover_job now lease (some job) s =
    let s' = record s {
      jobs =
          if is_running job.status
          then update_rows (λ j. j.id == job.id) (recovered_job now) s.jobs
          else s.jobs;
      leases = where_rows (λ l. not (l.id == lease.id)) s.leases;
      workers = update_rows (λ w. true) (recover_worker lease) s.workers;
      events = if is_running job.status then recovery_event job ∷ s.events else s.events;
    } in
    (if is_running job.status then job.id ∷ [] else [], s')

recover_leases : Instant → List Lease → Store → List ℕ × Store
unfolding recover_job recover_worker
recover_leases now [] s = ([], s)
recover_leases now (lease ∷ leases) s =
    let (first, s') = recover_job now lease (find (λ j. j.id == lease.job_id) s.jobs) s in
    let (rest, s'') = recover_leases now leases s' in (first ++ rest, s'')

unfoldable pub recover_abandoned_jobs : Instant → Store → List ℕ × Store
unfolding recover_leases
recover_abandoned_jobs now s =
    recover_leases now (where_rows (λ l. leb l.expires_at now) s.leases) s

unfoldable pub stop_worker : Instant → ℕ → Store → Store
stop_worker now worker_id s = record s {
  workers =
      update_rows (λ w. w.id == worker_id)
        (λ w. record w { status = stopped; stopped_at = some now; current_job_id = none })
        s.workers;
  leases = where_rows (λ l. not (l.worker_id == worker_id)) s.leases;
}
