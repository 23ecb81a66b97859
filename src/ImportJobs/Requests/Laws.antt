-- ===== src/ImportJobs/Requests/Laws.antt =====
-- What requests on import jobs promise, and where they leave a job that no worker will take.
use market_intelligence_lab.Prelude.{
  ℕ, ◌≤◌, ◌<◌, ◌≡◌, refl, ◌⊎◌, ◌↔◌, inl, inr, true, false, none, some, List, ◌∷◌, arith, find,
  Option-cases, ◌≢◌,
}
use market_intelligence_lab.Moments.{Instant}
use market_intelligence_lab.ImportJobs.Rows.{
  Job, queued, cancelled, JobEvent, Lease, allowed, is_claimable,
}
use market_intelligence_lab.ImportJobs.Requests.{
  is_terminal, is_restartable, accepted, refused, JobRequest, validate_request, new_job,
  key_matches, create_import_job, request_cancellation, restart_import_job, not_restartable,
  cancel_queued, cancellation_event, RequestError,
}

validated :
    (r : JobRequest)
    → validate_request r ≡ none
    → (r.start < r.end) × (1 ≤ r.max_attempts) × (r.max_attempts ≤ 10) × (r.priority ≤ 1000)
unfolding validate_request
validated r h = ground arith

-- A request that fails a check is refused for the first check that it fails. Any other is accepted:
-- it is in bounds, and its job is the one that already has its key, with no row added, or without
-- such a job a new one, queued and unattempted, in a new row.
pub create_import_job_lem :
    (id : ℕ) (now : Instant) (r : JobRequest) (jobs : List Job)
    → ((e : RequestError)
        → validate_request r ≡ some e
        → create_import_job id now r jobs ≡ refused e)
      × (validate_request r ≡ none
          → (r.start < r.end)
            × (1 ≤ r.max_attempts)
            × (r.max_attempts ≤ 10)
            × (r.priority ≤ 1000)
            × ((job : Job) × (jobs' : List Job) × (create_import_job id now r jobs
                  ≡ accepted (job, jobs'))
                × (((find (λ j. key_matches r.idempotency_key j.idempotency_key) jobs ≡ some job)
                      × (jobs' ≡ jobs))
                    ⊎ ((find (λ j. key_matches r.idempotency_key j.idempotency_key) jobs ≡ none)
                        × (jobs' ≡ job ∷ jobs)
                        × (job.status ≡ queued)
                        × (job.attempt ≡ 0)))))
unfolding create_import_job new_job
create_import_job_lem id now r jobs = (
  λ e bad. rw bad,
  λ good.
      let (order, low, high, top) = validated r good in
      (
        order,
        low,
        high,
        top,
        elim (Option-cases (find (λ j. key_matches r.idempotency_key j.idempotency_key) jobs)) [
          | inr (old, found) ↦ (old, jobs, rw (good, found), inl (found, refl))
          | inl fresh ↦ (
            new_job id now r,
            new_job id now r ∷ jobs,
            rw (good, fresh),
            inr (fresh, refl, refl, refl),
          )
        ],
      ),
)

-- Cancelling a job that has not ended marks it. If it was queued it ends cancelled now; if not it keeps
-- its status and its time of completion. In each case no claim takes it at any later time, whatever
-- leases there are.
pub request_cancellation_lem :
    (now : Instant) (job : Job) (events : List JobEvent)
    → is_terminal job.status ≡ false
    → (job' : Job) × (events' : List JobEvent) × (request_cancellation now job events
        ≡ accepted (job', events'))
      × (job'.cancel_requested ≡ true)
      × (job.status ≡ queued → (job'.status ≡ cancelled) × (job'.completed_at ≡ some now))
      × (job.status ≢ queued → (job'.status ≡ job.status) × (job'.completed_at ≡ job.completed_at))
      × ((leases : List Lease) (later : Instant) → is_claimable leases later job' ≡ false)
unfolding request_cancellation is_claimable
request_cancellation_lem now job events h =
    let job' = cancel_queued now (record job { cancel_requested = true }) in
    (
      job',
      cancellation_event job.status job' ∷ events,
      rw h,
      ground arith,
      λ q. ground arith,
      λ q. ground arith,
      λ leases later. ground arith,
    )

-- A restart clears the mark and queues the job again; the table of transitions allows that step of a
-- failed or cancelled job, and not of a retrying or interrupted one.
pub restart_import_job_lem :
    (job : Job)
    → (is_restartable job.status ≡ true
        → (job' : Job) × (restart_import_job job ≡ accepted job')
          × (job'.status ≡ queued)
          × (job'.cancel_requested ≡ false)
          × (job'.attempt ≡ job.attempt)
          × ((allowed job.status job'.status ≡ true) ↔ (is_terminal job.status ≡ true)))
      × (is_restartable job.status ≡ false
          → restart_import_job job ≡ refused (not_restartable job.status))
unfolding restart_import_job
restart_import_job_lem job = (
  λ h. (
    record job {
      status = queued;
      cancel_requested = false;
      completed_at = none;
      next_retry_at = none;
      error_summary = none;
    },
    rw h,
    refl,
    refl,
    refl,
    ground arith,
  ),
  λ h. rw h,
)
