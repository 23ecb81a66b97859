-- ===== src/ImportJobs/Execution/Laws.antt =====
-- A claim and its execution (packages/market_data/operations.py, `claim_next_job`,
-- `execute_claimed_job`, and packages/market_data/ingestion.py, `run_import_job`).
use market_intelligence_lab.Prelude.{
  All-written, ◌⊎◌, ◌||◌, ℕ, ◌+◌, ◌≡◌, sym, ap, refl, inl, inr, Bool, true, false, not, Option,
  none, some, List, [], ◌∷◌, ◌==◌, ltb, if◌then◌else◌, update_rows, where_rows, exists_row, All,
  Bool-cases, Option-cases, arith,
}
use mathlib.Core.Path.{subst}
use mathlib.Core.Option.{some-injective}
use market_intelligence_lab.Moments.{Instant}
use market_intelligence_lab.ImportJobs.Rows.{Job, Lease, Worker, idle, Store}
use market_intelligence_lab.ImportJobs.Leasing.{
  candidate, claimed_job, new_lease, claim_job, claim_next_job, is_running, release_lease, done,
}
use market_intelligence_lab.ImportJobs.Running.{
  Batch, Run, refused, ended, raised, uncaught_error, stored, invalid, temporary_error,
  provider_error, value_error, after, visit, run_batches, run_import_job,
}
use market_intelligence_lab.ImportJobs.Running.Steps.{is_uncaught}
use market_intelligence_lab.ImportJobs.Execution.{
  Execution, executed, broken_off, released, after_run, execute_claimed_job,
}

-- The row has left the status "running".
abbrev HasStopped : Job → Type 0
HasStopped job = is_running job.status ≡ false

-- A run that returns has stopped the job, and one that is left by an exception has not; the row is
-- the same job's, and `breaks` tells whether a batch is broken off.
abbrev IsRun : Bool → Job → Run → Type 0
IsRun breaks job refused = ⊥
IsRun breaks job (ended x) = HasStopped x × (x.id ≡ job.id)
IsRun breaks job (raised x) = (is_running x.status ≡ true) × (x.id ≡ job.id) × (breaks ≡ true)

IsRun-more :
    (breaks more : Bool) (job : Job) (run : Run)
    → IsRun breaks job run
    → IsRun (more || breaks) job run
IsRun-more breaks more job refused r = r
IsRun-more breaks more job (ended x) r = r
IsRun-more breaks more job (raised x) (s, i, b) = (s, i, ground arith)

IsRun-visit :
    (now : Instant) (sequence : ℕ) (job : Job) (next : Job → Run) (breaks : Bool)
    → is_running job.status ≡ true
    → ((j : Job) → is_running j.status ≡ true → IsRun breaks j (next j))
    → (b : Batch) → IsRun (is_uncaught b || breaks) job (after (visit now sequence b job) next)
unfolding visit
IsRun-visit now sequence job next breaks runs rest (stored processed inserted skipped) = rest _ runs
IsRun-visit now sequence job next breaks runs rest (invalid processed symbol) = (refl, refl)
IsRun-visit now sequence job next breaks runs rest (temporary_error text hint) =
    elim (Bool-cases (ltb job.attempt job.max_attempts)) [
      | inl e ↦ rw e (refl, refl)
      | inr e ↦ rw e (refl, refl)
    ]
IsRun-visit now sequence job next breaks runs rest (provider_error text) = (refl, refl)
IsRun-visit now sequence job next breaks runs rest (value_error text) = (refl, refl)
IsRun-visit now sequence job next breaks runs rest (uncaught_error p i s) = (runs, refl, refl)

IsRun-branch :
    (breaks : Bool) (job : Job) (b : Bool) (x y : Run)
    → IsRun breaks job x
    → IsRun breaks job y
    → IsRun breaks job (if b then x else y)
IsRun-branch breaks job true x y h k = h
IsRun-branch breaks job false x y h k = k

IsRun-run_batches :
    (now : Instant) (start_index sequence : ℕ) (batches : List Batch) (job : Job)
    → is_running job.status ≡ true
    → IsRun (exists_row is_uncaught batches) job (run_batches now start_index sequence batches job)
unfolding run_batches
IsRun-run_batches now start_index sequence [] job runs = (refl, refl)
IsRun-run_batches now start_index sequence (b ∷ bs) job runs =
    elim (Bool-cases (ltb sequence start_index)) [
      | inl e ↦ rw e (
          IsRun-more (exists_row is_uncaught bs) (is_uncaught b) job _
            (IsRun-run_batches now start_index (sequence + 1) bs job runs))
      | inr e ↦ rw e (
          IsRun-branch (is_uncaught b || exists_row is_uncaught bs) job job.cancel_requested _ _
            (refl, refl)
            (IsRun-visit now sequence job (λ j. run_batches now start_index (sequence + 1) bs j)
              (exists_row is_uncaught bs) runs
              (λ j k. IsRun-run_batches now start_index (sequence + 1) bs j k) b))
    ]

-- A job that a claim made running is run, when its provider is there.
run_import_job-claimed :
    (now later : Instant) (batches : List Batch) (job : Job)
    → IsRun
        (exists_row is_uncaught batches)
        job
        (run_import_job true later batches (claimed_job now job))
unfolding run_import_job claimed_job
run_import_job-claimed now later batches job =
    IsRun-run_batches later job.symbol_index 0 batches _ refl

-- A deleted lease that was new leaves the others.
where_rows-all :
    (id : ℕ) (leases : List Lease)
    → exists_row (λ l. l.id == id) leases ≡ false
    → where_rows (λ l. not (l.id == id)) leases ≡ leases
where_rows-all id [] h = refl
where_rows-all id (l ∷ ls) h =
    let other : (l.id == id) ≡ false = ground arith in
    let rest : exists_row (λ l. l.id == id) ls ≡ false = ground arith in
    rw other (ap (λ xs. l ∷ xs) (where_rows-all id ls rest))

-- What a claim that finds a job has written.
claim_next_job-eq-some :
    (lease_id : ℕ) (now : Instant) (lease_seconds worker_id : ℕ) (s s' : Store) (claimed : Job)
    (lease : Lease)
    → claim_next_job lease_id now lease_seconds worker_id s ≡ (some (claimed, lease), s')
    → (job : Job) × (claimed ≡ claimed_job now job)
      × (lease ≡ new_lease lease_id now lease_seconds worker_id job)
      × (s' ≡ claim_job lease_id now lease_seconds worker_id job s)
unfolding claim_next_job
claim_next_job-eq-some lease_id now lease_seconds worker_id s s' claimed lease h =
    elim (Option-cases (candidate now s)) [
      | inl e ↦
          let bad : ◌≡◌ {A = Option (Job × Lease)} none (some (claimed, lease)) =
            ap (λ t. t.0) (rw e at h) in
          cc
      | inr (job, e) ↦
          let both : ◌≡◌ {A = Option (Job × Lease) × Store}
              (
                some (claimed_job now job, new_lease lease_id now lease_seconds worker_id job),
                claim_job lease_id now lease_seconds worker_id job s,
              )
              (some (claimed, lease), s') =
            (rw e at h) in
          let pair = some-injective _ _ (ap (λ t. t.0) both) in
          (job, sym (ap (λ t. t.0) pair), sym (ap (λ t. t.1) pair), sym (ap (λ t. t.1) both))
    ]

-- What an execution that returns has done.
IsExecuted : Job → Worker → List Lease → Execution → Type 0
IsExecuted claimed worker leases execution =
    (after : Store) × (execution ≡ executed after)
    × (after.leases ≡ leases)
    × All (λ j. (j.id == claimed.id) ≡ true → is_running j.status ≡ false) after.jobs
    × All (λ w. (w.id == worker.id) ≡ true → (w.status ≡ idle) × (w.current_job_id ≡ none))
        after.workers

-- What one that is left by an exception has done.
IsBroken : List Batch → Job → Store → Execution → Type 0
IsBroken batches claimed s execution =
    (after : Store) × (execution ≡ broken_off after)
    × (after.leases ≡ s.leases)
    × (after.workers ≡ s.workers)
    × All (λ j. (j.id == claimed.id) ≡ true → is_running j.status ≡ true) after.jobs
    × (exists_row is_uncaught batches ≡ true)

module _ (lease_id : ℕ) (now later : Instant) (lease_seconds : ℕ) (worker : Worker)
    (batches : List Batch) (s : Store) (job : Job) where
  abbrev lease_of : Lease
  lease_of = new_lease lease_id now lease_seconds worker.id job

  abbrev claims : Store
  claims = claim_job lease_id now lease_seconds worker.id job s

  -- The rows of the job after the run's row is written.
  rows_written :
      (P : Job → Type 0) (x : Job) (rows : List Job)
      → x.id ≡ job.id
      → P x
      → All (λ j. (j.id == job.id) ≡ true → P j) (update_rows (λ j. j.id == x.id) (λ j. x) rows)
  rows_written P x rows same h =
      subst
        (λ n. All (λ j. (j.id == n) ≡ true → P j) (update_rows (λ j. j.id == x.id) (λ j. x) rows))
        same (All-written P (λ j. j.id == x.id) (λ j. x) rows (λ j k. h))

  after_run-Run :
      (run : Run)
      → exists_row (λ l. l.id == lease_id) s.leases ≡ false
      → IsRun (exists_row is_uncaught batches) job run
      → IsExecuted
          (claimed_job now job)
          worker
          s.leases
          (after_run later lease_of worker claims run)
        ⊎ IsBroken batches (claimed_job now job) claims (after_run later lease_of worker claims run)
  unfolding IsExecuted IsBroken claimed_job new_lease claim_job release_lease
  after_run-Run refused fresh r = absurd r
  after_run-Run (raised x) fresh (runs, same, breaks) = inr (
    _,
    refl,
    refl,
    refl,
    rows_written (λ j. is_running j.status ≡ true) x claims.jobs same runs,
    breaks,
  )
  after_run-Run (ended x) fresh (stopped, same) =
      let own_worker : (worker.id == worker.id) ≡ true = ground arith in
      let own_lease : (lease_id == lease_id) ≡ true = ground arith in
      let left = where_rows (λ l. not (l.id == lease_id)) (lease_of ∷ s.leases) in
      let freed : Worker = record worker {
        current_job_id = none;
        status = idle;
        last_heartbeat_at = later;
      } in
      let release : release_lease later lease_of worker claims.leases ≡ done (left, freed) =
        rw own_worker refl in
      let unleased : left ≡ s.leases = rw own_lease (where_rows-all lease_id s.leases fresh) in
      inl (
        _,
        ap (released x worker claims) release,
        unleased,
        rows_written HasStopped x claims.jobs same stopped,
        All-written _ (λ w. w.id == worker.id) (λ w. freed) claims.workers (λ w k. (refl, refl)),
      )

  execute-claim_job :
      exists_row (λ l. l.id == lease_id) s.leases ≡ false
      → let execution =
          execute_claimed_job true later batches (claimed_job now job) lease_of worker claims in
        IsExecuted (claimed_job now job) worker s.leases execution
        ⊎ IsBroken batches (claimed_job now job) claims execution
  unfolding execute_claimed_job claimed_job new_lease
  execute-claim_job fresh =
      let own_job : (job.id == job.id) ≡ true = ground arith in
      let own_worker : (worker.id == worker.id) ≡ true = ground arith in
      rw own_job (
        rw own_worker (
          after_run-Run (run_import_job true later batches (claimed_job now job)) fresh
            (run_import_job-claimed now later batches job)))

-- A job that a worker has claimed under a new lease is executed, when its provider is there, with one
-- of two ends. It returns: the leases are again those before the claim, no row of the job is running,
-- and the worker is idle and has no job. Or one of the batches raises an exception that no clause
-- catches: then the leases and the workers are those of the claim, and each row of the job is running.
pub claim_then_execute :
    (lease_id : ℕ) (now later : Instant) (lease_seconds : ℕ) (worker : Worker)
    (batches : List Batch) (s s' : Store) (claimed : Job) (lease : Lease)
    → exists_row (λ l. l.id == lease_id) s.leases ≡ false
    → claim_next_job lease_id now lease_seconds worker.id s ≡ (some (claimed, lease), s')
    → ((after : Store) × (execute_claimed_job true later batches claimed lease worker s'
          ≡ executed after)
        × (after.leases ≡ s.leases)
        × All (λ j. (j.id == claimed.id) ≡ true → is_running j.status ≡ false) after.jobs
        × All
            (λ w. (w.id == worker.id) ≡ true → (w.status ≡ idle) × (w.current_job_id ≡ none))
            after.workers)
      ⊎ ((after : Store) × (execute_claimed_job true later batches claimed lease worker s'
            ≡ broken_off after)
          × (after.leases ≡ s'.leases)
          × (after.workers ≡ s'.workers)
          × All (λ j. (j.id == claimed.id) ≡ true → is_running j.status ≡ true) after.jobs
          × (exists_row is_uncaught batches ≡ true))
unfolding IsExecuted IsBroken
claim_then_execute lease_id now later lease_seconds worker batches s s' claimed lease fresh h =
    let (job, is_job, is_lease, is_store) =
      claim_next_job-eq-some lease_id now lease_seconds worker.id s s' claimed lease h in
    let run = execute-claim_job lease_id now later lease_seconds worker batches s job fresh in
    let Ends = λ (j : Job) (l : Lease) (t : Store).
      IsExecuted j worker s.leases (execute_claimed_job true later batches j l worker t)
      ⊎ IsBroken batches j t (execute_claimed_job true later batches j l worker t) in
    let here =
      subst (λ t. Ends (claimed_job now job) (new_lease lease_id now lease_seconds worker.id job) t)
        (sym is_store) run in
    let leased = subst (λ l. Ends (claimed_job now job) l s') (sym is_lease) here in
    subst (λ j. Ends j lease s') (sym is_job) leased
