-- ===== src/ImportJobs/Running/Laws.antt =====
-- How a run of an import job ends.
use market_intelligence_lab.Prelude.{
  ℕ, suc, ◌+◌, ◌≤◌, ◌<◌, ◌≡◌, refl, ◌⊎◌, inl, inr, Bool, true, false, some, List, [], ◌∷◌, arith,
  ltb, max, if◌then◌else◌, or_else, length, Bool-cases, All, ◌||◌, exists_row,
}
use mathlib.Core.Path.{subst}
use market_intelligence_lab.Moments.{Instant}
use market_intelligence_lab.ImportJobs.Rows.{Job, running, retrying, failed, cancelled, succeeded}
use market_intelligence_lab.ImportJobs.Running.{
  Batch, visit, run_batches, run_import_job, is_runnable, Turn, go_on, stop, raise, Run, refused,
  ended, raised, after, close,
}
use market_intelligence_lab.ImportJobs.Running.Steps.{
  IsCounted, is_uncaught, Ended, Broken, visit-go_on, visit-stop, Ended-go_on, Broken-go_on,
  visit-raise, visit-stop_status,
}

module _ (now : Instant) (start : ℕ) where
  -- How the loop ends when `total` symbols have been reached; `breaks` tells whether a batch is broken
  -- off.
  abbrev Outcome : ℕ → Bool → Job → Run → Type 0
  Outcome total breaks job refused = ⊥
  Outcome total breaks job (ended last) =
      Ended job last × (last.status ≡ succeeded → last.symbol_index ≡ max start total)
  Outcome total breaks job (raised last) = Broken job last × (breaks ≡ true)

  Outcome-go_on :
      (total : ℕ) (breaks more : Bool) (job j : Job) (run : Run)
      → (j.attempt ≡ job.attempt)
        × (j.max_attempts ≡ job.max_attempts)
        × (j.status ≡ job.status)
        × (job.symbol_index ≤ j.symbol_index)
        × (j.records_inserted + j.records_skipped + job.records_processed
            ≡ job.records_inserted + job.records_skipped + j.records_processed)
      → Outcome total breaks j run
      → Outcome total (more || breaks) job run
  Outcome-go_on total breaks more job j refused same o = o
  Outcome-go_on total breaks more job j (ended last) same o = (Ended-go_on job j last same o.0, o.1)
  Outcome-go_on total breaks more job j (raised last) same o =
      (let k = o.1 in (Broken-go_on job j last same o.0, ground arith))

  body-Outcome :
      (n sequence : ℕ) (b : Batch) (breaks : Bool) (job : Job) (rest : Job → Run) (cancels : Bool)
      (t : Turn)
      → visit now sequence b job ≡ t
      → IsCounted b
      → start ≤ sequence
      → job.symbol_index ≡ max start sequence
      → ((j : Job)
          → j.symbol_index ≡ max start (sequence + 1)
          → Outcome (sequence + 1 + n) breaks j (rest j))
      → Outcome
          (sequence + suc n)
          (is_uncaught b || breaks)
          job
          (if cancels then ended (close now (record job { status = cancelled })) else after t rest)
  body-Outcome n sequence b breaks job rest true t e c h k ih = (
    record {
      settled = inr (inr (inl refl));
      attempted = refl;
      retries = λ r. cc;
      resumes = omega arith;
      counted = λ k. k;
    },
    λ s. cc,
  )
  body-Outcome n sequence b breaks job rest false (stop j) e c h k ih =
      (visit-stop now sequence b job j e, λ s. absurd (visit-stop_status now sequence b job j e s))
  body-Outcome n sequence b breaks job rest false (raise j) e c h k ih =
      let (broken, here) = visit-raise now sequence b job j e c in (broken, ground arith)
  body-Outcome n sequence b breaks job rest false (go_on j) e c h k ih =
      let (a, m, st, i, r) = visit-go_on now sequence b job j e c in
      let total : sequence + 1 + n ≡ sequence + suc n = omega arith in
      subst (λ x. Outcome x (is_uncaught b || breaks) job (rest j)) total
        (Outcome-go_on (sequence + 1 + n) breaks (is_uncaught b) job j (rest j)
          (a, m, st, omega arith, r) (ih j (omega arith)))

  run_batches-Outcome :
      (bs : List Batch) (sequence : ℕ) (job : Job)
      → All IsCounted bs
      → job.symbol_index ≡ max start sequence
      → Outcome
          (sequence + length bs)
          (exists_row is_uncaught bs)
          job
          (run_batches now start sequence bs job)
  unfolding run_batches
  run_batches-Outcome [] sequence job c h = (
    record {
      settled = inl refl;
      attempted = refl;
      retries = λ r. cc;
      resumes = omega arith;
      counted = λ k. k;
    },
    λ e. omega arith,
  )
  run_batches-Outcome (b ∷ bs) sequence job c h = elim (Bool-cases (ltb sequence start)) [
    | inl before ↦
        let later = run_batches-Outcome bs (sequence + 1) job c.1 (ground arith) in
        let total : sequence + 1 + length bs ≡ sequence + suc (length bs) = omega arith in
        rw before (
          subst
            (λ x.
              Outcome x (is_uncaught b || exists_row is_uncaught bs) job
                (run_batches now start (sequence + 1) bs job))
            total
            (Outcome-go_on _ (exists_row is_uncaught bs) (is_uncaught b) job job _
              (refl, refl, refl, omega arith, refl) later))
    | inr reached ↦ rw reached (
        body-Outcome (length bs) sequence b (exists_row is_uncaught bs) job
          (λ j. run_batches now start (sequence + 1) bs j) job.cancel_requested
          (visit now sequence b job) refl c.0 (ground arith) h
          (λ j k. run_batches-Outcome bs (sequence + 1) j c.1 k))
  ]

-- The job as its run begins.
abbrev begun : Instant → Job → Job
begun now job = record job {
  status = running;
  started_at = some (or_else job.started_at now);
  attempt = job.attempt + 1;
}

-- What is known of a run's row whether it returned or not.
abbrev pub IsForward : Job → Job → Type 0
IsForward job job' =
    (job'.attempt ≡ job.attempt + 1)
    × (job.symbol_index ≤ job'.symbol_index)
    × (job'.records_inserted + job'.records_skipped ≤ job'.records_processed)

run_import_job-Outcome :
    (now : Instant) (start total : ℕ) (breaks : Bool) (job : Job) (run : Run)
    → start ≡ job.symbol_index
    → job.records_inserted + job.records_skipped ≤ job.records_processed
    → Outcome now start total breaks (begun now job) run
    → ((job' : Job) × (run ≡ ended job')
        × IsForward job job'
        × ((job'.status ≡ succeeded)
            ⊎ ((job'.status ≡ failed) ⊎ ((job'.status ≡ cancelled) ⊎ (job'.status ≡ retrying))))
        × (job'.status ≡ retrying → job'.attempt < job.max_attempts)
        × (job'.status ≡ succeeded → total ≤ job'.symbol_index))
      ⊎ ((job' : Job) × (run ≡ raised job')
          × IsForward job job'
          × (job'.status ≡ running)
          × (breaks ≡ true))
run_import_job-Outcome now start total breaks job refused h within o = absurd o
run_import_job-Outcome now start total breaks job (ended last) h within (e, all) = inl (
  last,
  refl,
  (e.attempted, e.resumes, e.counted within),
  e.settled,
  λ r. omega (arith, e.attempted, e.retries r),
  λ s. omega (arith, all s),
)
run_import_job-Outcome now start total breaks job (raised last) h within (e, broke) =
    inr (last, refl, (e.attempted, e.resumes, e.counted within), e.unsettled, broke)

-- A run that begins, its batches counted right and its stored and skipped records within those
-- processed, is one attempt more and never loses ground: the index of the next symbol does not fall,
-- and the stored and skipped records are still within those processed. It returns succeeded, failed,
-- cancelled or waiting for a retry; it waits only while attempts are left, and when it succeeds the
-- index has passed every symbol. Only an exception in one of the batches that no clause catches can
-- break it off instead, and then the job's row is left running.
pub run_import_job_lem :
    (now : Instant) (batches : List Batch) (job : Job)
    → is_runnable job.status ≡ true
    → All IsCounted batches
    → job.records_inserted + job.records_skipped ≤ job.records_processed
    → ((job' : Job) × (run_import_job true now batches job ≡ ended job')
        × IsForward job job'
        × ((job'.status ≡ succeeded)
            ⊎ ((job'.status ≡ failed) ⊎ ((job'.status ≡ cancelled) ⊎ (job'.status ≡ retrying))))
        × (job'.status ≡ retrying → job'.attempt < job.max_attempts)
        × (job'.status ≡ succeeded → length batches ≤ job'.symbol_index))
      ⊎ ((job' : Job) × (run_import_job true now batches job ≡ raised job')
          × IsForward job job'
          × (job'.status ≡ running)
          × (exists_row is_uncaught batches ≡ true))
unfolding run_import_job
run_import_job_lem now batches job h c within =
    let total : 0 + length batches ≡ length batches = omega arith in
    rw h (
      run_import_job-Outcome now job.symbol_index (length batches) (exists_row is_uncaught batches)
        job (run_batches now job.symbol_index 0 batches (begun now job)) refl within
        (subst
          (λ n.
            Outcome now job.symbol_index n (exists_row is_uncaught batches) (begun now job)
              (run_batches now job.symbol_index 0 batches (begun now job)))
          total
          (run_batches-Outcome now job.symbol_index batches 0 (begun now job) c (omega arith))))
