-- ===== src/ImportJobs/Running/Steps.antt =====
-- What one batch does to the row of a run (packages/market_data/ingestion.py, `run_import_job`).
use market_intelligence_lab.Prelude.{
  ℕ, ◌+◌, ◌≤◌, ◌<◌, ◌≡◌, refl, ◌⊎◌, Bool, true, false, arith, ◌≢◌, ◌∙◌,
}
use market_intelligence_lab.Moments.{Instant}
use market_intelligence_lab.ImportJobs.Rows.{Job, retrying, failed, cancelled, succeeded}
use market_intelligence_lab.ImportJobs.Running.{
  Batch, stored, invalid, temporary_error, provider_error, value_error, uncaught_error, visit,
  go_on, stop, raise,
}

-- Every record of a stored batch was inserted or skipped, and of one that is broken off no more were
-- than it has.
abbrev pub IsCounted : Batch → Type 0
IsCounted (stored processed inserted skipped) = processed ≡ inserted + skipped
IsCounted (uncaught_error processed inserted skipped) = inserted + skipped ≤ processed
IsCounted _ = Unit

abbrev pub is_uncaught : Batch → Bool
is_uncaught (uncaught_error processed inserted skipped) = true
is_uncaught _ = false

-- What a run keeps and reaches.
pub record Ended (old job : Job) : Type 0 where
  pub settled :
      (job.status ≡ succeeded)
      ⊎ ((job.status ≡ failed) ⊎ ((job.status ≡ cancelled) ⊎ (job.status ≡ retrying)))
  pub attempted : job.attempt ≡ old.attempt
  pub retries : job.status ≡ retrying → old.attempt < old.max_attempts
  pub resumes : old.symbol_index ≤ job.symbol_index
  pub counted :
      old.records_inserted + old.records_skipped ≤ old.records_processed
      → job.records_inserted + job.records_skipped ≤ job.records_processed

-- What a run that is broken off keeps.
pub record Broken (old job : Job) : Type 0 where
  pub unsettled : job.status ≡ old.status
  pub attempted : job.attempt ≡ old.attempt
  pub resumes : old.symbol_index ≤ job.symbol_index
  pub counted :
      old.records_inserted + old.records_skipped ≤ old.records_processed
      → job.records_inserted + job.records_skipped ≤ job.records_processed

pub visit-go_on :
    (now : Instant) (sequence : ℕ) (b : Batch) (job job' : Job)
    → visit now sequence b job ≡ go_on job'
    → IsCounted b
    → (job'.attempt ≡ job.attempt)
      × (job'.max_attempts ≡ job.max_attempts)
      × (job'.status ≡ job.status)
      × (job'.symbol_index ≡ sequence + 1)
      × (job'.records_inserted + job'.records_skipped + job.records_processed
          ≡ job.records_inserted + job.records_skipped + job'.records_processed)
unfolding visit
visit-go_on now sequence b job job' h c = ground arith

pub visit-stop :
    (now : Instant) (sequence : ℕ) (b : Batch) (job job' : Job)
    → visit now sequence b job ≡ stop job'
    → Ended job job'
unfolding visit
visit-stop now sequence (stored p i s) job job' h = cc
visit-stop now sequence (invalid p symbol) job job' h = ground arith
visit-stop now sequence (temporary_error text hint) job job' h = ground arith
visit-stop now sequence (provider_error text) job job' h = ground arith
visit-stop now sequence (value_error text) job job' h = ground arith
visit-stop now sequence (uncaught_error p i s) job job' h = cc

pub Ended-go_on :
    (job job' last : Job)
    → (job'.attempt ≡ job.attempt)
      × (job'.max_attempts ≡ job.max_attempts)
      × (job'.status ≡ job.status)
      × (job.symbol_index ≤ job'.symbol_index)
      × (job'.records_inserted + job'.records_skipped + job.records_processed
          ≡ job.records_inserted + job.records_skipped + job'.records_processed)
    → Ended job' last
    → Ended job last
Ended-go_on job job' last (a, m, st, i, c) e = record {
  settled = e.settled;
  attempted = e.attempted ∙ a;
  retries = λ r. ground (arith, e.retries r);
  resumes = omega (arith, e.resumes);
  counted = λ h. e.counted (omega arith);
}

pub Broken-go_on :
    (job job' last : Job)
    → (job'.attempt ≡ job.attempt)
      × (job'.max_attempts ≡ job.max_attempts)
      × (job'.status ≡ job.status)
      × (job.symbol_index ≤ job'.symbol_index)
      × (job'.records_inserted + job'.records_skipped + job.records_processed
          ≡ job.records_inserted + job.records_skipped + job'.records_processed)
    → Broken job' last
    → Broken job last
Broken-go_on job job' last (a, m, st, i, c) e = record {
  unsettled = e.unsettled ∙ st;
  attempted = e.attempted ∙ a;
  resumes = omega (arith, e.resumes);
  counted = λ h. e.counted (omega arith);
}

pub visit-raise :
    (now : Instant) (sequence : ℕ) (b : Batch) (job job' : Job)
    → visit now sequence b job ≡ raise job'
    → IsCounted b
    → Broken job job' × (is_uncaught b ≡ true)
unfolding visit
visit-raise now sequence (stored p i s) job job' h c = cc
visit-raise now sequence (invalid p symbol) job job' h c = cc
visit-raise now sequence (temporary_error text hint) job job' h c = cc
visit-raise now sequence (provider_error text) job job' h c = cc
visit-raise now sequence (value_error text) job job' h c = cc
visit-raise now sequence (uncaught_error p i s) job job' h c = (ground arith, refl)

pub visit-stop_status :
    (now : Instant) (sequence : ℕ) (b : Batch) (job job' : Job)
    → visit now sequence b job ≡ stop job'
    → job'.status ≢ succeeded
unfolding visit
visit-stop_status now sequence (stored p i s) job job' h e = cc
visit-stop_status now sequence (invalid p symbol) job job' h e = ground arith
visit-stop_status now sequence (temporary_error text hint) job job' h e = ground arith
visit-stop_status now sequence (provider_error text) job job' h e = ground arith
visit-stop_status now sequence (value_error text) job job' h e = ground arith
visit-stop_status now sequence (uncaught_error p i s) job job' h e = cc
