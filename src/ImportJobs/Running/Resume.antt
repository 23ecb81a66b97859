-- ===== src/ImportJobs/Running/Resume.antt =====
-- A later run goes on where an earlier one stopped (packages/market_data/ingestion.py,
-- `run_import_job`).
use market_intelligence_lab.Prelude.{
  ℕ, suc, zero, ◌+◌, ◌≡◌, ◌∙◌, refl, ap, sym, Bool, some, List, [], ◌∷◌, arith, or_else, drop,
  lt→ltb,
}
use market_intelligence_lab.Moments.{Instant}
use market_intelligence_lab.ImportJobs.Rows.{Job, running}
use market_intelligence_lab.ImportJobs.Running.{Batch, run_batches, run_import_job}

module _ (now : Instant) (start : ℕ) where
  -- Batches before the start are passed over unread.
  run_batches-drop :
      (k : ℕ) (bs : List Batch) (sequence : ℕ) (job : Job)
      → sequence + k ≡ start
      → run_batches now start sequence bs job ≡ run_batches now start start (drop k bs) job
  unfolding run_batches
  run_batches-drop zero bs sequence job h = let here : sequence ≡ start = omega arith in rw here
  run_batches-drop (suc k) [] sequence job h = refl
  run_batches-drop (suc k) (b ∷ bs) sequence job h =
      rw (lt→ltb sequence start (omega arith))
        (run_batches-drop k bs (sequence + 1) job (omega arith))

-- A run resumes: what the provider would give for the symbols that earlier runs have passed makes no
-- difference to it.
pub run_import_job_resumes :
    (provider_enabled : Bool) (now : Instant) (bs cs : List Batch) (job : Job)
    → drop job.symbol_index bs ≡ drop job.symbol_index cs
    → run_import_job provider_enabled now bs job ≡ run_import_job provider_enabled now cs job
unfolding run_import_job
run_import_job_resumes enabled now bs cs job same =
    let begun = record job {
      status = running;
      started_at = some (or_else job.started_at now);
      attempt = job.attempt + 1;
    } in
    let start = job.symbol_index in
    let agree =
      run_batches-drop now start start bs 0 begun (omega arith)
      ∙ ap (λ l. run_batches now start start l begun) same
      ∙ sym (run_batches-drop now start start cs 0 begun (omega arith)) in
    rw agree
