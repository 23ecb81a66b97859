-- ===== src/ImportJobs/Leasing/Recovery.antt =====
-- What the recovery of abandoned jobs leaves behind, and what a stopped worker does.
use market_intelligence_lab.Prelude.{
  ℕ, ◌≡◌, refl, inl, inr, Bool, true, false, ◌&&◌, not, Option, none, some, List, [], ◌∷◌, arith,
  leb, ◌==◌, exists_row, where_rows, find, is_some, All, Bool-cases, All-where_rows,
  All-where_rows_of, All-zip, All-always, exists-where_rows, All-map, is_some-find-update_rows,
}
use market_intelligence_lab.Moments.{Instant}
use market_intelligence_lab.ImportJobs.Rows.{Job, Lease, Store}
use market_intelligence_lab.ImportJobs.Leasing.{
  recover_job, recover_leases, recover_abandoned_jobs, recovered_job, is_running,
}

abbrev pub job_of : ℕ → List Job → Option Job
job_of id jobs = find (λ j. j.id == id) jobs

module _ (now : Instant) where
  -- A recovery only deletes leases.
  recover_job-All :
      (P : Lease → Type 0) (lease : Lease) (o : Option Job) (s : Store)
      → All P s.leases
      → All P (recover_job now lease o s).1.leases
  unfolding recover_job
  recover_job-All P lease none s h = h
  recover_job-All P lease (some job) s h =
      All-where_rows_of P (λ l. not (l.id == lease.id)) s.leases h

  recover_leases-All :
      (P : Lease → Type 0) (ls : List Lease) (s : Store)
      → All P s.leases
      → All P (recover_leases now ls s).1.leases
  unfolding recover_leases
  recover_leases-All P [] s h = h
  recover_leases-All P (l ∷ ls) s h =
      let o = job_of l.job_id s.jobs in
      recover_leases-All P ls (recover_job now l o s).1 (recover_job-All P l o s h)

  -- It keeps every job's row.
  job_of-recover_job :
      (id : ℕ) (lease : Lease) (o : Option Job) (s : Store)
      → is_some (job_of id (recover_job now lease o s).1.jobs) ≡ is_some (job_of id s.jobs)
  unfolding recover_job recovered_job
  job_of-recover_job id lease none s = refl
  job_of-recover_job id lease (some job) s = elim (Bool-cases (is_running job.status)) [
    | inr e ↦ rw e
    | inl e ↦ rw e (
        is_some-find-update_rows (λ j. j.id == id) (λ j. j.id == job.id) (recovered_job now) s.jobs
          (λ j. refl))
  ]

  -- A lease of the list whose job exists, and which the recovery therefore deletes.
  abbrev cleared : List Lease → List Job → Lease → Bool
  cleared ls jobs r = exists_row (λ l. l.id == r.id && is_some (job_of l.job_id jobs)) ls

  cleared-recover_job :
      (ls : List Lease) (lease : Lease) (o : Option Job) (s : Store) (r : Lease)
      → cleared ls (recover_job now lease o s).1.jobs r ≡ cleared ls s.jobs r
  cleared-recover_job [] lease o s r = refl
  cleared-recover_job (l ∷ ls) lease o s r =
      rw (job_of-recover_job l.job_id lease o s, cleared-recover_job ls lease o s r)

  deleted :
      (l : Lease) (job : Job) (s : Store)
      → All (λ r. (l.id == r.id) ≡ false) (recover_job now l (some job) s).1.leases
  unfolding recover_job
  deleted l job s =
      All-map _ _ (λ r kept. ground arith) (where_rows (λ r. not (r.id == l.id)) s.leases)
        (All-where_rows (λ r. not (r.id == l.id)) s.leases)

  head_cleared :
      (l : Lease) (o : Option Job) (s : Store)
      → All (λ r. l.id == r.id && is_some o ≡ false) (recover_job now l o s).1.leases
  head_cleared l none s = All-always _ (λ r. ground arith) _
  head_cleared l (some job) s = All-map _ _ (λ r h. rw h) _ (deleted l job s)

  recover_leases-cleared :
      (ls : List Lease) (s : Store)
      → All (λ r. cleared ls s.jobs r ≡ false) (recover_leases now ls s).1.leases
  unfolding recover_leases
  recover_leases-cleared [] s = All-always _ (λ r. refl) s.leases
  recover_leases-cleared (l ∷ ls) s =
      let o = job_of l.job_id s.jobs in
      let s' = (recover_job now l o s).1 in
      let kept = (recover_leases now ls s').1.leases in
      All-map _ _ (λ r (h, k). rw (h, ← cleared-recover_job ls l o s r) k) kept
        (All-zip _ _ kept
          (recover_leases-All (λ r. l.id == r.id && is_some o ≡ false) ls s' (head_cleared l o s))
          (recover_leases-cleared ls s'))

  -- After a recovery every lease that had expired by then is gone, unless its job does not exist.
  pub recover_abandoned_jobs_clears :
      (s : Store)
      → All
          (λ r. leb r.expires_at now ≡ true → is_some (job_of r.job_id s.jobs) ≡ false)
          (recover_abandoned_jobs now s).1.leases
  unfolding recover_abandoned_jobs
  recover_abandoned_jobs_clears s =
      let expired = where_rows (λ (l : Lease). leb l.expires_at now) s.leases in
      let kept = (recover_leases now expired s).1.leases in
      All-map _ _
        (λ r (listed, free) late. elim (Bool-cases (is_some (job_of r.job_id s.jobs))) [
          | inr missing ↦ missing
          | inl known ↦
              let again =
                listed late (λ l. l.id == r.id && is_some (job_of l.job_id s.jobs))
                  (rw known (ground arith)) in
              cc
        ])
        kept
        (All-zip _ _ kept
          (recover_leases-All _ expired s (exists-where_rows (λ l. leb l.expires_at now) s.leases))
          (recover_leases-cleared expired s))
