-- ===== src/ImportJobs/Ownership.antt =====
-- Who holds a job: what a claim (packages/market_data/operations.py, `claim_next_job`) finds and
-- writes.
use market_intelligence_lab.Prelude.{
  ℕ, ◌+◌, ◌≡◌, refl, ◌⊎◌, inl, inr, true, false, none, some, List, [], ◌∷◌, arith, All, Bool-cases,
  least_where, least-Memᴰ, Memᴰ, Memᴰ-written, All-written, where_rows, where_rows-update_rows, not,
  ◌==◌,
}
use market_intelligence_lab.Moments.{Instant, seconds}
use market_intelligence_lab.ImportJobs.Rows.{
  Job, running, working, Lease, Store, is_leased, is_claimable,
}
use market_intelligence_lab.ImportJobs.Leasing.{
  claims_before, candidate, claimed_job, new_lease, claim_job, claim_next_job,
}

-- No job has two leases.
abbrev pub IsExclusive : List Lease → Type 0
IsExclusive [] = Unit
IsExclusive (l ∷ ls) = (is_leased ls l.job_id ≡ false) × IsExclusive ls

claims_before_total : (a b : Job) → (claims_before a b ≡ true) ⊎ (claims_before b a ≡ true)
claims_before_total a b = ground arith

claims_before_trans :
    (a b c : Job) → claims_before a b ≡ true → claims_before b c ≡ true → claims_before a c ≡ true
claims_before_trans a b c h k = ground arith

-- The query finds a claimable job that no claimable job comes before, or there is none.
candidate_lem :
    (now : Instant) (s : Store)
    → ((candidate now s ≡ none) × All (λ j. is_claimable s.leases now j ≡ true → ⊥) s.jobs)
      ⊎ ((job : Job) × (candidate now s ≡ some job)
          × (is_claimable s.leases now job ≡ true)
          × All (λ j. is_claimable s.leases now j ≡ true → claims_before job j ≡ true) s.jobs)
unfolding candidate
candidate_lem now s =
    least_where claims_before claims_before_total claims_before_trans (is_claimable s.leases now)
      s.jobs

not_leased_of_claimable :
    (leases : List Lease) (now : Instant) (job : Job)
    → is_claimable leases now job ≡ true
    → is_leased leases job.id ≡ false
unfolding is_claimable
not_leased_of_claimable leases now job h = elim (Bool-cases (is_leased leases job.id)) [
  | inl e ↦ ground arith
  | inr e ↦ e
]

not_leased_claimable :
    (leases : List Lease) (now : Instant) (job : Job)
    → is_leased leases job.id ≡ true
    → is_claimable leases now job ≡ false
unfolding is_claimable
not_leased_claimable leases now job h = ground arith

-- Where no job has two leases, a claim finds a stored job that is ready, not cancelled and unleased,
-- the first by priority, request time and id. Its stored row becomes running, as do all rows with its
-- id, and the other jobs are left as they are; a new lease of the worker on it is stored before the
-- others, no job gets a second one, and no claim can take a row of the job from then on; the worker is
-- working on it. Without such a job nothing changes.
pub claim_next_job_lem :
    (lease_id : ℕ) (now : Instant) (lease_seconds worker_id : ℕ) (s : Store)
    → IsExclusive s.leases
    → ((claim_next_job lease_id now lease_seconds worker_id s ≡ (none, s))
        × All (λ j. is_claimable s.leases now j ≡ true → ⊥) s.jobs)
      ⊎ ((job claimed : Job) × (lease : Lease) × (s' : Store) × (claim_next_job lease_id now
              lease_seconds worker_id s
            ≡ (some (claimed, lease), s'))
          × Memᴰ job s.jobs
          × (is_claimable s.leases now job ≡ true)
          × All (λ j. is_claimable s.leases now j ≡ true → claims_before job j ≡ true) s.jobs
          × (claimed.id ≡ job.id)
          × Memᴰ claimed s'.jobs
          × All
              (λ j.
                (j.id == job.id) ≡ true
                → (j.status ≡ running)
                  × ((later : Instant) → is_claimable s'.leases later j ≡ false))
              s'.jobs
          × (where_rows (λ j. not (j.id == job.id)) s'.jobs
              ≡ where_rows (λ j. not (j.id == job.id)) s.jobs)
          × (lease.job_id ≡ job.id)
          × (lease.worker_id ≡ worker_id)
          × (lease.expires_at ≡ now + seconds lease_seconds)
          × (s'.leases ≡ lease ∷ s.leases)
          × IsExclusive s'.leases
          × All
              (λ w.
                (w.id == worker_id) ≡ true
                → (w.status ≡ working) × (w.current_job_id ≡ some job.id))
              s'.workers)
unfolding claim_next_job claim_job claimed_job new_lease candidate
claim_next_job_lem lease_id now lease_seconds worker_id s h = elim (candidate_lem now s) [
  | inl (nothing, free) ↦ inl (rw nothing, free)
  | inr (job, found, passes, first) ↦
      let lease = new_lease lease_id now lease_seconds worker_id job in
      let stored = least-Memᴰ claims_before (is_claimable s.leases now) s.jobs found in
      inr (
        job,
        claimed_job now job,
        lease,
        claim_job lease_id now lease_seconds worker_id job s,
        rw found,
        stored,
        passes,
        first,
        refl,
        Memᴰ-written (λ j. j.id == job.id) (claimed_job now) s.jobs (ground arith) stored,
        All-written _ (λ j. j.id == job.id) (claimed_job now) s.jobs
            (λ j same. (
              refl,
              λ later.
                  not_leased_claimable (lease ∷ s.leases) later (claimed_job now j) (ground arith),
            )),
        where_rows-update_rows (λ j. j.id == job.id) (claimed_job now) s.jobs (λ j same. same),
        refl,
        refl,
        refl,
        refl,
        (not_leased_of_claimable s.leases now job passes, h),
        All-written _ (λ w. w.id == worker_id) _ s.workers (λ w same. (refl, refl)),
      )
]
