-- ===== src/ImportJobs/Leasing/Abandoned.antt =====
-- What a recovery does to each job, and what becomes of the job of a stopped worker.
use mathlib.Core.Path.{subst}
use market_intelligence_lab.Prelude.{
  ℕ, ◌≤◌, ◌<◌, ◌≡◌, refl, sym, ◌∙◌, inl, inr, Bool, true, false, ◌&&◌, not, some, List, [], ◌∷◌,
  arith, leb, ◌==◌, where_rows, update_rows, All, Bool-cases, Option-cases, ap, find-update_rows,
  find-eq-some, find-update_rows_other, ==_iff,
}
use market_intelligence_lab.Moments.{Instant}
use market_intelligence_lab.ImportJobs.Rows.{
  Job, running, retrying, dead_letter, Lease, Store, is_leased, is_claimable,
}
use market_intelligence_lab.ImportJobs.Leasing.{
  recover_job, recover_leases, recover_abandoned_jobs, recovered_job, stop_worker, is_running,
}
use market_intelligence_lab.ImportJobs.Leasing.Recovery.{job_of}

different :
    (id found wanted row : ℕ)
    → found == id ≡ false
    → wanted == found ≡ true
    → row == id ≡ true
    → row == wanted ≡ false
different id found wanted row a b c = ground arith

module _ (now : Instant) where
  -- One candidate, seen from a job: another job is left alone, and so is one that is not running.
  job_of-recover_job_other :
      (id : ℕ) (lease : Lease) (s : Store)
      → lease.job_id == id ≡ false
      → job_of id (recover_job now lease (job_of lease.job_id s.jobs) s).1.jobs ≡ job_of id s.jobs
  unfolding recover_job recovered_job
  job_of-recover_job_other id lease s apart = elim (Option-cases (job_of lease.job_id s.jobs)) [
    | inl none_found ↦ rw none_found
    | inr (job, found) ↦ rw found (elim (Bool-cases (is_running job.status)) [
      | inr e ↦ rw e
      | inl e ↦ rw e (
          find-update_rows_other (λ j. j.id == id) (λ j. j.id == job.id) (recovered_job now) s.jobs
            (λ j. refl)
            (λ j h.
              different id lease.job_id job.id j.id apart
                (find-eq-some (λ j. j.id == lease.job_id) s.jobs found) h))
    ])
  ]

  job_of-recover_job_settled :
      (id : ℕ) (lease : Lease) (s : Store) {job : Job}
      → job_of id s.jobs ≡ some job
      → is_running job.status ≡ false
      → job_of id (recover_job now lease (job_of lease.job_id s.jobs) s).1.jobs ≡ some job
  unfolding recover_job
  job_of-recover_job_settled id lease s found over = elim (Bool-cases (lease.job_id == id)) [
    | inr apart ↦ job_of-recover_job_other id lease s apart ∙ found
    | inl same ↦
        let at_lease = (rw (← (==_iff lease.job_id id).0 same) at found) in
        rw at_lease (rw over found)
  ]

  job_of-recover_job_running :
      (lease : Lease) (s : Store) {job : Job}
      → job_of lease.job_id s.jobs ≡ some job
      → is_running job.status ≡ true
      → job_of lease.job_id (recover_job now lease (job_of lease.job_id s.jobs) s).1.jobs
        ≡ some (recovered_job now job)
  unfolding recover_job recovered_job
  job_of-recover_job_running lease s {job} found runs =
      let same : job.id ≡ lease.job_id =
        (==_iff job.id lease.job_id).0 (find-eq-some (λ j. j.id == lease.job_id) s.jobs found) in
      rw (found, runs)
        (subst
          (λ k.
            job_of lease.job_id (update_rows (λ j. j.id == k) (recovered_job now) s.jobs)
            ≡ some (recovered_job now job))
          (sym same)
          (find-update_rows (λ j. j.id == lease.job_id) (recovered_job now) s.jobs (λ j. refl)
            found))

  job_of-recover_leases_other :
      (id : ℕ) (ls : List Lease) (s : Store)
      → is_leased ls id ≡ false
      → job_of id (recover_leases now ls s).1.jobs ≡ job_of id s.jobs
  unfolding recover_leases
  job_of-recover_leases_other id [] s h = refl
  job_of-recover_leases_other id (l ∷ ls) s h =
      let o = job_of l.job_id s.jobs in
      job_of-recover_leases_other id ls (recover_job now l o s).1 (ground arith)
      ∙ job_of-recover_job_other id l s (ground arith)

  job_of-recover_leases_settled :
      (id : ℕ) (ls : List Lease) (s : Store) {job : Job}
      → job_of id s.jobs ≡ some job
      → is_running job.status ≡ false
      → job_of id (recover_leases now ls s).1.jobs ≡ some job
  unfolding recover_leases
  job_of-recover_leases_settled id [] s found over = found
  job_of-recover_leases_settled id (l ∷ ls) s found over =
      let o = job_of l.job_id s.jobs in
      job_of-recover_leases_settled id ls (recover_job now l o s).1
        (job_of-recover_job_settled id l s found over) over

  recovered_job_stopped : (job : Job) → is_running (recovered_job now job).status ≡ false
  unfolding recovered_job
  recovered_job_stopped job = ground arith

  job_of-recover_leases_running :
      (id : ℕ) (ls : List Lease) (s : Store) {job : Job}
      → is_leased ls id ≡ true
      → job_of id s.jobs ≡ some job
      → is_running job.status ≡ true
      → job_of id (recover_leases now ls s).1.jobs ≡ some (recovered_job now job)
  unfolding recover_leases
  job_of-recover_leases_running id [] s h found runs = cc
  job_of-recover_leases_running id (l ∷ ls) s {job} h found runs =
      let s' = (recover_job now l (job_of l.job_id s.jobs) s).1 in
      elim (Bool-cases (l.job_id == id)) [
        | inr apart ↦
            job_of-recover_leases_running id ls s' (ground arith)
              (job_of-recover_job_other id l s apart ∙ found) runs
        | inl same ↦
            let here : l.job_id ≡ id = (==_iff l.job_id id).0 same in
            let first =
              subst (λ k. job_of k s'.jobs ≡ some (recovered_job now job)) here
                (job_of-recover_job_running l s {job = job} (rw here found) runs) in
            job_of-recover_leases_settled id ls s' first (recovered_job_stopped job)
      ]

  -- A job's lease had expired at the time of the recovery.
  abbrev pub is_abandoned : Store → ℕ → Bool
  is_abandoned s id = is_leased (where_rows (λ l. leb l.expires_at now) s.leases) id

  -- What a recovery does to one job: abandoned while running, it is tried again from now if it has
  -- attempts left and is given up if not; a job that is not running, or whose lease still holds, or
  -- that has none, is left as it is.
  pub recover_abandoned_jobs_lem :
      (id : ℕ) (s : Store) {job : Job}
      → job_of id s.jobs ≡ some job
      → (job' : Job) × (job_of id (recover_abandoned_jobs now s).1.jobs ≡ some job')
        × (is_abandoned s id && is_running job.status ≡ true
            → (job.attempt < job.max_attempts
                → (job'.status ≡ retrying) × (job'.next_retry_at ≡ some now))
              × (job.max_attempts ≤ job.attempt → job'.status ≡ dead_letter))
        × (is_abandoned s id && is_running job.status ≡ false → job' ≡ job)
  unfolding recover_abandoned_jobs recovered_job
  recover_abandoned_jobs_lem id s {job} found =
      let expired = where_rows (λ (l : Lease). leb l.expires_at now) s.leases in
      elim (Bool-cases (is_leased expired id)) [
        | inr holds ↦ (
          job,
          job_of-recover_leases_other id expired s holds ∙ found,
          λ h. ground arith,
          λ h. refl,
        )
        | inl late ↦ elim (Bool-cases (is_running job.status)) [
          | inr over ↦ (
            job,
            job_of-recover_leases_settled id expired s found over,
            λ h. ground arith,
            λ h. refl,
          )
          | inl runs ↦ (
            recovered_job now job,
            job_of-recover_leases_running id expired s late found runs,
            λ h. (λ k. ground arith, λ k. ground arith),
            λ h. ground arith,
          )
        ]
      ]

not_leased-where_rows :
    (p : Lease → Bool) (id : ℕ) (ls : List Lease)
    → is_leased ls id ≡ false
    → is_leased (where_rows p ls) id ≡ false
not_leased-where_rows p id [] h = refl
not_leased-where_rows p id (l ∷ ls) h = ground (arith, not_leased-where_rows p id ls)

not_leased-stopped :
    (worker id : ℕ) (ls : List Lease)
    → All (λ l. l.job_id == id ≡ true → l.worker_id == worker ≡ true) ls
    → is_leased (where_rows (λ l. not (l.worker_id == worker)) ls) id ≡ false
not_leased-stopped worker id [] h = refl
not_leased-stopped worker id (l ∷ ls) h = ground (arith, h.0, not_leased-stopped worker id ls h.1)

-- A stopped worker gives its leases back, but a running job that only it had leases of is left running, unleased: no claim takes it
-- and no later recovery touches it.
pub stop_worker_strands :
    (now later : Instant) (worker id : ℕ) (s : Store) {job : Job}
    → job_of id s.jobs ≡ some job
    → job.status ≡ running
    → All (λ l. l.job_id == id ≡ true → l.worker_id == worker ≡ true) s.leases
    → let s' = (recover_abandoned_jobs later (stop_worker now worker s)).1 in
      (job_of id s'.jobs ≡ some job) × ((t : Instant) → is_claimable s'.leases t job ≡ false)
unfolding stop_worker is_claimable
stop_worker_strands now later worker id s {job} found runs owned =
    let stopped_store = stop_worker now worker s in
    let free =
      not_leased-where_rows (λ l. leb l.expires_at later) id stopped_store.leases
        (not_leased-stopped worker id s.leases owned) in
    let (job', kept, _, same) = recover_abandoned_jobs_lem later id stopped_store found in
    (kept ∙ ap some (same (rw free)), λ t. ground arith)
