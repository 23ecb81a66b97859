-- ===== src/Operations/Occurrence/Life.antt =====
-- The steps that change one occurrence, by scheduler, workers and administrators, and what holds
-- of every occurrence that they reach.
use Prim.Native.String.{String}
use native.Mathlib.Nat.{add-zero}
use market_intelligence_lab.Prelude.{
  ℕ, ◌+◌, ◌≤◌, ◌<◌, ◌≡◌, Bool, true, false, Option, some, arith, is_some, max, ◌≢◌,
}
use market_intelligence_lab.Moments.{Instant}
use market_intelligence_lab.Operations.Breaker.{ErrorCategory}
use market_intelligence_lab.Operations.Retry.{Draw}
use market_intelligence_lab.Operations.Occurrence.{
  Occurrence, Status, queued, claimed, running, retry_wait, succeeded, cancelled, Manifest,
  is_claimable, claim_row, complete_row, fail_row, recover_row, is_expired, resolve_row, resolved,
  QuarantineAction, retry,
}

abbrev pub is_held : Status → Bool
is_held claimed = true
is_held running = true
is_held _ = false

abbrev pub is_retry : QuarantineAction → ℕ
is_retry retry = 1
is_retry _ = 0

-- One step from an occurrence to the next; the number counts the administrator's retries.
pub data Step (draw : Draw) (seed : String) (maximum : ℕ)
    : Occurrence → ℕ → Occurrence → Type 0 where
  claim :
      (worker : String) (now : Instant) (lease : ℕ) (o : Occurrence)
      → is_claimable now o ≡ true
      → Step draw seed maximum o 0 (claim_row worker now lease o)
  begin :
      (o : Occurrence)
      → o.status ≡ claimed
      → Step draw seed maximum o 0 (record o { status = running })
  complete :
      (result : Option Manifest) (now : Instant) (o : Occurrence)
      → o.status ≡ running
      → Step draw seed maximum o 0 (complete_row result now o)
  fail :
      (category : ErrorCategory) (text : String) (now : Instant) (after : Option ℕ)
      (o o' : Occurrence)
      → is_held o.status ≡ true
      → fail_row draw seed maximum category text now after o ≡ some o'
      → Step draw seed maximum o 0 o'
  recover :
      (now : Instant) (o o' : Occurrence)
      → is_expired now o ≡ true
      → recover_row draw seed maximum now o ≡ some o'
      → Step draw seed maximum o 0 o'
  resolve :
      (action : QuarantineAction) (now : Instant) (o o' : Occurrence)
      → resolve_row action now o ≡ resolved o'
      → Step draw seed maximum o (is_retry action) o'

-- What holds after `retries` retries by an administrator.
pub record IsValid (maximum retries : ℕ) (o : Occurrence) : Type 0 where
  pub fresh : o.status ≡ queued → o.attempts ≡ 0
  pub attempted : is_held o.status ≡ true → 1 ≤ o.attempts
  pub bounded : o.attempts ≤ max 1 maximum + retries
  pub room : o.status ≡ retry_wait → o.attempts < max 1 maximum + retries
  pub leased : is_some o.lease_expires_at ≡ is_held o.status
  pub owned : is_some o.claimed_by ≡ is_held o.status

module _ (draw : Draw) (seed : String) (maximum : ℕ) where
  fail-IsValid :
      (retries : ℕ) (category : ErrorCategory) (text : String) (now : Instant) (after : Option ℕ)
      (o o' : Occurrence)
      → IsValid maximum retries o
      → is_held o.status ≡ true
      → fail_row draw seed maximum category text now after o ≡ some o'
      → IsValid maximum retries o'
  unfolding fail_row
  fail-IsValid retries category text now after o o' v held e = ground arith

  recover-IsValid :
      (retries : ℕ) (now : Instant) (o o' : Occurrence)
      → IsValid maximum retries o
      → recover_row draw seed maximum now o ≡ some o'
      → IsValid maximum retries o'
  unfolding recover_row
  recover-IsValid retries now o o' v e = ground arith

  claim-IsValid :
      (retries : ℕ) (worker : String) (now : Instant) (lease : ℕ) (o : Occurrence)
      → IsValid maximum retries o
      → is_claimable now o ≡ true
      → IsValid maximum retries (claim_row worker now lease o)
  unfolding is_claimable claim_row
  claim-IsValid retries worker now lease o v e = ground arith

  resolve-IsValid :
      (retries : ℕ) (action : QuarantineAction) (now : Instant) (o o' : Occurrence)
      → IsValid maximum retries o
      → resolve_row action now o ≡ resolved o'
      → IsValid maximum (retries + is_retry action) o'
  unfolding resolve_row
  resolve-IsValid retries action now o o' v e = ground arith

  pub Step-IsValid :
      {o o' : Occurrence} {again : ℕ} (retries : ℕ)
      → Step draw seed maximum o again o'
      → IsValid maximum retries o
      → IsValid maximum (retries + again) o'
  unfolding complete_row
  Step-IsValid retries (claim worker now lease o e) v =
      rw add-zero (claim-IsValid retries worker now lease o v e)
  Step-IsValid retries (begin o e) v = ground arith
  Step-IsValid retries (complete result now o e) v = ground arith
  Step-IsValid retries (fail category text now after o o' held e) v =
      rw add-zero (fail-IsValid retries category text now after o o' v held e)
  Step-IsValid retries (recover now o o' expired e) v =
      rw add-zero (recover-IsValid retries now o o' v e)
  Step-IsValid retries (resolve action now o o' e) v = resolve-IsValid retries action now o o' v e

  -- A life, with the number of the administrator's retries.
  pub data Life (start : Occurrence) : ℕ → Occurrence → Type 0 where
    created : Life start 0 start
    next :
        {o o' : Occurrence} {retries again : ℕ}
        → Life start retries o
        → Step draw seed maximum o again o'
        → Life start (retries + again) o'

  -- An occurrence that began valid, with no retry by an administrator, stays valid: it is attempted
  -- at most `maximum` times, or once if that is 0, and once more for each retry by an administrator;
  -- it has a lease and an owner exactly while it is claimed or running; it is unattempted while it is
  -- queued; and it waits for a retry only while it has attempts left.
  pub Life-IsValid :
      {start o : Occurrence} {retries : ℕ}
      → Life start retries o
      → IsValid maximum 0 start
      → IsValid maximum retries o
  Life-IsValid created v = v
  Life-IsValid (next {retries = r} life step) v = Step-IsValid r step (Life-IsValid life v)

  -- No step leaves an occurrence that succeeded or was cancelled.
  pub finished_stays :
      {o o' : Occurrence} {again : ℕ}
      → Step draw seed maximum o again o'
      → (o.status ≢ succeeded) × (o.status ≢ cancelled)
  unfolding is_claimable is_expired resolve_row
  finished_stays (claim worker now lease o e) = (λ f. ground arith, λ f. ground arith)
  finished_stays (begin o e) = (λ f. cc, λ f. cc)
  finished_stays (complete result now o e) = (λ f. cc, λ f. cc)
  finished_stays (fail category text now after o o' held e) = (λ f. ground arith, λ f. ground arith)
  finished_stays (recover now o o' expired e) = (λ f. ground arith, λ f. ground arith)
  finished_stays (resolve action now o o' e) = (λ f. ground arith, λ f. ground arith)
