-- ===== src/Operations/Occurrence/Laws.antt =====
-- The life of one occurrence: which statuses follow which, how often it is attempted, and who holds
-- its lease.
use Prim.Native.String.{String}
use market_intelligence_lab.Prelude.{
  ℕ, ◌+◌, ◌≤◌, ◌<◌, ◌≡◌, refl, true, false, Option, none, some, arith, or_else, min, ltb, ◌&&◌, inl,
  inr, ◌⊎◌, Bool-cases, leb,
}
use market_intelligence_lab.Moments.{Instant, seconds}
use market_intelligence_lab.Operations.Breaker.{ErrorCategory, unknown, is_retryable}
use market_intelligence_lab.Operations.Retry.{Draw, compute_retry_delay, default_retry}
use market_intelligence_lab.Operations.Retry.Laws.{compute_retry_delay_bounds}
use market_intelligence_lab.Operations.Occurrence.{
  Occurrence, retry_wait, quarantined, fail_row, release_failed, release_expired, recover_row,
}

-- The seconds' delay of a row that has been attempted.
retry_delay_total :
    (draw : Draw) (attempts : ℕ) (after : Option ℕ) (seed : String)
    → 1 ≤ attempts
    → (delay : ℕ) × (compute_retry_delay draw default_retry attempts after seed ≡ some delay)
      × (delay ≤ 3600)
      × (min 3600 (or_else after 0) ≤ delay)
retry_delay_total draw attempts after seed h =
    let (delay, base, found, _, _, low, asked) =
      compute_retry_delay_bounds draw default_retry attempts after seed h in
    (delay, found, low, asked)

-- A failure of an attempted row is never lost: below the maximum a retryable one waits, at most an
-- hour and no less than the provider asked for up to that, and every other one is quarantined for
-- good; either way the lease is gone.
pub fail_row_total :
    (draw : Draw) (seed : String) (maximum : ℕ) (category : ErrorCategory) (text : String)
    (now : Instant) (after : Option ℕ) (o : Occurrence)
    → 1 ≤ o.attempts
    → (o' : Occurrence) × (fail_row draw seed maximum category text now after o ≡ some o')
      × (o'.attempts ≡ o.attempts)
      × (o'.claimed_by ≡ none)
      × (o'.lease_expires_at ≡ none)
      × (is_retryable category ≡ true
          → o.attempts < maximum
          → (o'.status ≡ retry_wait)
            × ((at : Instant) × (o'.next_retry_at ≡ some at)
                × (at ≤ now + seconds 3600)
                × (now + seconds (min 3600 (or_else after 0)) ≤ at)))
      × ((is_retryable category ≡ false) ⊎ (maximum ≤ o.attempts)
          → (o'.status ≡ quarantined) × (o'.finished_at ≡ some now))
unfolding fail_row
fail_row_total draw seed maximum category text now after o h =
    elim (Bool-cases (is_retryable category && ltb o.attempts maximum)) [
      | inl waits ↦
          let (delay, found, low, asked) = retry_delay_total draw o.attempts after seed h in
          (
            record (release_failed category text o) {
              status = retry_wait;
              next_retry_at = some (now + seconds delay);
            },
            rw (waits, found),
            refl,
            refl,
            refl,
            λ r b. (refl, (now + seconds delay, refl, omega arith, omega arith)),
            λ r. ground arith,
          )
      | inr stops ↦ (
        record (release_failed category text o) { status = quarantined; finished_at = some now },
        rw stops,
        refl,
        refl,
        refl,
        λ r b. ground arith,
        λ r. (refl, refl),
      )
    ]

-- A row that was attempted and is recovered goes on waiting for a retry, or is quarantined once the
-- attempts are used up; its lease is gone either way.
pub recover_row_total :
    (draw : Draw) (seed : String) (maximum : ℕ) (now : Instant) (o : Occurrence)
    → 1 ≤ o.attempts
    → (o' : Occurrence) × (recover_row draw seed maximum now o ≡ some o')
      × (o'.claimed_by ≡ none)
      × (o'.lease_expires_at ≡ none)
      × (o'.attempts ≡ o.attempts)
      × (o.attempts < maximum → o'.status ≡ retry_wait)
      × (maximum ≤ o.attempts → o'.status ≡ quarantined)
unfolding recover_row
recover_row_total draw seed maximum now o h = elim (Bool-cases (leb maximum o.attempts)) [
  | inl over ↦ (
    release_expired (record o {
      status = quarantined;
      finished_at = some now;
      error_category = some (or_else o.error_category unknown);
    }),
    rw over,
    refl,
    refl,
    refl,
    λ b. ground arith,
    λ b. refl,
  )
  | inr under ↦
      let (delay, found, _, _) = retry_delay_total draw o.attempts none seed h in
      (
        record (release_expired o) {
          status = retry_wait;
          next_retry_at = some (now + seconds delay);
        },
        rw (under, found),
        refl,
        refl,
        refl,
        λ b. refl,
        λ b. ground arith,
      )
]
