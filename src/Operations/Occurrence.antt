-- ===== src/Operations/Occurrence.antt =====
-- One durable occurrence of a scheduled task, and what each service function writes to its row
-- (packages/operations/service.py: `claim_next_occurrence`, `complete_occurrence`,
-- `fail_occurrence`, `recover_expired_occurrences`), and the administrator's decision on quarantined
-- work (apps/api/routers/operations.py: `resolve_quarantined_occurrence`).
pub mod Laws
pub mod Life
use Prim.Native.String.{String}
use market_intelligence_lab.Prelude.{
  ℕ, zero, suc, ◌+◌, Bool, true, false, ◌&&◌, ◌||◌, Option, none, some, List, [], ◌∷◌, ltb, leb,
  or_else, if◌then◌else◌,
}
use market_intelligence_lab.Moments.{Instant, seconds}
use market_intelligence_lab.Operations.Breaker.{ErrorCategory, unknown, is_retryable}
use market_intelligence_lab.Operations.Retry.{Draw, compute_retry_delay, default_retry}
use text.Mathlib.Text.{◌==◌ as str_eq}

pub data Status : Type 0 where
  queued claimed running retry_wait succeeded quarantined cancelled : Status

-- A JSON object with text values.
abbrev pub Manifest : Type 0
Manifest = List (String × String)

-- `{**old, key: value}`
abbrev put_key : Manifest → String × String → Manifest
put_key [] entry = entry ∷ []
put_key ((k, v) ∷ m) entry = if str_eq k entry.0 then (k, entry.1) ∷ m else (k, v) ∷ put_key m entry

-- `{**old, **new}`
abbrev pub merge : Manifest → Manifest → Manifest
merge old [] = old
merge old (entry ∷ rest) = merge (put_key old entry) rest

pub record Occurrence : Type 0 where
  pub id : ℕ
  pub definition_id : ℕ
  pub workspace_id : Option ℕ
  pub scheduled_for : Instant
  pub status : Status
  pub idempotency_key : ℕ
  pub claimed_by : Option String
  pub lease_expires_at : Option Instant
  pub attempts : ℕ
  pub next_retry_at : Option Instant
  pub error_category : Option ErrorCategory
  pub sanitized_error : Option String
  pub result_manifest : Manifest
  pub started_at : Option Instant
  pub finished_at : Option Instant

-- `t <= now` on a nullable column: NULL is not true.
abbrev pub at_or_before : Option Instant → Instant → Bool
at_or_before none now = false
at_or_before (some t) now = leb t now

-- The filter of `claim_next_occurrence`.
unfoldable pub is_claimable : Instant → Occurrence → Bool
is_claimable now o = elim o.status [
  | queued ↦ true
  | retry_wait ↦ at_or_before o.next_retry_at now
  | _ ↦ false
]

unfoldable pub claim_row : String → Instant → ℕ → Occurrence → Occurrence
claim_row worker_id now lease_seconds o = record o {
  status = claimed;
  claimed_by = some worker_id;
  lease_expires_at = some (now + seconds lease_seconds);
  attempts = o.attempts + 1;
  started_at = some (or_else o.started_at now);
}

unfoldable pub complete_row : Option Manifest → Instant → Occurrence → Occurrence
complete_row result now o = record o {
  status = succeeded;
  finished_at = some now;
  claimed_by = none;
  lease_expires_at = none;
  result_manifest = merge o.result_manifest (or_else result []);
}

-- `text[:n]`
abbrev pub prefix : ℕ → String → String
prefix zero s = String.[]
prefix (suc n) String.[] = String.[]
prefix (suc n) (String.◌∷◌ c s) = String.◌∷◌ c (prefix n s)

-- The rows of `definition.retry_policy`: the attempts allowed, 3 when the key or the definition is
-- missing.
abbrev pub maximum_attempts : Option (Option ℕ) → ℕ
maximum_attempts none = 3
maximum_attempts (some policy) = or_else policy 3

-- Waits for another attempt, after a delay in seconds; `none` passes on the ValueError.
wait_for_retry : Option ℕ → Instant → Occurrence → Option Occurrence
wait_for_retry none now o = none
wait_for_retry (some delay) now o =
    some (record o { status = retry_wait; next_retry_at = some (now + seconds delay) })

-- The filter of `recover_expired_occurrences`.
unfoldable pub is_expired : Instant → Occurrence → Bool
is_expired now o = elim o.status [
  | claimed ↦ at_or_before o.lease_expires_at now
  | running ↦ at_or_before o.lease_expires_at now
  | _ ↦ false
]

release_expired : Occurrence → Occurrence
release_expired o = record o {
  claimed_by = none;
  lease_expires_at = none;
  sanitized_error = some "Worker lease expired; occurrence recovered";
}

release_failed : ErrorCategory → String → Occurrence → Occurrence
release_failed category sanitized o = record o {
  error_category = some category;
  sanitized_error = some (prefix 1000 sanitized);
  claimed_by = none;
  lease_expires_at = none;
}

-- `seed` is `str(occurrence.id)`.
module _ (draw : Draw) (seed : String) (maximum : ℕ) where
  unfoldable pub fail_row :
      ErrorCategory → String → Instant → Option ℕ → Occurrence → Option Occurrence
  unfolding wait_for_retry release_failed
  fail_row category sanitized now retry_after o =
      if is_retryable category && ltb o.attempts maximum
      then wait_for_retry (compute_retry_delay draw default_retry o.attempts retry_after seed) now
          (release_failed category sanitized o)
      else some (record (release_failed category sanitized o) {
        status = quarantined;
        finished_at = some now;
      })

  unfoldable pub recover_row : Instant → Occurrence → Option Occurrence
  unfolding wait_for_retry release_expired
  recover_row now o =
      if leb maximum o.attempts
      then some (
          release_expired (record o {
            status = quarantined;
            finished_at = some now;
            error_category = some (or_else o.error_category unknown);
          }))
      else wait_for_retry (compute_retry_delay draw default_retry o.attempts none seed) now
          (release_expired o)

-- The upper-cased action of the request.
pub data QuarantineAction : Type 0 where
  retry dismiss supersede : QuarantineAction
  invalid_action : String → QuarantineAction

pub data Resolution : Type 0 where
  resolved : Occurrence → Resolution
  not_quarantined : Resolution
  invalid_quarantine_action : Resolution

decide : QuarantineAction → Instant → Occurrence → Resolution
decide retry now o =
    resolved (record o { status = retry_wait; next_retry_at = some now; finished_at = none })
decide dismiss now o = resolved (record o { status = cancelled; finished_at = some now })
decide supersede now o = resolved (record o {
  status = cancelled;
  finished_at = some now;
  result_manifest = merge o.result_manifest (("resolution", "SUPERSEDED") ∷ []);
})
decide (invalid_action name) now o = invalid_quarantine_action

unfoldable pub resolve_row : QuarantineAction → Instant → Occurrence → Resolution
unfolding decide
resolve_row action now o = elim o.status [ quarantined ↦ decide action now o | _ ↦ not_quarantined ]
