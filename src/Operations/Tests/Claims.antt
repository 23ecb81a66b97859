-- ===== src/Operations/Tests/Claims.antt =====
-- Sample definitions, occurrences and their lives.
use market_intelligence_lab.Prelude.{
  ◌++◌, Memᴰ, where_rows, not, ◌==◌, ◌+◌, ◌≤◌, ◌<◌, ◌≡◌, refl, ◌⊎◌, true, false, none, some, List,
  [], ◌∷◌, arith, min, length, All, ap,
}
use mathlib.Core.Option.{some-injective}
use market_intelligence_lab.Moments.{Instant, seconds, days}
use market_intelligence_lab.Operations.Breaker.{timeout, is_retryable}
use market_intelligence_lab.Operations.Schedule.{daily, next_due}
use market_intelligence_lab.Operations.Occurrence.{
  Occurrence, queued, claimed, running, retry_wait, quarantined, is_claimable, claim_row,
  complete_row, fail_row,
}
use market_intelligence_lab.Operations.Occurrence.Laws.{fail_row_total}
use market_intelligence_lab.Operations.Occurrence.Life.{
  Life, created, next, claim, begin, complete, IsValid, Life-IsValid,
}
use market_intelligence_lab.Operations.Queue.{
  Definition, Store, Outside, sooner, claim_due_occurrences, claim_next_occurrence, conflicts,
  new_occurrence,
}
use market_intelligence_lab.Operations.Queue.Claims.{IsDistinct, claim_due_occurrences_total}
use market_intelligence_lab.Operations.Queue.Blocked.{Calls, blocked_stays_due}
use market_intelligence_lab.Operations.Queue.Leases.{claim_next_occurrence_lem}
use market_intelligence_lab.Operations.Worker.{Handlers, returned, execute_occurrence}
use market_intelligence_lab.Operations.Worker.Laws.{Ran, execute_occurrence-Ran}

abbrev outside : Outside
outside = record {
  uuid = λ n. n + 100;
  digest = λ id due. id + due;
  id_text = λ id. "id";
  draw = λ seed attempt upper. upper;
}

abbrev nightly : Definition
nightly = record {
  id = 7;
  workspace_id = some 1;
  task_type = "freshness";
  enabled = true;
  schedule_type = daily;
  schedule = record { interval_seconds = none; cadence_days = none };
  next_due_at = 50;
  last_scheduled_at = none;
  retry_attempts = some 2;
}

abbrev waiting : Occurrence
waiting = record {
  id = 100;
  definition_id = 7;
  workspace_id = some 1;
  scheduled_for = 50;
  status = queued;
  idempotency_key = 57;
  claimed_by = none;
  lease_expires_at = none;
  attempts = 0;
  next_retry_at = none;
  error_category = none;
  sanitized_error = none;
  result_manifest = [];
  started_at = none;
  finished_at = none;
}

abbrev taken : Occurrence
taken = record waiting {
  status = claimed;
  claimed_by = some "w";
  lease_expires_at = some 90;
  attempts = 1;
  started_at = some 60;
}

abbrev fresh_store : Store
fresh_store = record { definitions = nightly ∷ []; occurrences = [] }

abbrev blocked_store : Store
blocked_store = record { definitions = nightly ∷ []; occurrences = waiting ∷ [] }

waiting-IsValid : IsValid 2 0 waiting
waiting-IsValid = record {
  fresh = λ h. refl;
  attempted = λ h. cc;
  bounded = omega arith;
  room = λ h. cc;
  leased = refl;
  owned = refl;
}

one_run :
    Life outside.draw "id" 2 waiting 0
      (complete_row none 80 (record (claim_row "w" 60 30 waiting) { status = running }))
unfolding is_claimable claim_row
one_run =
    next
      (next (next created (claim "w" 60 30 waiting refl))
        (begin (claim_row "w" 60 30 waiting) refl))
      (complete none 80 (record (claim_row "w" 60 30 waiting) { status = running }) refl)

Life-IsValid_example :
    IsValid 2 0 (complete_row none 80 (record (claim_row "w" 60 30 waiting) { status = running }))
Life-IsValid_example = Life-IsValid outside.draw "id" 2 one_run waiting-IsValid

fail_row_total_example :
    (o' : Occurrence) × (fail_row outside.draw "id" 2 timeout "slow" 80 (some 9) taken ≡ some o')
    × (o'.attempts ≡ 1)
    × (o'.claimed_by ≡ none)
    × (o'.lease_expires_at ≡ none)
    × (is_retryable timeout ≡ true
        → 1 < 2
        → (o'.status ≡ retry_wait)
          × ((at : Instant) × (o'.next_retry_at ≡ some at)
              × (at ≤ 80 + seconds 3600)
              × (80 + seconds (min 3600 9) ≤ at)))
    × ((is_retryable timeout ≡ false) ⊎ (2 ≤ 1)
        → (o'.status ≡ quarantined) × (o'.finished_at ≡ some 80))
fail_row_total_example =
    fail_row_total outside.draw "id" 2 timeout "slow" 80 (some 9) taken (omega arith)

claim_due_occurrences_total_example :
    (new : List Occurrence) × (s' : Store) × (claim_due_occurrences outside "s" 60 5 fresh_store
      ≡ some (new, s'))
    × (length new ≤ 5)
    × All (λ o. (o.status ≡ queued) × (o.attempts ≡ 0) × (o.scheduled_for ≤ 60)) new
    × (length s'.occurrences ≡ length new + 0)
    × IsDistinct s'.occurrences
claim_due_occurrences_total_example =
    claim_due_occurrences_total outside "s" 60 5 fresh_store (refl, tt) tt

-- A definition with a free slot beside the blocked one.
abbrev hourly : Definition
hourly = record nightly { id = 8; next_due_at = 55 }

abbrev mixed_store : Store
mixed_store = record { definitions = nightly ∷ hourly ∷ []; occurrences = waiting ∷ [] }

abbrev mixed_new : List Occurrence
mixed_new = new_occurrence outside "s" hourly mixed_store ∷ []

abbrev mixed_after : Store
mixed_after = record {
  definitions =
      nightly ∷ record hourly { next_due_at = 55 + days 1; last_scheduled_at = some 55 } ∷ [];
  occurrences = new_occurrence outside "s" hourly mixed_store ∷ waiting ∷ [];
}

mixed_call : claim_due_occurrences outside "s" 60 5 mixed_store ≡ some (mixed_new, mixed_after)
unfolding claim_due_occurrences next_due new_occurrence
mixed_call = refl

-- A second call finds nothing that it can schedule.
second_call : claim_due_occurrences outside "s" 70 5 mixed_after ≡ some ([], mixed_after)
unfolding claim_due_occurrences new_occurrence
second_call = refl

blocked_stays_due_example :
    All (λ o. (o.definition_id == 7) ≡ false) (mixed_new ++ ([] ++ []))
    × Memᴰ nightly mixed_after.definitions
unfolding conflicts
blocked_stays_due_example =
    blocked_stays_due outside "s" nightly {s = mixed_store} {s' = mixed_after}
      {new = mixed_new ++ ([] ++ [])} (Memᴰ.head refl) ((λ h. refl), ((λ h. cc), tt)) refl
      (Calls.call 60 5 mixed_new ([] ++ []) mixed_call
        (Calls.call 70 5 [] [] second_call Calls.no_call))

claim_next_occurrence_lem_example :
    ((claim_next_occurrence "w" 60 30 blocked_store ≡ (none, blocked_store))
      × All (λ r. is_claimable 60 r ≡ true → ⊥) (waiting ∷ []))
    ⊎ ((o c : Occurrence) × (s' : Store) × (claim_next_occurrence "w" 60 30 blocked_store
          ≡ (some c, s'))
        × Memᴰ o (waiting ∷ [])
        × (is_claimable 60 o ≡ true)
        × All (λ r. is_claimable 60 r ≡ true → sooner o r ≡ true) (waiting ∷ [])
        × (c.id ≡ o.id)
        × (c.attempts ≡ o.attempts + 1)
        × Memᴰ c s'.occurrences
        × All
            (λ r.
              (r.id == o.id) ≡ true
              → (r.claimed_by ≡ some "w")
                × (r.lease_expires_at ≡ some (60 + seconds 30))
                × ((later : Instant) → is_claimable later r ≡ false))
            s'.occurrences
        × (where_rows (λ r. not (r.id == o.id)) s'.occurrences
            ≡ where_rows (λ r. not (r.id == o.id)) (waiting ∷ [])))
claim_next_occurrence_lem_example = claim_next_occurrence_lem "w" 60 30 blocked_store

-- Every task type has a handler that succeeds.
abbrev handlers : Handlers
handlers task_type = some (λ d. returned (("status", "ok") ∷ []))

execute_occurrence-Ran_example :
    (o' : Occurrence) × (execute_occurrence outside handlers (nightly ∷ []) 70 taken ≡ some o')
    × Ran outside handlers (nightly ∷ []) 70 taken o'
execute_occurrence-Ran_example =
    execute_occurrence-Ran outside handlers (nightly ∷ []) 70 taken refl (omega arith)
      (λ d run found raised.
        let same : (λ (e : Definition). returned (("status", "ok") ∷ [])) ≡ run =
          some-injective _ _ found in
        let here = ap (λ f. f d) same in cc)
