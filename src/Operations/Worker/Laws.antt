-- ===== src/Operations/Worker/Laws.antt =====
-- What a run of the worker does to the occurrence that it claimed.
use Prim.Native.String.{String}
use market_intelligence_lab.Prelude.{
  ℕ, ◌≤◌, ◌≡◌, refl, ◌⊎◌, inl, inr, true, false, Option, none, some, List, arith, ◌==◌, find,
  Option-cases, Bool-cases, ltb, ◌<◌, ◌≢◌,
}
use market_intelligence_lab.Moments.{Instant}
use market_intelligence_lab.Operations.Breaker.{ErrorCategory, is_retryable}
use market_intelligence_lab.Operations.Occurrence.{
  Occurrence, Status, claimed, running, succeeded, retry_wait, quarantined, complete_row,
}
use market_intelligence_lab.Operations.Occurrence.Laws.{fail_row_total}
use market_intelligence_lab.Operations.Occurrence.Life.{
  Life, created, next, begin, complete, fail, is_held,
}
use market_intelligence_lab.Operations.Queue.{Definition, Outside, attempts_allowed}
use market_intelligence_lab.Operations.Worker.{
  HandlerResult, returned, dependency_failed, configuration_failed, other_exception, Handlers,
  fail_with, settle, run_handler, execute_occurrence,
}

-- A failed row waits or is quarantined.
ends :
    (category : ErrorCategory) (attempts maximum : ℕ) (status : Status) {P Q : Type 0}
    → (is_retryable category ≡ true → attempts < maximum → (status ≡ retry_wait) × P)
    → ((is_retryable category ≡ false) ⊎ (maximum ≤ attempts) → (status ≡ quarantined) × Q)
    → (status ≡ retry_wait) ⊎ (status ≡ quarantined)
ends category attempts maximum status waits stops = elim (Bool-cases (is_retryable category)) [
  | inr permanent ↦ inr (stops (inl permanent)).0
  | inl retryable ↦ elim (Bool-cases (ltb attempts maximum)) [
    | inl below ↦ inl (waits retryable (ground arith)).0
    | inr over ↦ inr (stops (inr (ground arith))).0
  ]
]

ends_released :
    (status : Status) → (status ≡ retry_wait) ⊎ (status ≡ quarantined) → is_held status ≡ false
ends_released status (inl e) = rw e
ends_released status (inr e) = rw e

module _ (out : Outside) (handlers : Handlers) (definitions : List Definition) (now : Instant) where
  module _ (o : Occurrence) where
    -- The run is a life of the occurrence with no administrator in it, it ends unleased, and in one
    -- of three statuses.
    pub record Ran (o' : Occurrence) : Type 0 where
      pub steps :
          Life out.draw (out.id_text o.id) (attempts_allowed definitions o.definition_id) o 0 o'
      pub released : is_held o'.status ≡ false
      pub settled : (o'.status ≡ succeeded) ⊎ ((o'.status ≡ retry_wait) ⊎ (o'.status ≡ quarantined))

    fail_with-Ran :
        (status : Status) (category : ErrorCategory) (text : String)
        → Life out.draw
            (out.id_text o.id)
            (attempts_allowed definitions o.definition_id)
            o
            0
            (record o { status = status })
        → is_held status ≡ true
        → 1 ≤ o.attempts
        → (o' : Occurrence) × (fail_with out handlers definitions now category text
              (record o { status = status })
            ≡ some o')
          × Ran o'
    unfolding fail_with
    fail_with-Ran status category text life held h =
        let row = record o { status = status } in
        let (o', found, _, _, _, waits, stops) =
          fail_row_total out.draw (out.id_text o.id) (attempts_allowed definitions o.definition_id)
            category text now none row h in
        (
          o',
          found,
          record {
            steps = next life (fail category text now none row o' held found);
            released = ends_released o'.status (ends category o.attempts _ o'.status waits stops);
            settled = inr (ends category o.attempts _ o'.status waits stops);
          },
        )

    settle-Ran :
        (result : HandlerResult)
        → o.status ≡ claimed
        → 1 ≤ o.attempts
        → result ≢ other_exception
        → (o' : Occurrence) × (settle out handlers definitions now
              (record o { status = running })
              result
            ≡ some o')
          × Ran o'
    unfolding settle complete_row
    settle-Ran (returned manifest) e h caught = (
      complete_row (some manifest) now (record o { status = running }),
      refl,
      record {
        steps =
            next (next created (begin o e))
              (complete (some manifest) now (record o { status = running }) refl);
        released = refl;
        settled = inl refl;
      },
    )
    settle-Ran (dependency_failed name) e h caught =
        fail_with-Ran running _ _ (next created (begin o e)) refl h
    settle-Ran (configuration_failed name) e h caught =
        fail_with-Ran running _ _ (next created (begin o e)) refl h
    settle-Ran other_exception e h caught = absurd (caught refl)

    run_handler-Ran :
        (d : Definition) (handler : Option (Definition → HandlerResult))
        → o.status ≡ claimed
        → 1 ≤ o.attempts
        → ((run : Definition → HandlerResult) → handler ≡ some run → run d ≢ other_exception)
        → (o' : Occurrence) × (run_handler out handlers definitions now o d handler ≡ some o')
          × Ran o'
    unfolding run_handler
    run_handler-Ran d none e h caught = fail_with-Ran o.status _ _ created (rw e) h
    run_handler-Ran d (some run) e h caught = settle-Ran (run d) e h (caught run refl)

    -- Whatever the definition and its handler, unless the handler raises an exception that nothing
    -- catches: the run of a claimed and attempted occurrence ends in an occurrence that is
    -- succeeded, waiting for a retry or quarantined, unleased, and reached by steps of its life.
    pub execute_occurrence-Ran :
        o.status ≡ claimed
        → 1 ≤ o.attempts
        → ((d : Definition) (run : Definition → HandlerResult)
            → handlers d.task_type ≡ some run
            → run d ≢ other_exception)
        → (o' : Occurrence) × (execute_occurrence out handlers definitions now o ≡ some o') × Ran o'
    unfolding execute_occurrence
    execute_occurrence-Ran e h caught =
        elim (Option-cases (find (λ d. d.id == o.definition_id) definitions)) [
          | inl missing ↦ rw missing (fail_with-Ran o.status _ _ created (rw e) h)
          | inr (d, found) ↦ rw found (run_handler-Ran d (handlers d.task_type) e h (caught d))
        ]
