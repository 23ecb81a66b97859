-- ===== src/Operations/Worker.antt =====
-- The worker that runs a claimed occurrence (packages/operations/worker.py, `execute_occurrence`).
pub mod Laws
use Prim.Native.String.{String, ◌++◌ as join}
use market_intelligence_lab.Prelude.{ℕ, Option, none, some, ◌==◌, find, List}
use market_intelligence_lab.Moments.{Instant}
use market_intelligence_lab.Operations.Breaker.{
  ErrorCategory, permanent_validation, auth_configuration, transient_network,
}
use market_intelligence_lab.Operations.Occurrence.{
  Occurrence, running, Manifest, complete_row, fail_row,
}
use market_intelligence_lab.Operations.Queue.{Definition, Outside, attempts_allowed}

-- What a handler does: it returns a manifest, or raises an exception of the named class. The
-- classes are those that the two clauses of `execute_occurrence` catch, and all others.
pub data HandlerResult : Type 0 where
  returned : Manifest → HandlerResult
  dependency_failed : String → HandlerResult
  configuration_failed : String → HandlerResult
  other_exception : HandlerResult

-- `HANDLERS.get`: the handlers are code that the worker only calls.
abbrev pub Handlers : Type 0
Handlers = String → Option (Definition → HandlerResult)

module _ (out : Outside) (handlers : Handlers) (definitions : List Definition) (now : Instant) where
  -- `fail_occurrence` with no hint from a provider.
  fail_with : ErrorCategory → String → Occurrence → Option Occurrence
  fail_with category text o =
      fail_row out.draw (out.id_text o.id) (attempts_allowed definitions o.definition_id) category
        text now none o

  -- The `try` statement; `none` is an exception that no clause catches.
  settle : Occurrence → HandlerResult → Option Occurrence
  unfolding fail_with
  settle o (returned manifest) = some (complete_row (some manifest) now o)
  settle o (dependency_failed name) =
      fail_with transient_network (join (join "Task dependency failed (" name) ")") o
  settle o (configuration_failed name) =
      fail_with permanent_validation (join (join "Task configuration failed (" name) ")") o
  settle o other_exception = none

  run_handler : Occurrence → Definition → Option (Definition → HandlerResult) → Option Occurrence
  unfolding settle
  run_handler o d none =
      fail_with auth_configuration "No approved handler is configured for this task type" o
  run_handler o d (some handler) = settle (record o { status = running }) (handler d)

  run_definition : Occurrence → Option Definition → Option Occurrence
  unfolding run_handler
  run_definition o none =
      fail_with permanent_validation "Scheduled task definition no longer exists" o
  run_definition o (some d) = run_handler o d (handlers d.task_type)

  unfoldable pub execute_occurrence : Occurrence → Option Occurrence
  unfolding run_definition
  execute_occurrence o = run_definition o (find (λ d. d.id == o.definition_id) definitions)
