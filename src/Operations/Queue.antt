-- ===== src/Operations/Queue.antt =====
-- The durable queue: definitions become occurrences, occurrences are claimed in order and recovered
-- when their lease runs out (packages/operations/service.py: `claim_due_occurrences`,
-- `claim_next_occurrence`, `recover_expired_occurrences`).
pub mod Claims
pub mod Blocked
pub mod Leases
use Prim.Native.String.{String}
use market_intelligence_lab.Prelude.{
  ℕ, ◌+◌, Bool, true, false, ◌&&◌, ◌||◌, not, Option, none, some, List, [], ◌∷◌, ltb, leb, ◌==◌,
  if◌then◌else◌, where_rows, find, exists_row, update_rows, sort_rows, least, take, length, ◌++◌,
}
use market_intelligence_lab.Moments.{Instant}
use market_intelligence_lab.Operations.Retry.{Draw}
use market_intelligence_lab.Operations.Schedule.{
  ScheduleType, ScheduleConfig, Due, due_at, unsupported_type, out_of_fuel, next_due,
}
use market_intelligence_lab.Operations.Occurrence.{
  Occurrence, queued, is_claimable, claim_row, is_expired, recover_row, maximum_attempts,
}

pub record Definition : Type 0 where
  pub id : ℕ
  pub workspace_id : Option ℕ
  pub task_type : String
  pub enabled : Bool
  pub schedule_type : ScheduleType
  pub schedule : ScheduleConfig
  pub next_due_at : Instant
  pub last_scheduled_at : Option Instant
  -- `retry_policy["maximum_attempts"]`
  pub retry_attempts : Option ℕ

pub record Store : Type 0 where
  pub definitions : List Definition
  pub occurrences : List Occurrence

-- The values that come from outside: new row ids, by the rows there are, and the SHA-256 key of a
-- definition and its due time.
pub record Outside : Type 0 where
  pub uuid : ℕ → ℕ
  pub digest : ℕ → Instant → ℕ
  pub id_text : ℕ → String
  pub draw : Draw

-- The two unique constraints of the table.
abbrev pub same_slot : ℕ → Instant → Occurrence → Bool
same_slot definition due o = o.definition_id == definition && o.scheduled_for == due

unfoldable pub conflicts : ℕ → Instant → ℕ → List Occurrence → Bool
conflicts definition due key rows =
    exists_row (λ o. same_slot definition due o || o.idempotency_key == key) rows

-- The ValueError on an unsupported type is `none`.
abbrev pub due_time : Due → Option Instant
due_time (due_at t) = some t
due_time unsupported_type = none
due_time out_of_fuel = none

unfoldable pub advance : Definition → Instant → Definition → Definition
advance d due row = record row { last_scheduled_at = some d.next_due_at; next_due_at = due }

abbrev pub is_due : Instant → Definition → Bool
is_due now d = d.enabled && leb d.next_due_at now

abbrev pub earlier_due : Definition → Definition → Bool
earlier_due a b =
    ltb a.next_due_at b.next_due_at || (a.next_due_at == b.next_due_at && leb a.id b.id)

-- Chains the turns of the loop, gathering the claimed rows.
abbrev pub gather :
    List Occurrence → Option (List Occurrence × Store) → Option (List Occurrence × Store)
gather new none = none
gather new (some (more, s)) = some (new ++ more, s)

abbrev pub and_then :
    Option (List Occurrence × Store)
    → (Store → Option (List Occurrence × Store))
    → Option (List Occurrence × Store)
and_then none next = none
and_then (some (new, s)) next = gather new (next s)

module _ (out : Outside) where
  unfoldable pub new_occurrence : String → Definition → Store → Occurrence
  new_occurrence scheduler_id d s = record {
    id = out.uuid (length s.occurrences);
    definition_id = d.id;
    workspace_id = d.workspace_id;
    scheduled_for = d.next_due_at;
    status = queued;
    idempotency_key = out.digest d.id d.next_due_at;
    claimed_by = none;
    lease_expires_at = none;
    attempts = 0;
    next_retry_at = none;
    error_category = none;
    sanitized_error = none;
    result_manifest = ("scheduled_by", scheduler_id) ∷ [];
    started_at = none;
    finished_at = none;
  }

  materialize : String → Definition → Store → Option Instant → Option (List Occurrence × Store)
  unfolding new_occurrence advance
  materialize scheduler_id d s none = none
  materialize scheduler_id d s (some due) = some (
    new_occurrence scheduler_id d s ∷ [],
    record {
      definitions = update_rows (λ row. row.id == d.id) (advance d due) s.definitions;
      occurrences = new_occurrence scheduler_id d s ∷ s.occurrences;
    },
  )

  -- The body of the loop: a row that breaks a unique constraint is passed over.
  unfoldable pub schedule_one : String → Definition → Store → Option (List Occurrence × Store)
  unfolding conflicts materialize
  schedule_one scheduler_id d s =
      if conflicts d.id d.next_due_at (out.digest d.id d.next_due_at) s.occurrences
      then some ([], s)
      else materialize scheduler_id d s
          (due_time (next_due d.schedule_type d.schedule d.next_due_at))

  unfoldable pub schedule_all : String → List Definition → Store → Option (List Occurrence × Store)
  schedule_all scheduler_id [] s = some ([], s)
  schedule_all scheduler_id (d ∷ ds) s =
      and_then (schedule_one scheduler_id d s) (λ s'. schedule_all scheduler_id ds s')

  unfoldable pub claim_due_occurrences :
      String → Instant → ℕ → Store → Option (List Occurrence × Store)
  unfolding schedule_all schedule_one
  claim_due_occurrences scheduler_id now limit s =
      schedule_all scheduler_id
        (take limit (sort_rows earlier_due (where_rows (is_due now) s.definitions))) s

abbrev pub sooner : Occurrence → Occurrence → Bool
sooner a b =
    ltb a.scheduled_for b.scheduled_for || (a.scheduled_for == b.scheduled_for && leb a.id b.id)

-- The row that the query of `claim_next_occurrence` returns.
unfoldable pub next_claimable : Instant → List Occurrence → Option Occurrence
next_claimable now rows = least sooner (where_rows (is_claimable now) rows)

claim_found : String → Instant → ℕ → Store → Option Occurrence → Option Occurrence × Store
claim_found worker_id now lease_seconds s none = (none, s)
claim_found worker_id now lease_seconds s (some o) = (
  some (claim_row worker_id now lease_seconds o),
  record s {
    occurrences =
        update_rows (λ row. row.id == o.id) (claim_row worker_id now lease_seconds) s.occurrences;
  },
)

unfoldable pub claim_next_occurrence : String → Instant → ℕ → Store → Option Occurrence × Store
unfolding claim_found next_claimable
claim_next_occurrence worker_id now lease_seconds s =
    claim_found worker_id now lease_seconds s (next_claimable now s.occurrences)

-- `int((definition.retry_policy if definition else {}).get("maximum_attempts", 3))`
unfoldable pub attempts_allowed : List Definition → ℕ → ℕ
attempts_allowed definitions id = elim (find (λ d. d.id == id) definitions) [
  | none ↦ 3
  | some d ↦ maximum_attempts (some d.retry_attempts)
]

-- The loop stops at the first error.
abbrev pub both_rows : Option Occurrence → Option (List Occurrence) → Option (List Occurrence)
both_rows none rest = none
both_rows (some o) none = none
both_rows (some o) (some os) = some (o ∷ os)

module _ (out : Outside) (definitions : List Definition) where
  recover_one : Instant → Occurrence → Option Occurrence
  recover_one now o =
      if is_expired now o
      then recover_row out.draw (out.id_text o.id) (attempts_allowed definitions o.definition_id)
          now o
      else some o

  unfoldable pub recover_rows : Instant → List Occurrence → Option (List Occurrence)
  unfolding recover_one
  recover_rows now [] = some []
  recover_rows now (o ∷ os) = both_rows (recover_one now o) (recover_rows now os)

stored : Store → Option (List Occurrence) → Option Store
stored s none = none
stored s (some rows) = some (record s { occurrences = rows })

unfoldable pub recover_expired_occurrences : Outside → Instant → Store → Option Store
unfolding recover_rows stored
recover_expired_occurrences out now s = stored s (recover_rows out s.definitions now s.occurrences)
