-- ===== src/Operations/Queue/Claims.antt =====
-- What the durable queue promises of its claims.
use Prim.Native.String.{String}
use market_intelligence_lab.Prelude.{
  ℕ, ◌+◌, ◌≤◌, ◌≡◌, refl, inl, inr, true, false, some, List, [], ◌∷◌, arith, ◌==◌, where_rows,
  exists_row, update_rows, sort_rows, take, length, ◌++◌, All, Bool-cases, All-take, All-sort_rows,
  All-where_rows, length-take, length-append, All-where_rows_of, All-append, All-zip,
}
use market_intelligence_lab.Moments.{Instant, seconds}
use market_intelligence_lab.Operations.Schedule.Laws.{is_supported, next_due_advances}
use market_intelligence_lab.Operations.Occurrence.{Occurrence, queued}
use market_intelligence_lab.Operations.Queue.{
  Definition, Store, Outside, same_slot, conflicts, new_occurrence, schedule_one, schedule_all,
  advance, is_due, earlier_due, claim_due_occurrences,
}

-- No two occurrences of one definition share their due time.
abbrev pub IsDistinct : List Occurrence → Type 0
IsDistinct [] = Unit
IsDistinct (o ∷ os) =
    (exists_row (same_slot o.definition_id o.scheduled_for) os ≡ false) × IsDistinct os

no_conflict :
    (definition : ℕ) (due : Instant) (key : ℕ) (rows : List Occurrence)
    → conflicts definition due key rows ≡ false
    → exists_row (same_slot definition due) rows ≡ false
unfolding conflicts
no_conflict definition due key [] h = refl
no_conflict definition due key (o ∷ os) h = ground (arith, no_conflict definition due key os)

-- What the loop adds and leaves behind.
record Turn (now : Instant) (most : ℕ) (new : List Occurrence) (old s : Store) : Type 0 where
  few : length new ≤ most
  fresh : All (λ o. (o.status ≡ queued) × (o.attempts ≡ 0) × (o.scheduled_for ≤ now)) new
  added : length s.occurrences ≡ length new + length old.occurrences
  distinct : IsDistinct old.occurrences → IsDistinct s.occurrences

module _ (now : Instant) {m n : ℕ} {new more : List Occurrence} {s t u : Store} where
  Turn-trans : Turn now m new s t → Turn now n more t u → Turn now (m + n) (new ++ more) s u
  Turn-trans a b = record {
    few = omega (arith, a.few, b.few, length-append new more);
    fresh = All-append _ new more a.fresh b.fresh;
    added = omega (arith, a.added, b.added, length-append new more);
    distinct = λ h. b.distinct (a.distinct h);
  }

module _ (out : Outside) (scheduler_id : String) (now : Instant) where
  -- The row that a turn writes for a definition whose slot is free.
  abbrev pub scheduled : Definition → Instant → Store → Store
  scheduled d t s = record {
    definitions = update_rows (λ row. row.id == d.id) (advance d t) s.definitions;
    occurrences = new_occurrence out scheduler_id d s ∷ s.occurrences;
  }

  -- A turn on a definition whose slot is free adds one occurrence and moves the definition on by a
  -- minute or more.
  schedule_one-free :
      (d : Definition) (s : Store)
      → is_supported d.schedule_type ≡ true
      → conflicts d.id d.next_due_at (out.digest d.id d.next_due_at) s.occurrences ≡ false
      → (t : Instant) × (schedule_one out scheduler_id d s
          ≡ some (new_occurrence out scheduler_id d s ∷ [], scheduled d t s))
        × (d.next_due_at + seconds 60 ≤ t)
  unfolding schedule_one
  schedule_one-free d s ok free =
      let (t, found, later, _) =
        (next_due_advances d.schedule_type d.schedule d.next_due_at).0 ok in
      (t, rw (free, found), later)

  schedule_one-taken :
      (d : Definition) (s : Store)
      → conflicts d.id d.next_due_at (out.digest d.id d.next_due_at) s.occurrences ≡ true
      → schedule_one out scheduler_id d s ≡ some ([], s)
  unfolding schedule_one
  schedule_one-taken d s taken = rw taken

  schedule_one-Turn :
      (d : Definition) (s : Store)
      → (is_supported d.schedule_type ≡ true) × (is_due now d ≡ true)
      → (new : List Occurrence) × (s' : Store) × (schedule_one out scheduler_id d s
          ≡ some (new, s'))
        × Turn now 1 new s s'
  unfolding new_occurrence
  schedule_one-Turn d s (ok, due) =
      elim (Bool-cases
        (conflicts d.id d.next_due_at (out.digest d.id d.next_due_at) s.occurrences)) [
          | inl taken ↦ (
            [],
            s,
            schedule_one-taken d s taken,
            record { few = omega arith; fresh = tt; added = omega arith; distinct = λ h. h },
          )
          | inr free ↦
              let (t, found, _) = schedule_one-free d s ok free in
              (
                new_occurrence out scheduler_id d s ∷ [],
                scheduled d t s,
                found,
                record {
                  few = omega arith;
                  fresh = ((refl, refl, ground arith), tt);
                  added = omega arith;
                  distinct = λ h. (no_conflict _ _ _ s.occurrences free, h);
                },
              )
        ]

  schedule_all-Turn :
      (ds : List Definition) (s : Store)
      → All (λ d. (is_supported d.schedule_type ≡ true) × (is_due now d ≡ true)) ds
      → (new : List Occurrence) × (s' : Store) × (schedule_all out scheduler_id ds s
          ≡ some (new, s'))
        × Turn now (length ds) new s s'
  unfolding schedule_all
  schedule_all-Turn [] s h = (
    [],
    s,
    refl,
    record { few = omega arith; fresh = tt; added = omega arith; distinct = λ h. h },
  )
  schedule_all-Turn (d ∷ ds) s h =
      let (new, t, found, turn) = schedule_one-Turn d s h.0 in
      let (more, u, rest, turns) = schedule_all-Turn ds t h.1 in
      let both = Turn-trans now turn turns in
      (
        new ++ more,
        u,
        rw (found, rest),
        record {
          few = omega (arith, both.few);
          fresh = both.fresh;
          added = both.added;
          distinct = both.distinct;
        },
      )

  -- The definitions that a call visits are due and supported, and no more than the limit.
  visited : ℕ → Store → List Definition
  visited limit s = take limit (sort_rows earlier_due (where_rows (is_due now) s.definitions))

  visited-All :
      (P : Definition → Type 0) (limit : ℕ) (s : Store)
      → All P (where_rows (is_due now) s.definitions)
      → All P (visited limit s)
  unfolding visited
  visited-All P limit s h = All-take P limit _ (All-sort_rows P earlier_due _ h)

  both :
      (ds : List Definition)
      → All (λ d. is_supported d.schedule_type ≡ true) ds
      → All
          (λ d. (is_supported d.schedule_type ≡ true) × (is_due now d ≡ true))
          (where_rows (is_due now) ds)
  both ds h =
      All-zip _ _ (where_rows (is_due now) ds) (All-where_rows_of _ (is_due now) ds h)
        (All-where_rows (is_due now) ds)

  -- When every definition has a supported schedule and no definition has two occurrences for one due
  -- time, a call succeeds: it returns at most `limit` rows, all of them queued, unattempted and due
  -- by now; it adds just as many rows to the table; and again no definition has two occurrences for
  -- one due time.
  pub claim_due_occurrences_total :
      (limit : ℕ) (s : Store)
      → All (λ d. is_supported d.schedule_type ≡ true) s.definitions
      → IsDistinct s.occurrences
      → (new : List Occurrence) × (s' : Store) × (claim_due_occurrences out scheduler_id now limit s
          ≡ some (new, s'))
        × (length new ≤ limit)
        × All (λ o. (o.status ≡ queued) × (o.attempts ≡ 0) × (o.scheduled_for ≤ now)) new
        × (length s'.occurrences ≡ length new + length s.occurrences)
        × IsDistinct s'.occurrences
  unfolding claim_due_occurrences visited
  claim_due_occurrences_total limit s h apart =
      let (new, s', found, turn) =
        schedule_all-Turn (visited limit s) s (visited-All _ limit s (both s.definitions h)) in
      (
        new,
        s',
        found,
        omega (
          arith,
          turn.few,
          length-take limit (sort_rows earlier_due (where_rows (is_due now) s.definitions)),
        ),
        turn.fresh,
        turn.added,
        turn.distinct apart,
      )
