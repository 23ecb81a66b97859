-- ===== src/Operations/Queue/Blocked.antt =====
-- A definition that the queue passes over (packages/operations/service.py, `claim_due_occurrences`).
use Prim.Native.String.{String}
use market_intelligence_lab.Prelude.{
  update_rows, ℕ, ◌≡◌, ◌∙◌, sym, ap, inl, inr, true, false, Option, none, some, List, [], ◌∷◌, ◌++◌,
  ◌==◌, arith, where_rows, sort_rows, take, All, All-take, All-sort_rows, All-where_rows_of,
  All-append, Memᴰ, Memᴰ-update_rows, Bool-cases, Option-cases,
}
use mathlib.Core.Path.{subst}
use mathlib.Core.Option.{some-injective}
use market_intelligence_lab.Moments.{Instant}
use market_intelligence_lab.Operations.Schedule.{next_due}
use market_intelligence_lab.Operations.Occurrence.{Occurrence}
use market_intelligence_lab.Operations.Queue.{
  Definition, Store, Outside, conflicts, due_time, new_occurrence, advance, schedule_one,
  schedule_all, is_due, earlier_due, claim_due_occurrences,
}
use market_intelligence_lab.Operations.Queue.Claims.{scheduled}

module _ (out : Outside) (scheduler_id : String) where
  -- A definition whose row is stored, the only one with its id, and whose slot is taken.
  record IsBlocked (d : Definition) (s : Store) : Type 0 where
    stored : Memᴰ d s.definitions
    taken : conflicts d.id d.next_due_at (out.digest d.id d.next_due_at) s.occurrences ≡ true
    alone : All (λ e. (e.id == d.id) ≡ true → e ≡ d) s.definitions

  -- Moving another definition on leaves the blocked one the only one with its id.
  alone-advanced :
      (d e : Definition) (t : Instant) (rows : List Definition)
      → (e.id == d.id) ≡ false
      → All (λ x. (x.id == d.id) ≡ true → x ≡ d) rows
      → All
          (λ x. (x.id == d.id) ≡ true → x ≡ d)
          (update_rows (λ row. row.id == e.id) (advance e t) rows)
  unfolding advance
  alone-advanced d e t [] other h = tt
  alone-advanced d e t (x ∷ xs) other h = elim (Bool-cases (x.id == e.id)) [
    | inl k ↦ rw k (
      (λ same. (let bad : (e.id == d.id) ≡ true = ground arith in let no = sym bad ∙ other in cc)),
      alone-advanced d e t xs other h.1,
    )
    | inr k ↦ rw k (h.0, alone-advanced d e t xs other h.1)
  ]

  conflicts-more :
      (d : Definition) (o : Occurrence) (rows : List Occurrence)
      → conflicts d.id d.next_due_at (out.digest d.id d.next_due_at) rows ≡ true
      → conflicts d.id d.next_due_at (out.digest d.id d.next_due_at) (o ∷ rows) ≡ true
  unfolding conflicts
  conflicts-more d o rows h = ground arith

  -- A turn on another definition, or on the blocked one, leaves it blocked.
  schedule_one-IsBlocked :
      (d e : Definition) (s : Store) {new : List Occurrence} {s' : Store}
      → ((e.id == d.id) ≡ true → e ≡ d)
      → IsBlocked d s
      → schedule_one out scheduler_id e s ≡ some (new, s')
      → IsBlocked d s' × All (λ o. (o.definition_id == d.id) ≡ false) new
  unfolding schedule_one
  schedule_one-IsBlocked d e s {new} {s'} same b h =
      elim (Bool-cases
        (conflicts e.id e.next_due_at (out.digest e.id e.next_due_at) s.occurrences)) [
          | inl k ↦
              let unchanged = some-injective _ _ (rw k at h) in
              (
                subst (IsBlocked d) (ap (λ t. t.1) unchanged) b,
                subst (All (λ o. (o.definition_id == d.id) ≡ false)) (ap (λ t. t.0) unchanged) tt,
              )
          | inr k ↦
              let other : (e.id == d.id) ≡ false = elim (Bool-cases (e.id == d.id)) [
                | inr n ↦ n
                | inl y ↦
                    let it = same y in
                    let bad =
                      sym b.taken
                      ∙ ap
                          (λ x.
                            conflicts x.id x.next_due_at (out.digest x.id x.next_due_at)
                              s.occurrences)
                          (sym it)
                      ∙ k in
                    cc
              ] in
              let apart : (d.id == e.id) ≡ false = ground arith in
              elim (Option-cases (due_time (next_due e.schedule_type e.schedule e.next_due_at))) [
                | inl missing ↦
                    let bad : ◌≡◌ {A = Option (List Occurrence × Store)} none (some (new, s')) =
                      (rw missing at (rw k at h)) in
                    cc
                | inr (t, found) ↦
                    let written = some-injective _ _ (rw found at (rw k at h)) in
                    let after : IsBlocked d (scheduled out scheduler_id e.next_due_at e t s) =
                      record {
                        stored =
                            Memᴰ-update_rows (λ row. row.id == e.id) (advance e t) s.definitions
                              apart b.stored;
                        taken =
                            conflicts-more d (new_occurrence out scheduler_id e s) s.occurrences
                              b.taken;
                        alone = alone-advanced d e t s.definitions other b.alone;
                      } in
                    (
                      subst (IsBlocked d) (ap (λ x. x.1) written) after,
                      subst (All (λ o. (o.definition_id == d.id) ≡ false)) (ap (λ x. x.0) written)
                          (other, tt),
                    )
              ]
        ]

  schedule_all-IsBlocked :
      (d : Definition) (es : List Definition) (s : Store) {new : List Occurrence} {s' : Store}
      → All (λ e. (e.id == d.id) ≡ true → e ≡ d) es
      → IsBlocked d s
      → schedule_all out scheduler_id es s ≡ some (new, s')
      → IsBlocked d s' × All (λ o. (o.definition_id == d.id) ≡ false) new
  unfolding schedule_all
  schedule_all-IsBlocked d [] s {new} {s'} same b h =
      let unchanged = some-injective _ _ h in
      (
        subst (IsBlocked d) (ap (λ t. t.1) unchanged) b,
        subst (All (λ o. (o.definition_id == d.id) ≡ false)) (ap (λ t. t.0) unchanged) tt,
      )
  schedule_all-IsBlocked d (e ∷ es) s {new} {s'} same b h =
      elim (Option-cases (schedule_one out scheduler_id e s)) [
        | inl missing ↦
            let bad : ◌≡◌ {A = Option (List Occurrence × Store)} none (some (new, s')) =
              (rw missing at h) in
            cc
        | inr ((first, t), found) ↦
            let (b', apart) = schedule_one-IsBlocked d e s {new = first} {s' = t} same.0 b found in
            elim (Option-cases (schedule_all out scheduler_id es t)) [
              | inl missing ↦
                  let bad : ◌≡◌ {A = Option (List Occurrence × Store)} none (some (new, s')) =
                    (rw missing at (rw found at h)) in
                  cc
              | inr ((more, u), rest) ↦
                  let (b'', away) =
                    schedule_all-IsBlocked d es t {new = more} {s' = u} same.1 b' rest in
                  let both : ◌≡◌ {A = Option (List Occurrence × Store)} (some (first ++ more, u))
                      (some (new, s')) =
                    (rw rest at (rw found at h)) in
                  let pair = some-injective _ _ both in
                  (
                    subst (IsBlocked d) (ap (λ x. x.1) pair) b'',
                    subst (All (λ o. (o.definition_id == d.id) ≡ false)) (ap (λ x. x.0) pair)
                        (All-append _ first more apart away),
                  )
            ]
      ]

  call-IsBlocked :
      (now : Instant) (limit : ℕ) (d : Definition) (s : Store) {new : List Occurrence} {s' : Store}
      → IsBlocked d s
      → claim_due_occurrences out scheduler_id now limit s ≡ some (new, s')
      → IsBlocked d s' × All (λ o. (o.definition_id == d.id) ≡ false) new
  unfolding claim_due_occurrences
  call-IsBlocked now limit d s {new} {s'} b h =
      schedule_all-IsBlocked d
        (take limit (sort_rows earlier_due (where_rows (is_due now) s.definitions))) s {new = new}
        {s' = s'}
        (All-take _ limit _
          (All-sort_rows _ earlier_due _ (All-where_rows_of _ (is_due now) s.definitions b.alone)))
        b h

  -- Calls one after another, each with its time and its limit, that all succeed, and what they make.
  pub data Calls : Store → List Occurrence → Store → Type 0 where
    no_call : {s : Store} → Calls s [] s
    call :
        (now : Instant) (limit : ℕ) {s t u : Store} (new more : List Occurrence)
        → claim_due_occurrences out scheduler_id now limit s ≡ some (new, t)
        → Calls t more u
        → Calls s (new ++ more) u

  Calls-IsBlocked :
      (d : Definition) {s s' : Store} {new : List Occurrence}
      → Calls s new s'
      → IsBlocked d s
      → IsBlocked d s' × All (λ o. (o.definition_id == d.id) ≡ false) new
  Calls-IsBlocked d no_call b = (b, tt)
  Calls-IsBlocked d (call now limit {s = s} {t = t} new more found rest) b =
      let (b', apart) = call-IsBlocked now limit d s {new = new} {s' = t} b found in
      let (b'', away) = Calls-IsBlocked d rest b' in (b'', All-append _ new more apart away)

  -- A stored definition whose slot is taken, by an occurrence of its next due time or by one with the
  -- same key, and with whose id no other definition is stored, is never scheduled again: calls one after
  -- another that succeed, at whatever times and limits and whatever the other definitions are, make no
  -- occurrence of it and leave its row as it was, next due time included.
  pub blocked_stays_due :
      (d : Definition) {s s' : Store} {new : List Occurrence}
      → Memᴰ d s.definitions
      → All (λ e. (e.id == d.id) ≡ true → e ≡ d) s.definitions
      → conflicts d.id d.next_due_at (out.digest d.id d.next_due_at) s.occurrences ≡ true
      → Calls s new s'
      → All (λ o. (o.definition_id == d.id) ≡ false) new × Memᴰ d s'.definitions
  blocked_stays_due d stored same taken calls =
      let (b, apart) =
        Calls-IsBlocked d calls (record { stored = stored; taken = taken; alone = same }) in
      (apart, b.stored)
