-- ===== src/Operations/Queue/Leases.antt =====
-- Which occurrence a worker is given, and what a recovery leaves behind.
use Prim.Native.String.{String}
use market_intelligence_lab.Prelude.{
  least_where, least-Memᴰ, Memᴰ, Memᴰ-written, All-written, where_rows, where_rows-update_rows, not,
  ℕ, ◌+◌, ◌≤◌, ◌≡◌, refl, ◌⊎◌, inl, inr, true, false, none, some, List, [], ◌∷◌, arith, ◌==◌,
  update_rows, length, All, Bool-cases, ap, suc,
}
use market_intelligence_lab.Moments.{Instant, seconds}
use market_intelligence_lab.Operations.Occurrence.{Occurrence, is_claimable, claim_row, is_expired}
use market_intelligence_lab.Operations.Occurrence.Laws.{recover_row_total}
use market_intelligence_lab.Operations.Occurrence.Life.{is_held}
use market_intelligence_lab.Operations.Queue.{
  Definition, Store, Outside, sooner, next_claimable, claim_next_occurrence, attempts_allowed,
  recover_rows, recover_one,
}

sooner_total : (a b : Occurrence) → (sooner a b ≡ true) ⊎ (sooner b a ≡ true)
sooner_total a b = ground arith

sooner_trans : (a b c : Occurrence) → sooner a b ≡ true → sooner b c ≡ true → sooner a c ≡ true
sooner_trans a b c h k = ground arith

-- The worker is given a claimable occurrence than which no claimable one is due sooner, and nothing
-- only when there is none.
next_claimable_lem :
    (now : Instant) (rows : List Occurrence)
    → ((next_claimable now rows ≡ none) × All (λ r. is_claimable now r ≡ true → ⊥) rows)
      ⊎ ((o : Occurrence) × (next_claimable now rows ≡ some o)
          × (is_claimable now o ≡ true)
          × All (λ r. is_claimable now r ≡ true → sooner o r ≡ true) rows)
unfolding next_claimable
next_claimable_lem now rows = least_where sooner sooner_total sooner_trans (is_claimable now) rows

-- The worker is given the claimable occurrence that is due first, ties broken by id, out of the
-- table: it is handed over as it is now stored, claimed, with one more attempt and a lease from now.
-- Nobody can claim a stored row with its id again, and the other rows are left as they are. With
-- nothing claimable the call returns nothing and changes nothing.
pub claim_next_occurrence_lem :
    (worker : String) (now : Instant) (lease : ℕ) (s : Store)
    → ((claim_next_occurrence worker now lease s ≡ (none, s))
        × All (λ r. is_claimable now r ≡ true → ⊥) s.occurrences)
      ⊎ ((o c : Occurrence) × (s' : Store) × (claim_next_occurrence worker now lease s
            ≡ (some c, s'))
          × Memᴰ o s.occurrences
          × (is_claimable now o ≡ true)
          × All (λ r. is_claimable now r ≡ true → sooner o r ≡ true) s.occurrences
          × (c.id ≡ o.id)
          × (c.attempts ≡ o.attempts + 1)
          × Memᴰ c s'.occurrences
          × All
              (λ r.
                (r.id == o.id) ≡ true
                → (r.claimed_by ≡ some worker)
                  × (r.lease_expires_at ≡ some (now + seconds lease))
                  × ((later : Instant) → is_claimable later r ≡ false))
              s'.occurrences
          × (where_rows (λ r. not (r.id == o.id)) s'.occurrences
              ≡ where_rows (λ r. not (r.id == o.id)) s.occurrences))
unfolding claim_next_occurrence claim_row is_claimable next_claimable
claim_next_occurrence_lem worker now lease s = elim (next_claimable_lem now s.occurrences) [
  | inl (nothing, free) ↦ inl (rw nothing, free)
  | inr (o, found, passes, first) ↦
      let stored = least-Memᴰ sooner (is_claimable now) s.occurrences found in
      let claim = claim_row worker now lease in
      inr (
        o,
        claim o,
        record s { occurrences = update_rows (λ row. row.id == o.id) claim s.occurrences },
        rw found,
        stored,
        passes,
        first,
        refl,
        refl,
        Memᴰ-written (λ row. row.id == o.id) claim s.occurrences (ground arith) stored,
        All-written _ (λ row. row.id == o.id) claim s.occurrences
            (λ r same. (refl, refl, λ later. refl)),
        where_rows-update_rows (λ row. row.id == o.id) claim s.occurrences (λ r same. same),
      )
]

module _ (out : Outside) (definitions : List Definition) (now : Instant) where
  recover_one_total :
      (o : Occurrence)
      → (is_held o.status ≡ true → 1 ≤ o.attempts)
      → (o' : Occurrence) × (recover_one out definitions now o ≡ some o')
        × (is_expired now o' ≡ false)
  unfolding recover_one is_expired
  recover_one_total o h = elim (Bool-cases (is_expired now o)) [
    | inr lives ↦ (o, rw lives, lives)
    | inl expired ↦
        let (o', found, _, free, _, _, _) =
          recover_row_total out.draw (out.id_text o.id)
            (attempts_allowed definitions o.definition_id) now o (h (ground arith)) in
        (o', rw (expired, found), ground arith)
  ]

  -- When every held row has been attempted, a recovery succeeds; it keeps the rows and leaves none
  -- whose lease has run out.
  pub recover_rows_total :
      (rows : List Occurrence)
      → All (λ o. is_held o.status ≡ true → 1 ≤ o.attempts) rows
      → (rows' : List Occurrence) × (recover_rows out definitions now rows ≡ some rows')
        × (length rows' ≡ length rows)
        × All (λ o. is_expired now o ≡ false) rows'
  unfolding recover_rows
  recover_rows_total [] h = ([], refl, refl, tt)
  recover_rows_total (o ∷ os) h =
      let (o', found, done) = recover_one_total o h.0 in
      let (os', rest, same, all) = recover_rows_total os h.1 in
      (o' ∷ os', rw (found, rest), ap suc same, (done, all))
