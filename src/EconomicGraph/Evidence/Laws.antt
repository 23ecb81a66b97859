-- ===== src/EconomicGraph/Evidence/Laws.antt =====
-- No relationship is verified before its evidence (packages/economic_graph/service.py).
use market_intelligence_lab.Prelude.{
  ℕ, ◌≤◌, ◌≡◌, ◌⊎◌, sym, ap, Bool, true, false, inl, inr, Option, none, some, List, [], ◌∷◌, ◌++◌,
  map, max, ltb, leb, ◌==◌, every, arith, Bool-cases, Option-cases, All, where_rows, All-append,
  All-map, All-update_rows, All-at, Memᴰ, Memᴰ-append_left, Memᴰ-append_right, find, refl,
  update_rows,
}
use mathlib.Core.Path.{subst}
use mathlib.Core.List.{append-nil}
use mathlib.Core.Option.{some-injective}
use market_intelligence_lab.Moments.{Instant}
use market_intelligence_lab.EconomicGraph.Rows.{Entity, Relationship, relationship_visible}
use market_intelligence_lab.EconomicGraph.Evidence.Confidence.{aggregate_confidence}
use market_intelligence_lab.EconomicGraph.Evidence.{
  Evidence, Link, Tables, Cited, Proposal, create_evidence, create_relationship,
  expire_relationship, is_supporting, is_verified, supporting_of, link_to, new_relationship,
  add_relationship, expired_at, Related, is_sha256, same_source, is_empty, is_refused, is_direction,
  evidence_floor, latest, same_relationship,
}

-- A supporting link to a row of evidence that was published and eligible by a time.
pub record IsBacked (s : Tables) (id : ℕ) (t : Instant) : Type 0 where
  pub link : Link
  pub row : Evidence
  pub stored_link : Memᴰ link s.links
  pub stored_row : Memᴰ row s.evidence
  pub of_relationship : link.relationship_id ≡ id
  pub of_evidence : link.evidence_id ≡ row.id
  pub supports : is_supporting link.direction ≡ true
  pub eligible : row.simulation_eligible_time ≤ t
  pub published : row.publication_time ≤ t

abbrev IsPublished : Evidence → Type 0
IsPublished e = e.publication_time ≤ e.simulation_eligible_time

abbrev IsBackedRow : Tables → Relationship → Type 0
IsBackedRow s r = is_verified r.status ≡ true → IsBacked s r.id r.simulation_eligible_time

pub record IsSound (s : Tables) : Type 0 where
  pub backed : All (IsBackedRow s) s.graph.relationships
  pub published : All IsPublished s.evidence

-- Evidence and links are only added.
IsBacked-added :
    (s s' : Tables) (rows : List Evidence) (links : List Link) (id : ℕ) (t : Instant)
    → s'.evidence ≡ s.evidence ++ rows
    → s'.links ≡ s.links ++ links
    → IsBacked s id t
    → IsBacked s' id t
IsBacked-added s s' rows links id t e k b = record {
  link = b.link;
  row = b.row;
  stored_link = rw k (Memᴰ-append_left s.links links b.stored_link);
  stored_row = rw e (Memᴰ-append_left s.evidence rows b.stored_row);
  of_relationship = b.of_relationship;
  of_evidence = b.of_evidence;
  supports = b.supports;
  eligible = b.eligible;
  published = b.published;
}

latest-ge :
    (t : Instant) (cs : List Cited)
    → (t ≤ latest t cs) × All (λ c. c.row.simulation_eligible_time ≤ latest t cs) cs
latest-ge t [] = (omega arith, tt)
latest-ge t (c ∷ cs) =
    let (start, rest) = latest-ge (max t c.row.simulation_eligible_time) cs in
    (omega arith, (omega arith, rest))

evidence_floor-ge :
    (t : Instant) (cs : List Cited)
    → All (λ c. c.row.simulation_eligible_time ≤ evidence_floor t cs) cs
evidence_floor-ge t [] = tt
evidence_floor-ge t (c ∷ cs) = latest-ge c.row.simulation_eligible_time cs

-- The first supporting row that is cited, if the test for one passed.
first_supporting :
    (cs : List Cited)
    → is_empty (where_rows (λ c. is_supporting c.direction) cs) ≡ false
    → (c : Cited) × Memᴰ c cs
      × Memᴰ c (where_rows (λ c. is_supporting c.direction) cs)
      × (is_supporting c.direction ≡ true)
first_supporting [] h = cc
first_supporting (c ∷ cs) h = elim (Bool-cases (is_supporting c.direction)) [
  | inl e ↦ rw e (c, Memᴰ.head refl, Memᴰ.head refl, e)
  | inr e ↦ let (d, m, k, i) = first_supporting cs (rw e at h) in rw e (d, Memᴰ.tail m, k, i)
]

Memᴰ-link_to :
    (id : ℕ) (c : Cited) (cs : List Cited) → Memᴰ c cs → Memᴰ (link_to id c) (map (link_to id) cs)
Memᴰ-link_to id c [] m = elim m [ ]
Memᴰ-link_to id c (d ∷ cs) (Memᴰ.head e) = Memᴰ.head (ap (link_to id) e)
Memᴰ-link_to id c (d ∷ cs) (Memᴰ.tail m) = Memᴰ.tail (Memᴰ-link_to id c cs m)

-- What a call that returns has tested, and what it left.
pub create_relationship-eq-some :
    (id : ℕ) (p : Proposal) (s s' : Tables) (r : Relationship) (added : Bool)
    → create_relationship id p s ≡ some (s', r, added)
    → (is_refused p ≡ false)
      × ((s' ≡ s)
          ⊎ ((confidence : ℕ) × (s'
                ≡ add_relationship (new_relationship id p confidence) p.evidence s)))
unfolding create_relationship
create_relationship-eq-some id p s s' r added h = elim (Bool-cases (is_refused p)) [
  | inl e ↦ let bad : ◌≡◌ {A = Related} none (some (s', r, added)) = (rw e at h) in cc
  | inr e ↦ elim (Option-cases (aggregate_confidence p.components)) [
    | inl k ↦ let bad : ◌≡◌ {A = Related} none (some (s', r, added)) = (rw (e, k) at h) in cc
    | inr (confidence, k) ↦ elim (Option-cases (find (same_relationship p) s.graph.relationships)) [
      | inr (x, i) ↦
          let same : (s, x, false) ≡ (s', r, added) = some-injective _ _ (rw (e, k, i) at h) in
          (e, inl (sym (ap (λ t. t.0) same)))
      | inl i ↦ elim (Bool-cases (every (λ c. is_direction c.direction) p.evidence)) [
        | inr j ↦
            let bad : ◌≡◌ {A = Related} none (some (s', r, added)) = (rw (e, k, i, j) at h) in cc
        | inl j ↦
            let same : (
              add_relationship (new_relationship id p confidence) p.evidence s,
              new_relationship id p confidence,
              true,
            )
                ≡ (s', r, added) =
              some-injective _ _ (rw (e, k, i, j) at h) in
            (e, inr (confidence, sym (ap (λ t. t.0) same)))
      ]
    ]
  ]
]

create_evidence-eq-some :
    (e : Evidence) (s s' : Tables) (row : Evidence) (added : Bool)
    → create_evidence e s ≡ some (s', row, added)
    → IsPublished e × ((s' ≡ s) ⊎ (s' ≡ record s { evidence = s.evidence ++ (e ∷ []) }))
unfolding create_evidence
create_evidence-eq-some e s s' row added h = elim (Bool-cases (is_sha256 e.checksum)) [
  | inr k ↦
      let bad : ◌≡◌ {A = Option (Tables × Evidence × Bool)} none (some (s', row, added)) =
        (rw k at h) in
      cc
  | inl k ↦ elim (Bool-cases (ltb e.simulation_eligible_time e.publication_time)) [
    | inl i ↦
        let bad : ◌≡◌ {A = Option (Tables × Evidence × Bool)} none (some (s', row, added)) =
          (rw (k, i) at h) in
        cc
    | inr i ↦
        let published : IsPublished e = ground arith in
        elim (Option-cases (find (same_source e) s.evidence)) [
          | inl j ↦ (published, inr (sym (ap (λ t. t.0) (some-injective _ _ (rw (k, i, j) at h)))))
          | inr (x, j) ↦
              (published, inl (sym (ap (λ t. t.0) (some-injective _ _ (rw (k, i, j) at h)))))
        ]
  ]
]

-- The relationship that is added stands on the first supporting row that was cited.
IsBacked-add_relationship :
    (id : ℕ) (p : Proposal) (s : Tables) (confidence : ℕ)
    → All IsPublished s.evidence
    → All (λ c. Memᴰ c.row s.evidence) p.evidence
    → is_refused p ≡ false
    → is_verified p.status ≡ true
    → IsBacked
        (add_relationship (new_relationship id p confidence) p.evidence s)
        id
        p.simulation_eligible_time
IsBacked-add_relationship id p s confidence published cited accepted v =
    let (c, m, k, supports) = first_supporting p.evidence (ground arith) in
    let stored = All-at (λ c. Memᴰ c.row s.evidence) p.evidence cited m in
    let floor =
      All-at _ (supporting_of p) (evidence_floor-ge p.simulation_eligible_time (supporting_of p))
        k in
    let eligible : c.row.simulation_eligible_time ≤ p.simulation_eligible_time = ground arith in
    record {
      link = link_to id c;
      row = c.row;
      stored_link = Memᴰ-append_right s.links _ (Memᴰ-link_to id c p.evidence m);
      stored_row = stored;
      of_relationship = refl;
      of_evidence = refl;
      supports = supports;
      eligible = eligible;
      published = omega (arith, eligible, All-at IsPublished s.evidence published stored);
    }

-- A call that returns; the evidence that a proposal cites is stored.
pub data Step (s s' : Tables) : Type 0 where
  evidence_created :
      (e row : Evidence) (added : Bool) → create_evidence e s ≡ some (s', row, added) → Step s s'
  relationship_created :
      (id : ℕ) (p : Proposal) (r : Relationship) (added : Bool)
      → All (λ c. Memᴰ c.row s.evidence) p.evidence
      → create_relationship id p s ≡ some (s', r, added)
      → Step s s'
  relationship_expired :
      (r : Relationship) (t : Instant) → expire_relationship r t s ≡ some s' → Step s s'

-- The tables that calls have made from entities alone.
pub data History : Tables → Type 0 where
  begun :
      (entities : List Entity)
      → History (record {
        graph = record { entities = entities; relationships = [] };
        evidence = [];
        links = [];
      })
  called : {s s' : Tables} → History s → Step s s' → History s'

IsSound-create_evidence :
    (e row : Evidence) (s s' : Tables) (added : Bool)
    → create_evidence e s ≡ some (s', row, added)
    → IsSound s
    → IsSound s'
IsSound-create_evidence e row s s' added h sound =
    let (published, left) = create_evidence-eq-some e s s' row added h in
    elim left [
      | inl same ↦ subst IsSound (sym same) sound
      | inr same ↦ subst IsSound (sym same) (record {
        backed =
            All-map (IsBackedRow s) (IsBackedRow _)
              (λ r b v.
                IsBacked-added s _ (e ∷ []) [] r.id r.simulation_eligible_time refl
                  (sym (append-nil s.links)) (b v))
              s.graph.relationships sound.backed;
        published = All-append IsPublished s.evidence (e ∷ []) sound.published (published, tt);
      })
    ]

IsSound-create_relationship :
    (id : ℕ) (p : Proposal) (s s' : Tables) (r : Relationship) (added : Bool)
    → All (λ c. Memᴰ c.row s.evidence) p.evidence
    → create_relationship id p s ≡ some (s', r, added)
    → IsSound s
    → IsSound s'
IsSound-create_relationship id p s s' r added cited h sound =
    let (accepted, left) = create_relationship-eq-some id p s s' r added h in
    elim left [
      | inl same ↦ subst IsSound (sym same) sound
      | inr (confidence, same) ↦ subst IsSound (sym same) (record {
        backed =
            All-append (IsBackedRow _) s.graph.relationships (new_relationship id p confidence ∷ [])
              (All-map (IsBackedRow s) (IsBackedRow _)
                (λ r b v.
                  IsBacked-added s _ [] (map (link_to id) p.evidence) r.id
                    r.simulation_eligible_time (sym (append-nil s.evidence)) refl (b v))
                s.graph.relationships sound.backed)
              (IsBacked-add_relationship id p s confidence sound.published cited accepted, tt);
        published = sound.published;
      })
    ]

IsSound-expire_relationship :
    (r : Relationship) (t : Instant) (s s' : Tables)
    → expire_relationship r t s ≡ some s'
    → IsSound s
    → IsSound s'
unfolding expire_relationship
IsSound-expire_relationship r t s s' h sound = elim (Bool-cases (leb t r.valid_from)) [
  | inl e ↦ let bad : none ≡ some s' = (rw e at h) in cc
  | inr e ↦ subst IsSound (some-injective _ _ (rw e at h)) (record {
    backed =
        All-update_rows (IsBackedRow _) (λ x. x.id == r.id) (expired_at t) s.graph.relationships
          (λ x b v. cc)
          (All-map (IsBackedRow s) (IsBackedRow _)
            (λ x b v.
              IsBacked-added s _ [] [] x.id x.simulation_eligible_time (sym (append-nil s.evidence))
                (sym (append-nil s.links)) (b v))
            s.graph.relationships sound.backed);
    published = sound.published;
  })
]

IsSound-Step : (s s' : Tables) → Step s s' → IsSound s → IsSound s'
IsSound-Step s s' (Step.evidence_created e row added h) sound =
    IsSound-create_evidence e row s s' added h sound
IsSound-Step s s' (Step.relationship_created id p r added cited h) sound =
    IsSound-create_relationship id p s s' r added cited h sound
IsSound-Step s s' (Step.relationship_expired r t h) sound =
    IsSound-expire_relationship r t s s' h sound

-- Whatever calls have been made, every verified relationship has a supporting link to stored
-- evidence that was published and eligible no later than the relationship became eligible.
pub History-IsSound : {s : Tables} → History s → IsSound s
History-IsSound (History.begun entities) = record { backed = tt; published = tt }
History-IsSound (History.called {s = s} {s' = s'} before step) =
    IsSound-Step s s' step (History-IsSound before)

-- Once a relationship is expired it is visible at no time, not even at one before its expiry.
pub expire_relationship_hides :
    (r : Relationship) (t as_of : Instant) (s s' : Tables)
    → expire_relationship r t s ≡ some s'
    → All (λ x. x.id ≡ r.id → relationship_visible as_of x ≡ false) s'.graph.relationships
unfolding expire_relationship
expire_relationship_hides r t as_of s s' h = elim (Bool-cases (leb t r.valid_from)) [
  | inl e ↦ let bad : none ≡ some s' = (rw e at h) in cc
  | inr e ↦
      subst
        (λ v. All (λ x. x.id ≡ r.id → relationship_visible as_of x ≡ false) v.graph.relationships)
        (some-injective _ _ (rw e at h)) (hidden s.graph.relationships)
]
  where
    hidden :
        (rows : List Relationship)
        → All
            (λ x. x.id ≡ r.id → relationship_visible as_of x ≡ false)
            (update_rows (λ x. x.id == r.id) (expired_at t) rows)
    hidden [] = tt
    hidden (x ∷ xs) = (ground arith, hidden xs)
