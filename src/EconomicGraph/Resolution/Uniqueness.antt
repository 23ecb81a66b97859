-- ===== src/EconomicGraph/Resolution/Uniqueness.antt =====
-- An identifier belongs to one entity (packages/economic_graph/service.py).
use market_intelligence_lab.Prelude.{
  ℕ, ◌≡◌, ◌⊎◌, ◌∙◌, inl, inr, sym, ap, refl, true, false, Option, none, some, List, [], ◌∷◌, ◌++◌,
  ◌==◌, find, exists_row, distinct_by, distinct_by-append_one, find-eq-none, Bool-cases,
  Option-cases,
}
use mathlib.Core.Path.{subst}
use mathlib.Core.Option.{some-injective}
use market_intelligence_lab.EconomicGraph.Identifiers.{PythonText, normalize_identifier}
use market_intelligence_lab.EconomicGraph.Resolution.{
  Identifier, Verdict, confirmed, refused, unsupported_verdict, Candidate, CandidateStatus,
  Decision, Registry, Mapping, Attached, same_identifier, identifier_of, keep_candidate,
  same_candidate, attach_to, attach_identifier, create_resolution_candidate, candidate_of,
  identifiers_after, decide_row, decide_resolution, identifier_from, is_final, is_supported,
  same_verdict, recorded,
}

-- At most one row for the same identifier of a workspace.
abbrev pub IsUnique : List Identifier → Type 0
IsUnique rows = distinct_by same_identifier rows ≡ true

IsUnique-put :
    (i : Identifier) (rows : List Identifier)
    → IsUnique rows
    → find (λ x. same_identifier x i) rows ≡ none
    → IsUnique (rows ++ (i ∷ []))
IsUnique-put i rows u h =
    distinct_by-append_one same_identifier rows i u (find-eq-none (λ x. same_identifier x i) rows h)

keep_candidate-identifiers :
    (c : Candidate) (s : Registry) (o : Option Candidate)
    → (keep_candidate c s o).0.identifiers ≡ s.identifiers
keep_candidate-identifiers c s none = refl
keep_candidate-identifiers c s (some x) = refl

IsUnique-identifiers_after :
    (v : Verdict) (c : Candidate) (rows after : List Identifier)
    → IsUnique rows
    → identifiers_after v c rows ≡ some after
    → IsUnique after
IsUnique-identifiers_after refused c rows after u h = subst IsUnique (some-injective _ _ h) u
IsUnique-identifiers_after (unsupported_verdict n) c rows after u h =
    subst IsUnique (some-injective _ _ h) u
IsUnique-identifiers_after confirmed c rows after u h =
    elim (Option-cases (find (λ x. same_identifier x (identifier_from c)) rows)) [
      | inl e ↦
          subst IsUnique (some-injective _ _ (rw e at h))
            (IsUnique-put (identifier_from c) rows u e)
      | inr (x, e) ↦ elim (Bool-cases (x.entity_id == c.candidate_entity_id)) [
        | inl k ↦ subst IsUnique (some-injective _ _ (rw (e, k) at h)) u
        | inr k ↦ let bad : none ≡ some after = (rw (e, k) at h) in cc
      ]
    ]

-- A decision leaves the registry alone, or writes the identifiers that it asks for.
decide_row-identifiers :
    (c : Candidate) (v : Verdict) (s s' : Registry) (d : Decision)
    → decide_row c v s ≡ some (s', d)
    → (s' ≡ s) ⊎ (identifiers_after v c s.identifiers ≡ some s'.identifiers)
decide_row-identifiers c v s s' d h = elim (Bool-cases (is_final c.status)) [
  | inl e ↦ elim (Option-cases (find (λ d. d.candidate_id == c.id) s.decisions)) [
    | inl k ↦
        let bad : ◌≡◌ {A = Option (Registry × Decision)} none (some (s', d)) = (rw (e, k) at h) in
        cc
    | inr (x, k) ↦ elim (Bool-cases (same_verdict x.decision v)) [
      | inl i ↦ inl (sym (ap (λ t. t.0) (some-injective (s, x) (s', d) (rw (e, k, i) at h))))
      | inr i ↦
          let bad : ◌≡◌ {A = Option (Registry × Decision)} none (some (s', d)) =
            (rw (e, k, i) at h) in
          cc
    ]
  ]
  | inr e ↦ elim (Option-cases (identifiers_after v c s.identifiers)) [
    | inl k ↦
        let bad : ◌≡◌ {A = Option (Registry × Decision)} none (some (s', d)) = (rw (e, k) at h) in
        cc
    | inr (rows, k) ↦
        let same : (recorded c v s rows, record { candidate_id = c.id; decision = v }) ≡ (s', d) =
          some-injective _ _ (rw (e, k) at h) in
        inr (k ∙ ap (λ t. some t.0.identifiers) same)
  ]
]

module _ (text : PythonText) where
  -- A call that returns; a new candidate is open, and its identifier is new.
  pub data Call (s s' : Registry) : Type 0 where
    attached :
        (id : ℕ) (m : Mapping) (a : Attached)
        → exists_row (λ d. d.candidate_id == id) s.decisions ≡ false
        → attach_identifier text id m s ≡ some (s', a)
        → Call s s'
    candidate_created :
        (id : ℕ) (m : Mapping) (status : CandidateStatus) (c : Candidate)
        → exists_row (λ d. d.candidate_id == id) s.decisions ≡ false
        → is_final status ≡ false
        → create_resolution_candidate text id m status s ≡ some (s', c)
        → Call s s'
    resolution_decided :
        (id : ℕ) (v : Verdict) (d : Decision) → decide_resolution id v s ≡ some (s', d) → Call s s'

  IsUnique-attach_to :
      (id : ℕ) (m : Mapping) (normalized : List ℕ) (s : Registry)
      → IsUnique s.identifiers
      → IsUnique
          (attach_to id m normalized s (
            find (λ x. same_identifier x (identifier_of m normalized)) s.identifiers)).0.identifiers
  IsUnique-attach_to id m normalized s u =
      elim (Option-cases
        (find (λ x. same_identifier x (identifier_of m normalized)) s.identifiers)) [
          | inl e ↦ rw e (IsUnique-put (identifier_of m normalized) s.identifiers u e)
          | inr (x, e) ↦ rw e (elim (Bool-cases (x.entity_id == m.entity.id)) [
            | inl k ↦ rw k u
            | inr k ↦ rw k (
                subst IsUnique
                  (sym (
                    keep_candidate-identifiers
                      (candidate_of id m normalized CandidateStatus.ambiguous) s
                      (find
                        (λ x.
                          same_candidate x (candidate_of id m normalized CandidateStatus.ambiguous))
                        s.candidates)))
                  u)
          ])
        ]

  pub IsUnique-Call :
      (s s' : Registry) → Call s s' → IsUnique s.identifiers → IsUnique s'.identifiers
  unfolding attach_identifier create_resolution_candidate decide_resolution
  IsUnique-Call s s' (Call.attached id m a _ h) u =
      elim (Option-cases (normalize_identifier text m.namespace m.value)) [
        | inl e ↦
            let bad : ◌≡◌ {A = Option (Registry × Attached)} none (some (s', a)) = (rw e at h) in cc
        | inr (normalized, e) ↦
            subst (λ t. IsUnique t.0.identifiers) (some-injective _ (s', a) (rw e at h))
              (IsUnique-attach_to id m normalized s u)
      ]
  IsUnique-Call s s' (Call.candidate_created id m status c _ _ h) u =
      elim (Option-cases (normalize_identifier text m.namespace m.value)) [
        | inl e ↦
            let bad : ◌≡◌ {A = Option (Registry × Candidate)} none (some (s', c)) = (rw e at h) in
            cc
        | inr (normalized, e) ↦
            subst (λ t. IsUnique t.0.identifiers) (some-injective _ (s', c) (rw e at h))
              (subst IsUnique
                (sym (
                  keep_candidate-identifiers (candidate_of id m normalized status) s (
                    find (λ x. same_candidate x (candidate_of id m normalized status))
                      s.candidates)))
                u)
      ]
  IsUnique-Call s s' (Call.resolution_decided id v d h) u = elim (Bool-cases (is_supported v)) [
    | inr e ↦
        let bad : ◌≡◌ {A = Option (Registry × Decision)} none (some (s', d)) = (rw e at h) in cc
    | inl e ↦ elim (Option-cases (find (λ c. c.id == id) s.candidates)) [
      | inl k ↦
          let bad : ◌≡◌ {A = Option (Registry × Decision)} none (some (s', d)) = (rw (e, k) at h) in
          cc
      | inr (c, k) ↦ elim (decide_row-identifiers c v s s' d (rw (e, k) at h)) [
        | inl same ↦ subst (λ t. IsUnique t.identifiers) (sym same) u
        | inr after ↦ IsUnique-identifiers_after v c s.identifiers s'.identifiers u after
      ]
    ]
  ]
