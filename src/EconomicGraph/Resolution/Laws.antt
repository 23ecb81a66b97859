-- ===== src/EconomicGraph/Resolution/Laws.antt =====
-- Decisions are final (packages/economic_graph/service.py, `decide_resolution`).
use market_intelligence_lab.Prelude.{
  ℕ, ◌≡◌, ◌⊎◌, ◌∙◌, inl, inr, sym, ap, refl, Bool, true, false, Option, none, some, List, [], ◌∷◌,
  ◌++◌, ◌==◌, if◌then◌else◌, find, exists_row, Bool-cases, Option-cases, arith, All, All-at,
  Memᴰ-find, find-eq-some, find-update_rows, update_rows,
}
use mathlib.Core.Path.{subst}
use mathlib.Core.Option.{some-injective}
use market_intelligence_lab.EconomicGraph.Resolution.{
  Identifier, Verdict, confirmed, refused, unsupported_verdict, Candidate, CandidateStatus, decided,
  Decision, Registry, identifiers_after, decide_row, decide_resolution, is_final, is_supported,
  same_verdict, recorded,
}

-- The decision that a candidate's status speaks of.
abbrev pub decision_for : ℕ → CandidateStatus → Option Decision
decision_for id (decided confirmed) = some (record { candidate_id = id; decision = confirmed })
decision_for id (decided refused) = some (record { candidate_id = id; decision = refused })
decision_for id _ = none

-- The decision that is stored for a candidate is the one of its status.
abbrev pub IsSettledRow : List Decision → Candidate → Type 0
IsSettledRow decisions c = find (λ d. d.candidate_id == c.id) decisions ≡ decision_for c.id c.status

abbrev pub IsSettled : Registry → Type 0
IsSettled s = All (IsSettledRow s.decisions) s.candidates

same_verdict-eq : (v u : Verdict) → same_verdict v u ≡ true → v ≡ u
same_verdict-eq v u h = ground arith

same_verdict_refl : (v : Verdict) → same_verdict v v ≡ true
same_verdict_refl v = ground arith

decision_for-final :
    (id : ℕ) (status : CandidateStatus)
    → is_final status ≡ true
    → (v : Verdict) × (status ≡ decided v)
      × (decision_for id status ≡ some (record { candidate_id = id; decision = v }))
decision_for-final id (decided confirmed) h = (confirmed, refl, refl)
decision_for-final id (decided refused) h = (refused, refl, refl)
decision_for-final id (decided (unsupported_verdict n)) h = cc
decision_for-final id CandidateStatus.proposed h = cc
decision_for-final id CandidateStatus.ambiguous h = cc

pub decision_for-open :
    (id : ℕ) (status : CandidateStatus) → is_final status ≡ false → decision_for id status ≡ none
decision_for-open id (decided confirmed) h = cc
decision_for-open id (decided refused) h = cc
decision_for-open id (decided (unsupported_verdict n)) h = refl
decision_for-open id CandidateStatus.proposed h = refl
decision_for-open id CandidateStatus.ambiguous h = refl

decision_for-decided :
    (id : ℕ) (v : Verdict)
    → is_supported v ≡ true
    → decision_for id (decided v) ≡ some (record { candidate_id = id; decision = v })
decision_for-decided id confirmed h = refl
decision_for-decided id refused h = refl
decision_for-decided id (unsupported_verdict n) h = cc

-- What a decided candidate answers.
decide_row-final :
    (c : Candidate) (v u : Verdict) (s : Registry)
    → is_final c.status ≡ true
    → find (λ d. d.candidate_id == c.id) s.decisions
      ≡ some (record { candidate_id = c.id; decision = v })
    → decide_row c u s
      ≡ (if same_verdict v u then some (s, record { candidate_id = c.id; decision = v }) else none)
decide_row-final c v u s e k = rw (e, k) refl

-- The two ways in which a decision returns: it is repeated, or it is new.
decide_row-cases :
    (c : Candidate) (v : Verdict) (s s' : Registry) (d : Decision)
    → decide_row c v s ≡ some (s', d)
    → ((is_final c.status ≡ true)
        × (s' ≡ s)
        × (find (λ d. d.candidate_id == c.id) s.decisions ≡ some d)
        × (same_verdict d.decision v ≡ true))
      ⊎ ((is_final c.status ≡ false)
          × (rows : List Identifier) × (s' ≡ recorded c v s rows)
          × (d ≡ record { candidate_id = c.id; decision = v }))
decide_row-cases c v s s' d h = elim (Bool-cases (is_final c.status)) [
  | inl e ↦ elim (Option-cases (find (λ d. d.candidate_id == c.id) s.decisions)) [
    | inl k ↦
        let bad : ◌≡◌ {A = Option (Registry × Decision)} none (some (s', d)) = (rw (e, k) at h) in
        cc
    | inr (x, k) ↦ elim (Bool-cases (same_verdict x.decision v)) [
      | inl i ↦
          let same : (s, x) ≡ (s', d) = some-injective (s, x) (s', d) (rw (e, k, i) at h) in
          let row : x ≡ d = ap (λ t. t.1) same in
          inl (
            e,
            sym (ap (λ t. t.0) same),
            k ∙ ap some row,
            subst (λ x. same_verdict x.decision v ≡ true) row i,
          )
      | inr i ↦
          let bad : ◌≡◌ {A = Option (Registry × Decision)} none (some (s', d)) =
            (rw (e, k, i) at h) in
          cc
    ]
  ]
  | inr e ↦ elim (Option-cases (identifiers_after v c s.identifiers)) [
    | inl k ↦
        let bad : ◌≡◌ {A = Option (Registry × Decision)} none (some (s', d)) = (rw (e, k) at h) in
        cc
    | inr (rows, k) ↦
        let same : (recorded c v s rows, record { candidate_id = c.id; decision = v }) ≡ (s', d) =
          some-injective _ _ (rw (e, k) at h) in
        inr (e, rows, sym (ap (λ t. t.0) same), sym (ap (λ t. t.1) same))
  ]
]

find-append_some {ℓ} :
    {A : Type ℓ} (p : A → Bool) (xs ys : List A) {a : A}
    → find p xs ≡ some a
    → find p (xs ++ ys) ≡ some a
find-append_some p [] ys h = cc
find-append_some p (x ∷ xs) ys h = elim (Bool-cases (p x)) [
  | inl e ↦ rw e (rw e at h)
  | inr e ↦ rw e (find-append_some p xs ys (rw e at h))
]

find-append_none {ℓ} :
    {A : Type ℓ} (p : A → Bool) (xs ys : List A) → find p xs ≡ none → find p (xs ++ ys) ≡ find p ys
find-append_none p [] ys h = refl
find-append_none p (x ∷ xs) ys h = elim (Bool-cases (p x)) [
  | inl e ↦ let bad : some x ≡ none = (rw e at h) in cc
  | inr e ↦ rw e (find-append_none p xs ys (rw e at h))
]

pub find-eq-none_of {ℓ} :
    {A : Type ℓ} (p : A → Bool) (xs : List A) → exists_row p xs ≡ false → find p xs ≡ none
find-eq-none_of p [] h = refl
find-eq-none_of p (x ∷ xs) h = elim (Bool-cases (p x)) [
  | inl e ↦ let bad : true ≡ false = (rw e at h) in cc
  | inr e ↦ rw e (find-eq-none_of p xs (rw e at h))
]

module _ (c : Candidate) (v : Verdict) (decisions : List Decision) where
  abbrev decisions_after : List Decision
  decisions_after = decisions ++ (record { candidate_id = c.id; decision = v } ∷ [])

  find-decisions_after :
      find (λ d. d.candidate_id == c.id) decisions ≡ none
      → (id : ℕ) → (id == c.id) ≡ true
      → find (λ d. d.candidate_id == id) decisions_after
        ≡ some (record { candidate_id = id; decision = v })
  find-decisions_after h id same =
      let e : c.id ≡ id = ground arith in
      subst
        (λ n.
          find (λ d. d.candidate_id == n) decisions_after
          ≡ some (record { candidate_id = n; decision = v }))
        e
        (find-append_none (λ d. d.candidate_id == c.id) decisions _ h
          ∙ (let own : (c.id == c.id) ≡ true = ground arith in rw own refl))

  find-decisions_other :
      (id : ℕ) (o : Option Decision)
      → (id == c.id) ≡ false
      → find (λ d. d.candidate_id == id) decisions ≡ o
      → find (λ d. d.candidate_id == id) decisions_after ≡ o
  find-decisions_other id (some d) other h =
      find-append_some (λ d. d.candidate_id == id) decisions _ h
  find-decisions_other id none other h =
      let apart : (c.id == id) ≡ false = ground arith in
      find-append_none (λ d. d.candidate_id == id) decisions _ h ∙ rw apart refl

  IsSettled-rows :
      is_supported v ≡ true
      → find (λ d. d.candidate_id == c.id) decisions ≡ none
      → (rows : List Candidate) → All (IsSettledRow decisions) rows
      → All
          (IsSettledRow decisions_after)
          (update_rows (λ x. x.id == c.id) (λ x. record x { status = decided v }) rows)
  IsSettled-rows sup h [] all = tt
  IsSettled-rows sup h (x ∷ xs) all = elim (Bool-cases (x.id == c.id)) [
    | inl e ↦ rw e (
      find-decisions_after h x.id e ∙ sym (decision_for-decided x.id v sup),
      IsSettled-rows sup h xs all.1,
    )
    | inr e ↦ rw e (
      find-decisions_other x.id (decision_for x.id x.status) e all.0,
      IsSettled-rows sup h xs all.1,
    )
  ]

-- What the table answers once a candidate is decided.
IsAnswered : ℕ → Verdict → Registry → Decision → Type 0
IsAnswered id v s d =
    (decide_resolution id v s ≡ some (s, d))
    × ((u : Verdict) → same_verdict v u ≡ false → decide_resolution id u s ≡ none)

decided_answers :
    (id : ℕ) (v : Verdict) (s : Registry) (c : Candidate)
    → is_supported v ≡ true
    → find (λ c. c.id == id) s.candidates ≡ some c
    → is_final c.status ≡ true
    → find (λ d. d.candidate_id == c.id) s.decisions
      ≡ some (record { candidate_id = c.id; decision = v })
    → IsAnswered id v s (record { candidate_id = c.id; decision = v })
unfolding IsAnswered decide_resolution
decided_answers id v s c sup h e k = (
  rw (sup, h) (decide_row-final c v v s e k ∙ rw (same_verdict_refl v) refl),
  λ u apart. elim (Bool-cases (is_supported u)) [
    | inr i ↦ rw i refl
    | inl i ↦ rw (i, h) (decide_row-final c v u s e k ∙ rw apart refl)
  ],
)

-- A row that is written is found again.
recorded-row :
    (id : ℕ) (c : Candidate) (v : Verdict) (s : Registry) (rows : List Identifier)
    → find (λ c. c.id == id) s.candidates ≡ some c
    → find (λ c. c.id == id) (recorded c v s rows).candidates
      ≡ some (record c { status = decided v })
recorded-row id c v s rows h =
    let here : (c.id == id) ≡ true = find-eq-some (λ c. c.id == id) s.candidates h in
    let same : id ≡ c.id = ground arith in
    subst
      (λ n.
        find (λ c. c.id == n) (recorded c v s rows).candidates
        ≡ some (record c { status = decided v }))
      (sym same)
      (find-update_rows (λ x. x.id == c.id) (λ x. record x { status = decided v }) s.candidates
        (λ x. refl) (subst (λ n. find (λ c. c.id == n) s.candidates ≡ some c) same h))

decide_row-answers :
    (id : ℕ) (v : Verdict) (s s' : Registry) (c : Candidate) (d : Decision)
    → is_supported v ≡ true
    → find (λ c. c.id == id) s.candidates ≡ some c
    → IsSettledRow s.decisions c
    → decide_row c v s ≡ some (s', d)
    → IsAnswered id v s' d
decide_row-answers id v s s' c d sup h settled k = elim (decide_row-cases c v s s' d k) [
  | inl (e, same, stored, verdict) ↦
      let (w, _, for_w) = decision_for-final c.id c.status e in
      let row : d ≡ record { candidate_id = c.id; decision = w } =
        some-injective _ _ (sym stored ∙ settled ∙ for_w) in
      let by_v : w ≡ v = sym (ap (λ d. d.decision) row) ∙ same_verdict-eq d.decision v verdict in
      let exact : d ≡ record { candidate_id = c.id; decision = v } =
        row ∙ ap (λ w. record { candidate_id = c.id; decision = w }) by_v in
      subst (λ t. IsAnswered id v t d) (sym same)
        (subst (IsAnswered id v s) (sym exact)
          (decided_answers id v s c sup h e (stored ∙ ap some exact)))
  | inr (e, rows, same, row) ↦
      let none_yet = settled ∙ decision_for-open c.id c.status e in
      let own : (c.id == c.id) ≡ true = ground arith in
      subst (λ t. IsAnswered id v t d) (sym same)
        (subst (IsAnswered id v (recorded c v s rows)) (sym row) (
          decided_answers id v (recorded c v s rows) (record c { status = decided v }) sup
            (recorded-row id c v s rows h) sup
            (find-decisions_after c v s.decisions none_yet c.id own)))
]

-- The row that a decision is about.
decide_resolution-row :
    (id : ℕ) (v : Verdict) (s s' : Registry) (d : Decision)
    → decide_resolution id v s ≡ some (s', d)
    → (is_supported v ≡ true)
      × (c : Candidate) × (find (λ c. c.id == id) s.candidates ≡ some c)
      × (decide_row c v s ≡ some (s', d))
unfolding decide_resolution
decide_resolution-row id v s s' d h = elim (Bool-cases (is_supported v)) [
  | inr e ↦ let bad : ◌≡◌ {A = Option (Registry × Decision)} none (some (s', d)) = (rw e at h) in cc
  | inl e ↦ elim (Option-cases (find (λ c. c.id == id) s.candidates)) [
    | inl k ↦
        let bad : ◌≡◌ {A = Option (Registry × Decision)} none (some (s', d)) = (rw (e, k) at h) in
        cc
    | inr (c, k) ↦ (e, c, k, (rw (e, k) at h))
  ]
]

-- A decision is final: when one has been made, the same one again changes nothing and is answered
-- by the one that is stored, and a different one is refused.
pub decide_resolution_final :
    (id : ℕ) (v : Verdict) (s s' : Registry) (d : Decision)
    → IsSettled s
    → decide_resolution id v s ≡ some (s', d)
    → (decide_resolution id v s' ≡ some (s', d))
      × ((u : Verdict) → same_verdict v u ≡ false → decide_resolution id u s' ≡ none)
unfolding IsAnswered
decide_resolution_final id v s s' d settled h =
    let (sup, c, k, row) = decide_resolution-row id v s s' d h in
    decide_row-answers id v s s' c d sup k
      (All-at (IsSettledRow s.decisions) s.candidates settled (Memᴰ-find _ s.candidates k)) row

pub IsSettled-decide_resolution :
    (id : ℕ) (v : Verdict) (s s' : Registry) (d : Decision)
    → decide_resolution id v s ≡ some (s', d)
    → IsSettled s
    → IsSettled s'
IsSettled-decide_resolution id v s s' d h settled =
    let (sup, c, k, row) = decide_resolution-row id v s s' d h in
    elim (decide_row-cases c v s s' d row) [
      | inl (_, same, _, _) ↦ subst IsSettled (sym same) settled
      | inr (e, rows, same, _) ↦ subst IsSettled (sym same) (
          IsSettled-rows c v s.decisions sup
            (All-at (IsSettledRow s.decisions) s.candidates settled (Memᴰ-find _ s.candidates k)
              ∙ decision_for-open c.id c.status e)
            s.candidates settled)
    ]
