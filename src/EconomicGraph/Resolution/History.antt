-- ===== src/EconomicGraph/Resolution/History.antt =====
-- What every sequence of calls keeps (packages/economic_graph/service.py, `attach_identifier`,
-- `create_resolution_candidate`, `decide_resolution`).
use market_intelligence_lab.Prelude.{
  ℕ, ◌≡◌, ◌∙◌, inl, inr, sym, refl, false, Option, none, some, List, [], ◌∷◌, ◌==◌, find,
  exists_row, Bool-cases, Option-cases, All-append,
}
use mathlib.Core.Path.{subst}
use mathlib.Core.Option.{some-injective}
use market_intelligence_lab.EconomicGraph.Identifiers.{PythonText, normalize_identifier}
use market_intelligence_lab.EconomicGraph.Resolution.{
  Candidate, CandidateStatus, Registry, Mapping, Attached, identifier_of, put_candidate,
  same_candidate, same_identifier, attach_to, attach_identifier, create_resolution_candidate,
  candidate_of, is_final,
}
use market_intelligence_lab.EconomicGraph.Resolution.Uniqueness.{Call, IsUnique, IsUnique-Call}
use market_intelligence_lab.EconomicGraph.Resolution.Laws.{
  IsSettled, IsSettledRow, IsSettled-decide_resolution, decision_for-open, find-eq-none_of,
}

IsSettled-put_candidate :
    (c : Candidate) (s : Registry)
    → exists_row (λ d. d.candidate_id == c.id) s.decisions ≡ false
    → is_final c.status ≡ false
    → IsSettled s
    → IsSettled (put_candidate c s).0
IsSettled-put_candidate c s fresh unsettled h =
    elim (Option-cases (find (λ x. same_candidate x c) s.candidates)) [
      | inr (x, e) ↦ rw e h
      | inl e ↦ rw e (
          All-append (IsSettledRow s.decisions) s.candidates (c ∷ []) h (
            find-eq-none_of _ s.decisions fresh ∙ sym (decision_for-open c.id c.status unsettled),
            tt,
          ))
    ]

IsSettled-attach_to :
    (id : ℕ) (m : Mapping) (normalized : List ℕ) (s : Registry)
    → exists_row (λ d. d.candidate_id == id) s.decisions ≡ false
    → IsSettled s
    → IsSettled
        (attach_to id m normalized s
          (find (λ x. same_identifier x (identifier_of m normalized)) s.identifiers)).0
IsSettled-attach_to id m normalized s fresh h =
    elim (Option-cases (find (λ x. same_identifier x (identifier_of m normalized)) s.identifiers)) [
      | inl e ↦ rw e h
      | inr (x, e) ↦ rw e (elim (Bool-cases (x.entity_id == m.entity.id)) [
        | inl k ↦ rw k h
        | inr k ↦ rw k (
            IsSettled-put_candidate (candidate_of id m normalized CandidateStatus.ambiguous) s fresh
              refl h)
      ])
    ]

module _ (text : PythonText) where
  IsSettled-Call : (s s' : Registry) → Call text s s' → IsSettled s → IsSettled s'
  unfolding attach_identifier create_resolution_candidate
  IsSettled-Call s s' (Call.attached id m a fresh h) u =
      elim (Option-cases (normalize_identifier text m.namespace m.value)) [
        | inl e ↦
            let bad : ◌≡◌ {A = Option (Registry × Attached)} none (some (s', a)) = (rw e at h) in cc
        | inr (normalized, e) ↦
            subst (λ t. IsSettled t.0) (some-injective _ (s', a) (rw e at h))
              (IsSettled-attach_to id m normalized s fresh u)
      ]
  IsSettled-Call s s' (Call.candidate_created id m status c fresh unsettled h) u =
      elim (Option-cases (normalize_identifier text m.namespace m.value)) [
        | inl e ↦
            let bad : ◌≡◌ {A = Option (Registry × Candidate)} none (some (s', c)) = (rw e at h) in
            cc
        | inr (normalized, e) ↦
            subst (λ t. IsSettled t.0) (some-injective _ (s', c) (rw e at h))
              (IsSettled-put_candidate (candidate_of id m normalized status) s fresh unsettled u)
      ]
  IsSettled-Call s s' (Call.resolution_decided id v d h) u =
      IsSettled-decide_resolution id v s s' d h u

  -- The registries that calls have made.
  pub data History : Registry → Type 0 where
    empty : History (record { identifiers = []; candidates = []; decisions = []; issues = [] })
    called : {s s' : Registry} → History s → Call text s s' → History s'

  -- Whatever calls have been made, an identifier of a workspace is mapped at most once, and each
  -- candidate has a stored decision exactly when its status says so, and that one.
  pub History-IsConsistent : {s : Registry} → History s → IsUnique s.identifiers × IsSettled s
  History-IsConsistent History.empty = (refl, tt)
  History-IsConsistent (History.called {s = s} {s' = s'} before call) =
      let (unique, settled) = History-IsConsistent before in
      (IsUnique-Call text s s' call unique, IsSettled-Call s s' call settled)
