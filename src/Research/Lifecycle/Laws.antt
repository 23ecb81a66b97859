-- ===== src/Research/Lifecycle/Laws.antt =====
-- A hypothesis has a short life with one direction, and promotion passes every stage in order.
use mathlib.Core.Path.{subst}
use mathlib.Core.List.{append-nil, append_assoc}
use mathlib.Core.Option.{some-injective}
use market_intelligence_lab.Prelude.{
  sym, ap, ◌⊎◌, ℕ, suc, ◌+◌, ◌≤◌, ◌<◌, ◌≡◌, ◌≢◌, refl, ◌∙◌, Option, none, some, List, [], ◌∷◌, ◌++◌,
  arith, length, take, inl, inr, Option-cases,
}
use market_intelligence_lab.Research.Lifecycle.{
  HypothesisStatus, draft, evidence_required, ready_for_implementation, implemented, testing,
  promising, validated, rejected, retired, transition_hypothesis, PromotionStage, draft_stage,
  evidence_checked, implemented_stage, leakage_checked, backtested, walk_forward_passed,
  robustness_passed, oos_passed, paper_eligible, rejected_stage, promotion_order, stage_index,
  validate_promotion_transition,
}

-- Requests made one after the other; the first that is refused ends them.
abbrev pub pass : {A B : Type 0} → Option A → (A → Option B) → Option B
pass none next = none
pass (some a) next = next a

unfoldable pub follow : HypothesisStatus → List HypothesisStatus → Option HypothesisStatus
follow s [] = some s
follow s (t ∷ ts) = pass (transition_hypothesis s t) (λ u. follow u ts)

-- How far along its life a status is.
abbrev pub progress : HypothesisStatus → ℕ
progress draft = 0
progress evidence_required = 1
progress ready_for_implementation = 2
progress implemented = 3
progress testing = 4
progress promising = 5
progress validated = 6
progress rejected = 6
progress retired = 7

transition_hypothesis-progress :
    (s t : HypothesisStatus) {u : HypothesisStatus}
    → transition_hypothesis s t ≡ some u
    → progress s < progress u
unfolding transition_hypothesis
transition_hypothesis-progress draft t h = ground arith
transition_hypothesis-progress evidence_required t h = ground arith
transition_hypothesis-progress ready_for_implementation t h = ground arith
transition_hypothesis-progress implemented t h = ground arith
transition_hypothesis-progress testing t h = ground arith
transition_hypothesis-progress promising t h = ground arith
transition_hypothesis-progress validated t h = ground arith
transition_hypothesis-progress rejected t h = ground arith
transition_hypothesis-progress retired t h = ground arith

-- Each accepted request moves a hypothesis at least one place on in its life, whose last place is
-- the seventh after the draft: the requests that were accepted since a status are no more than the
-- places between it and the last status.
pub follow-bounded :
    (s : HypothesisStatus) (ts : List HypothesisStatus) {u : HypothesisStatus}
    → follow s ts ≡ some u
    → progress s + length ts ≤ progress u
unfolding follow
follow-bounded s [] {u = last} h = ground arith
follow-bounded s (t ∷ ts) {u = last} h = elim (Option-cases (transition_hypothesis s t)) [
  | inl refused ↦ let none_left : none ≡ some last = (rw refused at h) in cc
  | inr (u, found) ↦
      let rest : follow u ts ≡ some last = (rw found at h) in
      omega (arith, follow-bounded u ts rest, transition_hypothesis-progress s t found)
]

-- Stages requested one after the other.
unfoldable pub promote :
    Option PromotionStage → List PromotionStage → Option (Option PromotionStage)
promote current [] = some current
promote current (t ∷ ts) = pass (validate_promotion_transition current t) (λ u. promote (some u) ts)

-- A stage that is accepted is the requested one.
requested_only :
    (c : Option PromotionStage) (t : PromotionStage) {u : PromotionStage}
    → validate_promotion_transition c t ≡ some u
    → t ≡ u
unfolding validate_promotion_transition
requested_only none t h = ground arith
requested_only (some e) t h = ground arith

-- The stages up to one, itself included.
abbrev pub up_to : PromotionStage → List PromotionStage
up_to s = take (suc (stage_index s)) promotion_order

step_in_order :
    (s t : PromotionStage)
    → validate_promotion_transition (some s) t ≡ some t
    → t ≢ rejected_stage
    → up_to s ++ (t ∷ []) ≡ up_to t
unfolding validate_promotion_transition
step_in_order draft_stage t h k = ground arith
step_in_order evidence_checked t h k = ground arith
step_in_order implemented_stage t h k = ground arith
step_in_order leakage_checked t h k = ground arith
step_in_order backtested t h k = ground arith
step_in_order walk_forward_passed t h k = ground arith
step_in_order robustness_passed t h k = ground arith
step_in_order oos_passed t h k = ground arith
step_in_order paper_eligible t h k = ground arith
step_in_order rejected_stage t h k = ground arith

rejected_refuses :
    (t u : PromotionStage)
    → validate_promotion_transition (some rejected_stage) t ≡ some u
    → u ≡ rejected_stage
unfolding validate_promotion_transition
rejected_refuses t u h = ground arith

-- Rejected research is only ever rejected again.
promote_rejected :
    (ts : List PromotionStage) {u : PromotionStage}
    → promote (some rejected_stage) ts ≡ some (some u)
    → u ≡ rejected_stage
unfolding promote
promote_rejected [] h = sym (some-injective _ _ (some-injective _ _ h))
promote_rejected (t ∷ ts) {u} h =
    elim (Option-cases (validate_promotion_transition (some rejected_stage) t)) [
      | inl refused ↦ let none_left : none ≡ some (some u) = (rw refused at h) in cc
      | inr (v, found) ↦
          let rest : promote (some v) ts ≡ some (some u) = (rw found at h) in
          promote_rejected ts
            (subst (λ w. promote (some w) ts ≡ some (some u)) (rejected_refuses t v found) rest)
    ]

is_rejected : (t : PromotionStage) → (t ≡ rejected_stage) ⊎ (t ≢ rejected_stage)
is_rejected rejected_stage = inl refl
is_rejected draft_stage = inr (λ e. cc)
is_rejected evidence_checked = inr (λ e. cc)
is_rejected implemented_stage = inr (λ e. cc)
is_rejected leakage_checked = inr (λ e. cc)
is_rejected backtested = inr (λ e. cc)
is_rejected walk_forward_passed = inr (λ e. cc)
is_rejected robustness_passed = inr (λ e. cc)
is_rejected oos_passed = inr (λ e. cc)
is_rejected paper_eligible = inr (λ e. cc)

promote_on :
    (s : PromotionStage) (ts : List PromotionStage) {u : PromotionStage}
    → promote (some s) ts ≡ some (some u)
    → u ≢ rejected_stage
    → up_to s ++ ts ≡ up_to u
unfolding promote
promote_on s [] {u} h k =
    append-nil (up_to s) ∙ ap up_to (some-injective _ _ (some-injective _ _ h))
promote_on s (t ∷ ts) {u} h k = elim (Option-cases (validate_promotion_transition (some s) t)) [
  | inl refused ↦ let none_left : none ≡ some (some u) = (rw refused at h) in cc
  | inr (v, found) ↦
      let same = requested_only (some s) t found in
      let rest : promote (some v) ts ≡ some (some u) = (rw found at h) in
      let rest' = subst (λ w. promote (some w) ts ≡ some (some u)) (sym same) rest in
      let found' =
        subst (λ w. validate_promotion_transition (some s) t ≡ some w) (sym same) found in
      elim (is_rejected t) [
        | inl over ↦
            absurd (
              k (promote_rejected ts (subst (λ w. promote (some w) ts ≡ some (some u)) over rest')))
        | inr goes ↦
            sym (append_assoc (up_to s) (t ∷ []) ts)
            ∙ ap (λ l. l ++ ts) (step_in_order s t found' goes)
            ∙ promote_on t ts rest' k
      ]
]

first_is_draft :
    (t : PromotionStage) {v : PromotionStage}
    → validate_promotion_transition none t ≡ some v
    → t ≢ rejected_stage
    → t ≡ draft_stage
unfolding validate_promotion_transition
first_is_draft t h k = ground arith

-- Research that is promoted from nothing to a stage other than the rejected one was requested every
-- stage up to it, once each and in order.
pub promotion_in_order :
    (ts : List PromotionStage) {u : PromotionStage}
    → promote none ts ≡ some (some u)
    → u ≢ rejected_stage
    → ts ≡ up_to u
unfolding promote
promotion_in_order [] {u} h k = let nothing : none ≡ some u = some-injective _ _ h in cc
promotion_in_order (t ∷ ts) {u} h k = elim (Option-cases (validate_promotion_transition none t)) [
  | inl refused ↦ let none_left : none ≡ some (some u) = (rw refused at h) in cc
  | inr (v, found) ↦
      let same = requested_only none t found in
      let rest : promote (some v) ts ≡ some (some u) = (rw found at h) in
      let rest' = subst (λ w. promote (some w) ts ≡ some (some u)) (sym same) rest in
      elim (is_rejected t) [
        | inl over ↦
            absurd (
              k (promote_rejected ts (subst (λ w. promote (some w) ts ≡ some (some u)) over rest')))
        | inr goes ↦
            let start = first_is_draft t found goes in
            ap (λ x. x ∷ ts) start
            ∙ promote_on draft_stage ts
                (subst (λ w. promote (some w) ts ≡ some (some u)) start rest') k
      ]
]
