-- ===== src/Research/Lifecycle.antt =====
-- The states of a hypothesis and the stages of its promotion (packages/hypothesis/lifecycle.py).
pub mod Laws
use Prim.Native.String.{String}
use text.Mathlib.Text.{◌==◌ as str_eq}
use market_intelligence_lab.Prelude.{
  ℕ, suc, zero, ◌+◌, Bool, true, false, ◌||◌, Option, none, some, List, [], ◌∷◌, ◌==◌, leb, length,
  if◌then◌else◌,
}

pub data HypothesisStatus : Type 0 where
  draft evidence_required ready_for_implementation implemented testing : HypothesisStatus
  promising validated rejected retired : HypothesisStatus

-- HYPOTHESIS_TRANSITIONS, as the targets of each status.
abbrev pub transitions : HypothesisStatus → List HypothesisStatus
transitions draft = evidence_required ∷ ready_for_implementation ∷ []
transitions evidence_required = ready_for_implementation ∷ rejected ∷ []
transitions ready_for_implementation = implemented ∷ rejected ∷ []
transitions implemented = testing ∷ rejected ∷ []
transitions testing = rejected ∷ promising ∷ []
transitions promising = validated ∷ rejected ∷ retired ∷ []
transitions validated = retired ∷ []
transitions rejected = retired ∷ []
transitions retired = []

-- The statuses are told apart by their place in the enumeration.
abbrev pub status_index : HypothesisStatus → ℕ
status_index draft = 0
status_index evidence_required = 1
status_index ready_for_implementation = 2
status_index implemented = 3
status_index testing = 4
status_index promising = 5
status_index validated = 6
status_index rejected = 7
status_index retired = 8

abbrev pub is_among : HypothesisStatus → List HypothesisStatus → Bool
is_among s [] = false
is_among s (t ∷ ts) = status_index s == status_index t || is_among s ts

-- `none` is the ValueError.
unfoldable pub transition_hypothesis : HypothesisStatus → HypothesisStatus → Option HypothesisStatus
transition_hypothesis current requested =
    if is_among requested (transitions current) then some requested else none

pub data PromotionStage : Type 0 where
  draft_stage evidence_checked implemented_stage leakage_checked backtested : PromotionStage
  walk_forward_passed robustness_passed oos_passed paper_eligible : PromotionStage
  rejected_stage : PromotionStage

abbrev pub promotion_order : List PromotionStage
promotion_order =
    draft_stage ∷ evidence_checked ∷ implemented_stage ∷ leakage_checked ∷ backtested
    ∷ walk_forward_passed ∷ robustness_passed ∷ oos_passed ∷ paper_eligible ∷ []

-- The place of a stage in PROMOTION_ORDER; the rejected one, which has none, comes last.
abbrev pub stage_index : PromotionStage → ℕ
stage_index draft_stage = 0
stage_index evidence_checked = 1
stage_index implemented_stage = 2
stage_index leakage_checked = 3
stage_index backtested = 4
stage_index walk_forward_passed = 5
stage_index robustness_passed = 6
stage_index oos_passed = 7
stage_index paper_eligible = 8
stage_index rejected_stage = 9

abbrev pub same_stage : PromotionStage → PromotionStage → Bool
same_stage a b = stage_index a == stage_index b

-- `sequence[i]`
abbrev pub stage_at : ℕ → List PromotionStage → Option PromotionStage
stage_at i [] = none
stage_at zero (s ∷ ss) = some s
stage_at (suc i) (s ∷ ss) = stage_at i ss

-- `PROMOTION_ORDER[expected_index] is requested`, false out of range.
abbrev is_next : Option PromotionStage → PromotionStage → Bool
is_next none requested = false
is_next (some expected) requested = same_stage expected requested

abbrev promote_from : Option PromotionStage → PromotionStage → Option PromotionStage
promote_from none requested = if same_stage requested draft_stage then some requested else none
promote_from (some existing) requested =
    if same_stage existing rejected_stage
    then none
    else if is_next (stage_at (stage_index existing + 1) promotion_order) requested
    then some requested
    else none

unfoldable pub validate_promotion_transition :
    Option PromotionStage → PromotionStage → Option PromotionStage
validate_promotion_transition current requested =
    if same_stage requested rejected_stage then some requested else promote_from current requested
