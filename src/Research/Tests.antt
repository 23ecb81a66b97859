-- ===== src/Research/Tests.antt =====
-- A sample life of a hypothesis, and a sample promotion.
use market_intelligence_lab.Prelude.{◌≡◌, refl, List, [], ◌∷◌}
use market_intelligence_lab.Research.Lifecycle.{
  HypothesisStatus, ready_for_implementation, implemented, rejected, retired, PromotionStage,
  draft_stage, evidence_checked, implemented_stage, validate_promotion_transition,
}
use market_intelligence_lab.Research.Lifecycle.Laws.{promote, promotion_in_order, up_to}

abbrev requests : List HypothesisStatus
requests = ready_for_implementation ∷ implemented ∷ rejected ∷ retired ∷ []

promotion_in_order_example :
    ◌≡◌ {A = List PromotionStage}
      (draft_stage ∷ evidence_checked ∷ implemented_stage ∷ [])
      (up_to implemented_stage)
unfolding promote validate_promotion_transition
promotion_in_order_example =
    promotion_in_order (draft_stage ∷ evidence_checked ∷ implemented_stage ∷ [])
      {u = implemented_stage} refl (λ e. cc)
