-- ===== src/EconomicGraph/Evidence/Confidence/Laws.antt =====
-- The bounds and the rounding of a confidence (packages/economic_graph/confidence.py).
use market_intelligence_lab.Prelude.{
  ℕ, ◌+◌, ◌*◌, ◌^◌, ◌≤◌, ◌<◌, ◌≡◌, false, inl, inr, none, some, List, [], ◌∷◌, ◌&&◌, every,
  exists_row, arith, Bool-cases,
}
use mathlib.Core.Option.{some-injective}
use market_intelligence_lab.EconomicGraph.Evidence.Confidence.{
  Name, Component, source_reliability, identifier_confidence, temporal_validity, evidence_agreement,
  extraction_confidence, relationship_specificity, recency, is_known, out_of_range, names, one_unit,
  value_of, score_of, quantize, same_name, aggregate_confidence,
}

value_of-le :
    (n : Name) (cs : List Component)
    → exists_row (λ c. out_of_range c.value) cs ≡ false
    → value_of n cs ≤ one_unit
value_of-le n [] h = omega arith
value_of-le n (c ∷ cs) h = ground (arith, value_of-le n cs)

score_of-le :
    (cs : List Component)
    → exists_row (λ c. out_of_range c.value) cs ≡ false
    → score_of names cs ≤ 100 * one_unit
score_of-le cs h = omega (
  arith,
  value_of-le source_reliability cs h,
  value_of-le identifier_confidence cs h,
  value_of-le temporal_validity cs h,
  value_of-le evidence_agreement cs h,
  value_of-le extraction_confidence cs h,
  value_of-le relationship_specificity cs h,
  value_of-le recency cs h,
)

-- A confidence is at most 1, and it is the weighted sum of the components rounded to five places,
-- halves up.
pub aggregate_confidence_lem :
    (cs : List Component) (confidence : ℕ)
    → aggregate_confidence cs ≡ some confidence
    → (confidence ≤ 100000)
      × (confidence * 10 ^ 17 ≤ score_of names cs + 5 * 10 ^ 16)
      × (score_of names cs + 5 * 10 ^ 16 < (confidence + 1) * 10 ^ 17)
unfolding aggregate_confidence
aggregate_confidence_lem cs confidence h =
    elim (Bool-cases (
      every (λ n. exists_row (λ c. same_name n c.name) cs) names
      && every (λ c. is_known c.name) cs)) [
        | inr e ↦ let bad : none ≡ some confidence = (rw e at h) in cc
        | inl e ↦ elim (Bool-cases (exists_row (λ c. out_of_range c.value) cs)) [
          | inl k ↦ let bad : none ≡ some confidence = (rw (e, k) at h) in cc
          | inr k ↦
              let same : quantize (score_of names cs) ≡ confidence =
                some-injective _ _ (rw (e, k) at h) in
              omega (arith, same, score_of-le cs k)
        ]
      ]
