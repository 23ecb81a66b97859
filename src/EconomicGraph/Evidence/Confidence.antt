-- ===== src/EconomicGraph/Evidence/Confidence.antt =====
-- The confidence of a relationship (packages/economic_graph/confidence.py). A decimal is a sign and
-- a whole number of units of 10^-20: the weighted sum of such inputs is exact at the 28 digits of
-- Python's default context, and only the last step rounds. The result is in units of 10^-5.
pub mod Laws
use market_intelligence_lab.Prelude.{
  ℕ, ◌+◌, ◌*◌, ◌/◌, ◌^◌, Bool, true, false, ◌&&◌, ◌||◌, not, Option, none, some, List, [], ◌∷◌, leb,
  ltb, ◌==◌, if◌then◌else◌, every, exists_row,
}

-- The keys of CONFIDENCE_WEIGHTS, and any other key.
pub data Name : Type 0 where
  source_reliability identifier_confidence temporal_validity evidence_agreement : Name
  extraction_confidence relationship_specificity recency : Name
  other : ℕ → Name

pub data Amount : Type 0 where
  plus minus : ℕ → Amount

pub record Component : Type 0 where
  pub name : Name
  pub value : Amount

-- The weights in hundredths; an unknown key has none.
abbrev pub weight_of : Name → ℕ
weight_of source_reliability = 20
weight_of identifier_confidence = 20
weight_of temporal_validity = 15
weight_of evidence_agreement = 15
weight_of extraction_confidence = 10
weight_of relationship_specificity = 10
weight_of recency = 10
weight_of (other n) = 0

abbrev pub names : List Name
names =
    source_reliability ∷ identifier_confidence ∷ temporal_validity ∷ evidence_agreement
    ∷ extraction_confidence ∷ relationship_specificity ∷ recency ∷ []

abbrev rank : Name → ℕ
rank source_reliability = 0
rank identifier_confidence = 1
rank temporal_validity = 2
rank evidence_agreement = 3
rank extraction_confidence = 4
rank relationship_specificity = 5
rank recency = 6
rank (other n) = 7 + n

abbrev pub same_name : Name → Name → Bool
same_name a b = rank a == rank b

-- `Decimal("1")`
abbrev pub one_unit : ℕ
one_unit = 10 ^ 20

abbrev pub out_of_range : Amount → Bool
out_of_range (plus n) = ltb one_unit n
out_of_range (minus n) = ltb 0 n

abbrev pub units_of : Amount → ℕ
units_of (plus n) = n
units_of (minus n) = 0

abbrev pub is_known : Name → Bool
is_known n = exists_row (same_name n) names

-- The value that the dictionary holds for a key.
abbrev pub value_of : Name → List Component → ℕ
value_of n [] = 0
value_of n (c ∷ cs) = if same_name n c.name then units_of c.value else value_of n cs

abbrev pub score_of : List Name → List Component → ℕ
score_of [] cs = 0
score_of (n ∷ ns) cs = value_of n cs * weight_of n + score_of ns cs

-- `quantize(Decimal("0.00001"), rounding=ROUND_HALF_UP)` of a sum in units of 10^-22.
abbrev pub quantize : ℕ → ℕ
quantize score = (score + 5 * 10 ^ 16) / 10 ^ 17

unfoldable pub aggregate_confidence : List Component → Option ℕ
aggregate_confidence cs =
    if not (
      every (λ n. exists_row (λ c. same_name n c.name) cs) names && every (λ c. is_known c.name) cs)
    then none
    else if exists_row (λ c. out_of_range c.value) cs
    then none
    else some (quantize (score_of names cs))
