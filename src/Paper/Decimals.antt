-- ===== src/Paper/Decimals.antt =====
-- The decimal numbers of Python's decimal module, as an interface: the operations that the engine
-- calls, and the facts about comparison and rounding that it relies on. NaN and numbers beyond the
-- context's precision, which `quantize` refuses, are not modelled; a division by zero is where it is
-- made.
use market_intelligence_lab.Prelude.{Bool, true, ◌≡◌, ◌⊎◌, if◌then◌else◌, ◌&&◌}

pub record Decimals (D : Type 0) : Type 0 where
  pub zero_d : D
  pub one_d : D
  pub two_d : D
  pub ten_thousand : D
  pub add : D → D → D
  pub sub : D → D → D
  pub mul : D → D → D
  pub div : D → D → D
  -- `a <= b`
  pub at_most : D → D → Bool
  -- `quantize(PRICE)` and `quantize(MONEY)`
  pub to_price : D → D
  pub to_money : D → D

-- Numbers that are not NaN are in a total order, and rounding keeps that order.
pub record IsOrdered {D : Type 0} (dec : Decimals D) : Type 0 where
  pub total : (a b : D) → (dec.at_most a b ≡ true) ⊎ (dec.at_most b a ≡ true)
  pub trans : (a b c : D) → dec.at_most a b ≡ true → dec.at_most b c ≡ true → dec.at_most a c ≡ true
  pub rounds :
      (a b : D) → dec.at_most a b ≡ true → dec.at_most (dec.to_price a) (dec.to_price b) ≡ true

module _ {D : Type 0} (dec : Decimals D) where
  -- `min(a, b)` and `max(a, b)`
  abbrev pub lesser : D → D → D
  lesser a b = if dec.at_most a b then a else b

  abbrev pub greater : D → D → D
  greater a b = if dec.at_most b a then a else b

  abbrev pub is_zero : D → Bool
  is_zero a = dec.at_most a dec.zero_d && dec.at_most dec.zero_d a
