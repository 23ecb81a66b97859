-- ===== src/Paper/Prices/Laws.antt =====
-- The bounds of a price: the bar's range and the order's limit.
use mathlib.Core.Path.{subst}
use market_intelligence_lab.Prelude.{
  ◌≡◌, inl, inr, Bool, true, false, ◌&&◌, Option, none, some, arith, Bool-cases, Option-cases,
  is_some,
}
use market_intelligence_lab.Paper.Decimals.{Decimals, IsOrdered, lesser, greater}
use market_intelligence_lab.Paper.Prices.{
  Side, buy, sell, OrderType, market, limit, stop, stop_limit, Outcome, Bar, Assumptions, limit_at,
  stop_base, stop_reached, eligible_price, apply_friction, adjusted,
}

module _ {D : Type 0} (dec : Decimals D) where
  -- A price that is no worse than the limit.
  abbrev pub keeps_limit : Side → D → D → Bool
  keeps_limit buy price l = dec.at_most price l
  keeps_limit sell price l = dec.at_most l price

  abbrev pub is_within : Bar D → D → Bool
  is_within bar p = dec.at_most bar.low p && dec.at_most p bar.high

  lesser_right : IsOrdered dec → (a b : D) → dec.at_most (lesser dec a b) b ≡ true
  lesser_right h a b = elim (Bool-cases (dec.at_most a b)) [
    | inl e ↦ rw e e
    | inr e ↦ rw e (elim (h.total b b) [ inl k ↦ k | inr k ↦ k ])
  ]

  greater_right : IsOrdered dec → (a b : D) → dec.at_most b (greater dec a b) ≡ true
  greater_right h a b = elim (Bool-cases (dec.at_most b a)) [
    | inl e ↦ rw e e
    | inr e ↦ rw e (elim (h.total b b) [ inl k ↦ k | inr k ↦ k ])
  ]

  pub apply_friction_limit :
      (a : Assumptions D) (base : D) (side : Side) (l : D)
      → IsOrdered dec
      → dec.to_price l ≡ l
      → keeps_limit side (apply_friction dec a base side (some l)) l ≡ true
  unfolding apply_friction
  apply_friction_limit a base buy l h grid =
      subst (λ k. dec.at_most (apply_friction dec a base buy (some l)) k ≡ true) grid
        (h.rounds _ _ (lesser_right h (adjusted dec a base buy) l))
  apply_friction_limit a base sell l h grid =
      subst (λ k. dec.at_most k (apply_friction dec a base sell (some l)) ≡ true) grid
        (h.rounds _ _ (greater_right h (adjusted dec a base sell) l))

  stop_within :
      (side : Side) (s : D) (bar : Bar D)
      → IsOrdered dec
      → is_within bar bar.open_price ≡ true
      → stop_reached dec side bar s ≡ true
      → is_within bar (stop_base dec side bar s) ≡ true
  stop_within buy s bar h k e =
      ground (arith, h.total bar.open_price s, h.trans bar.low bar.open_price s)
  stop_within sell s bar h k e =
      ground (arith, h.total bar.open_price s, h.trans s bar.open_price bar.high)

  -- Where decimals are in order and a bar's open lies between its low and high, the base price that
  -- the bar gives an order, its stop not triggered before, lies between them too.
  pub eligible_price-is_within :
      (ty : OrderType) (side : Side) (l s : Option D) (bar : Bar D) {base : D} {outcome : Outcome}
      {t : Bool}
      → IsOrdered dec
      → is_within bar bar.open_price ≡ true
      → eligible_price dec ty side l s bar false ≡ some (some base, outcome, t)
      → is_within bar base ≡ true
  unfolding eligible_price limit_at
  eligible_price-is_within market side l s bar h k e = ground arith
  eligible_price-is_within limit side none s bar h k e = cc
  eligible_price-is_within limit buy (some l) s bar h k e =
      ground (arith, h.total bar.open_price l, h.trans l bar.open_price bar.high)
  eligible_price-is_within limit sell (some l) s bar h k e =
      ground (arith, h.total bar.open_price l, h.trans bar.low bar.open_price l)
  eligible_price-is_within stop side l none bar h k e = cc
  eligible_price-is_within stop side l (some s) bar h k e =
      ground (arith, stop_within side s bar h k)
  eligible_price-is_within stop_limit side l none bar h k e = cc
  eligible_price-is_within stop_limit side none (some s) bar h k e = ground arith
  eligible_price-is_within stop_limit buy (some l) (some s) bar h k e =
      ground (arith, h.total bar.open_price l, h.trans l bar.open_price bar.high)
  eligible_price-is_within stop_limit sell (some l) (some s) bar h k e =
      ground (arith, h.total bar.open_price l, h.trans bar.low bar.open_price l)

  -- The prices that an order's type needs.
  abbrev pub has_prices : OrderType → Option D → Option D → Bool
  has_prices market l s = true
  has_prices limit l s = is_some l
  has_prices stop l s = is_some s
  has_prices stop_limit l s = is_some l && is_some s

  eligible_price_found :
      (ty : OrderType) (side : Side) (l s : Option D) (bar : Bar D) (already : Bool)
      → has_prices ty l s ≡ true
      → eligible_price dec ty side l s bar already ≡ none
      → ⊥
  unfolding eligible_price limit_at
  eligible_price_found market side l s bar already h e = cc
  eligible_price_found limit side l s bar already h e = ground arith
  eligible_price_found stop side l s bar already h e = ground arith
  eligible_price_found stop_limit side l s bar already h e = ground arith

  pub eligible_price_total :
      (ty : OrderType) (side : Side) (l s : Option D) (bar : Bar D) (already : Bool)
      → has_prices ty l s ≡ true
      → (base : Option D) × (outcome : Outcome) × (t : Bool) × (eligible_price dec ty side l s bar
            already
          ≡ some (base, outcome, t))
  eligible_price_total ty side l s bar already h =
      elim (Option-cases (eligible_price dec ty side l s bar already)) [
        | inl missing ↦ absurd (eligible_price_found ty side l s bar already h missing)
        | inr ((base, outcome, t), found) ↦ (base, outcome, t, found)
      ]
