-- ===== src/Paper/Orders/Laws.antt =====
-- Every order's life ends once, and no fill goes beyond the order's limit.
use mathlib.Core.Path.{subst}
use market_intelligence_lab.Prelude.{
  or_else, ◌≡◌, refl, sym, ap, ◌⊎◌, inl, inr, Bool, true, false, Option, none, some, ◌∷◌, arith,
  Bool-cases, ◌∙◌,
}
use market_intelligence_lab.Paper.Decimals.{Decimals, IsOrdered, is_zero}
use market_intelligence_lab.Paper.Prices.{
  Side, buy, sell, OrderType, market, limit, stop, stop_limit, Outcome, would_fill, would_wait,
  would_trigger, Bar, Assumptions, apply_friction,
}
use market_intelligence_lab.Paper.Prices.Laws.{
  keeps_limit, apply_friction_limit, has_prices, eligible_price_total,
}
use market_intelligence_lab.Paper.Orders.{
  filled, Order, Book, Fill, Portfolio, Position, Processed, invalid_request, integrity_error,
  division_error, processed, is_open_status, are_prices_fit, is_valid_request, opened_position,
  fill_position, store_fill, process_order, settle_order, fill, waiting_status,
}

module _ {D : Type 0} (dec : Decimals D) where
  waiting_is_open :
      (t : Bool) (outcome : Outcome) → is_open_status (waiting_status t outcome) ≡ true
  waiting_is_open t outcome = ground arith

  abbrev pub held_before : Book D → D
  held_before b = (or_else b.position (opened_position dec)).held

  -- What is held when a whole order is filled.
  abbrev pub held_after : Side → D → D → D
  held_after buy held quantity = dec.add held quantity
  held_after sell held quantity = dec.sub held quantity

  abbrev pub cash_after : Side → D → D → D → D
  cash_after buy cash gross fee = dec.sub cash (dec.add gross fee)
  cash_after sell cash gross fee = dec.add cash (dec.sub gross fee)

  -- A fill at a price: the order is filled once and in whole, its value and the commission are paid or
  -- received, and the position is what is held then, which is not below zero; or the constraint, or a division by zero, stops it.
  abbrev pub IsFilled : Assumptions D → Order D → Book D → D → Processed D → Type 0
  IsFilled a o b price result =
      ((o' : Order D) × (b' : Book D) × (f : Fill D) × (p : Position D) × (result ≡ processed o' b')
        × (o'.status ≡ filled)
        × (b'.fills ≡ f ∷ b.fills)
        × (f.fill_quantity ≡ o.quantity)
        × (f.price ≡ price)
        × (b'.portfolio.cash_balance
            ≡ cash_after o.side b.portfolio.cash_balance (dec.to_money (dec.mul price o.quantity))
                a.commission)
        × (b'.position ≡ some p)
        × (p.held ≡ held_after o.side (held_before b) o.quantity)
        × (dec.at_most dec.zero_d p.held ≡ true))
      ⊎ (((result ≡ integrity_error)
            × (dec.at_most dec.zero_d (held_after o.side (held_before b) o.quantity) ≡ false))
          ⊎ ((result ≡ division_error)
              × (o.side ≡ buy)
              × (is_zero dec (held_after o.side (held_before b) o.quantity) ≡ true)))

  store_fill-IsFilled :
      (a : Assumptions D) (o : Order D) (bar : Bar D) (price : D) (b : Book D) (f : Portfolio D)
      (p : Position D)
      → let gross = dec.to_money (dec.mul price o.quantity) in
        f.cash_balance ≡ cash_after o.side b.portfolio.cash_balance gross a.commission
        → p.held ≡ held_after o.side (held_before b) o.quantity
        → IsFilled a o b price
            (store_fill dec a o bar price (dec.to_money (dec.mul price o.quantity)) b (some (f, p)))
  store_fill-IsFilled a o bar price b f p paid same =
      elim (Bool-cases (dec.at_most dec.zero_d p.held)) [
        | inl e ↦ rw e (inl (_, _, _, p, refl, refl, refl, refl, refl, paid, refl, same, e))
        | inr e ↦ rw e (inr (inl (refl, subst (λ x. dec.at_most dec.zero_d x ≡ false) same e)))
      ]

  fill_position_lem :
      (side : Side) (price quantity gross fee : D) (f : Portfolio D) (p : Position D)
      → ((f' : Portfolio D) × (p' : Position D) × (fill_position dec side price quantity gross fee f
              p
            ≡ some (f', p'))
          × (f'.cash_balance ≡ cash_after side f.cash_balance gross fee)
          × (p'.held ≡ held_after side p.held quantity))
        ⊎ ((fill_position dec side price quantity gross fee f p ≡ none)
            × (side ≡ buy)
            × (is_zero dec (held_after side p.held quantity) ≡ true))
  unfolding fill_position
  fill_position_lem buy price quantity gross fee f p =
      elim (Bool-cases (is_zero dec (dec.add p.held quantity))) [
        | inl e ↦ inr (rw e refl, refl, e)
        | inr e ↦ rw e (inl (_, _, refl, refl, refl))
      ]
  fill_position_lem sell price quantity gross fee f p = inl (_, _, refl, refl, refl)

  fill-IsFilled :
      (a : Assumptions D) (o : Order D) (bar : Bar D) (price : D) (b : Book D)
      → IsFilled a o b price (fill dec a o bar price b)
  unfolding fill
  fill-IsFilled a o bar price b =
      let gross = dec.to_money (dec.mul price o.quantity) in
      elim (fill_position_lem o.side price o.quantity gross a.commission b.portfolio
        (or_else b.position (opened_position dec))) [
          | inl (f, p, found, paid, same) ↦
              subst (λ x. IsFilled a o b price (store_fill dec a o bar price gross b x)) (sym found)
                (store_fill-IsFilled a o bar price b f p paid same)
          | inr (broke, is_buy, zero) ↦
              inr (inr (ap (store_fill dec a o bar price gross b) broke, is_buy, zero))
        ]

  -- How one bar leaves an order whose price is decided: waiting with nothing changed but its own
  -- status, or as a fill at the base price with its friction leaves it.
  process_settled :
      (a : Assumptions D) (o : Order D) (bar : Bar D) (b : Book D) (base : Option D)
      (outcome : Outcome) (t : Bool)
      → ((o' : Order D) × (settle_order dec a o bar b (some (base, outcome, t)) ≡ processed o' b)
          × (is_open_status o'.status ≡ true))
        ⊎ ((p : D) × (base ≡ some p)
            × IsFilled a o b
                (apply_friction dec a p o.side o.limit_price)
                (settle_order dec a o bar b (some (base, outcome, t))))
  process_settled a o bar b none outcome t = inl (_, refl, waiting_is_open t outcome)
  process_settled a o bar b (some p) would_fill t = inr (
    p,
    refl,
    fill-IsFilled a (record o { is_triggered = t; status = waiting_status t would_fill }) bar
        (apply_friction dec a p o.side o.limit_price) b,
  )
  process_settled a o bar b (some p) would_wait t = inl (_, refl, waiting_is_open t would_wait)
  process_settled a o bar b (some p) would_trigger t =
      inl (_, refl, waiting_is_open t would_trigger)

  prices_of_request :
      (are_texts_fit : Bool) (o : Order D)
      → is_valid_request dec are_texts_fit o ≡ true
      → are_prices_fit o.order_type o.limit_price o.stop_price ≡ true
  unfolding is_valid_request
  prices_of_request are_texts_fit o h = ground arith

  has_prices_of_fit :
      (ty : OrderType) (l s : Option D)
      → are_prices_fit ty l s ≡ true
      → has_prices dec ty l s ≡ true
  has_prices_of_fit market l s h = refl
  has_prices_of_fit limit l s h = h
  has_prices_of_fit stop l s h = h
  has_prices_of_fit stop_limit l s h = h

  -- A fill's price keeps a limit that is a whole number of price units.
  fill_keeps_limit :
      (a : Assumptions D) (p price l : D) (side : Side) (given : Option D)
      → IsOrdered dec
      → price ≡ apply_friction dec a p side given
      → given ≡ some l
      → dec.to_price l ≡ l
      → keeps_limit dec side price l ≡ true
  fill_keeps_limit a p price l side given h same has grid =
      subst (λ x. keeps_limit dec side x l ≡ true)
        (sym (same ∙ ap (λ g. apply_friction dec a p side g) has))
        (apply_friction_limit dec a p side l h grid)

  -- Where decimals are in order, which rounding keeps: a closed order is left as it was, and so are
  -- the books. An open order that fails the checks of a request is refused. Any other open order stays
  -- open with the books untouched; or is filled once, in its whole quantity, its value with the
  -- commission paid or received and its quantity held or no longer held, which is then not below zero;
  -- or is stopped by the constraint on positions, when what would be held is below zero, or by a
  -- division by zero, when a buy would leave nothing held. A fill's price is no worse than the order's
  -- limit, if it has one that is a whole number of price units.
  pub process_order_lem :
      (are_texts_fit : Bool) (a : Assumptions D) (o : Order D) (bar : Bar D) (b : Book D)
      → IsOrdered dec
      → let result = process_order dec are_texts_fit a o bar b in
        (is_open_status o.status ≡ false → result ≡ processed o b)
        × (is_open_status o.status ≡ true
            → is_valid_request dec are_texts_fit o ≡ false
            → result ≡ invalid_request)
        × (is_open_status o.status ≡ true
            → is_valid_request dec are_texts_fit o ≡ true
            → ((o' : Order D) × (result ≡ processed o' b) × (is_open_status o'.status ≡ true))
              ⊎ ((price : D) × IsFilled a o b price result
                  × ((l : D)
                      → o.limit_price ≡ some l
                      → dec.to_price l ≡ l
                      → keeps_limit dec o.side price l ≡ true)))
  unfolding process_order
  process_order_lem fit a o bar b h = (
    λ over. rw over refl,
    λ live bad. rw live (rw bad refl),
    λ live good.
        let (base, outcome, t, found) =
          eligible_price_total dec o.order_type o.side o.limit_price o.stop_price bar o.is_triggered
            (has_prices_of_fit o.order_type o.limit_price o.stop_price
              (prices_of_request fit o good)) in
        rw live (
          rw good (
            rw found (elim (process_settled a o bar b base outcome t) [
              | inl waits ↦ inl waits
              | inr (p, _, filling) ↦ inr (
                apply_friction dec a p o.side o.limit_price,
                filling,
                λ l has grid. fill_keeps_limit a p _ l o.side o.limit_price h refl has grid,
              )
            ]))),
  )
