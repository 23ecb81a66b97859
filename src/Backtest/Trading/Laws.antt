-- ===== src/Backtest/Trading/Laws.antt =====
-- What a rebalance keeps (packages/backtesting/engine.py, `_rebalance`).
use market_intelligence_lab.Prelude.{
  ℕ, ◌≡◌, ◌⊎◌, inl, inr, true, false, List, [], ◌∷◌, ◌++◌, leb, ◌==◌, All, All-append,
  All-sort_rows, All-always, refl, Bool-cases,
}
use market_intelligence_lab.Moments.{Instant}
use market_intelligence_lab.Backtest.Rows.{
  Numbers, BacktestConfig, Position, buy, sell, Trade, updated,
}
use market_intelligence_lab.Backtest.Trading.{
  Book, Order, execute, sell_one, buy_one, affordable_quantity, each, sorted_symbols, rebalance,
  sold, desired_quantity,
}

-- Facts of Python's decimals: numbers that are not NaN are in a total order, SHARES is not
-- negative, and a sum of numbers that are not negative is not negative.
pub record IsOrdered {D F : Type 0} (num : Numbers D F) : Type 0 where
  pub total : (a b : D) → (num.at_most a b ≡ true) ⊎ (num.at_most b a ≡ true)
  pub trans : (a b c : D) → num.at_most a b ≡ true → num.at_most b c ≡ true → num.at_most a c ≡ true
  pub unit : num.at_most num.zero_d num.share_unit ≡ true
  pub sum :
      (a b : D)
      → num.at_most num.zero_d a ≡ true
      → num.at_most num.zero_d b ≡ true
      → num.at_most num.zero_d (num.add a b) ≡ true

module _ {D F : Type 0} (num : Numbers D F) (config : BacktestConfig D) where
  module _ {κ} (P : Book D → Type κ) (Ok : ℕ → Type 0) (act : ℕ → Book D → Book D)
      (keep : (symbol : ℕ) (b : Book D) → Ok symbol → P b → P (act symbol b)) where
    each_rule :
        (symbols : List ℕ) (b : Book D) → All Ok symbols → P b → P (each num config act symbols b)
    each_rule [] b ok p = p
    each_rule (s ∷ ss) b ok p = each_rule ss (act s b) ok.1 (keep s b ok.0 p)

  -- What an execution on either side and a rejection keep, a rebalance keeps.
  pub rebalance_rule {κ} :
      (P : Book D → Type κ) (Ok : ℕ → Type 0) (order : Order D)
      → ((symbol : ℕ) (quantity : D) (b : Book D)
          → Ok symbol
          → P b
          → P (execute num config order symbol sell quantity b))
      → ((symbol : ℕ) (quantity : D) (b : Book D)
          → Ok symbol
          → num.at_most quantity num.zero_d ≡ false
          → P b
          → P (execute num config order symbol buy quantity b))
      → ((symbol : ℕ) (b : Book D)
          → P b
          → P (record b { rejections = b.rejections ++ ((order.bars symbol).symbol ∷ []) }))
      → (targets : ℕ → F) (b : Book D) → All Ok config.symbols
      → P b
      → P (rebalance num config order targets b)
  unfolding rebalance
  rebalance_rule P Ok order sells buys rejects targets b ok p =
      let desired = desired_quantity num config order targets b in
      let sorted = All-sort_rows Ok leb config.symbols ok in
      each_rule P Ok (λ s. buy_one num config order (desired s) s)
        (λ s b ok p. elim (Bool-cases (num.at_most (desired s) (b.positions s).quantity)) [
          | inl e ↦ rw e p
          | inr e ↦
              rw e
                (elim (Bool-cases
                  (num.at_most (affordable_quantity num config order (desired s) s b) num.zero_d)) [
                    | inl k ↦ rw k (rejects s b p)
                    | inr k ↦
                        rw k
                          (buys s (affordable_quantity num config order (desired s) s b) b ok k p)
                  ])
        ])
        (sorted_symbols num config) _ sorted
        (each_rule P Ok (λ s. sell_one num config order (desired s) s)
          (λ s b ok p. elim (Bool-cases (num.at_most (b.positions s).quantity (desired s))) [
            | inl e ↦ rw e p
            | inr e ↦ rw e (sells s (num.sub (b.positions s).quantity (desired s)) b ok p)
          ])
          (sorted_symbols num config) b sorted p)

  -- A trade of an order on a day.
  abbrev pub IsTimed : Instant → Instant → Trade D → Type 0
  IsTimed signal_time event_time t = (t.signal_time ≡ signal_time) × (t.execution_time ≡ event_time)

  pub All-IsTimed-rebalance :
      (order : Order D) (event_time : Instant) (targets : ℕ → F) (b : Book D)
      → All (λ s. (order.bars s).event_time ≡ event_time) config.symbols
      → All (IsTimed order.signal_time event_time) b.trades
      → All (IsTimed order.signal_time event_time) (rebalance num config order targets b).trades
  All-IsTimed-rebalance order event_time targets b dated timed =
      let P : Book D → Type 0 = λ b. All (IsTimed order.signal_time event_time) b.trades in
      rebalance_rule P (λ s. (order.bars s).event_time ≡ event_time) order
        (λ s q b e p.
          All-append (IsTimed order.signal_time event_time) b.trades _ p ((refl, e), tt))
        (λ s q b e k p.
          All-append (IsTimed order.signal_time event_time) b.trades _ p ((refl, e), tt))
        (λ s b p. p) targets b dated timed

  -- No position is short.
  abbrev pub IsLong : (ℕ → Position D) → Type 0
  IsLong positions = (s : ℕ) → num.at_most num.zero_d (positions s).quantity ≡ true

  module _ (decimals : IsOrdered num) where
    from_false : (a b : D) → num.at_most a b ≡ false → num.at_most b a ≡ true
    from_false a b h = elim (decimals.total a b) [ inl t ↦ cc | inr t ↦ t ]

    sold-nonneg :
        (quantity : D) (p : Position D)
        → num.at_most num.zero_d (sold num config quantity p).quantity ≡ true
    sold-nonneg quantity p =
        elim (Bool-cases (num.at_most (num.sub p.quantity quantity) num.share_unit)) [
          | inl e ↦ rw e (elim (decimals.total num.zero_d num.zero_d) [ inl t ↦ t | inr t ↦ t ])
          | inr e ↦ rw e (
              decimals.trans num.zero_d num.share_unit _ decimals.unit
                (from_false _ num.share_unit e))
        ]

    IsLong-updated :
        (positions : ℕ → Position D) (symbol : ℕ) (p : Position D)
        → num.at_most num.zero_d p.quantity ≡ true
        → IsLong positions
        → IsLong (updated positions symbol p)
    IsLong-updated positions symbol p h long s = elim (Bool-cases (symbol == s)) [
      | inl e ↦ rw e h
      | inr e ↦ rw e (long s)
    ]

    pub IsLong-rebalance :
        (order : Order D) (targets : ℕ → F) (b : Book D)
        → IsLong b.positions
        → IsLong (rebalance num config order targets b).positions
    IsLong-rebalance order targets b long =
        rebalance_rule (λ b. IsLong b.positions) (λ s. Unit) order
          (λ s q b _ l. IsLong-updated b.positions s _ (sold-nonneg q (b.positions s)) l)
          (λ s q b _ k l.
            IsLong-updated b.positions s _ (decimals.sum _ q (l s) (from_false q num.zero_d k)) l)
          (λ s b l. l) targets b (All-always (λ s. Unit) (λ _. tt) config.symbols) long
