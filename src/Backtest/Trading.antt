-- ===== src/Backtest/Trading.antt =====
-- One rebalance of the simulated portfolio (packages/backtesting/engine.py, `_rebalance`, `_execute`,
-- `_execution_price`). The positions and the targets have a value for every symbol; the loops run
-- over the symbols in alphabetical order.
pub mod Laws
use market_intelligence_lab.Prelude.{
  ℕ, ◌-◌, Bool, true, false, not, Option, none, some, List, [], ◌∷◌, ◌++◌, if◌then◌else◌, leb,
  sort_rows, or_else,
}
use market_intelligence_lab.Moments.{Instant}
use market_intelligence_lab.Backtest.Rows.{
  Numbers, lesser, greater, is_zero, Bar, BacktestConfig, Position, Side, buy, sell, Trade, updated,
}

-- What the loops of `_rebalance` change.
pub record Book (D : Type 0) : Type 0 where
  pub cash : D
  pub positions : ℕ → Position D
  pub trades : List (Trade D)
  pub total_fees : D
  pub rejections : List ℕ

-- The arguments that the loops do not change; the reason for a symbol that has none is 0,
-- "Portfolio rebalance".
pub record Order (D : Type 0) : Type 0 where
  pub index : ℕ
  pub bars : ℕ → Bar D
  pub signal_time : Instant
  pub reasons : ℕ → Option ℕ

module _ {D F : Type 0} (num : Numbers D F) (config : BacktestConfig D) where
  -- `(spread_bps / 2 + slippage_bps) / 10000`
  abbrev friction : D
  friction =
      num.div (num.add (num.div config.spread_bps num.two_d) config.slippage_bps) num.ten_thousand

  abbrev multiplier : Side → D
  multiplier buy = num.add num.one_d friction
  multiplier sell = num.sub num.one_d friction

  abbrev pub execution_price : D → Side → D
  execution_price base side = num.to_shares (num.mul base (multiplier side))

  -- `_execute` on the position: bought, or sold.
  abbrev pub bought : ℕ → D → D → Position D → Position D
  bought index quantity gross p =
      let previous_cost = num.mul p.quantity p.average_cost in
      let held = num.add p.quantity quantity in
      record {
        quantity = held;
        average_cost = num.div (num.add (num.add previous_cost gross) config.commission) held;
        opened_index = if is_zero num p.quantity then index else p.opened_index;
      }

  abbrev pub sold : D → Position D → Position D
  sold quantity p =
      let held = num.sub p.quantity quantity in
      if num.at_most held num.share_unit
      then record p { quantity = num.zero_d; average_cost = num.zero_d }
      else record p { quantity = held }

  abbrev pub position_after : Side → ℕ → D → D → Position D → Position D
  position_after buy index quantity gross p = bought index quantity gross p
  position_after sell index quantity gross p = sold quantity p

  abbrev pub cash_after : Side → D → D → D
  cash_after buy gross cash = num.sub cash (num.add gross config.commission)
  cash_after sell gross cash = num.add cash (num.sub gross config.commission)

  abbrev realized : Side → D → D → Position D → D
  realized buy gross quantity p = num.zero_d
  realized sell gross quantity p =
      num.sub (num.sub gross config.commission) (num.mul quantity p.average_cost)

  abbrev holding_days : Side → ℕ → Position D → ℕ
  holding_days buy index p = 0
  holding_days sell index p = index - p.opened_index

  abbrev pub execute : Order D → ℕ → Side → D → Book D → Book D
  execute order symbol side quantity b =
      let bar = order.bars symbol in
      let position = b.positions symbol in
      let price = execution_price bar.open_price side in
      let gross = num.to_money (num.mul quantity price) in
      let cash = cash_after side gross b.cash in
      let trade : Trade D = record {
        asset_id = bar.asset_id;
        source_price_bar_id = bar.id;
        symbol = bar.symbol;
        side = side;
        signal_time = order.signal_time;
        execution_time = bar.event_time;
        quantity = quantity;
        price = price;
        gross_value = gross;
        fees = config.commission;
        cash_after = num.to_money cash;
        reason = or_else (order.reasons symbol) 0;
        realized_pnl = num.to_money (realized side gross quantity position);
        holding_days = holding_days side order.index position;
      } in
      record {
        cash = cash;
        positions =
            updated b.positions symbol (position_after side order.index quantity gross position);
        trades = b.trades ++ (trade ∷ []);
        total_fees = num.add b.total_fees config.commission;
        rejections = b.rejections;
      }

  -- `sum(...)`, from left to right.
  abbrev pub sum_from : D → (ℕ → D) → List ℕ → D
  sum_from acc f [] = acc
  sum_from acc f (x ∷ xs) = sum_from (num.add acc (f x)) f xs

  abbrev pub sum_of : (ℕ → D) → List ℕ → D
  sum_of f xs = sum_from num.zero_d f xs

  abbrev pub position_limit : D
  position_limit = num.mul config.max_position_pct num.risk_buffer

  abbrev pub exposure_limit : D
  exposure_limit = num.mul config.max_total_exposure num.risk_buffer

  abbrev pub capped : (ℕ → F) → ℕ → D
  capped targets symbol = lesser num (num.clipped (targets symbol)) position_limit

  -- The weights after both limits.
  abbrev pub weight_for : (ℕ → F) → ℕ → D
  weight_for targets symbol =
      let total = sum_of (capped targets) config.symbols in
      if num.at_most total exposure_limit
      then capped targets symbol
      else num.mul (capped targets symbol) (num.div exposure_limit total)

  abbrev pub desired_quantity : Order D → (ℕ → F) → Book D → ℕ → D
  desired_quantity order targets b symbol =
      let equity =
        num.add b.cash (
          sum_of (λ s. num.mul (b.positions s).quantity (order.bars s).open_price)
            config.symbols) in
      num.down_to_shares
        (num.div (num.mul equity (weight_for targets symbol)) (order.bars symbol).open_price)

  abbrev pub sell_one : Order D → D → ℕ → Book D → Book D
  sell_one order desired symbol b =
      if num.at_most (b.positions symbol).quantity desired
      then b
      else execute order symbol sell (num.sub (b.positions symbol).quantity desired) b

  abbrev pub affordable_quantity : Order D → D → ℕ → Book D → D
  affordable_quantity order desired symbol b =
      let quantity = num.sub desired (b.positions symbol).quantity in
      let estimated_price = execution_price (order.bars symbol).open_price buy in
      if num.at_most (num.add (num.mul quantity estimated_price) config.commission) b.cash
      then quantity
      else num.down_to_shares
          (num.div (greater num (num.sub b.cash config.commission) num.zero_d) estimated_price)

  abbrev pub buy_affordable : Order D → ℕ → D → Book D → Book D
  buy_affordable order symbol quantity b =
      if num.at_most quantity num.zero_d
      then record b { rejections = b.rejections ++ ((order.bars symbol).symbol ∷ []) }
      else execute order symbol buy quantity b

  abbrev pub buy_one : Order D → D → ℕ → Book D → Book D
  buy_one order desired symbol b =
      if num.at_most desired (b.positions symbol).quantity
      then b
      else buy_affordable order symbol (affordable_quantity order desired symbol b) b

  abbrev pub each : (ℕ → Book D → Book D) → List ℕ → Book D → Book D
  each act [] b = b
  each act (s ∷ ss) b = each act ss (act s b)

  -- `sorted(positions)`
  abbrev pub sorted_symbols : List ℕ
  sorted_symbols = sort_rows leb config.symbols

  unfoldable pub rebalance : Order D → (ℕ → F) → Book D → Book D
  rebalance order targets b =
      let desired = desired_quantity order targets b in
      each (λ s. buy_one order (desired s) s) sorted_symbols
        (each (λ s. sell_one order (desired s) s) sorted_symbols b)
