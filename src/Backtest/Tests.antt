-- ===== src/Backtest/Tests.antt =====
-- Witnesses on a small backtest, with numbers in units of 10^-4.
use market_intelligence_lab.Prelude.{
  ℕ, ◌+◌, ◌-◌, ◌*◌, ◌/◌, ◌<◌, ◌≡◌, ◌⊎◌, true, some, List, [], ◌∷◌, All, leb, if◌then◌else◌, refl,
  arith, map,
}
use market_intelligence_lab.Backtest.Rows.{Numbers, Bar, BacktestConfig, StrategyDecision}
use market_intelligence_lab.Backtest.Trading.{rebalance}
use market_intelligence_lab.Backtest.Trading.Laws.{IsOrdered, IsLong}
use market_intelligence_lab.Backtest.Engine.{
  Market, Simulation, eligible_execution_index, day, days, begin,
}
use market_intelligence_lab.Backtest.Engine.Laws.{IsFirstAfter, eligible_execution_index_lem}
use market_intelligence_lab.Backtest.Engine.Days.{days-Agree}
use market_intelligence_lab.Backtest.Alignment.{finished, market_of, simulate, run}
use market_intelligence_lab.Backtest.Alignment.Laws.{run_no_look_ahead, run-IsLong}

abbrev units : Numbers ℕ ℕ
units = record {
  zero_d = 0;
  one_d = 10000;
  two_d = 20000;
  ten_thousand = 100000000;
  risk_buffer = 9900;
  share_unit = 1;
  add = λ a b. a + b;
  sub = λ a b. a - b;
  mul = λ a b. a * b / 10000;
  div = λ a b. a * 10000 / b;
  at_most = leb;
  to_money = λ a. a;
  to_shares = λ a. a;
  down_to_shares = λ a. a;
  to_float = λ a. a;
  zero_f = 0;
  clipped = λ a. a;
}

le_total : (a b : ℕ) → (leb a b ≡ true) ⊎ (leb b a ≡ true)
le_total a b = ground arith

units-IsOrdered : IsOrdered units
units-IsOrdered = record {
  total = le_total;
  trans = λ a b c h k. ground arith;
  unit = refl;
  sum = λ a b h k. ground arith;
}

abbrev config : BacktestConfig ℕ
config = record {
  symbols = 1 ∷ 2 ∷ [];
  initial_cash = 10000000;
  commission = 10000;
  spread_bps = 20000;
  slippage_bps = 10000;
  execution_delay = 1;
  max_position_pct = 4000;
  max_total_exposure = 10000;
}

-- Half of the equity in each symbol, from the first day on.
abbrev generate : List ℕ → ℕ → StrategyDecision ℕ
generate history index = record { target_weight = some 5000; explanation = 7 }

abbrev bar : ℕ → ℕ → ℕ → Bar ℕ
bar symbol t price = record {
  id = symbol * 100 + t;
  asset_id = symbol;
  symbol = symbol;
  event_time = t;
  publication_time = t + 2;
  effective_time = t + 1;
  open_price = price;
  close = price;
}

abbrev prices : ℕ → ℕ → List (Bar ℕ)
prices last symbol =
    bar symbol 30 last ∷ bar symbol 10 100000 ∷ bar symbol 20 110000 ∷ bar symbol 40 last ∷ []

abbrev ended : Simulation ℕ ℕ
ended =
    simulate units generate config
      (market_of units (10 ∷ 20 ∷ 30 ∷ 40 ∷ []) (prices 90000) (prices 90000 3))
      (10 ∷ 20 ∷ 30 ∷ 40 ∷ [])

has_run : run units generate config (prices 90000) (prices 90000 3) ≡ finished ended
unfolding run
has_run = refl

traded : map (λ t. t.execution_time) ended.trades ≡ 20 ∷ 20 ∷ 30 ∷ 30 ∷ 40 ∷ 40 ∷ []
unfolding days day rebalance eligible_execution_index
traded = refl

run_no_look_ahead_example : All (λ t. t.signal_time < t.execution_time) ended.trades
run_no_look_ahead_example =
    run_no_look_ahead units generate config (prices 90000) (prices 90000 3) ended has_run

run-IsLong_example : IsLong units config ended.positions
run-IsLong_example =
    run-IsLong units generate config (prices 90000) (prices 90000 3) ended units-IsOrdered has_run

eligible_execution_index_lem_example :
    IsFirstAfter 1 25 (20 ∷ 30 ∷ 40 ∷ []) (eligible_execution_index (10 ∷ 20 ∷ 30 ∷ 40 ∷ []) 0 25 1)
eligible_execution_index_lem_example = eligible_execution_index_lem (10 ∷ 20 ∷ 30 ∷ 40 ∷ []) 0 25 1

-- Two markets whose last two days differ.
abbrev market : ℕ → Market ℕ
market last = record {
  times = 10 ∷ 20 ∷ 30 ∷ 40 ∷ [];
  bars_at = λ t k. bar k t (if leb t 20 then 100000 else last);
  benchmark_close = λ t. if leb t 20 then 100000 else last;
}

days-Agree_example :
    (now : Simulation ℕ ℕ) × (days units generate config
        (market 90000)
        100000
        0
        (10 ∷ 20 ∷ 30 ∷ 40 ∷ [])
        (begin units generate config)
      ≡ days units generate config (market 90000) 100000 2 (30 ∷ 40 ∷ []) now)
    × (days units generate config
          (market 50000)
          100000
          0
          (10 ∷ 20 ∷ 30 ∷ 40 ∷ [])
          (begin units generate config)
        ≡ days units generate config (market 50000) 100000 2 (30 ∷ 40 ∷ []) now)
days-Agree_example =
    days-Agree units generate config (market 90000) (market 50000) 100000 0 (10 ∷ 20 ∷ [])
      (30 ∷ 40 ∷ []) (begin units generate config) (refl, ((refl, refl), ((refl, refl), tt)))
