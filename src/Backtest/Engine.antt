-- ===== src/Backtest/Engine.antt =====
-- The simulation over the days (packages/backtesting/engine.py, `run`, `_risk_limit_breached`,
-- `_eligible_execution_index`). The strategy's `generate` is a parameter, and so are the numbers. The
-- metrics, the assumptions and the identifiers of the result are not modelled.
pub mod Laws
pub mod Days
use market_intelligence_lab.Prelude.{
  ℕ, zero, suc, ◌+◌, max, Bool, true, false, not, ◌&&◌, Option, none, some, List, [], ◌∷◌, ◌++◌,
  if◌then◌else◌, leb, ltb, ◌==◌, or_else, exists_row, every, where_rows, drop, length, map,
}
use market_intelligence_lab.Moments.{Instant}
use market_intelligence_lab.Backtest.Rows.{
  Numbers, lesser, greater, is_zero, Bar, BacktestConfig, Position, Trade, Holding, DailySnapshot,
  StrategyDecision, GeneratedSignal, PendingTargets, updated, merged,
}
use market_intelligence_lab.Backtest.Trading.{
  Book, Order, rebalance, sum_of, position_limit, exposure_limit,
}

-- The reason "Risk-limit rebalance".
abbrev pub risk_reason : ℕ
risk_reason = 1

-- `while candidate < len(times) and times[candidate] <= signal_time`, over the times from the
-- candidate on.
abbrev pub first_after : ℕ → Instant → List Instant → Option ℕ
first_after candidate signal_time [] = none
first_after candidate signal_time (t ∷ ts) =
    let later = first_after (candidate + 1) signal_time ts in
    if leb t signal_time then later else some candidate

unfoldable pub eligible_execution_index : List Instant → ℕ → Instant → ℕ → Option ℕ
eligible_execution_index times signal_index signal_time delay =
    first_after (signal_index + delay) signal_time (drop (signal_index + delay) times)

-- The bars of the selected symbols and of the benchmark, by day.
pub record Market (D : Type 0) : Type 0 where
  pub times : List Instant
  pub bars_at : Instant → ℕ → Bar D
  pub benchmark_close : Instant → D

-- The local variables of `run`, and the lists of its result.
pub record Simulation (D F : Type 0) : Type 0 where
  pub cash : D
  pub positions : ℕ → Position D
  pub targets : ℕ → F
  pub pending : List (PendingTargets F)
  pub cumulative_fees : D
  pub peak_equity : D
  pub close_history : ℕ → List F
  pub trades : List (Trade D)
  pub snapshots : List (DailySnapshot D)
  pub signals : List (GeneratedSignal F)
  pub rejections : List ℕ

-- What the loop over the symbols collects.
pub record Gathered (F : Type 0) : Type 0 where
  pub close_history : ℕ → List F
  pub updates : ℕ → Option F
  pub reasons : ℕ → Option ℕ
  pub signal_times : List Instant
  pub signals : List (GeneratedSignal F)

abbrev pub last_of {ℓ} : {A : Type ℓ} → List A → Option A
last_of [] = none
last_of (x ∷ xs) = some (or_else (last_of xs) x)

-- `max(signal_times)`, if there are any.
abbrev pub latest_of : List Instant → Option Instant
latest_of [] = none
latest_of (t ∷ ts) = some (max t (or_else (latest_of ts) t))

module _ {D F : Type 0} (num : Numbers D F) (generate : List F → ℕ → StrategyDecision F)
    (config : BacktestConfig D) where
  abbrev pub is_breached : DailySnapshot D → Bool
  is_breached snapshot =
      if not (num.at_most snapshot.exposure (exposure_limit num config))
      then true
      else if is_zero num snapshot.equity
      then false
      else exists_row
          (λ h. not (num.at_most (num.div h.value snapshot.equity) (position_limit num config)))
          snapshot.positions

  abbrev pub rebalanced : Order D → Simulation D F → Simulation D F
  rebalanced order s =
      let b = rebalance num config order s.targets (record {
        cash = s.cash;
        positions = s.positions;
        trades = [];
        total_fees = num.zero_d;
        rejections = s.rejections;
      }) in
      record s {
        cash = b.cash;
        positions = b.positions;
        trades = s.trades ++ b.trades;
        cumulative_fees = num.add s.cumulative_fees b.total_fees;
        rejections = b.rejections;
      }

  abbrev pub risk_order : ℕ → (ℕ → Bar D) → DailySnapshot D → Order D
  risk_order index bars snapshot = record {
    index = index;
    bars = bars;
    signal_time = snapshot.event_time;
    reasons = λ _. some risk_reason;
  }

  abbrev pub risk_checked :
      ℕ → (ℕ → Bar D) → Option (DailySnapshot D) → Simulation D F → Simulation D F
  risk_checked index bars none s = s
  risk_checked index bars (some snapshot) s =
      if is_breached snapshot then rebalanced (risk_order index bars snapshot) s else s

  -- A rebalance for the risk limits, when none is due.
  abbrev pub for_risk : ℕ → (ℕ → Bar D) → List (PendingTargets F) → Simulation D F → Simulation D F
  for_risk index bars [] s = risk_checked index bars (last_of s.snapshots) s
  for_risk index bars (p ∷ ps) s = s

  abbrev pub due_order : ℕ → (ℕ → Bar D) → PendingTargets F → Order D
  due_order index bars p = record {
    index = index;
    bars = bars;
    signal_time = p.signal_time;
    reasons = p.reasons;
  }

  -- `targets.update(item.updates)`
  abbrev pub with_updates : PendingTargets F → Simulation D F → Simulation D F
  with_updates p s = record s { targets = λ k. merged (p.updates k) (s.targets k) }

  abbrev pub apply_due : ℕ → (ℕ → Bar D) → List (PendingTargets F) → Simulation D F → Simulation D F
  apply_due index bars [] s = s
  apply_due index bars (p ∷ ps) s =
      apply_due index bars ps (rebalanced (due_order index bars p) (with_updates p s))

  abbrev holding_of : (ℕ → Bar D) → (ℕ → Position D) → ℕ → Holding D
  holding_of bars positions symbol = record {
    symbol = symbol;
    quantity = (positions symbol).quantity;
    average_cost = (positions symbol).average_cost;
    close = (bars symbol).close;
    value = num.to_money (num.mul (positions symbol).quantity (bars symbol).close);
  }

  abbrev pub take_snapshot : (ℕ → Bar D) → D → D → Instant → Simulation D F → Simulation D F
  take_snapshot bars benchmark_start benchmark event_time s =
      let market_value =
        sum_of num config (λ k. num.mul (s.positions k).quantity (bars k).close) config.symbols in
      let equity = num.to_money (num.add s.cash market_value) in
      let peak = greater num s.peak_equity equity in
      record s {
        peak_equity = peak;
        snapshots =
            s.snapshots
            ++ (record {
              event_time = event_time;
              equity = equity;
              cash = num.to_money s.cash;
              positions = map (holding_of bars s.positions) (
                  where_rows (λ k. not (num.at_most (s.positions k).quantity num.zero_d))
                    config.symbols);
              cumulative_fees = num.to_money s.cumulative_fees;
              exposure = if is_zero num equity then num.zero_d else num.div market_value equity;
              drawdown =
                  if is_zero num peak then num.zero_d else num.sub (num.div equity peak) num.one_d;
              benchmark_value =
                  num.to_money (num.div (num.mul config.initial_cash benchmark) benchmark_start);
            }
                ∷ []);
      }

  abbrev pub signal_time_of : Bar D → Instant
  signal_time_of bar = max bar.publication_time bar.effective_time

  abbrev gather_decision : Bar D → ℕ → StrategyDecision F → Option F → Gathered F → Gathered F
  gather_decision bar symbol decision none g = g
  gather_decision bar symbol decision (some weight) g = record {
    close_history = g.close_history;
    updates = updated g.updates symbol (some weight);
    reasons = updated g.reasons symbol (some decision.explanation);
    signal_times = g.signal_times ++ (signal_time_of bar ∷ []);
    signals =
        g.signals
        ++ (record {
          asset_id = bar.asset_id;
          source_price_bar_id = bar.id;
          symbol = symbol;
          generated_at = signal_time_of bar;
          eligible_after = signal_time_of bar;
          decision = decision;
        }
            ∷ []);
  }

  abbrev pub gather : ℕ → (ℕ → Bar D) → List ℕ → Gathered F → Gathered F
  gather index bars [] g = g
  gather index bars (symbol ∷ symbols) g =
      let history = g.close_history symbol ++ (num.to_float (bars symbol).close ∷ []) in
      let decision = generate history index in
      gather index bars symbols (
        gather_decision (bars symbol) symbol decision decision.target_weight
          (record g { close_history = updated g.close_history symbol history }))

  abbrev pub schedule : ℕ → Instant → Gathered F → Option ℕ → List (PendingTargets F)
  schedule index signal_time g none = []
  schedule index signal_time g (some execution_index) =
      record {
        execution_index = execution_index;
        signal_index = index;
        signal_time = signal_time;
        updates = g.updates;
        reasons = g.reasons;
      }
      ∷ []

  -- What is added to the pending targets.
  abbrev pub scheduled : List Instant → ℕ → Gathered F → Option Instant → List (PendingTargets F)
  scheduled times index g none = []
  scheduled times index g (some signal_time) =
      schedule index signal_time g
        (eligible_execution_index times index signal_time config.execution_delay)

  -- What the loop over the symbols has collected at its end.
  abbrev pub gathered : ℕ → (ℕ → Bar D) → Simulation D F → Gathered F
  gathered index bars s = gather index bars config.symbols (record {
    close_history = s.close_history;
    updates = λ _. none;
    reasons = λ _. none;
    signal_times = [];
    signals = s.signals;
  })

  abbrev pub decide_day : List Instant → ℕ → (ℕ → Bar D) → Simulation D F → Simulation D F
  decide_day times index bars s =
      let g = gathered index bars s in
      record s {
        close_history = g.close_history;
        signals = g.signals;
        pending = s.pending ++ scheduled times index g (latest_of g.signal_times);
      }

  abbrev pub is_due : ℕ → PendingTargets F → Bool
  is_due index p = p.execution_index == index

  -- The trades of a day.
  abbrev pub trade_day : ℕ → (ℕ → Bar D) → Simulation D F → Simulation D F
  trade_day index bars s =
      let due = where_rows (is_due index) s.pending in
      let traded = apply_due index bars due (for_risk index bars due s) in
      record traded { pending = where_rows (λ p. not (is_due index p)) traded.pending }

  -- The body of the loop, with the bars of its day.
  abbrev pub day_with :
      List Instant → (ℕ → Bar D) → D → D → ℕ → Instant → Simulation D F → Simulation D F
  day_with times bars benchmark benchmark_start index event_time s =
      decide_day times index bars
        (take_snapshot bars benchmark_start benchmark event_time (trade_day index bars s))

  unfoldable pub day : Market D → D → ℕ → Instant → Simulation D F → Simulation D F
  day market benchmark_start index event_time s =
      day_with market.times (market.bars_at event_time) (market.benchmark_close event_time)
        benchmark_start index event_time s

  -- The loop, from a day on.
  unfoldable pub days : Market D → D → ℕ → List Instant → Simulation D F → Simulation D F
  days market benchmark_start index [] s = s
  days market benchmark_start index (t ∷ ts) s =
      days market benchmark_start (index + 1) ts (day market benchmark_start index t s)

  abbrev pub begin : Simulation D F
  begin = record {
    cash = config.initial_cash;
    positions = λ _. record { quantity = num.zero_d; average_cost = num.zero_d; opened_index = 0 };
    targets = λ _. num.zero_f;
    pending = [];
    cumulative_fees = num.zero_d;
    peak_equity = config.initial_cash;
    close_history = λ _. [];
    trades = [];
    snapshots = [];
    signals = [];
    rejections = [];
  }
