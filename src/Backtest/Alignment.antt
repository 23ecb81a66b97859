-- ===== src/Backtest/Alignment.antt =====
-- From the bars of each symbol to the days of a backtest (packages/backtesting/engine.py, the first
-- half of `run`). The bars of a symbol are sorted by a stable order and the last one of a time is
-- kept, so the last bar of a time in the given order is looked up without sorting. A dictionary that
-- lacks a symbol is taken as one without bars: both are refused.
pub mod Laws
use market_intelligence_lab.Prelude.{
  ℕ, ◌+◌, Bool, true, false, ◌&&◌, Option, none, some, List, [], ◌∷◌, if◌then◌else◌, ltb, ◌==◌,
  or_else, exists_row, every, where_rows, length, map,
}
use market_intelligence_lab.Moments.{Instant}
use market_intelligence_lab.Backtest.Rows.{Numbers, Bar, BacktestConfig, StrategyDecision}
use market_intelligence_lab.Backtest.Engine.{Market, Simulation, days, begin}

pub data Outcome (D F : Type 0) : Type 0 where
  no_symbols no_price_history too_few_bars : Outcome D F
  finished : Simulation D F → Outcome D F

-- `sorted` of a set of times.
abbrev pub insert_time : Instant → List Instant → List Instant
insert_time t [] = t ∷ []
insert_time t (u ∷ us) =
    let rest = insert_time t us in
    if ltb t u then t ∷ u ∷ us else if t == u then u ∷ us else u ∷ rest

abbrev pub sorted_times : List Instant → List Instant
sorted_times [] = []
sorted_times (t ∷ ts) = insert_time t (sorted_times ts)

module _ {D F : Type 0} (num : Numbers D F) where
  abbrev pub has_time : Instant → List (Bar D) → Bool
  has_time t bars = exists_row (λ b. b.event_time == t) bars

  abbrev pub find_last : Instant → List (Bar D) → Option (Bar D)
  find_last t [] = none
  find_last t (b ∷ bs) = keep_later (find_last t bs)
    where
      keep_later : Option (Bar D) → Option (Bar D)
      keep_later (some later) = some later
      keep_later none = if b.event_time == t then some b else none

  -- Never seen: every day has a bar for every symbol.
  abbrev blank_bar : Bar D
  blank_bar = record {
    id = 0;
    asset_id = 0;
    symbol = 0;
    event_time = 0;
    publication_time = 0;
    effective_time = 0;
    open_price = num.zero_d;
    close = num.zero_d;
  }

  abbrev pub bar_at : List (Bar D) → Instant → Bar D
  bar_at bars t = or_else (find_last t bars) blank_bar

  -- A time at which every symbol and the benchmark have a bar.
  abbrev pub is_common : List ℕ → (ℕ → List (Bar D)) → List (Bar D) → Instant → Bool
  is_common symbols bars_by_symbol benchmark t =
      every (λ k. has_time t (bars_by_symbol k)) symbols && has_time t benchmark

  abbrev pub aligned_times :
      List ℕ → List (Bar D) → (ℕ → List (Bar D)) → List (Bar D) → List Instant
  aligned_times symbols first_bars bars_by_symbol benchmark =
      where_rows (is_common symbols bars_by_symbol benchmark)
        (sorted_times (map (λ b. b.event_time) first_bars))

  abbrev pub market_of : List Instant → (ℕ → List (Bar D)) → List (Bar D) → Market D
  market_of times bars_by_symbol benchmark = record {
    times = times;
    bars_at = λ t k. bar_at (bars_by_symbol k) t;
    benchmark_close = λ t. (bar_at benchmark t).close;
  }

  abbrev pub is_empty : List (Bar D) → Bool
  is_empty [] = true
  is_empty (b ∷ bs) = false

  module _ (generate : List F → ℕ → StrategyDecision F) (config : BacktestConfig D) where
    abbrev pub simulate : Market D → List Instant → Simulation D F
    simulate market [] = begin num generate config
    simulate market (t ∷ ts) =
        days num generate config market (market.benchmark_close t) 0 (t ∷ ts)
          (begin num generate config)

    abbrev pub run_over : (ℕ → List (Bar D)) → List (Bar D) → List Instant → Outcome D F
    run_over bars_by_symbol benchmark times =
        if ltb (length times) (config.execution_delay + 2)
        then too_few_bars
        else finished (simulate (market_of times bars_by_symbol benchmark) times)

    abbrev pub run_for : List ℕ → (ℕ → List (Bar D)) → List (Bar D) → Outcome D F
    run_for [] bars_by_symbol benchmark = no_symbols
    run_for (first ∷ others) bars_by_symbol benchmark =
        if exists_row (λ k. is_empty (bars_by_symbol k)) (first ∷ others)
        then no_price_history
        else run_over bars_by_symbol benchmark
            (aligned_times (first ∷ others) (bars_by_symbol first) bars_by_symbol benchmark)

    unfoldable pub run : (ℕ → List (Bar D)) → List (Bar D) → Outcome D F
    run bars_by_symbol benchmark = run_for config.symbols bars_by_symbol benchmark
