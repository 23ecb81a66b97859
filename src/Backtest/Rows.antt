-- ===== src/Backtest/Rows.antt =====
-- The inputs and results of a backtest (packages/backtesting/types.py, and the classes at the top of
-- packages/backtesting/engine.py). A symbol is its rank in alphabetical order; decimal and binary
-- floating-point numbers are an interface. Columns that no modelled step reads are left out.
use market_intelligence_lab.Prelude.{ℕ, Bool, Option, none, some, List, if◌then◌else◌, ◌==◌}
use market_intelligence_lab.Moments.{Instant}

-- Python's decimal numbers D and floating-point numbers F, as far as the engine uses them.
pub record Numbers (D F : Type 0) : Type 0 where
  pub zero_d : D
  pub one_d : D
  pub two_d : D
  pub ten_thousand : D
  -- RISK_TARGET_BUFFER and SHARES
  pub risk_buffer : D
  pub share_unit : D
  pub add : D → D → D
  pub sub : D → D → D
  pub mul : D → D → D
  pub div : D → D → D
  -- `a <= b`
  pub at_most : D → D → Bool
  -- `quantize(MONEY)`, `quantize(SHARES)`, and the latter with ROUND_DOWN
  pub to_money : D → D
  pub to_shares : D → D
  pub down_to_shares : D → D
  -- `float(d)`, `0.0`, and `Decimal(str(max(f, 0.0)))`
  pub to_float : D → F
  pub zero_f : F
  pub clipped : F → D

module _ {D F : Type 0} (num : Numbers D F) where
  -- `min(a, b)` and `max(a, b)`
  abbrev pub lesser : D → D → D
  lesser a b = if num.at_most a b then a else b

  abbrev pub greater : D → D → D
  greater a b = if num.at_most b a then a else b

  -- The truth value of a number.
  abbrev pub is_zero : D → Bool
  is_zero a = if num.at_most a num.zero_d then num.at_most num.zero_d a else Bool.false

pub record Bar (D : Type 0) : Type 0 where
  pub id : ℕ
  pub asset_id : ℕ
  pub symbol : ℕ
  pub event_time : Instant
  pub publication_time : Instant
  pub effective_time : Instant
  pub open_price : D
  pub close : D

pub record BacktestConfig (D : Type 0) : Type 0 where
  pub symbols : List ℕ
  pub initial_cash : D
  pub commission : D
  pub spread_bps : D
  pub slippage_bps : D
  pub execution_delay : ℕ
  pub max_position_pct : D
  pub max_total_exposure : D

pub record Position (D : Type 0) : Type 0 where
  pub quantity : D
  pub average_cost : D
  pub opened_index : ℕ

pub data Side : Type 0 where
  buy sell : Side

pub record Trade (D : Type 0) : Type 0 where
  pub asset_id : ℕ
  pub source_price_bar_id : ℕ
  pub symbol : ℕ
  pub side : Side
  pub signal_time : Instant
  pub execution_time : Instant
  pub quantity : D
  pub price : D
  pub gross_value : D
  pub fees : D
  pub cash_after : D
  pub reason : ℕ
  pub realized_pnl : D
  pub holding_days : ℕ

-- An entry of a snapshot's `positions`.
pub record Holding (D : Type 0) : Type 0 where
  pub symbol : ℕ
  pub quantity : D
  pub average_cost : D
  pub close : D
  pub value : D

pub record DailySnapshot (D : Type 0) : Type 0 where
  pub event_time : Instant
  pub equity : D
  pub cash : D
  pub positions : List (Holding D)
  pub cumulative_fees : D
  pub exposure : D
  pub drawdown : D
  pub benchmark_value : D

-- What a strategy's `generate` answers; an explanation is a number.
pub record StrategyDecision (F : Type 0) : Type 0 where
  pub target_weight : Option F
  pub explanation : ℕ

pub record GeneratedSignal (F : Type 0) : Type 0 where
  pub asset_id : ℕ
  pub source_price_bar_id : ℕ
  pub symbol : ℕ
  pub generated_at : Instant
  pub eligible_after : Instant
  pub decision : StrategyDecision F

-- A dictionary with a value for every key that is read, and one without.
abbrev pub updated {ℓ} : {A : Type ℓ} → (ℕ → A) → ℕ → A → ℕ → A
updated f key a k = if key == k then a else f k

-- `dict.update`
abbrev pub merged {ℓ} : {A : Type ℓ} → Option A → A → A
merged none old = old
merged (some a) old = a

pub record PendingTargets (F : Type 0) : Type 0 where
  pub execution_index : ℕ
  pub signal_index : ℕ
  pub signal_time : Instant
  pub updates : ℕ → Option F
  pub reasons : ℕ → Option ℕ
