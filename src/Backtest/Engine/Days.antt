-- ===== src/Backtest/Engine/Days.antt =====
-- What holds of the whole simulation (packages/backtesting/engine.py, `run`).
use market_intelligence_lab.Prelude.{
  ℕ, suc, ◌+◌, ◌≡◌, ◌∙◌, sym, ap, inl, inr, List, [], ◌∷◌, ◌++◌, All, drop, length, Bool-cases,
  Option-cases, arith, where_rows,
}
use market_intelligence_lab.Moments.{Instant}
use market_intelligence_lab.Backtest.Rows.{
  Numbers, Bar, BacktestConfig, StrategyDecision, PendingTargets,
}
use market_intelligence_lab.Backtest.Trading.Laws.{IsOrdered, IsLong, IsLong-rebalance}
use market_intelligence_lab.Backtest.Engine.{
  Market, Simulation, last_of, is_breached, rebalanced, for_risk, apply_due, due_order, risk_order,
  with_updates, is_due, day_with, day, days,
}
use market_intelligence_lab.Backtest.Engine.Laws.{Ascending, IsCausal, IsCausal-day, drop-drop}

module _ {D F : Type 0} (num : Numbers D F) (generate : List F → ℕ → StrategyDecision F)
    (config : BacktestConfig D) where
  -- The bars of a day are that day's.
  abbrev pub IsDated : Market D → List Instant → Type 0
  IsDated market ts = All (λ t. All (λ k. (market.bars_at t k).event_time ≡ t) config.symbols) ts

  drop-next :
      (index : ℕ) (times : List Instant) (t : Instant) (ts : List Instant)
      → drop index times ≡ t ∷ ts
      → drop (index + 1) times ≡ ts
  drop-next index times t ts h = sym (drop-drop 1 index times) ∙ ap (drop 1) h

  pub IsCausal-days :
      (market : Market D) (start : D) (index : ℕ) (ts : List Instant) (s : Simulation D F)
      → drop index market.times ≡ ts
      → IsDated market ts
      → Ascending ts
      → IsCausal num generate config market.times ts s
      → IsCausal num generate config market.times []
          (days num generate config market start index ts s)
  unfolding days
  IsCausal-days market start index [] s here dated ascending causal = causal
  IsCausal-days market start index (t ∷ ts) s here dated ascending causal =
      IsCausal-days market start (index + 1) ts (day num generate config market start index t s)
        (drop-next index market.times t ts here) dated.1 ascending.1
        (IsCausal-day num generate config market start index t ts s here dated.0 ascending.0 causal)

  module _ (decimals : IsOrdered num) where
    IsLong-apply_due :
        (index : ℕ) (bars : ℕ → Bar D) (due : List (PendingTargets F)) (s : Simulation D F)
        → IsLong num config s.positions
        → IsLong num config (apply_due num generate config index bars due s).positions
    IsLong-apply_due index bars [] s long = long
    IsLong-apply_due index bars (p ∷ ps) s long =
        let s' = with_updates num generate config p s in
        let order = due_order num generate config index bars p in
        IsLong-apply_due index bars ps (rebalanced num generate config order s')
          (IsLong-rebalance num config decimals order s'.targets _ long)

    IsLong-for_risk :
        (index : ℕ) (bars : ℕ → Bar D) (due : List (PendingTargets F)) (s : Simulation D F)
        → IsLong num config s.positions
        → IsLong num config (for_risk num generate config index bars due s).positions
    IsLong-for_risk index bars (p ∷ ps) s long = long
    IsLong-for_risk index bars [] s long = elim (Option-cases (last_of s.snapshots)) [
      | inl e ↦ rw e long
      | inr (d, e) ↦ rw e (elim (Bool-cases (is_breached num generate config d)) [
        | inl k ↦ rw k (
            IsLong-rebalance num config decimals (risk_order num generate config index bars d)
              s.targets _ long)
        | inr k ↦ rw k long
      ])
    ]

    pub IsLong-days :
        (market : Market D) (start : D) (index : ℕ) (ts : List Instant) (s : Simulation D F)
        → IsLong num config s.positions
        → IsLong num config (days num generate config market start index ts s).positions
    unfolding days day
    IsLong-days market start index [] s long = long
    IsLong-days market start index (t ∷ ts) s long =
        let bars = market.bars_at t in
        let due = where_rows (is_due num generate config index) s.pending in
        IsLong-days market start (index + 1) ts (day num generate config market start index t s) (
          IsLong-apply_due index bars due (for_risk num generate config index bars due s)
            (IsLong-for_risk index bars due s long))

  -- Two markets with the same calendar of days, and the same bars on the given ones.
  abbrev pub Agree : Market D → Market D → List Instant → Type 0
  Agree market other ts =
      (market.times ≡ other.times)
      × All
          (λ t.
            (market.bars_at t ≡ other.bars_at t)
            × (market.benchmark_close t ≡ other.benchmark_close t))
          ts

  day-Agree :
      (market other : Market D) (start : D) (index : ℕ) (t : Instant) (s : Simulation D F)
      → Agree market other (t ∷ [])
      → day num generate config market start index t s
        ≡ day num generate config other start index t s
  unfolding day
  day-Agree market other start index t s same =
      let with = day_with num generate config in
      ap (λ v. with v (market.bars_at t) (market.benchmark_close t) start index t s) same.0
      ∙ ap (λ v. with other.times v (market.benchmark_close t) start index t s) same.1.0.0
      ∙ ap (λ v. with other.times (other.bars_at t) v start index t s) same.1.0.1

  -- A simulation knows nothing of the bars to come: over two markets with one and the same calendar,
  -- the days to come included, whose bars and benchmark agree on the next days, whatever their other
  -- bars are, it is in one and the same state after those days.
  pub days-Agree :
      (market other : Market D) (start : D) (index : ℕ) (ts rest : List Instant)
      (s : Simulation D F)
      → Agree market other ts
      → (now : Simulation D F) × (days num generate config market start index (ts ++ rest) s
          ≡ days num generate config market start (index + length ts) rest now)
        × (days num generate config other start index (ts ++ rest) s
            ≡ days num generate config other start (index + length ts) rest now)
  unfolding days
  days-Agree market other start index [] rest s same =
      let start_index : index ≡ index + 0 = omega arith in
      (
        s,
        ap (λ n. days num generate config market start n rest s) start_index,
        ap (λ n. days num generate config other start n rest s) start_index,
      )
  days-Agree market other start index (t ∷ ts) rest s same =
      let (now, left, right) =
        days-Agree market other start (index + 1) ts rest
          (day num generate config market start index t s) (same.0, same.1.1) in
      let next : index + 1 + length ts ≡ index + suc (length ts) = omega arith in
      (
        now,
        left ∙ ap (λ n. days num generate config market start n rest now) next,
        ap (λ v. days num generate config other start (index + 1) (ts ++ rest) v)
              (sym (day-Agree market other start index t s (same.0, (same.1.0, tt))))
            ∙ right
            ∙ ap (λ n. days num generate config other start n rest now) next,
      )
