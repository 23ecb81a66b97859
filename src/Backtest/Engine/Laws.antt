-- ===== src/Backtest/Engine/Laws.antt =====
-- No day of the simulation looks ahead (packages/backtesting/engine.py, `run`,
-- `_eligible_execution_index`).
use market_intelligence_lab.Prelude.{
  ℕ, zero, suc, ◌+◌, ◌≤◌, ◌<◌, ◌≡◌, ◌⊎◌, ◌∙◌, sym, ap, inl, inr, true, Option, none, some, List, [],
  ◌∷◌, leb, All, All-append, All-where_rows, All-where_rows_of, All-zip, All-map, where_rows, drop,
  take, Bool-cases, Option-cases, arith, refl, leb→le,
}
use mathlib.Core.Path.{subst}
use mathlib.Core.Option.{some-injective}
use market_intelligence_lab.Moments.{Instant}
use market_intelligence_lab.Backtest.Rows.{
  Numbers, Bar, BacktestConfig, Trade, StrategyDecision, PendingTargets,
}
use market_intelligence_lab.Backtest.Trading.{Order}
use market_intelligence_lab.Backtest.Trading.Laws.{IsTimed, All-IsTimed-rebalance}
use market_intelligence_lab.Backtest.Engine.{
  first_after, eligible_execution_index, Market, Simulation, Gathered, gathered, last_of, latest_of,
  is_breached, rebalanced, for_risk, apply_due, risk_order, due_order, with_updates, take_snapshot,
  scheduled, is_due, trade_day, day,
}

abbrev pub head_of {ℓ} : {A : Type ℓ} → List A → Option A
head_of [] = none
head_of (x ∷ xs) = some x

-- What the search for a day finds: none is late enough, or the first that is.
abbrev pub IsFirstAfter : ℕ → Instant → List Instant → Option ℕ → Type 0
IsFirstAfter candidate signal_time ts o =
    ((o ≡ none) × All (λ u. u ≤ signal_time) ts)
    ⊎ ((k : ℕ) × (u : Instant) × (o ≡ some (candidate + k))
        × All (λ v. v ≤ signal_time) (take k ts)
        × (head_of (drop k ts) ≡ some u)
        × (signal_time < u))

first_after_lem :
    (candidate : ℕ) (signal_time : Instant) (ts : List Instant)
    → IsFirstAfter candidate signal_time ts (first_after candidate signal_time ts)
first_after_lem candidate signal_time [] = inl (refl, tt)
first_after_lem candidate signal_time (t ∷ ts) = elim (Bool-cases (leb t signal_time)) [
  | inr e ↦
      let same : candidate + 0 ≡ candidate = omega arith in
      rw e (inr (0, t, ap some (sym same), tt, refl, ground arith))
  | inl e ↦ rw e (elim (first_after_lem (candidate + 1) signal_time ts) [
    | inl (none_later, all) ↦ inl (none_later, (leb→le t signal_time e, all))
    | inr (k, u, found, before, here, later) ↦
        let same : candidate + 1 + k ≡ candidate + suc k = omega arith in
        inr (suc k, u, found ∙ ap some same, (leb→le t signal_time e, before), here, later)
  ])
]

-- The index of an execution is the first one, at least the delay after the signal's, whose day is
-- later than the signal's time; there is none exactly when no such day is left.
pub eligible_execution_index_lem :
    (times : List Instant) (signal_index : ℕ) (signal_time : Instant) (delay : ℕ)
    → IsFirstAfter
        (signal_index + delay)
        signal_time
        (drop (signal_index + delay) times)
        (eligible_execution_index times signal_index signal_time delay)
unfolding eligible_execution_index
eligible_execution_index_lem times signal_index signal_time delay =
    first_after_lem (signal_index + delay) signal_time (drop (signal_index + delay) times)

drop-nil {ℓ} : {A : Type ℓ} (n : ℕ) → drop {A = A} n [] ≡ []
drop-nil zero = refl
drop-nil (suc n) = refl

pub drop-drop {ℓ} : {A : Type ℓ} (k n : ℕ) (xs : List A) → drop k (drop n xs) ≡ drop (n + k) xs
drop-drop k zero xs = ap (λ m. drop m xs) (omega arith)
drop-drop k (suc n) [] = drop-nil k ∙ sym (drop-nil (suc n + k))
drop-drop k (suc n) (x ∷ xs) =
    let same : suc n + k ≡ suc (n + k) = omega arith in
    drop-drop k n xs ∙ ap (λ m. drop m (x ∷ xs)) (sym same)

-- The days come in order.
abbrev pub Ascending : List Instant → Type 0
Ascending [] = Unit
Ascending (t ∷ ts) = All (λ u. t < u) ts × Ascending ts

module _ {D F : Type 0} (num : Numbers D F) (generate : List F → ℕ → StrategyDecision F)
    (config : BacktestConfig D) where
  -- A trade after the time of its signal.
  abbrev pub IsLater : Trade D → Type 0
  IsLater t = t.signal_time < t.execution_time

  -- A pending target whose day is after the time of its signal.
  abbrev pub IsTimely : List Instant → PendingTargets F → Type 0
  IsTimely times p =
      (u : Instant) → head_of (drop p.execution_index times) ≡ some u → p.signal_time < u

  -- What holds before a day, with the days that are left.
  pub record IsCausal (times rest : List Instant) (s : Simulation D F) : Type 0 where
    pub later : All IsLater s.trades
    pub timely : All (IsTimely times) s.pending
    pub past : All (λ d. All (λ u. d.event_time < u) rest) s.snapshots

  IsLater-rebalanced :
      (order : Order D) (t : Instant) (s : Simulation D F)
      → All (λ k. (order.bars k).event_time ≡ t) config.symbols
      → order.signal_time < t
      → All IsLater s.trades
      → All IsLater (rebalanced num generate config order s).trades
  IsLater-rebalanced order t s dated h later = All-append IsLater s.trades _ later (
      All-map (IsTimed num config order.signal_time t) IsLater
        (λ d timed. omega (arith, h, timed.0, timed.1)) _
        (All-IsTimed-rebalance num config order t s.targets _ dated tt))

  IsLater-apply_due :
      (index : ℕ) (bars : ℕ → Bar D) (t : Instant) (due : List (PendingTargets F))
      (s : Simulation D F)
      → All (λ k. (bars k).event_time ≡ t) config.symbols
      → All (λ p. p.signal_time < t) due
      → All IsLater s.trades
      → All IsLater (apply_due num generate config index bars due s).trades
  IsLater-apply_due index bars t [] s dated h later = later
  IsLater-apply_due index bars t (p ∷ ps) s dated h later =
      let s' = with_updates num generate config p s in
      IsLater-apply_due index bars t ps
        (rebalanced num generate config (due_order num generate config index bars p) s') dated h.1
        (IsLater-rebalanced (due_order num generate config index bars p) t s' dated h.0 later)

  apply_due-keeps :
      (index : ℕ) (bars : ℕ → Bar D) (due : List (PendingTargets F)) (s : Simulation D F)
      → ((apply_due num generate config index bars due s).pending ≡ s.pending)
        × ((apply_due num generate config index bars due s).snapshots ≡ s.snapshots)
  apply_due-keeps index bars [] s = (refl, refl)
  apply_due-keeps index bars (p ∷ ps) s = apply_due-keeps index bars ps (
      rebalanced num generate config (due_order num generate config index bars p)
        (with_updates num generate config p s))

  All-last_of {ℓ κ} :
      {A : Type ℓ} (P : A → Type κ) (xs : List A) {a : A} → All P xs → last_of xs ≡ some a → P a
  All-last_of P [] h e = cc
  All-last_of P (x ∷ xs) {a} h e = elim (Option-cases (last_of xs)) [
    | inl k ↦ subst P (some-injective _ _ (rw k at e)) h.0
    | inr (b, k) ↦ All-last_of P xs h.1 (k ∙ (rw k at e))
  ]

  for_risk-keeps :
      (index : ℕ) (bars : ℕ → Bar D) (due : List (PendingTargets F)) (s : Simulation D F)
      → ((for_risk num generate config index bars due s).pending ≡ s.pending)
        × ((for_risk num generate config index bars due s).snapshots ≡ s.snapshots)
  for_risk-keeps index bars (p ∷ ps) s = (refl, refl)
  for_risk-keeps index bars [] s = elim (Option-cases (last_of s.snapshots)) [
    | inl e ↦ rw e (refl, refl)
    | inr (d, e) ↦ rw e (elim (Bool-cases (is_breached num generate config d)) [
      | inl k ↦ rw k (refl, refl)
      | inr k ↦ rw k (refl, refl)
    ])
  ]

  IsLater-for_risk :
      (index : ℕ) (bars : ℕ → Bar D) (t : Instant) (due : List (PendingTargets F))
      (s : Simulation D F)
      → All (λ k. (bars k).event_time ≡ t) config.symbols
      → All (λ d. d.event_time < t) s.snapshots
      → All IsLater s.trades
      → All IsLater (for_risk num generate config index bars due s).trades
  IsLater-for_risk index bars t (p ∷ ps) s dated past later = later
  IsLater-for_risk index bars t [] s dated past later = elim (Option-cases (last_of s.snapshots)) [
    | inl e ↦ rw e later
    | inr (d, e) ↦ rw e (elim (Bool-cases (is_breached num generate config d)) [
      | inl k ↦ rw k (
          IsLater-rebalanced (risk_order num generate config index bars d) t s dated
            (All-last_of (λ d. d.event_time < t) s.snapshots past e) later)
      | inr k ↦ rw k later
    ])
  ]

  IsLater-due :
      (times : List Instant) (index : ℕ) (t : Instant) (s : Simulation D F)
      → head_of (drop index times) ≡ some t
      → All (IsTimely times) s.pending
      → All (λ p. p.signal_time < t) (where_rows (is_due num generate config index) s.pending)
  IsLater-due times index t s here timely =
      All-map (λ p. (is_due num generate config index p ≡ true) × IsTimely times p)
        (λ p. p.signal_time < t)
        (λ p both.
          let same : index ≡ p.execution_index = ground (arith, both.0) in
          both.1 t (subst (λ n. head_of (drop n times) ≡ some t) same here))
        (where_rows (is_due num generate config index) s.pending)
        (All-zip _ _ _ (All-where_rows (is_due num generate config index) s.pending)
          (All-where_rows_of (IsTimely times) (is_due num generate config index) s.pending timely))

  -- The trades of a day.
  IsCausal-trade_day :
      (times : List Instant) (index : ℕ) (bars : ℕ → Bar D) (t : Instant) (ts : List Instant)
      (s : Simulation D F)
      → drop index times ≡ t ∷ ts
      → All (λ k. (bars k).event_time ≡ t) config.symbols
      → IsCausal times (t ∷ ts) s
      → IsCausal times (t ∷ ts) (trade_day num generate config index bars s)
  IsCausal-trade_day times index bars t ts s here dated causal =
      let due = where_rows (is_due num generate config index) s.pending in
      let risky = for_risk num generate config index bars due s in
      let kept = apply_due-keeps index bars due risky in
      let kept' = for_risk-keeps index bars due s in
      record {
        later =
            IsLater-apply_due index bars t due risky dated
              (IsLater-due times index t s (ap head_of here) causal.timely)
              (IsLater-for_risk index bars t due s dated
                (All-map _ (λ d. d.event_time < t) (λ d h. h.0) s.snapshots causal.past)
                causal.later);
        timely =
            All-where_rows_of (IsTimely times) _ _
              (subst (All (IsTimely times)) (sym (kept.0 ∙ kept'.0)) causal.timely);
        past =
            subst (All (λ d. All (λ u. d.event_time < u) (t ∷ ts))) (sym (kept.1 ∙ kept'.1))
              causal.past;
      }

  IsTimely-scheduled :
      (times : List Instant) (index : ℕ) (g : Gathered F) (o : Option Instant)
      → All (IsTimely times) (scheduled num generate config times index g o)
  IsTimely-scheduled times index g none = tt
  IsTimely-scheduled times index g (some signal_time) =
      elim (eligible_execution_index_lem times index signal_time config.execution_delay) [
        | inl (e, _) ↦ rw e tt
        | inr (k, u, e, _, here, later) ↦ rw e (
          (λ v at_v.
              let same : some u ≡ some v =
                sym here ∙ ap head_of (drop-drop k (index + config.execution_delay) times) ∙ at_v in
              omega (arith, later, some-injective _ _ same)),
          tt,
        )
      ]

  -- A day keeps what holds, for the days that are left.
  pub IsCausal-day :
      (market : Market D) (start : D) (index : ℕ) (t : Instant) (ts : List Instant)
      (s : Simulation D F)
      → drop index market.times ≡ t ∷ ts
      → All (λ k. (market.bars_at t k).event_time ≡ t) config.symbols
      → All (λ u. t < u) ts
      → IsCausal market.times (t ∷ ts) s
      → IsCausal market.times ts (day num generate config market start index t s)
  unfolding day
  IsCausal-day market start index t ts s here dated ascending causal =
      let traded =
        IsCausal-trade_day market.times index (market.bars_at t) t ts s here dated causal in
      let closed =
        take_snapshot num generate config (market.bars_at t) start (market.benchmark_close t) t
          (trade_day num generate config index (market.bars_at t) s) in
      let g = gathered num generate config index (market.bars_at t) closed in
      record {
        later = traded.later;
        timely =
            All-append (IsTimely market.times) _ _ traded.timely
              (IsTimely-scheduled market.times index g (latest_of g.signal_times));
        past =
            All-append (λ d. All (λ u. d.event_time < u) ts) _ _
              (All-map _ (λ d. All (λ u. d.event_time < u) ts) (λ d h. h.1) _ traded.past)
              (ascending, tt);
      }
