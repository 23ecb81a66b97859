-- ===== src/Backtest/Alignment/Laws.antt =====
-- What a backtest that finishes has done (packages/backtesting/engine.py, `run`).
use market_intelligence_lab.Prelude.{
  ℕ, ◌+◌, ◌<◌, ◌≡◌, sym, ap, inl, inr, Bool, true, false, none, some, List, [], ◌∷◌, All, All-map,
  All-where_rows, All-where_rows_of, Bool-cases, arith, refl, where_rows, every, exists_row, map,
  ltb, ◌==◌, ltb→lt, length,
}
use mathlib.Core.Path.{subst}
use market_intelligence_lab.Moments.{Instant}
use market_intelligence_lab.Backtest.Rows.{Numbers, Bar, BacktestConfig, StrategyDecision}
use market_intelligence_lab.Backtest.Trading.Laws.{IsOrdered, IsLong}
use market_intelligence_lab.Backtest.Engine.{Market, Simulation, begin}
use market_intelligence_lab.Backtest.Engine.Laws.{Ascending, IsLater}
use market_intelligence_lab.Backtest.Engine.Days.{IsDated, IsCausal-days, IsLong-days}
use market_intelligence_lab.Backtest.Alignment.{
  Outcome, no_price_history, too_few_bars, finished, insert_time, sorted_times, has_time, find_last,
  bar_at, is_common, is_empty, aligned_times, market_of, simulate, run_over, run_for, run,
}

All-insert_time {κ} :
    (P : Instant → Type κ) (t : Instant) (ts : List Instant)
    → P t
    → All P ts
    → All P (insert_time t ts)
All-insert_time P t [] p h = (p, tt)
All-insert_time P t (u ∷ us) p h = elim (Bool-cases (ltb t u)) [
  | inl e ↦ rw e (p, h)
  | inr e ↦ rw e (elim (Bool-cases (t == u)) [
    | inl k ↦ rw k h
    | inr k ↦ rw k (h.0, All-insert_time P t us p h.1)
  ])
]

Ascending-insert_time :
    (t : Instant) (ts : List Instant) → Ascending ts → Ascending (insert_time t ts)
Ascending-insert_time t [] h = (tt, tt)
Ascending-insert_time t (u ∷ us) h = elim (Bool-cases (ltb t u)) [
  | inl e ↦
      rw e
        ((ltb→lt t u e, All-map _ (λ v. t < v) (λ v k. omega (arith, k, ltb→lt t u e)) us h.0), h)
  | inr e ↦ rw e (elim (Bool-cases (t == u)) [
    | inl k ↦ rw k h
    | inr k ↦
        let later : u < t = ground arith in
        rw k (All-insert_time (λ v. u < v) t us later h.0, Ascending-insert_time t us h.1)
  ])
]

Ascending-sorted_times : (ts : List Instant) → Ascending (sorted_times ts)
Ascending-sorted_times [] = tt
Ascending-sorted_times (t ∷ ts) =
    Ascending-insert_time t (sorted_times ts) (Ascending-sorted_times ts)

Ascending-where_rows :
    (p : Instant → Bool) (ts : List Instant) → Ascending ts → Ascending (where_rows p ts)
Ascending-where_rows p [] h = tt
Ascending-where_rows p (t ∷ ts) h = elim (Bool-cases (p t)) [
  | inl e ↦ rw e (All-where_rows_of (λ u. t < u) p ts h.0, Ascending-where_rows p ts h.1)
  | inr e ↦ rw e (Ascending-where_rows p ts h.1)
]

All-every {ℓ κ} :
    {A : Type ℓ} (p : A → Bool) (P : A → Type κ) (xs : List A)
    → ((x : A) → p x ≡ true → P x)
    → every p xs ≡ true
    → All P xs
All-every p P [] f h = tt
All-every p P (x ∷ xs) f h = (f x (ground arith), All-every p P xs f (ground arith))

abbrev finished_or : {D F : Type 0} → Simulation D F → Outcome D F → Simulation D F
finished_or s (finished t) = t
finished_or s _ = s

finished-injective :
    {D F : Type 0} (s t : Simulation D F) → ◌≡◌ {A = Outcome D F} (finished s) (finished t) → s ≡ t
finished-injective s t h = ap (finished_or s) h

module _ {D F : Type 0} (num : Numbers D F) where
  find_last-absent :
      (t : Instant) (bars : List (Bar D))
      → has_time num t bars ≡ false
      → find_last num t bars ≡ none
  find_last-absent t [] h = refl
  find_last-absent t (b ∷ bs) h =
      let rest : has_time num t bs ≡ false = ground arith in
      let other : (b.event_time == t) ≡ false = ground arith in
      rw (find_last-absent t bs rest) (rw other refl)

  find_last-dated :
      (t : Instant) (bars : List (Bar D))
      → has_time num t bars ≡ true
      → (b : Bar D) × (find_last num t bars ≡ some b) × (b.event_time ≡ t)
  find_last-dated t [] h = cc
  find_last-dated t (b ∷ bs) h = elim (Bool-cases (has_time num t bs)) [
    | inl e ↦ let (c, found, dated) = find_last-dated t bs e in rw found (c, refl, dated)
    | inr e ↦
        let own : (b.event_time == t) ≡ true = ground arith in
        rw (find_last-absent t bs e) (rw own (b, refl, ground arith))
  ]

  bar_at-dated :
      (t : Instant) (bars : List (Bar D))
      → has_time num t bars ≡ true
      → (bar_at num bars t).event_time ≡ t
  bar_at-dated t bars h = let (b, e, dated) = find_last-dated t bars h in rw e dated

  IsDated-market_of :
      (generate : List F → ℕ → StrategyDecision F) (config : BacktestConfig D) (ts : List Instant)
      (first_bars : List (Bar D)) (bars_by_symbol : ℕ → List (Bar D)) (benchmark : List (Bar D))
      → IsDated num generate config
          (market_of num ts bars_by_symbol benchmark)
          (aligned_times num config.symbols first_bars bars_by_symbol benchmark)
  IsDated-market_of generate config ts first_bars bars_by_symbol benchmark =
      All-map (λ t. is_common num config.symbols bars_by_symbol benchmark t ≡ true) _
        (λ t h.
          All-every (λ k. has_time num t (bars_by_symbol k)) _ config.symbols
            (λ k present. bar_at-dated t (bars_by_symbol k) present) (ground arith))
        _
        (All-where_rows (is_common num config.symbols bars_by_symbol benchmark)
          (sorted_times (map (λ b. b.event_time) first_bars)))

  module _ (generate : List F → ℕ → StrategyDecision F) (config : BacktestConfig D)
      (bars_by_symbol : ℕ → List (Bar D)) (benchmark : List (Bar D)) where
    IsLater-simulate :
        (market : Market D) (ts : List Instant)
        → market.times ≡ ts
        → IsDated num generate config market ts
        → Ascending ts
        → All (IsLater num generate config) (simulate num generate config market ts).trades
    IsLater-simulate market [] same dated ascending = tt
    IsLater-simulate market (t ∷ ts) same dated ascending =
        (IsCausal-days num generate config market (market.benchmark_close t) 0 (t ∷ ts)
          (begin num generate config) same dated ascending
          (record { later = tt; timely = tt; past = tt })).later

    abbrev days_of : List (Bar D) → List Instant
    days_of first_bars = aligned_times num config.symbols first_bars bars_by_symbol benchmark

    run_over-eq-finished :
        (times : List Instant) (s : Simulation D F)
        → run_over num generate config bars_by_symbol benchmark times ≡ finished s
        → s ≡ simulate num generate config (market_of num times bars_by_symbol benchmark) times
    run_over-eq-finished times s h =
        elim (Bool-cases (ltb (length times) (config.execution_delay + 2))) [
          | inl e ↦ let bad : ◌≡◌ {A = Outcome D F} too_few_bars (finished s) = (rw e at h) in cc
          | inr e ↦ finished-injective s _ (sym (rw e at h))
        ]

    run_for-eq-finished :
        (symbols : List ℕ) (s : Simulation D F)
        → symbols ≡ config.symbols
        → run_for num generate config symbols bars_by_symbol benchmark ≡ finished s
        → (first_bars : List (Bar D)) × (s
            ≡ simulate num generate config
                (market_of num (days_of first_bars) bars_by_symbol benchmark)
                (days_of first_bars))
    run_for-eq-finished [] s same h = cc
    run_for-eq-finished (first ∷ others) s same h =
        elim (Bool-cases (exists_row (λ k. is_empty num (bars_by_symbol k)) (first ∷ others))) [
          | inl e ↦
              let bad : ◌≡◌ {A = Outcome D F} no_price_history (finished s) = (rw e at h) in cc
          | inr e ↦
              let over : run_over num generate config bars_by_symbol benchmark (
                    aligned_times num (first ∷ others) (bars_by_symbol first) bars_by_symbol
                      benchmark)
                  ≡ finished s =
                (rw e at h) in
              (
                bars_by_symbol first,
                run_over-eq-finished (days_of (bars_by_symbol first)) s (
                    subst
                      (λ l.
                        run_over num generate config bars_by_symbol benchmark
                          (aligned_times num l (bars_by_symbol first) bars_by_symbol benchmark)
                        ≡ finished s)
                      same over),
              )
        ]

    -- Every trade of a backtest that finishes is executed on a day later than the time of its
    -- signal.
    pub run_no_look_ahead :
        (s : Simulation D F)
        → run num generate config bars_by_symbol benchmark ≡ finished s
        → All (λ t. t.signal_time < t.execution_time) s.trades
    unfolding run
    run_no_look_ahead s h =
        let (first_bars, same) = run_for-eq-finished config.symbols s refl h in
        let times = days_of first_bars in
        subst (λ s. All (λ t. t.signal_time < t.execution_time) s.trades) (sym same)
          (IsLater-simulate (market_of num times bars_by_symbol benchmark) times refl
            (IsDated-market_of generate config times first_bars bars_by_symbol benchmark)
            (Ascending-where_rows _ _
              (Ascending-sorted_times (map (λ b. b.event_time) first_bars))))

    IsLong-simulate :
        (market : Market D) (ts : List Instant)
        → IsOrdered num
        → IsLong num config (simulate num generate config market ts).positions
    IsLong-simulate market [] decimals =
        λ k. elim (decimals.total num.zero_d num.zero_d) [ inl t ↦ t | inr t ↦ t ]
    IsLong-simulate market (t ∷ ts) decimals =
        IsLong-days num generate config decimals market (market.benchmark_close t) 0 (t ∷ ts)
          (begin num generate config)
          (λ k. elim (decimals.total num.zero_d num.zero_d) [ inl t ↦ t | inr t ↦ t ])

    -- A backtest that finishes holds no negative quantity of any symbol.
    pub run-IsLong :
        (s : Simulation D F)
        → IsOrdered num
        → run num generate config bars_by_symbol benchmark ≡ finished s
        → IsLong num config s.positions
    unfolding run
    run-IsLong s decimals h =
        let (first_bars, same) = run_for-eq-finished config.symbols s refl h in
        subst (λ s. IsLong num config s.positions) (sym same)
          (IsLong-simulate (market_of num (days_of first_bars) bars_by_symbol benchmark)
            (days_of first_bars) decimals)
