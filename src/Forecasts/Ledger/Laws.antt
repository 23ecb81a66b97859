-- ===== src/Forecasts/Ledger/Laws.antt =====
-- Outcomes come after their forecasts (apps/api/routers/prospective_intelligence.py).
use market_intelligence_lab.Prelude.{
  ℕ, ◌≤◌, ◌≡◌, ◌∙◌, sym, ap, inl, inr, true, false, ◌||◌, not, none, some, List, [], ◌∷◌, ◌++◌, ltb,
  ◌==◌, exists_row, update_rows, All, All-append, All-map, All-at, Memᴰ, Memᴰ-update_rows,
  distinct_by-append_one, Memᴰ-append_left, Memᴰ-find, Bool-cases, Option-cases, arith, refl,
}
use mathlib.Core.Option.{some-injective}
use market_intelligence_lab.Moments.{Instant}
use market_intelligence_lab.Forecasts.Ledger.{
  Forecast, Observation, Target, ForecastLedger, ForecastCreate, OutcomeCreate, target_for,
  newest_target, new_forecast, store_forecast, is_bad_boundary, post_forecast, forecast_of, is_open,
  locked, lock_forecast, new_observation, post_outcome,
}
use market_intelligence_lab.Forecasts.Ledger.Invariant.{
  ledger_after, IsFramed, IsMatured, same_id, IsKept, distinct-same, distinct-update_rows,
}

IsMatured-grown :
    (forecasts more : List Forecast) (o : Observation)
    → IsMatured forecasts o
    → IsMatured (forecasts ++ more) o
IsMatured-grown forecasts more o m = record {
  forecast = m.forecast;
  lock_time = m.lock_time;
  stored = Memᴰ-append_left forecasts more m.stored;
  same_forecast = m.same_forecast;
  was_locked = m.was_locked;
  in_order = m.in_order;
  mature = m.mature;
  window_over = m.window_over;
}

IsKept-store_forecast :
    (f : Forecast) (targets : List Target) (l : ForecastLedger)
    → exists_row (λ x. x.id == f.id) l.forecasts ≡ false
    → IsFramed f
    → IsKept l
    → IsKept (ledger_after l (store_forecast f targets l))
IsKept-store_forecast f targets l fresh framed kept =
    elim (Bool-cases (exists_row (λ x. x.checksum == f.checksum) l.forecasts)) [
      | inl e ↦ rw e kept
      | inr e ↦ rw e (record {
        unique = distinct_by-append_one same_id l.forecasts f kept.unique fresh;
        framed = All-append IsFramed l.forecasts (f ∷ []) kept.framed (framed, tt);
        matured =
            All-map (IsMatured l.forecasts) (IsMatured (l.forecasts ++ (f ∷ [])))
              (IsMatured-grown l.forecasts (f ∷ [])) l.observations kept.matured;
      })
    ]

pub IsKept-post_forecast :
    (digest : ForecastCreate → ℕ → ℕ) (id target_id workspace : ℕ) (body : ForecastCreate)
    (l : ForecastLedger)
    → exists_row (λ f. f.id == id) l.forecasts ≡ false
    → IsKept l
    → IsKept (ledger_after l (post_forecast digest id target_id workspace body l))
unfolding post_forecast
IsKept-post_forecast digest id target_id workspace body l fresh kept =
    elim (Bool-cases (is_bad_boundary body)) [
      | inl e ↦ rw e kept
      | inr e ↦ rw e (
          let (target, targets) =
            target_for target_id workspace body.target_key l.targets
              (newest_target workspace body.target_key l.targets) in
          IsKept-store_forecast (new_forecast id workspace body target.id (digest body workspace))
            targets l fresh
            (record {
              starts = ground arith;
              ends = ground arith;
              locked_in_time = λ t k. cc;
              open_unlocked = λ k. refl;
            })
            kept)
    ]

IsMatured-locked :
    (l : ForecastLedger) (f : Forecast) (now : Instant) (o : Observation)
    → IsKept l
    → Memᴰ f l.forecasts
    → is_open f.state ≡ true
    → IsMatured l.forecasts o
    → IsMatured (update_rows (λ x. x.id == f.id) (locked now) l.forecasts) o
IsMatured-locked l f now o kept here opened m = elim (Bool-cases (m.forecast.id == f.id)) [
  | inr e ↦ record {
    forecast = m.forecast;
    lock_time = m.lock_time;
    stored = Memᴰ-update_rows (λ x. x.id == f.id) (locked now) l.forecasts e m.stored;
    same_forecast = m.same_forecast;
    was_locked = m.was_locked;
    in_order = m.in_order;
    mature = m.mature;
    window_over = m.window_over;
  }
  | inl e ↦
      let ids : m.forecast.id ≡ f.id = ground arith in
      let same = distinct-same l.forecasts m.forecast f kept.unique m.stored here ids in
      let unlocked = (All-at IsFramed l.forecasts kept.framed here).open_unlocked opened in
      let bad : none ≡ some m.lock_time =
        sym unlocked ∙ ap (λ f. f.locked_at) (sym same) ∙ m.was_locked in
      cc
]

IsFramed-locked :
    (f : Forecast) (now : Instant)
    → now ≤ f.outcome_eligible_time
    → IsFramed f
    → IsFramed (locked now f)
IsFramed-locked f now h framed = record {
  starts = framed.starts;
  ends = framed.ends;
  locked_in_time = λ t e. (let same : now ≡ t = some-injective _ _ e in omega (arith, same, h));
  open_unlocked = λ e. cc;
}

All-locked :
    (f : Forecast) (now : Instant) (rows : List Forecast)
    → now ≤ f.outcome_eligible_time
    → ((x : Forecast) → Memᴰ x rows → x.id ≡ f.id → x ≡ f)
    → All IsFramed rows
    → All IsFramed (update_rows (λ x. x.id == f.id) (locked now) rows)
All-locked f now [] h own all = tt
All-locked f now (x ∷ xs) h own all = elim (Bool-cases (x.id == f.id)) [
  | inr e ↦ rw e (all.0, All-locked f now xs h (λ y m. own y (Memᴰ.tail m)) all.1)
  | inl e ↦
      let ids : x.id ≡ f.id = ground arith in
      let limit = ap (λ f. f.outcome_eligible_time) (own x (Memᴰ.head refl) ids) in
      rw e (
        IsFramed-locked x now (omega (arith, h, limit)) all.0,
        All-locked f now xs h (λ y m. own y (Memᴰ.tail m)) all.1,
      )
]

pub IsKept-lock_forecast :
    (id workspace : ℕ) (now : Instant) (l : ForecastLedger)
    → IsKept l
    → IsKept (ledger_after l (lock_forecast id workspace now l))
unfolding lock_forecast
IsKept-lock_forecast id workspace now l kept = elim (Option-cases (forecast_of id workspace l)) [
  | inl e ↦ rw e kept
  | inr (f, e) ↦
      rw e (elim (Bool-cases (not (is_open f.state) || ltb f.outcome_eligible_time now)) [
        | inl k ↦ rw k kept
        | inr k ↦
            let here = Memᴰ-find _ l.forecasts e in
            let opened : is_open f.state ≡ true = ground arith in
            let in_time : now ≤ f.outcome_eligible_time = ground arith in
            rw k (record {
              unique = distinct-update_rows (λ x. x.id == f.id) now l.forecasts kept.unique;
              framed =
                  All-locked f now l.forecasts in_time
                    (λ x m same. distinct-same l.forecasts x f kept.unique m here same) kept.framed;
              matured =
                  All-map (IsMatured l.forecasts) _
                    (λ o m. IsMatured-locked l f now o kept here opened m) l.observations
                    kept.matured;
            })
      ])
]

pub IsKept-post_outcome :
    (digest : ℕ → OutcomeCreate → ℕ → ℕ) (id workspace : ℕ) (body : OutcomeCreate)
    (l : ForecastLedger)
    → IsKept l
    → IsKept (ledger_after l (post_outcome digest id workspace body l))
unfolding post_outcome
IsKept-post_outcome digest id workspace body l kept =
    elim (Option-cases (forecast_of id workspace l)) [
      | inl e ↦ rw e kept
      | inr (f, e) ↦ rw e (elim (Option-cases f.locked_at) [
        | inl k ↦ rw k kept
        | inr (t, k) ↦ rw k (elim (Bool-cases (ltb body.observed_at f.outcome_eligible_time)) [
          | inl i ↦ rw i kept
          | inr i ↦ rw i (
              let o = new_observation digest f body l in
              let here = Memᴰ-find _ l.forecasts e in
              let framed = All-at IsFramed l.forecasts kept.framed here in
              let mature : f.outcome_eligible_time ≤ body.observed_at = ground arith in
              elim (Bool-cases
                (exists_row (λ x. x.outcome_checksum == o.outcome_checksum) l.observations)) [
                  | inl j ↦ rw j kept
                  | inr j ↦ rw j (record {
                    unique = kept.unique;
                    framed = kept.framed;
                    matured =
                        All-append (IsMatured l.forecasts) l.observations (o ∷ []) kept.matured (
                          record {
                            forecast = f;
                            lock_time = t;
                            stored = here;
                            same_forecast = refl;
                            was_locked = k;
                            in_order = framed.locked_in_time t k;
                            mature = mature;
                            window_over = omega (arith, mature, framed.ends);
                          },
                          tt,
                        );
                  })
                ])
        ])
      ])
    ]

-- A request; a new forecast has a new identifier.
pub data Request (l : ForecastLedger) : ForecastLedger → Type 0 where
  posted :
      (digest : ForecastCreate → ℕ → ℕ) (id target_id workspace : ℕ) (body : ForecastCreate)
      → exists_row (λ f. f.id == id) l.forecasts ≡ false
      → Request l (ledger_after l (post_forecast digest id target_id workspace body l))
  lock_asked :
      (id workspace : ℕ) (now : Instant)
      → Request l (ledger_after l (lock_forecast id workspace now l))
  outcome_posted :
      (digest : ℕ → OutcomeCreate → ℕ → ℕ) (id workspace : ℕ) (body : OutcomeCreate)
      → Request l (ledger_after l (post_outcome digest id workspace body l))

IsKept-Request : (l after : ForecastLedger) → Request l after → IsKept l → IsKept after
IsKept-Request l _ (Request.posted digest id target_id workspace body fresh) kept =
    IsKept-post_forecast digest id target_id workspace body l fresh kept
IsKept-Request l _ (Request.lock_asked id workspace now) kept =
    IsKept-lock_forecast id workspace now l kept
IsKept-Request l _ (Request.outcome_posted digest id workspace body) kept =
    IsKept-post_outcome digest id workspace body l kept

-- The ledgers that requests have made.
pub data History : ForecastLedger → Type 0 where
  empty : History (record { targets = []; forecasts = []; observations = [] })
  asked : {l after : ForecastLedger} → History l → Request l after → History after

-- Whatever requests have been made, refused ones included: every outcome belongs to a stored
-- forecast that was locked no later than its outcome became eligible, and was observed no earlier
-- than that and than the end of the target window; the windows of all forecasts start at or after
-- their as-of times; and no two forecasts have the same identifier.
pub History-IsKept : {l : ForecastLedger} → History l → IsKept l
History-IsKept History.empty = record { unique = refl; framed = tt; matured = tt }
History-IsKept (History.asked {l = l} {after = after} before request) =
    IsKept-Request l after request (History-IsKept before)
