-- ===== src/Forecasts/Ledger/Frozen.antt =====
-- A forecast that is locked never changes (apps/api/routers/prospective_intelligence.py).
use market_intelligence_lab.Prelude.{
  ℕ, ◌≡◌, ◌∙◌, sym, ap, inl, inr, true, false, ◌||◌, not, List, [], ◌∷◌, ltb, ◌==◌, refl,
  exists_row, is_some, Memᴰ, Memᴰ-append_left, Memᴰ-find, Memᴰ-update_rows, Bool-cases,
  Option-cases, arith,
}
use market_intelligence_lab.Moments.{Instant}
use market_intelligence_lab.Forecasts.Ledger.{
  Forecast, ForecastLedger, OutcomeCreate, Target, new_forecast, target_for, newest_target,
  store_forecast, is_bad_boundary, post_forecast, forecast_of, is_open, locked, lock_forecast,
  new_observation, post_outcome,
}
use market_intelligence_lab.Forecasts.Ledger.Invariant.{ledger_after, IsKept, distinct-same}
use market_intelligence_lab.Forecasts.Ledger.Laws.{Request}

store_forecast-keeps :
    (f g : Forecast) (targets : List Target) (l : ForecastLedger)
    → Memᴰ f l.forecasts
    → Memᴰ f (ledger_after l (store_forecast g targets l)).forecasts
store_forecast-keeps f g targets l m =
    elim (Bool-cases (exists_row (λ x. x.checksum == g.checksum) l.forecasts)) [
      | inl e ↦ rw e m
      | inr e ↦ rw e (Memᴰ-append_left l.forecasts (g ∷ []) m)
    ]

lock_forecast-keeps :
    (f : Forecast) (id workspace : ℕ) (now : Instant) (l : ForecastLedger)
    → IsKept l
    → is_open f.state ≡ false
    → Memᴰ f l.forecasts
    → Memᴰ f (ledger_after l (lock_forecast id workspace now l)).forecasts
unfolding lock_forecast
lock_forecast-keeps f id workspace now l kept closed m =
    elim (Option-cases (forecast_of id workspace l)) [
      | inl e ↦ rw e m
      | inr (g, e) ↦
          rw e (elim (Bool-cases (not (is_open g.state) || ltb g.outcome_eligible_time now)) [
            | inl k ↦ rw k m
            | inr k ↦ rw k (elim (Bool-cases (f.id == g.id)) [
              | inr other ↦ Memᴰ-update_rows (λ x. x.id == g.id) (locked now) l.forecasts other m
              | inl ids ↦
                  let same_ids : f.id ≡ g.id = ground arith in
                  let same =
                    distinct-same l.forecasts f g kept.unique m (Memᴰ-find _ l.forecasts e)
                      same_ids in
                  let opened : is_open g.state ≡ true = ground arith in
                  let bad : true ≡ false =
                    sym opened ∙ ap (λ x. is_open x.state) (sym same) ∙ closed in
                  cc
            ])
          ])
    ]

post_outcome-keeps :
    (digest : ℕ → OutcomeCreate → ℕ → ℕ) (id workspace : ℕ) (body : OutcomeCreate)
    (l : ForecastLedger)
    → (ledger_after l (post_outcome digest id workspace body l)).forecasts ≡ l.forecasts
unfolding post_outcome
post_outcome-keeps digest id workspace body l = elim (Option-cases (forecast_of id workspace l)) [
  | inl e ↦ rw e refl
  | inr (f, e) ↦
      rw e
        (elim (Bool-cases
          (not (is_some f.locked_at) || ltb body.observed_at f.outcome_eligible_time)) [
            | inl k ↦ rw k refl
            | inr k ↦
                rw k
                  (elim (Bool-cases (
                    exists_row
                      (λ x.
                        x.outcome_checksum == (new_observation digest f body l).outcome_checksum)
                      l.observations)) [ inl j ↦ rw j refl | inr j ↦ rw j refl ])
          ])
]

-- A forecast that is no longer open stays in the table as it is, whatever is asked for next.
pub locked_stays :
    (l after : ForecastLedger) (f : Forecast)
    → IsKept l
    → Request l after
    → is_open f.state ≡ false
    → Memᴰ f l.forecasts
    → Memᴰ f after.forecasts
unfolding post_forecast
locked_stays l _ f kept (Request.posted digest id target_id workspace body fresh) closed m =
    elim (Bool-cases (is_bad_boundary body)) [
      | inl e ↦ rw e m
      | inr e ↦
          let (target, targets) =
            target_for target_id workspace body.target_key l.targets
              (newest_target workspace body.target_key l.targets) in
          rw e (
            store_forecast-keeps f
              (new_forecast id workspace body target.id (digest body workspace)) targets l m)
    ]
locked_stays l _ f kept (Request.lock_asked id workspace now) closed m =
    lock_forecast-keeps f id workspace now l kept closed m
locked_stays l _ f kept (Request.outcome_posted digest id workspace body) closed m =
    rw (post_outcome-keeps digest id workspace body l) m
