-- ===== src/Forecasts/Tests.antt =====
-- Witnesses on a small ledger of forecasts.
use market_intelligence_lab.Forecasts.Ledger.Frozen.{locked_stays}
use market_intelligence_lab.Prelude.{Memᴰ, ◌∷◌, ◌+◌, ◌≡◌, [], refl, length}
use market_intelligence_lab.Forecasts.Ledger.{
  Forecast, locked, new_forecast, ForecastLedger, ForecastCreate, OutcomeCreate, http_error,
  post_forecast, lock_forecast, post_outcome,
}
use market_intelligence_lab.Forecasts.Ledger.Invariant.{IsKept, ledger_after}
use market_intelligence_lab.Forecasts.Ledger.Laws.{Request, History, History-IsKept}

abbrev nothing : ForecastLedger
nothing = record { targets = []; forecasts = []; observations = [] }

abbrev body : ForecastCreate
body = record {
  target_key = 5;
  forecast_value = 70;
  as_of_time = 10;
  target_start_time = 12;
  target_end_time = 20;
  outcome_eligible_time = 25;
}

abbrev outcome : OutcomeCreate
outcome = record { realized_value = 1; observed_at = 30 }

abbrev created : ForecastLedger
created = ledger_after nothing (post_forecast (λ b w. 99) 1 2 3 body nothing)

abbrev frozen : ForecastLedger
frozen = ledger_after created (lock_forecast 1 3 24 created)

abbrev observed : ForecastLedger
observed = ledger_after frozen (post_outcome (λ id b v. v + 40) 1 3 outcome frozen)

history : History observed
history =
    History.asked
      (History.asked (History.asked History.empty (Request.posted (λ b w. 99) 1 2 3 body refl))
        (Request.lock_asked 1 3 24))
      (Request.outcome_posted (λ id b v. v + 40) 1 3 outcome)

one_outcome : length observed.observations ≡ 1
unfolding post_forecast lock_forecast post_outcome
one_outcome = refl

too_early :
    post_outcome (λ id b v. v) 1 3 (record { realized_value = 1; observed_at = 24 }) frozen
    ≡ http_error 409
unfolding post_forecast lock_forecast post_outcome
too_early = refl

History-IsKept_example : IsKept observed
History-IsKept_example = History-IsKept history

abbrev frozen_row : Forecast
frozen_row = locked 24 (new_forecast 1 3 body 2 99)

frozen_first : frozen.forecasts ≡ frozen_row ∷ []
unfolding post_forecast lock_forecast
frozen_first = refl

locked_stays_example : Memᴰ frozen_row observed.forecasts
locked_stays_example =
    locked_stays frozen observed frozen_row
      (History-IsKept (
        History.asked (History.asked History.empty (Request.posted (λ b w. 99) 1 2 3 body refl))
          (Request.lock_asked 1 3 24)))
      (Request.outcome_posted (λ id b v. v + 40) 1 3 outcome) refl
      (rw frozen_first (Memᴰ.head refl))

-- A window that ends before the as-of time is taken.
past_window :
    length
      (ledger_after nothing (
        post_forecast
          (λ b w. 99)
          1
          2
          3
          (record body { target_end_time = 2; outcome_eligible_time = 3 })
          nothing)).forecasts
    ≡ 1
unfolding post_forecast
past_window = refl
