-- ===== src/Forecasts/Ledger.antt =====
-- Forecasts and the outcomes that are observed of them (apps/api/routers/prospective_intelligence.py,
-- `post_forecast`, `lock_forecast`, `post_outcome`). An HTTP error is its status code, and 500 stands
-- for the IntegrityError of a checksum that is taken. New identifiers, the clock and the digests are
-- arguments; a value, a manifest and a key are numbers. Columns that only describe a row are left out.
pub mod Invariant
pub mod Laws
pub mod Frozen
use market_intelligence_lab.Prelude.{
  ℕ, ◌+◌, Bool, true, false, ◌&&◌, ◌||◌, not, Option, none, some, List, [], ◌∷◌, ◌++◌, ltb, leb,
  ◌==◌, if◌then◌else◌, find, exists_row, where_rows, update_rows, length, is_some, least,
}
use market_intelligence_lab.Moments.{Instant}

pub data ForecastState : Type 0 where
  open_state locked_state invalidated : ForecastState

-- `ResearchForecast`
pub record Forecast : Type 0 where
  pub id : ℕ
  pub workspace_id : ℕ
  pub target_definition_id : ℕ
  pub forecast_value : ℕ
  pub state : ForecastState
  pub as_of_time : Instant
  pub target_start_time : Instant
  pub target_end_time : Instant
  pub outcome_eligible_time : Instant
  pub checksum : ℕ
  pub locked_at : Option Instant

-- `ForecastOutcomeObservation`
pub record Observation : Type 0 where
  pub workspace_id : ℕ
  pub forecast_id : ℕ
  pub version : ℕ
  pub realized_value : ℕ
  pub observed_at : Instant
  pub outcome_checksum : ℕ

-- `ForecastTargetDefinition`
pub record Target : Type 0 where
  pub id : ℕ
  pub workspace_id : ℕ
  pub key : ℕ
  pub version : ℕ

pub record ForecastLedger : Type 0 where
  pub targets : List Target
  pub forecasts : List Forecast
  pub observations : List Observation

-- `ForecastCreate`
pub record ForecastCreate : Type 0 where
  pub target_key : ℕ
  pub forecast_value : ℕ
  pub as_of_time : Instant
  pub target_start_time : Instant
  pub target_end_time : Instant
  pub outcome_eligible_time : Instant

-- `OutcomeCreate`
pub record OutcomeCreate : Type 0 where
  pub realized_value : ℕ
  pub observed_at : Instant

pub data Answer (A : Type 0) : Type 0 where
  http_error : ℕ → Answer A
  answered : A → ForecastLedger → Answer A

-- The target of the highest version, or a new one.
abbrev pub target_for : ℕ → ℕ → ℕ → List Target → Option Target → Target × List Target
target_for id workspace key targets (some t) = (t, targets)
target_for id workspace key targets none =
    let t : Target = record { id = id; workspace_id = workspace; key = key; version = 1 } in
    (t, targets ++ (t ∷ []))

abbrev pub newest_target : ℕ → ℕ → List Target → Option Target
newest_target workspace key targets =
    least (λ a b. leb b.version a.version)
      (where_rows (λ t. t.workspace_id == workspace && t.key == key) targets)

abbrev pub new_forecast : ℕ → ℕ → ForecastCreate → ℕ → ℕ → Forecast
new_forecast id workspace body target_id checksum = record {
  id = id;
  workspace_id = workspace;
  target_definition_id = target_id;
  forecast_value = body.forecast_value;
  state = open_state;
  as_of_time = body.as_of_time;
  target_start_time = body.target_start_time;
  target_end_time = body.target_end_time;
  outcome_eligible_time = body.outcome_eligible_time;
  checksum = checksum;
  locked_at = none;
}

abbrev pub store_forecast : Forecast → List Target → ForecastLedger → Answer Forecast
store_forecast f targets l =
    if exists_row (λ x. x.checksum == f.checksum) l.forecasts
    then http_error 500
    else answered f (record l { targets = targets; forecasts = l.forecasts ++ (f ∷ []) })

abbrev pub is_bad_boundary : ForecastCreate → Bool
is_bad_boundary body =
    ltb body.target_start_time body.as_of_time
    || ltb body.outcome_eligible_time body.target_end_time

unfoldable pub post_forecast :
    (ForecastCreate → ℕ → ℕ) → ℕ → ℕ → ℕ → ForecastCreate → ForecastLedger → Answer Forecast
post_forecast digest id target_id workspace body l =
    let found =
      target_for target_id workspace body.target_key l.targets
        (newest_target workspace body.target_key l.targets) in
    if is_bad_boundary body
    then http_error 422
    else store_forecast (new_forecast id workspace body found.0.id (digest body workspace)) found.1
        l

abbrev pub forecast_of : ℕ → ℕ → ForecastLedger → Option Forecast
forecast_of id workspace l = find (λ f. f.id == id && f.workspace_id == workspace) l.forecasts

abbrev pub is_open : ForecastState → Bool
is_open open_state = true
is_open _ = false

abbrev pub locked : Instant → Forecast → Forecast
locked now f = record f { state = locked_state; locked_at = some now }

abbrev pub lock_found : Instant → ForecastLedger → Option Forecast → Answer Forecast
lock_found now l none = http_error 404
lock_found now l (some f) =
    if not (is_open f.state) || ltb f.outcome_eligible_time now
    then http_error 409
    else answered (locked now f)
        (record l { forecasts = update_rows (λ x. x.id == f.id) (locked now) l.forecasts })

unfoldable pub lock_forecast : ℕ → ℕ → Instant → ForecastLedger → Answer Forecast
lock_forecast id workspace now l = lock_found now l (forecast_of id workspace l)

abbrev pub versions_of : ℕ → ForecastLedger → ℕ
versions_of forecast_id l = length (where_rows (λ o. o.forecast_id == forecast_id) l.observations)

abbrev pub new_observation :
    (ℕ → OutcomeCreate → ℕ → ℕ) → Forecast → OutcomeCreate → ForecastLedger → Observation
new_observation digest f body l =
    let version = versions_of f.id l + 1 in
    record {
      workspace_id = f.workspace_id;
      forecast_id = f.id;
      version = version;
      realized_value = body.realized_value;
      observed_at = body.observed_at;
      outcome_checksum = digest f.id body version;
    }

abbrev pub store_observation : Observation → ForecastLedger → Answer Observation
store_observation o l =
    if exists_row (λ x. x.outcome_checksum == o.outcome_checksum) l.observations
    then http_error 500
    else answered o (record l { observations = l.observations ++ (o ∷ []) })

abbrev pub observe_found :
    (ℕ → OutcomeCreate → ℕ → ℕ)
    → OutcomeCreate
    → ForecastLedger
    → Option Forecast
    → Answer Observation
observe_found digest body l none = http_error 404
observe_found digest body l (some f) =
    if not (is_some f.locked_at) || ltb body.observed_at f.outcome_eligible_time
    then http_error 409
    else store_observation (new_observation digest f body l) l

unfoldable pub post_outcome :
    (ℕ → OutcomeCreate → ℕ → ℕ) → ℕ → ℕ → OutcomeCreate → ForecastLedger → Answer Observation
post_outcome digest id workspace body l = observe_found digest body l (forecast_of id workspace l)
