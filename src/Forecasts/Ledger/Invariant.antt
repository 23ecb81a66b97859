-- ===== src/Forecasts/Ledger/Invariant.antt =====
-- What holds of the tables of forecasts (apps/api/routers/prospective_intelligence.py).
use market_intelligence_lab.Prelude.{
  ◌≤◌, ◌≡◌, ◌∙◌, sym, ap, inl, inr, Bool, true, ◌||◌, none, some, List, [], ◌∷◌, ◌==◌, exists_row,
  update_rows, distinct_by, All, Memᴰ, exists-of_Memᴰ, Bool-cases, arith, refl,
}
use market_intelligence_lab.Moments.{Instant}
use market_intelligence_lab.Forecasts.Ledger.{
  Forecast, Observation, ForecastLedger, Answer, http_error, answered, is_open, locked,
}

-- What an answer leaves in the tables.
abbrev pub ledger_after : {A : Type 0} → ForecastLedger → Answer A → ForecastLedger
ledger_after l (http_error n) = l
ledger_after l (answered a after) = after

-- The times of a forecast: it is locked, if at all, by the time its outcome is eligible.
pub record IsFramed (f : Forecast) : Type 0 where
  pub starts : f.as_of_time ≤ f.target_start_time
  pub ends : f.target_end_time ≤ f.outcome_eligible_time
  pub locked_in_time : (t : Instant) → f.locked_at ≡ some t → t ≤ f.outcome_eligible_time
  pub open_unlocked : is_open f.state ≡ true → f.locked_at ≡ none

-- An outcome of a stored forecast that was locked before.
pub record IsMatured (forecasts : List Forecast) (o : Observation) : Type 0 where
  pub forecast : Forecast
  pub lock_time : Instant
  pub stored : Memᴰ forecast forecasts
  pub same_forecast : forecast.id ≡ o.forecast_id
  pub was_locked : forecast.locked_at ≡ some lock_time
  pub in_order : lock_time ≤ forecast.outcome_eligible_time
  pub mature : forecast.outcome_eligible_time ≤ o.observed_at
  pub window_over : forecast.target_end_time ≤ o.observed_at

abbrev pub same_id : Forecast → Forecast → Bool
same_id a b = a.id == b.id

pub record IsKept (l : ForecastLedger) : Type 0 where
  pub unique : distinct_by same_id l.forecasts ≡ true
  pub framed : All IsFramed l.forecasts
  pub matured : All (IsMatured l.forecasts) l.observations

-- Rows of one table with the same identifier are the same row.
pub distinct-same :
    (xs : List Forecast) (a b : Forecast)
    → distinct_by same_id xs ≡ true
    → Memᴰ a xs
    → Memᴰ b xs
    → a.id ≡ b.id
    → a ≡ b
distinct-same [] a b d m n h = elim m [ ]
distinct-same (x ∷ xs) a b d (Memᴰ.head e) (Memᴰ.head k) h = e ∙ sym k
distinct-same (x ∷ xs) a b d (Memᴰ.head e) (Memᴰ.tail n) h =
    let ids = ap (λ f. f.id) e in
    let test : (x.id == b.id) ≡ true = ground arith in
    let again = exists-of_Memᴰ (same_id x) xs n test in ground arith
distinct-same (x ∷ xs) a b d (Memᴰ.tail m) (Memᴰ.head k) h =
    let ids = ap (λ f. f.id) k in
    let test : (x.id == a.id) ≡ true = ground arith in
    let again = exists-of_Memᴰ (same_id x) xs m test in ground arith
distinct-same (x ∷ xs) a b d (Memᴰ.tail m) (Memᴰ.tail n) h =
    distinct-same xs a b (ground arith) m n h

exists-update_rows :
    (y : Forecast) (p : Forecast → Bool) (now : Instant) (xs : List Forecast)
    → exists_row (same_id y) (update_rows p (locked now) xs) ≡ exists_row (same_id y) xs
exists-update_rows y p now [] = refl
exists-update_rows y p now (x ∷ xs) = elim (Bool-cases (p x)) [
  | inl e ↦ rw e (ap (λ b. (y.id == x.id) || b) (exists-update_rows y p now xs))
  | inr e ↦ rw e (ap (λ b. (y.id == x.id) || b) (exists-update_rows y p now xs))
]

pub distinct-update_rows :
    (p : Forecast → Bool) (now : Instant) (xs : List Forecast)
    → distinct_by same_id xs ≡ true
    → distinct_by same_id (update_rows p (locked now) xs) ≡ true
distinct-update_rows p now [] h = refl
distinct-update_rows p now (x ∷ xs) h = elim (Bool-cases (p x)) [
  | inl e ↦ rw e (ground (arith, exists-update_rows x p now xs, distinct-update_rows p now xs))
  | inr e ↦ rw e (ground (arith, exists-update_rows x p now xs, distinct-update_rows p now xs))
]
