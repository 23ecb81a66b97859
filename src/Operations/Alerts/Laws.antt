-- ===== src/Operations/Alerts/Laws.antt =====
-- Alerts are deduplicated and none is lost.
use Prim.Native.String.{String}
use text.Mathlib.TextEquality.{eq_iff}
use text.Mathlib.TextPositions.{eq_refl}
use mathlib.Core.Path.{subst, subst₂}
use mathlib.Core.Option.{some-injective}
use text.Mathlib.Text.{◌==◌ as str_eq}
use market_intelligence_lab.Prelude.{
  ℕ, ◌+◌, ◌≡◌, refl, Bool, true, false, ◌&&◌, Option, none, some, List, [], ◌∷◌, arith,
  if◌then◌else◌, inl, inr, Bool-cases, Option-cases, max,
}
use market_intelligence_lab.Moments.{Instant, date_of}
use market_intelligence_lab.Operations.Freshness.{
  Freshness, provider_delayed, unknown, Promise, is_closed, last_open, grade_at,
  calculate_freshness,
}
use market_intelligence_lab.Operations.Freshness.Laws.{last_open_lem}
use market_intelligence_lab.Operations.Alerts.{
  Alert, AlertRequest, same_workspace, is_open_for, record_alert, new_alert, FreshnessRow,
  row_freshness, alarms, raise_if_stale, refresh_freshness, Board, stale_request, graded, keep_row,
  has_calendar,
}

-- The open alerts of a workspace with a key.
abbrev pub open_count : Option ℕ → String → List Alert → ℕ
open_count w k [] = 0
open_count w k (a ∷ rows) =
    if is_open_for w k a then open_count w k rows + 1 else open_count w k rows

-- How often all alerts were seen.
abbrev pub times_seen : List Alert → ℕ
times_seen [] = 0
times_seen (a ∷ rows) = a.occurrence_count + times_seen rows

same_workspace_refl : (v : Option ℕ) → same_workspace v v ≡ true
same_workspace_refl none = refl
same_workspace_refl (some a) = ground arith

and_left : (a b : Bool) → a && b ≡ true → a ≡ true
and_left a b h = ground arith

and_right : (a b : Bool) → a && b ≡ true → b ≡ true
and_right a b h = ground arith

same_workspace-eq : (v w : Option ℕ) → same_workspace v w ≡ true → v ≡ w
same_workspace-eq none none h = refl
same_workspace-eq none (some b) h = cc
same_workspace-eq (some a) none h = cc
same_workspace-eq (some a) (some b) h = ground arith

module _ (r : AlertRequest) (now : Instant) where
  -- Every call is counted once.
  pub times_seen-record_alert :
      (rows : List Alert) → times_seen (record_alert r now rows) ≡ times_seen rows + 1
  unfolding record_alert
  times_seen-record_alert [] = omega arith
  times_seen-record_alert (a ∷ rows) =
      elim (Bool-cases (is_open_for r.workspace_id r.deduplication_key a)) [
        | inl same ↦ rw same (omega arith)
        | inr other ↦ rw other (omega (arith, times_seen-record_alert rows))
      ]

  new_alert_own : is_open_for r.workspace_id r.deduplication_key (new_alert r now) ≡ true
  unfolding new_alert
  new_alert_own = rw (same_workspace_refl r.workspace_id, eq_refl r.deduplication_key)

  open_count-record_alert_own :
      (rows : List Alert)
      → open_count r.workspace_id r.deduplication_key (record_alert r now rows)
        ≡ max 1 (open_count r.workspace_id r.deduplication_key rows)
  unfolding record_alert
  open_count-record_alert_own [] = rw new_alert_own (omega arith)
  open_count-record_alert_own (a ∷ rows) =
      elim (Bool-cases (is_open_for r.workspace_id r.deduplication_key a)) [
        | inl same ↦ rw same (rw same (omega arith))
        | inr other ↦ rw other (rw other (open_count-record_alert_own rows))
      ]

  open_count-record_alert_other :
      (w : Option ℕ) (k : String) (rows : List Alert)
      → is_open_for w k (new_alert r now) ≡ false
      → open_count w k (record_alert r now rows) ≡ open_count w k rows
  unfolding record_alert
  open_count-record_alert_other w k [] h = rw h
  open_count-record_alert_other w k (a ∷ rows) h =
      elim (Bool-cases (is_open_for r.workspace_id r.deduplication_key a)) [
        | inl same ↦ rw same
        | inr other ↦ rw (other, open_count-record_alert_other w k rows h)
      ]

  -- A call leaves exactly one alert open for its workspace and key where none was open, opens no
  -- second one where some was, and changes no other count.
  pub open_count-record_alert :
      (w : Option ℕ) (k : String) (rows : List Alert)
      → open_count w k (record_alert r now rows) ≡ (
          if same_workspace r.workspace_id w && str_eq r.deduplication_key k
          then max 1 (open_count w k rows)
          else open_count w k rows)
  unfolding new_alert
  open_count-record_alert w k rows =
      elim (Bool-cases (same_workspace r.workspace_id w && str_eq r.deduplication_key k)) [
        | inl same ↦ rw same (own same)
        | inr other ↦ rw other (open_count-record_alert_other w k rows (ground arith))
      ]
    where
      own :
          same_workspace r.workspace_id w && str_eq r.deduplication_key k ≡ true
          → open_count w k (record_alert r now rows) ≡ max 1 (open_count w k rows)
      own same =
          let ws : r.workspace_id ≡ w =
            same_workspace-eq r.workspace_id w
              (and_left (same_workspace r.workspace_id w) (str_eq r.deduplication_key k) same) in
          let key : r.deduplication_key ≡ k =
            (eq_iff r.deduplication_key k).0
              (and_right (same_workspace r.workspace_id w) (str_eq r.deduplication_key k) same) in
          subst₂ (λ v j. open_count v j (record_alert r now rows) ≡ max 1 (open_count v j rows)) ws
            key (open_count-record_alert_own rows)

-- Each stale row of a critical dataset raises one alert.
times_seen-raise_if_stale :
    (now : Instant) (row : FreshnessRow) (alerts : List Alert)
    → times_seen (raise_if_stale now row alerts) ≡ times_seen alerts + (if alarms row then 1 else 0)
unfolding raise_if_stale
times_seen-raise_if_stale now row alerts = elim (Bool-cases (alarms row)) [
  | inl raised ↦ rw raised (times_seen-record_alert (stale_request row) now alerts)
  | inr quiet ↦ rw quiet (omega arith)
]

abbrev pub alarm_count : List FreshnessRow → ℕ
alarm_count [] = 0
alarm_count (row ∷ rows) = (if alarms row then 1 else 0) + alarm_count rows

-- What a refresh leaves of the rows that it was given: each has its grade, and nothing else changed.
abbrev pub Refreshed : Instant → List FreshnessRow → List FreshnessRow → Type 0
Refreshed now [] [] = Unit
Refreshed now (row ∷ rows) (row' ∷ rows') =
    ((row_freshness now row ≡ some row'.status) × (row' ≡ record row { status = row'.status }))
    × Refreshed now rows rows'
Refreshed now _ _ = ⊥

graded-eq-some :
    (row : FreshnessRow) (o : Option Freshness) (step : FreshnessRow → Option Board) {b : Board}
    → graded row o step ≡ some b
    → (f : Freshness) × (o ≡ some f) × (step (record row { status = f }) ≡ some b)
graded-eq-some row none step h = cc
graded-eq-some row (some f) step h = (f, refl, h)

keep_row-eq-some :
    (row : FreshnessRow) (m : Option Board) {b : Board}
    → keep_row row m ≡ some b
    → (c : Board) × (m ≡ some c) × (◌≡◌ {A = Board} (row ∷ c.0, c.1) b)
keep_row-eq-some row none h = cc
keep_row-eq-some row (some c) h = (c, refl, some-injective _ _ h)

refreshed :
    (now : Instant) (rows : List FreshnessRow) (alerts : List Alert) (board : Board)
    → refresh_freshness now rows alerts ≡ some board
    → Refreshed now rows board.0 × (times_seen board.1 ≡ times_seen alerts + alarm_count board.0)
unfolding refresh_freshness
refreshed now [] alerts board h =
    subst
      (λ (b : Board). Refreshed now [] b.0 × (times_seen b.1 ≡ times_seen alerts + alarm_count b.0))
      (some-injective _ _ h) (tt, omega arith)
refreshed now (row ∷ rows) alerts board h =
    let (f, grade, rest) = graded-eq-some row (row_freshness now row) _ h in
    let row' = record row { status = f } in
    let alerts' = raise_if_stale now row' alerts in
    let (b, found, same) = keep_row-eq-some row' (refresh_freshness now rows alerts') rest in
    let ih = refreshed now rows alerts' b found in
    subst
      (λ (c : Board).
        Refreshed now (row ∷ rows) c.0 × (times_seen c.1 ≡ times_seen alerts + alarm_count c.0))
      same (((grade, refl), ih.0), omega (arith, ih.1, times_seen-raise_if_stale now row' alerts))

-- Without holidays some day is open, Monday 0001-01-01 at the latest.
last_open_total : (d : ℕ) → (probe : ℕ) × (last_open [] d ≡ some probe)
last_open_total d = elim (last_open_lem [] d) [
  | inl (probe, found, _, _, _) ↦ (probe, found)
  | inr (missing, closed_all) ↦
      let monday : is_closed [] 0 ≡ true = closed_all 0 (omega arith) in absurd cc
]

grade_at-is_some :
    (p : Promise) (now : Instant) (probe : ℕ) → grade_at p now (some probe) ≡ none → ⊥
unfolding grade_at
grade_at-is_some p now probe e = ground arith

grade_at_total :
    (p : Promise) (now : Instant) (probe : ℕ)
    → (f : Freshness) × (grade_at p now (some probe) ≡ some f)
grade_at_total p now probe = elim (Option-cases (grade_at p now (some probe))) [
  | inl missing ↦ absurd (grade_at-is_some p now probe missing)
  | inr found ↦ found
]

calculate_freshness_total :
    (now : Instant) (last expected after : Option Instant) (calendar is_delayed : Bool)
    → (f : Freshness) × (calculate_freshness now last expected after calendar is_delayed []
        ≡ some f)
unfolding calculate_freshness
calculate_freshness_total now last expected after calendar true = (provider_delayed, refl)
calculate_freshness_total now none expected after calendar false = (unknown, refl)
calculate_freshness_total now (some l) none after calendar false = (unknown, refl)
calculate_freshness_total now (some l) (some e) none calendar false = (unknown, refl)
calculate_freshness_total now (some l) (some e) (some s) false false = (_, refl)
calculate_freshness_total now (some l) (some e) (some s) true false =
    let (probe, found) = last_open_total (date_of now) in
    let p : Promise = record { last_success = l; expected_next = e; stale_after = s } in
    rw found (grade_at_total p now probe)

refresh_freshness_total :
    (now : Instant) (rows : List FreshnessRow) (alerts : List Alert)
    → (board : Board) × (refresh_freshness now rows alerts ≡ some board)
unfolding refresh_freshness row_freshness
refresh_freshness_total now [] alerts = (([], alerts), refl)
refresh_freshness_total now (row ∷ rows) alerts =
    let (f, grade) =
      calculate_freshness_total now row.last_success_at row.expected_next_update_at
        row.stale_after_at (has_calendar row.calendar) row.provider_delayed_flag in
    let row' = record row { status = f } in
    let (board, found) = refresh_freshness_total now rows (raise_if_stale now row' alerts) in
    ((row' ∷ board.0, board.1), rw (grade, found))

-- A refresh always returns; it has written its grade to every row and nothing else, and has raised
-- one alert, new or repeated, for each critical dataset that it found stale or very stale.
pub refresh_freshness_lem :
    (now : Instant) (rows : List FreshnessRow) (alerts : List Alert)
    → (board : Board) × (refresh_freshness now rows alerts ≡ some board)
      × Refreshed now rows board.0
      × (times_seen board.1 ≡ times_seen alerts + alarm_count board.0)
refresh_freshness_lem now rows alerts =
    let (board, found) = refresh_freshness_total now rows alerts in
    let (written, seen) = refreshed now rows alerts board found in (board, found, written, seen)
