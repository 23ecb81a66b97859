-- ===== src/Operations/Alerts.antt =====
-- Operational alerts: one open alert for each deduplication key, and the alerts that a refresh of
-- the freshness table raises (packages/operations/service.py: `record_alert`,
-- `refresh_freshness`, `dependency_status`).
pub mod Laws
use Prim.Native.String.{String, ◌++◌ as join}
use text.Mathlib.Text.{◌==◌ as str_eq}
use market_intelligence_lab.Prelude.{
  ℕ, ◌+◌, ◌-◌, ◌/◌, Bool, true, false, ◌&&◌, ◌||◌, Option, none, some, List, [], ◌∷◌, leb, ◌==◌,
  length, if◌then◌else◌, min,
}
use market_intelligence_lab.Moments.{Instant}
use market_intelligence_lab.Operations.Freshness.{
  Freshness, provider_delayed, unknown, current, due, stale, very_stale, calculate_freshness,
}
use market_intelligence_lab.Operations.Occurrence.{Status, queued, retry_wait}

pub data AlertStatus : Type 0 where
  alert_open alert_closed : AlertStatus

pub record Alert : Type 0 where
  pub workspace_id : Option ℕ
  pub severity : String
  pub category : String
  pub deduplication_key : String
  pub status : AlertStatus
  pub summary : String
  pub impact : String
  pub unaffected : String
  pub recommended_action : String
  pub occurrence_count : ℕ
  pub first_seen_at : Instant
  pub last_seen_at : Instant

-- The arguments of `record_alert`.
pub record AlertRequest : Type 0 where
  pub workspace_id : Option ℕ
  pub severity : String
  pub category : String
  pub deduplication_key : String
  pub summary : String
  pub impact : String
  pub unaffected : String
  pub recommended_action : String

abbrev pub same_workspace : Option ℕ → Option ℕ → Bool
same_workspace none none = true
same_workspace (some a) (some b) = a == b
same_workspace _ _ = false

abbrev is_open : AlertStatus → Bool
is_open alert_open = true
is_open alert_closed = false

-- The filter of the query.
abbrev pub is_open_for : Option ℕ → String → Alert → Bool
is_open_for workspace key a =
    same_workspace a.workspace_id workspace && str_eq a.deduplication_key key && is_open a.status

unfoldable pub new_alert : AlertRequest → Instant → Alert
new_alert r now = record {
  workspace_id = r.workspace_id;
  severity = r.severity;
  category = r.category;
  deduplication_key = r.deduplication_key;
  status = alert_open;
  summary = r.summary;
  impact = r.impact;
  unaffected = r.unaffected;
  recommended_action = r.recommended_action;
  occurrence_count = 1;
  first_seen_at = now;
  last_seen_at = now;
}

unfoldable pub seen_again : AlertRequest → Instant → Alert → Alert
seen_again r now a = record a {
  occurrence_count = a.occurrence_count + 1;
  last_seen_at = now;
  severity = r.severity;
  summary = r.summary;
}

-- The first open alert with the key is counted up; without one a new alert is added.
unfoldable pub record_alert : AlertRequest → Instant → List Alert → List Alert
unfolding new_alert seen_again
record_alert r now [] = new_alert r now ∷ []
record_alert r now (a ∷ rows) =
    if is_open_for r.workspace_id r.deduplication_key a
    then seen_again r now a ∷ rows
    else a ∷ record_alert r now rows

-- The columns of `DataFreshnessStatus` that the refresh reads and writes.
pub record FreshnessRow : Type 0 where
  pub id_text : String
  pub workspace_id : Option ℕ
  pub provider : String
  pub dataset : String
  pub status : Freshness
  pub criticality : String
  pub calendar : Option String
  pub last_success_at : Option Instant
  pub expected_next_update_at : Option Instant
  pub stale_after_at : Option Instant
  pub provider_delayed_flag : Bool

-- `bool(row.calendar)`
abbrev pub has_calendar : Option String → Bool
has_calendar none = false
has_calendar (some String.[]) = false
has_calendar (some (String.◌∷◌ c s)) = true

abbrev pub is_stale : Freshness → Bool
is_stale stale = true
is_stale very_stale = true
is_stale _ = false

-- The row's grade; no holidays are passed on.
unfoldable pub row_freshness : Instant → FreshnessRow → Option Freshness
row_freshness now row =
    calculate_freshness now row.last_success_at row.expected_next_update_at row.stale_after_at
      (has_calendar row.calendar) row.provider_delayed_flag []

stale_request : FreshnessRow → AlertRequest
stale_request row = record {
  workspace_id = row.workspace_id;
  severity = "ERROR";
  category = "STALE_CRITICAL_DATA";
  deduplication_key = join "freshness:" row.id_text;
  summary = join (join row.provider " ") (join row.dataset " is stale");
  impact = "Research using this dataset may be delayed.";
  unaffected = "The application and previously stored observations remain available.";
  recommended_action = "Inspect the provider and the next scheduled ingestion attempt.";
}

-- Whether the refreshed row raises an alert.
abbrev pub alarms : FreshnessRow → Bool
alarms row = is_stale row.status && str_eq row.criticality "CRITICAL"

unfoldable pub raise_if_stale : Instant → FreshnessRow → List Alert → List Alert
unfolding stale_request
raise_if_stale now row alerts =
    if alarms row then record_alert (stale_request row) now alerts else alerts

-- The rows and alerts of the session.
abbrev pub Board : Type 0
Board = List FreshnessRow × List Alert

abbrev pub keep_row : FreshnessRow → Option Board → Option Board
keep_row row none = none
keep_row row (some (rows, alerts)) = some (row ∷ rows, alerts)

abbrev pub graded : FreshnessRow → Option Freshness → (FreshnessRow → Option Board) → Option Board
graded row none next = none
graded row (some f) next = next (record row { status = f })

-- The loop over the rows; `none` is the OverflowError of `calculate_freshness`.
unfoldable pub refresh_freshness : Instant → List FreshnessRow → List Alert → Option Board
refresh_freshness now [] alerts = some ([], alerts)
refresh_freshness now (row ∷ rows) alerts =
    graded row (row_freshness now row)
      (λ row'. keep_row row' (refresh_freshness now rows (raise_if_stale now row' alerts)))

pub data Health : Type 0 where
  healthy degraded action_needed : Health

pub record Dependencies : Type 0 where
  pub status : Health
  pub readiness : Bool
  pub optional_providers : Health

unfoldable pub dependency_status : Bool → Bool → Bool → Dependencies
dependency_status database required_storage optional_provider =
    let ready = database && required_storage in
    record {
      status =
          if ready && optional_provider then healthy else if ready then degraded else action_needed;
      readiness = ready;
      optional_providers = if optional_provider then healthy else degraded;
    }
