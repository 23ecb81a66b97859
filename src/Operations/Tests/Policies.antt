-- ===== src/Operations/Tests/Policies.antt =====
-- Sample breakers, retry policies, schedules, datasets and alerts.
use market_intelligence_lab.Prelude.{
  ◌+◌, ◌≤◌, ◌<◌, ◌≡◌, ◌↔◌, arith, is_some, or_else, true, false, Option, none, some, List, [], ◌∷◌,
}
use market_intelligence_lab.Moments.{Instant, seconds, days, date_of, weekday}
use market_intelligence_lab.Operations.Breaker.{
  Breaker, closed, half_open, default_policy, ErrorCategory, timeout, rate_limit,
}
use market_intelligence_lab.Operations.Breaker.Laws.{
  BreakerEvent, ask, result, replay, failures_since, is_tripped, replay-IsSound,
}
use market_intelligence_lab.Operations.Retry.{Draw}
use market_intelligence_lab.Operations.Schedule.{
  ScheduleConfig, market_calendar, next_due, due_at, unsupported_type,
}
use market_intelligence_lab.Operations.Schedule.Laws.{next_due_advances, is_supported}
use market_intelligence_lab.Operations.Freshness.{current}
use market_intelligence_lab.Operations.Alerts.{AlertRequest, FreshnessRow}

abbrev fresh_breaker : Breaker
fresh_breaker = record {
  state = some closed;
  consecutive_failures = some 0;
  opened_at = none;
  next_probe_at = none;
  last_error_category = none;
}

abbrev probing : Breaker
probing = record {
  state = some half_open;
  consecutive_failures = some 4;
  opened_at = some 5;
  next_probe_at = some 9;
  last_error_category = some timeout;
}

abbrev storm : List BreakerEvent
storm =
    result false 1 none
    ∷ result false 2 (some timeout)
    ∷ result false 3 (some rate_limit)
    ∷ ask (seconds 200)
    ∷ ask (seconds 400)
    ∷ []

replay-IsSound_example :
    let count = failures_since 0 storm in
    let last = replay default_policy fresh_breaker storm in
    (or_else last.consecutive_failures 0 ≡ count)
    × ((is_tripped last.state ≡ true) ↔ (3 ≤ count))
    × (is_tripped last.state ≡ true → is_some last.next_probe_at ≡ true)
replay-IsSound_example =
    replay-IsSound default_policy fresh_breaker storm (omega arith)
      (record { counted = λ h. cc; tripped = λ h. absurd (omega arith); scheduled = λ h. cc })

abbrev failures : List (Instant × Option ErrorCategory)
failures = (1, none) ∷ (2, some timeout) ∷ (3, none) ∷ []

-- The largest value each time.
abbrev upper_draw : Draw
upper_draw seed attempt upper = upper

-- Noon on Saturday, 0001-01-06.
abbrev saturday : Instant
saturday = days 5 + seconds 43200

abbrev weekly_config : ScheduleConfig
weekly_config = record { interval_seconds = none; cadence_days = some 2 }

next_due_advances_example :
    (is_supported market_calendar ≡ true
      → (t : Instant) × (next_due market_calendar weekly_config saturday ≡ due_at t)
        × (saturday + seconds 60 ≤ t)
        × (market_calendar ≡ market_calendar
            → (weekday (date_of t) < 5) × (t ≤ saturday + days 2 + days 2)))
    × (is_supported market_calendar ≡ false
        → next_due market_calendar weekly_config saturday ≡ unsupported_type)
next_due_advances_example = next_due_advances market_calendar weekly_config saturday

abbrev stale_alert : AlertRequest
stale_alert = record {
  workspace_id = some 1;
  severity = "ERROR";
  category = "STALE_CRITICAL_DATA";
  deduplication_key = "freshness:a";
  summary = "bars are stale";
  impact = "";
  unaffected = "";
  recommended_action = "";
}

abbrev bars_row : FreshnessRow
bars_row = record {
  id_text = "a";
  workspace_id = some 1;
  provider = "csv";
  dataset = "bars";
  status = current;
  criticality = "CRITICAL";
  calendar = none;
  last_success_at = some 0;
  expected_next_update_at = some 100;
  stale_after_at = some 200;
  provider_delayed_flag = false;
}
