-- ===== src/Operations.antt =====
-- packages/operations: durable scheduling, retries, circuit breakers, freshness and alerts.
pub mod Breaker
pub mod Retry
pub mod Schedule
pub mod Occurrence
pub mod Queue
pub mod Worker
pub mod Freshness
pub mod Alerts
mod Tests
