-- ===== src/ImportJobs.antt =====
-- Import jobs (packages/market_data/operations.py and ingestion.py): their states, the leases that
-- workers hold on them, the requests that create, cancel and restart them, and a run's outcome.
pub mod Rows
pub mod Leasing
pub mod Requests
pub mod Running
pub mod Ownership
pub mod Storing
pub mod Execution
mod Tests
