-- ===== src/Lib.antt =====
-- The durable work of the market intelligence lab: scheduled tasks, provider circuit breakers, data
-- freshness and alerts (packages/operations), and the import jobs of market data
-- (packages/market_data). A scheduler turns due definitions into queued occurrences; workers claim
-- them under leases, run a handler and complete or fail them; a recovery takes back what a lost
-- worker held. Import jobs have the same life with a lease table of their own; a run visits the
-- job's symbols in order and stores the provider's records without overwriting any. Beside them stand
-- the life of a research hypothesis (packages/hypothesis), the simulated orders of paper portfolios
-- (packages/paper_trading), local sign-in (packages/auth), the simulator of strategies over past bars
-- (packages/backtesting), forecasts that are frozen before their outcomes
-- (apps/api/routers/prospective_intelligence.py), and the economic graph
-- (packages/economic_graph): entities whose identifiers are resolved to one owner, relationships that
-- stand on evidence, and the bounded search for what was known at a time.
--
-- Files:
--   Prelude.antt, Prelude/          shared names, tables as lists of rows, searches and orders
--   Moments.antt                    aware UTC datetimes, as microseconds from 0001-01-01
--   Operations/Breaker.antt         packages/operations/service.py: circuit_allows_request,
--                                   record_provider_result, admit_work
--   Operations/Retry.antt           compute_retry_delay, and retry_delay_seconds of
--                                   packages/market_data/ingestion.py
--   Operations/Schedule.antt        next_due
--   Operations/Occurrence.antt      one occurrence's row: claim_row, complete_row, fail_row and
--                                   recover_row are what claim_next_occurrence,
--                                   complete_occurrence, fail_occurrence and
--                                   recover_expired_occurrences write; resolve_row is
--                                   resolve_quarantined_occurrence of
--                                   apps/api/routers/operations.py. Occurrence/Life.antt has the
--                                   steps as a relation
--   Operations/Queue.antt           claim_due_occurrences, claim_next_occurrence,
--                                   recover_expired_occurrences over the tables
--   Operations/Worker.antt          packages/operations/worker.py: execute_occurrence
--   Operations/Freshness.antt       calculate_freshness
--   Operations/Alerts.antt          record_alert, refresh_freshness, dependency_status
--   ImportJobs/Rows.antt            packages/market_data/operations.py: the rows,
--                                   STATE_TRANSITIONS, transition_job, the claim's filter
--   ImportJobs/Leasing.antt         heartbeat_worker, claim_next_job, renew_lease, release_lease,
--                                   recover_abandoned_jobs, stop_worker
--   ImportJobs/Execution.antt       execute_claimed_job, and the theorem on a claim and its execution
--   ImportJobs/Ownership.antt       the claim's theorem
--   ImportJobs/Requests.antt        packages/market_data/ingestion.py: create_import_job,
--                                   request_cancellation, restart_import_job
--   ImportJobs/Running.antt         run_import_job, its effect on the job
--   ImportJobs/Storing.antt         run_import_job, its record loop
--   RateLimits.antt                 packages/market_data/rate_limit.py: InProcessRateLimiter
--   Research/Lifecycle.antt         packages/hypothesis/lifecycle.py: transition_hypothesis,
--                                   validate_promotion_transition
--   Paper/Decimals.antt             Python's decimal numbers, as an interface with its laws
--   Paper/Prices.antt               packages/paper_trading/engine.py: _eligible_price,
--                                   _limit_price, _apply_friction
--   Paper/Orders.antt               process_order, cancel, _fill
--   Auth/Throttle.antt              packages/auth/native.py: throttle
--   Auth/Sessions.antt              authenticate, logout, change_password
--   Auth/Login.antt                 login
--   Forecasts/Ledger.antt           apps/api/routers/prospective_intelligence.py: post_forecast,
--                                   lock_forecast, post_outcome
--   EconomicGraph/Rows.antt         packages/economic_graph/traversal.py: _entity_visible,
--                                   _relationship_visible
--   EconomicGraph/Traversal.antt    bounded_graph_as_of
--   EconomicGraph/Evidence.antt     packages/economic_graph/service.py: create_evidence,
--                                   create_relationship, expire_relationship
--   EconomicGraph/Evidence/Confidence.antt
--                                   packages/economic_graph/confidence.py: aggregate_confidence
--   EconomicGraph/Identifiers.antt  normalize_name, normalize_identifier
--   EconomicGraph/Resolution.antt   attach_identifier, create_resolution_candidate,
--                                   decide_resolution
--   Backtest/Rows.antt              packages/backtesting/types.py, and the numbers
--   Backtest/Trading.antt           packages/backtesting/engine.py: _rebalance, _execute,
--                                   _execution_price
--   Backtest/Engine.antt            the loop of run, _risk_limit_breached,
--                                   _eligible_execution_index
--   Backtest/Alignment.antt         run
-- Laws and the other children hold the theorems, the Tests modules sample runs.
--
-- A table is a list of rows, a UUID a natural number, a session's transaction one call. An exception
-- is `none` or a constructor of the operation's own result. The random draw of the jitter, the
-- SHA-256 digest, new identifiers and the task handlers are parameters, as are decimal numbers,
-- the strategies, Python's tests on characters and the password hash. The weekend loop of next_due runs on a fuel of three rounds, since a weekend
-- has two days; the search of the graph runs on the size of the largest tree of paths that its depth
-- allows; every other loop recurses on its list or on the day number.
--
-- Not modelled: the end of the calendar in the year 9999; concurrent transactions, whose row locks
-- the database gives; the provider adapters, asset and capability rows, provider health, heartbeats
-- inside a run; the polling loops; the other packages.
pub mod Prelude
pub mod Moments
pub mod Operations
pub mod ImportJobs
pub mod Research
pub mod Paper
pub mod Auth
pub mod EconomicGraph
pub mod Backtest
pub mod Forecasts
pub mod RateLimits
