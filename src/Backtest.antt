-- ===== src/Backtest.antt =====
-- The backtesting engine (packages/backtesting).
pub mod Rows
pub mod Trading
pub mod Engine
pub mod Alignment
mod Tests
