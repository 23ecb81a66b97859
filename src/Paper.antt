-- ===== src/Paper.antt =====
-- Simulated orders on paper portfolios (packages/paper_trading).
pub mod Decimals
pub mod Prices
pub mod Orders
mod Tests
