-- ===== src/Forecasts.antt =====
-- Forecasts that are frozen before their outcomes (apps/api/routers/prospective_intelligence.py).
pub mod Ledger
mod Tests
