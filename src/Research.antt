-- ===== src/Research.antt =====
-- The life of a research hypothesis and of its promotion (packages/hypothesis).
pub mod Lifecycle
mod Tests
