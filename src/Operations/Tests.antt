-- ===== src/Operations/Tests.antt =====
-- Sample rows and runs of packages/operations.
mod Policies
mod Claims
