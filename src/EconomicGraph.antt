-- ===== src/EconomicGraph.antt =====
-- The economic driver graph (packages/economic_graph).
pub mod Rows
pub mod Traversal
pub mod Evidence
pub mod Resolution
pub mod Identifiers
mod Tests
