-- ===== src/EconomicGraph/Traversal/Laws.antt =====
-- What holds of the traversal (packages/economic_graph/traversal.py): its rules and its results.
pub mod Rules
pub mod Visible
pub mod Bounds
pub mod Reference
