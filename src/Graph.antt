-- ===== src/Graph.antt =====
-- core/graph: what changes between two turns, and the lineage of blocks over a session.
pub mod Diff
pub mod Tree
mod Tests
