-- ===== src/Graph.antt =====
-- The graph layer, graph/ and ir/semantic_unit: the records of one file and the graphs built of them.
pub mod Unit
pub mod Types
pub mod Builder
pub mod Edges
pub mod Going
pub mod Symbols
pub mod Calls
pub mod TypeEdges
mod Tests
