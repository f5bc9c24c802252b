-- ===== src/Store.antt =====
-- The store of the call graph.
pub mod Csr
mod Tests
