-- ===== src/Evidence.antt =====
-- The rule files of engine/src/evidence.
pub mod Rules
mod Tests
