-- ===== src/Sched.antt =====
-- engine/src/engine_index_sched.cpp: the pool of idle cores that worker processes share.
pub mod Cas
pub mod Schedule
pub mod Conserve
pub mod Grants
mod Tests
