-- ===== src/Filter.antt =====
-- `FilterPolicy` of engine/src/filter_policy_ignore.cpp: the files that the index leaves out.
pub mod Glob
pub mod Ignore
pub mod Trim
pub mod Exclude
pub mod Rules
mod Tests
