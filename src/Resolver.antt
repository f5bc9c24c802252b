-- ===== src/Resolver.antt =====
-- What scores the candidates of a reference: engine/src/resolver/factors.h and factors.cpp.
pub mod Like
pub mod Text
pub mod Factors
pub mod Fuzzy
pub mod Paths
pub mod Apply
mod Tests
