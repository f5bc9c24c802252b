-- ===== src/Json/RoundTrip.antt =====
-- `JsonParser` on texts that `jsonEscapeString` and the compact print write.
pub mod Strings
pub mod Values
pub mod Trees
