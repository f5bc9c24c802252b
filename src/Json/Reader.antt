-- ===== src/Json/Reader.antt =====
-- `JsonParser` of engine/src/evidence/rule.cpp. The cursor `pos_` is the text that is left, and an
-- error carries the text left at its offset.
pub mod Strings
pub mod Values
