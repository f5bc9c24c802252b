-- ===== src/Json.antt =====
-- engine/src/util/json_writer.cpp and the JSON reader of engine/src/evidence/rule.cpp.
pub mod Value
pub mod Escape
pub mod Writer
pub mod Builder
pub mod Refine
pub mod Serial
pub mod Reader
pub mod Consume
pub mod RoundTrip
pub mod Envelope
mod Tests
