-- ===== src/Lsp.antt =====
-- The language-server client's messages.
pub mod Decimal
pub mod Framing
mod Tests
