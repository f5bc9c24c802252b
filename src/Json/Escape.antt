-- ===== src/Json/Escape.antt =====
-- `jsonEscapeString` of engine/src/util/json_writer.cpp.
use code_scope.Prelude.{ℕ, ◌+◌, ◌/◌, ◌%◌, [], ◌∷◌, ◌++◌, Bytes, ltb, ◌==◌, if◌then◌else◌}

abbrev pub quote : ℕ
quote = b'"'

abbrev pub backslash : ℕ
backslash = 92

unfoldable pub hex_digit : ℕ → ℕ
hex_digit n = if ltb n 10 then b'0' + n else 87 + n

-- snprintf's "\u%04x" for a byte.
unfoldable pub unicode_escape : ℕ → Bytes
unicode_escape c = backslash ∷ b'u' ∷ b'0' ∷ b'0' ∷ hex_digit (c / 16) ∷ hex_digit (c % 16) ∷ []

unfoldable pub escape_byte : ℕ → Bytes
escape_byte c =
    if c == quote
    then backslash ∷ quote ∷ []
    else if c == backslash
    then backslash ∷ backslash ∷ []
    else if c == 10
    then backslash ∷ b'n' ∷ []
    else if c == 13
    then backslash ∷ b'r' ∷ []
    else if c == 9
    then backslash ∷ b't' ∷ []
    else if ltb c 32
    then unicode_escape c
    else c ∷ []

unfoldable pub json_escape_string : Bytes → Bytes
json_escape_string [] = []
json_escape_string (c ∷ s) = escape_byte c ++ json_escape_string s

-- `appendEscapedString`: the text between quotes.
abbrev pub quoted : Bytes → Bytes
quoted s = quote ∷ json_escape_string s ++ quote ∷ []
