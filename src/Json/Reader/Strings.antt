-- ===== src/Json/Reader/Strings.antt =====
-- `parseString`, with `std::stoul` in base 16 as the \u escape uses it.
use Prim.Native.Nat.{bit_and, bit_or}
use code_scope.Prelude.{
  ℕ, zero, suc, ◌+◌, ◌-◌, ◌*◌, ◌/◌, ◌%◌, ◌^◌, Bool, ◌&&◌, ◌||◌, Option, none, some, [], ◌∷◌, ◌++◌,
  Bytes, length, ltb, leb, ◌==◌, if◌then◌else◌,
}
use code_scope.Json.Escape.{quote, backslash}

pub data ReadError : Type 0 where
  unexpected_end trailing_characters too_deep : ReadError
  unexpected_character : ℕ → ReadError
  expected_key expected_colon expected_object_end expected_array_end : ReadError
  unterminated_escape unterminated_unicode bad_unicode unterminated_string : ReadError
  bad_escape : ℕ → ReadError
  bad_number invalid_bool invalid_null : ReadError
  -- belongs to the model only
  out_of_fuel : ReadError

-- The value and the text behind it, or the error and the text at its offset.
pub data Read (A : Type 0) : Type 0 where
  ok : A → Bytes → Read A
  fail : ReadError → Bytes → Read A

-- `isspace` in the classic locale.
unfoldable pub is_space : ℕ → Bool
is_space c = c == b' ' || (leb 9 c && leb c 13)

unfoldable pub hex_value : ℕ → Option ℕ
hex_value c =
    if leb b'0' c && leb c b'9'
    then some (c - b'0')
    else if leb b'a' c && leb c b'f'
    then some (c - 87)
    else if leb b'A' c && leb c b'F'
    then some (c - 55)
    else none

abbrev pub add_digit : Option ℕ → ℕ → ℕ
add_digit none d = d
add_digit (some v) d = v * 16 + d

-- The digits in front: their value, or `none` if there is none.
unfoldable pub hex_run : Option ℕ → Bytes → Option ℕ
hex_run seen [] = seen
hex_run seen (c ∷ s) = elim (hex_value c) [
  | none ↦ seen
  | some d ↦ hex_run (some (add_digit seen d)) s
]

-- An optional 0x; without digits behind it the 0 alone is the number.
unfoldable pub hex_number : Bytes → Option ℕ
hex_number [] = none
hex_number (c ∷ []) = hex_run none (c ∷ [])
hex_number (c ∷ d ∷ s) =
    if c == b'0' && (d == b'x' || d == b'X') then hex_run (some 0) s else hex_run none (c ∷ d ∷ s)

abbrev negate_u64 : Option ℕ → Option ℕ
negate_u64 none = none
negate_u64 (some v) = some ((2 ^ 64 - v) % 2 ^ 64)

unfoldable pub skip_spaces : Bytes → Bytes
skip_spaces [] = []
skip_spaces (c ∷ s) = if is_space c then skip_spaces s else c ∷ s

abbrev signed_hex : Bytes → Option ℕ
signed_hex [] = none
signed_hex (c ∷ s) =
    if c == b'-'
    then negate_u64 (hex_number s)
    else if c == b'+'
    then hex_number s
    else hex_number (c ∷ s)

-- `std::stoul(s, nullptr, 16)`; `none` where it throws. Text behind the digits is ignored.
unfoldable pub stoul16 : Bytes → Option ℕ
stoul16 s = signed_hex (skip_spaces s)

-- A code to bytes, each cut to `char`.
unfoldable pub utf8 : ℕ → Bytes
utf8 code =
    if ltb code 128
    then code ∷ []
    else if ltb code 2048
    then bit_or 192 (code / 64) % 256 ∷ bit_or 128 (bit_and code 63) ∷ []
    else bit_or 224 (code / 4096) % 256
      ∷ bit_or 128 (bit_and (code / 64) 63)
      ∷ bit_or 128 (bit_and code 63)
      ∷ []

-- One round of the loop in `parseString`: the string is closed, or goes on with more bytes.
pub data Round : Type 0 where
  closed : Bytes → Round
  more : Bytes → Bytes → Round
  broken : ReadError → Bytes → Round

abbrev decoded : Option ℕ → Bytes → Round
decoded none s = broken bad_unicode s
decoded (some code) s = more (utf8 (code % 2 ^ 32)) s

unfoldable pub unicode_round : Bytes → Round
unicode_round (a ∷ b ∷ c ∷ d ∷ s) = decoded (stoul16 (a ∷ b ∷ c ∷ d ∷ [])) s
unicode_round _ = broken unterminated_unicode []

-- The `switch` behind a backslash.
unfoldable pub escape_round : Bytes → Round
escape_round [] = broken unterminated_escape []
escape_round (e ∷ s) =
    if e == quote
    then more (quote ∷ []) s
    else if e == backslash
    then more (backslash ∷ []) s
    else if e == b'/'
    then more (b'/' ∷ []) s
    else if e == b'b'
    then more (8 ∷ []) s
    else if e == b'f'
    then more (12 ∷ []) s
    else if e == b'n'
    then more (10 ∷ []) s
    else if e == b'r'
    then more (13 ∷ []) s
    else if e == b't'
    then more (9 ∷ []) s
    else if e == b'u'
    then unicode_round s
    else broken (bad_escape e) s

unfoldable pub string_round : Bytes → Round
string_round [] = broken unterminated_string []
string_round (c ∷ s) =
    if c == quote then closed s else if c == backslash then escape_round s else more (c ∷ []) s

abbrev pub string_next : (Bytes → Bytes → Read Bytes) → Bytes → Round → Read Bytes
string_next again acc (closed s) = ok acc s
string_next again acc (more bytes s) = again (acc ++ bytes) s
string_next again acc (broken e s) = fail e s

-- The loop; each round takes a byte at least.
unfoldable pub string_loop : ℕ → Bytes → Bytes → Read Bytes
string_loop zero acc s = fail out_of_fuel s
string_loop (suc fuel) acc s = string_next (string_loop fuel) acc (string_round s)

-- `parseString`, behind the opening quote.
unfoldable pub read_string : Bytes → Read Bytes
unfolding string_loop string_round escape_round unicode_round stoul16 skip_spaces is_space
    hex_number hex_run hex_value utf8
read_string s = string_loop (suc (length s)) [] s
