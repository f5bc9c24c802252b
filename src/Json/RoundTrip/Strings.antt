-- ===== src/Json/RoundTrip/Strings.antt =====
-- `parseString` on the texts of `jsonEscapeString`.
use code_scope.Prelude.{
  ℕ, zero, suc, ◌/◌, ◌%◌, ◌≤◌, ◌<◌, ◌≡◌, ap, ◌∙◌, Option, none, some, [], ◌∷◌, ◌++◌, Bytes, length,
  length-append, append-nil, append_assoc, arith,
}
use code_scope.Json.Escape.{quote, hex_digit, unicode_escape, escape_byte, json_escape_string}
use code_scope.Json.Reader.Strings.{
  hex_value, hex_run, hex_number, skip_spaces, is_space, stoul16, utf8, unicode_round, escape_round,
  more, string_round, string_loop, read_string, add_digit, ok,
}

hex_value-digit : (n : ℕ) → n < 16 → hex_value (hex_digit n) ≡ some n
unfolding hex_value hex_digit
hex_value-digit n h = ground arith

hex_run-digit :
    (seen : Option ℕ) (n : ℕ) (s : Bytes)
    → n < 16
    → hex_run seen (hex_digit n ∷ s) ≡ hex_run (some (add_digit seen n)) s
unfolding hex_run
hex_run-digit seen n s h = rw (hex_value-digit n h, hex_run)

hex_run-byte :
    (c : ℕ)
    → c < 256
    → hex_run none (hex_digit 0 ∷ hex_digit 0 ∷ hex_digit (c / 16) ∷ hex_digit (c % 16) ∷ [])
      ≡ some c
hex_run-byte c h =
    hex_run-digit none 0 _ (omega arith)
    ∙ hex_run-digit (some 0) 0 _ (omega arith)
    ∙ hex_run-digit (some 0) (c / 16) _ (omega arith)
    ∙ hex_run-digit (some (add_digit (some 0) (c / 16))) (c % 16) [] (omega arith)
    ∙ unfold hex_run in ap some (omega arith)

-- The four digits that are written for a byte.
stoul16-byte :
    (c : ℕ)
    → c < 256
    → stoul16 (b'0' ∷ b'0' ∷ hex_digit (c / 16) ∷ hex_digit (c % 16) ∷ []) ≡ some c
unfolding stoul16 skip_spaces is_space hex_number hex_digit
stoul16-byte c h = hex_run-byte c h

string_round-unicode :
    (c : ℕ) (s : Bytes) → c < 32 → string_round (unicode_escape c ++ s) ≡ more (c ∷ []) s
unfolding string_round escape_round unicode_round unicode_escape utf8
string_round-unicode c s h = rw (stoul16-byte c (omega arith)) (ground arith)

string_round-escape : (c : ℕ) (s : Bytes) → string_round (escape_byte c ++ s) ≡ more (c ∷ []) s
unfolding escape_byte string_round escape_round
string_round-escape c s = ground (arith, string_round-unicode c s)

string_loop-more :
    (fuel : ℕ) (acc s bytes rest : Bytes)
    → string_round s ≡ more bytes rest
    → string_loop (suc fuel) acc s ≡ string_loop fuel (acc ++ bytes) rest
unfolding string_loop
string_loop-more fuel acc s bytes rest e = rw e

string_round-next :
    (c : ℕ) (t s : Bytes)
    → string_round (json_escape_string (c ∷ t) ++ quote ∷ s)
      ≡ more (c ∷ []) (json_escape_string t ++ quote ∷ s)
unfolding json_escape_string
string_round-next c t s = rw append_assoc (string_round-escape c _)

string_loop-escape :
    (t acc s : Bytes) (fuel : ℕ)
    → length t < fuel
    → string_loop fuel acc (json_escape_string t ++ quote ∷ s) ≡ ok (acc ++ t) s
unfolding string_loop json_escape_string string_round
string_loop-escape t acc s zero h = elim h [ ]
string_loop-escape [] acc s (suc fuel) h = rw append-nil
string_loop-escape (c ∷ t) acc s (suc fuel) h =
    string_loop-more fuel acc (json_escape_string (c ∷ t) ++ quote ∷ s) _ _
      (string_round-next c t s)
    ∙ string_loop-escape t (acc ++ c ∷ []) s fuel (omega arith)
    ∙ ap (λ x. ok x s) (append_assoc acc (c ∷ []) t)

length-json_escape_string : (t : Bytes) → length t ≤ length (json_escape_string t)
unfolding json_escape_string escape_byte unicode_escape
length-json_escape_string [] = omega arith
length-json_escape_string (c ∷ t) = ground (arith, length-json_escape_string t)

-- `parseString`, behind the opening quote of an escaped text, reads the text back, and stops behind
-- the closing quote.
pub read_string-escape : (t s : Bytes) → read_string (json_escape_string t ++ quote ∷ s) ≡ ok t s
unfolding read_string
read_string-escape t s =
    string_loop-escape t [] s (suc (length (json_escape_string t ++ quote ∷ s))) (
      omega
        (arith, length-append {0} (json_escape_string t) (quote ∷ s), length-json_escape_string t))
