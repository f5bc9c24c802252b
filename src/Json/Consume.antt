-- ===== src/Json/Consume.antt =====
-- `JsonParser`: how much of the text the loops take in a round.
pub mod Values
use code_scope.Prelude.{
  ℕ, zero, suc, ◌≤◌, ◌<◌, ◌≡◌, ◌≢◌, refl, Bool, true, false, Option, none, some, List, [], ◌∷◌,
  ◌++◌, Bytes, length, arith, inl, inr, Bool-cases, if◌then◌else◌, drop, take, codes, bytes_eq,
  ◌==◌, ◌&&◌, ◌||◌,
}
use code_scope.Json.Escape.{quote}
use code_scope.Json.Value.{Value, Items, Fields, add_item, add_field}
use code_scope.Json.Reader.Strings.{
  ReadError, out_of_fuel, Read, ok, fail, Round, closed, more, broken, stoul16, utf8, unicode_round,
  escape_round, string_round, string_next, string_loop, read_string,
}
use code_scope.Json.Reader.Values.{
  is_blank, skip_whitespace, peek, next, number_run, read_bool, read_null, items_loop, items_next,
  read_array, fields_loop, fields_next, fields_value, read_object, read_number, start_value,
  read_value, read, max_depth, ◌>>=◌, is_number_byte, is_digit,
}

-- A value with less than `n` bytes left, or an error of the parser's own.
abbrev pub Ends : {A : Type 0} → ℕ → Read A → Type 0
Ends n (ok a s) = length s < n
Ends n (fail out_of_fuel s) = ⊥
Ends n (fail _ s) = Unit

abbrev RoundEnds : ℕ → Round → Type 0
RoundEnds n (closed s) = length s < n
RoundEnds n (more bytes s) = length s < n
RoundEnds n (broken out_of_fuel s) = ⊥
RoundEnds n (broken _ s) = Unit

pub Ends-mono : {A : Type 0} (r : Read A) (m n : ℕ) → m ≤ n → Ends m r → Ends n r
Ends-mono (ok a s) m n h e = omega arith
Ends-mono (fail out_of_fuel s) m n h e = e
Ends-mono (fail _ s) m n h e = ground arith

pub Ends-bind :
    {A B : Type 0} (r : Read A) (f : A → Bytes → Read B) (m n : ℕ)
    → Ends m r
    → ((a : A) (s : Bytes) → length s < m → Ends n (f a s))
    → Ends n (r >>= f)
Ends-bind (ok a s) f m n h k = k a s h
Ends-bind (fail out_of_fuel s) f m n h k = absurd h
Ends-bind (fail _ s) f m n h k = ground arith

unicode_round-Ends : (s : Bytes) → RoundEnds (suc (length s)) (unicode_round s)
unfolding unicode_round
unicode_round-Ends (a ∷ b ∷ c ∷ d ∷ s) = ground arith
unicode_round-Ends _ = tt

string_round-Ends : (s : Bytes) → RoundEnds (length s) (string_round s)
unfolding string_round escape_round
string_round-Ends [] = tt
string_round-Ends (c ∷ []) = ground arith
string_round-Ends (c ∷ e ∷ s) = ground (arith, unicode_round-Ends s)

string_next-Ends :
    (again : Bytes → Bytes → Read Bytes) (acc : Bytes) (n : ℕ) (r : Round)
    → RoundEnds n r
    → ((b s : Bytes) → length s < n → Ends (length s) (again b s))
    → Ends n (string_next again acc r)
string_next-Ends again acc n (closed s) h k = h
string_next-Ends again acc n (more bytes s) h k =
    Ends-mono (again (acc ++ bytes) s) (length s) n (omega arith) (k (acc ++ bytes) s h)
string_next-Ends again acc n (broken e s) h k = ground arith

string_loop-Ends :
    (fuel : ℕ) (acc s : Bytes) → length s < fuel → Ends (length s) (string_loop fuel acc s)
unfolding string_loop
string_loop-Ends zero acc s h = absurd (omega arith)
string_loop-Ends (suc fuel) acc s h =
    string_next-Ends (string_loop fuel) acc (length s) (string_round s) (string_round-Ends s)
      (λ b r l. string_loop-Ends fuel b r (omega arith))

pub read_string-Ends : (s : Bytes) → Ends (length s) (read_string s)
unfolding read_string
read_string-Ends s = string_loop-Ends (suc (length s)) [] s (omega arith)
