-- ===== src/Json/Reader/Values.antt =====
-- `parseValue` and what it calls. `std::stod` is a parameter: for the text of a number it gives the
-- number and how many bytes it read, or `none` where it throws.
use code_scope.Prelude.{
  ℕ, zero, suc, Bool, true, false, ◌&&◌, ◌||◌, Option, none, some, [], ◌∷◌, Bytes, length, codes,
  take, drop, bytes_eq, leb, ◌==◌, if◌then◌else◌,
}
use code_scope.Json.Escape.{quote}
use code_scope.Json.Value.{
  Value, null, boolean, number, string, array, object, Items, nil, Fields, end, add_item, add_field,
}
use code_scope.Json.Reader.Strings.{
  unexpected_end, trailing_characters, too_deep, unexpected_character, expected_key, expected_colon,
  expected_object_end, expected_array_end, bad_number, invalid_bool, invalid_null, out_of_fuel,
  Read, ok, fail, read_string,
}

infixl 5 ◌>>=◌
abbrev pub ◌>>=◌ : {A B : Type 0} → Read A → (A → Bytes → Read B) → Read B
ok a s >>= f = f a s
fail e s >>= f = fail e s

-- `kMaxDepth`.
abbrev pub max_depth : ℕ
max_depth = 64

unfoldable pub is_blank : ℕ → Bool
is_blank c = c == b' ' || c == 9 || c == 10 || c == 13

unfoldable pub skip_whitespace : Bytes → Bytes
skip_whitespace [] = []
skip_whitespace (c ∷ s) = if is_blank c then skip_whitespace s else c ∷ s

-- 0 stands for the end of the text too.
abbrev pub peek : Bytes → ℕ
peek [] = 0
peek (c ∷ s) = c

abbrev pub next : Bytes → Bytes
next [] = []
next (c ∷ s) = s

unfoldable pub is_digit : ℕ → Bool
is_digit c = leb b'0' c && leb c b'9'

unfoldable pub is_number_byte : ℕ → Bool
is_number_byte c = is_digit c || c == b'.' || c == b'e' || c == b'E' || c == b'+' || c == b'-'

-- The run of bytes that may stand in a number, and the rest.
unfoldable pub number_run : Bytes → Bytes × Bytes
number_run [] = ([], [])
number_run (c ∷ s) =
    let (run, rest) = number_run s in if is_number_byte c then (c ∷ run, rest) else ([], c ∷ s)

module _ {N : Type 0} where
  unfoldable pub read_bool : Bytes → Read (Value N)
  read_bool s =
      if bytes_eq (take 4 s) (codes "true")
      then ok (boolean true) (drop 4 s)
      else if bytes_eq (take 5 s) (codes "false")
      then ok (boolean false) (drop 5 s)
      else fail invalid_bool s

  unfoldable pub read_null : Bytes → Read (Value N)
  read_null s =
      if bytes_eq (take 4 s) (codes "null") then ok null (drop 4 s) else fail invalid_null s

  -- What follows an item: another round, or the end of the array.
  unfoldable pub items_next : (Items N → Bytes → Read (Value N)) → Items N → Bytes → Read (Value N)
  items_next again acc s =
      let s1 = skip_whitespace s in
      let round = again acc (next s1) in
      if peek s1 == b','
      then round
      else if peek s1 == b']'
      then ok (array acc) (next s1)
      else fail expected_array_end s1

  -- The loop of `parseArray`, for a reader of the items.
  unfoldable pub items_loop : (Bytes → Read (Value N)) → ℕ → Items N → Bytes → Read (Value N)
  items_loop read zero acc s = fail out_of_fuel s
  items_loop read (suc fuel) acc s =
      read s >>= λ v s1. items_next (items_loop read fuel) (add_item acc v) s1

  -- `parseArray`, behind the opening bracket.
  unfoldable pub read_array : (Bytes → Read (Value N)) → Bytes → Read (Value N)
  read_array read s =
      let s1 = skip_whitespace s in
      if peek s1 == b']' then ok (array nil) (next s1) else items_loop read (suc (length s1)) nil s1

  unfoldable pub fields_next :
      (Fields N → Bytes → Read (Value N)) → Fields N → Bytes → Read (Value N)
  fields_next again acc s =
      let s1 = skip_whitespace s in
      let round = again acc (next s1) in
      if peek s1 == b','
      then round
      else if peek s1 == b'}'
      then ok (object acc) (next s1)
      else fail expected_object_end s1

  -- What follows a key: a colon, the value, and another round or the end.
  unfoldable pub fields_value :
      (Bytes → Read (Value N))
      → (Fields N → Bytes → Read (Value N))
      → Fields N
      → Bytes
      → Bytes
      → Read (Value N)
  fields_value read again acc k s =
      let s1 = skip_whitespace s in
      if peek s1 == b':'
      then (read (next s1) >>= λ v s2. fields_next again (add_field acc k v) s2)
      else fail expected_colon s1

  -- The loop of `parseObject`, for a reader of the members' values.
  unfoldable pub fields_loop : (Bytes → Read (Value N)) → ℕ → Fields N → Bytes → Read (Value N)
  fields_loop read zero acc s = fail out_of_fuel s
  fields_loop read (suc fuel) acc s =
      let s1 = skip_whitespace s in
      let member = read_string (next s1) >>= fields_value read (fields_loop read fuel) acc in
      if peek s1 == quote then member else fail expected_key s1

  -- `parseObject`, behind the opening brace.
  unfoldable pub read_object : (Bytes → Read (Value N)) → Bytes → Read (Value N)
  read_object read s =
      let s1 = skip_whitespace s in
      if peek s1 == b'}'
      then ok (object end) (next s1)
      else fields_loop read (suc (length s1)) end s1

module _ {N : Type 0} (stod : Bytes → Option (N × ℕ)) where
  abbrev number_of : Bytes → Bytes → Option (N × ℕ) → Read (Value N)
  number_of text s none = fail bad_number s
  number_of text s (some (n, idx)) =
      if idx == length text then ok (number n) s else fail bad_number s

  unfoldable pub read_number : Bytes → Read (Value N)
  read_number s = let (run, rest) = number_run s in number_of run rest (stod run)

  -- The dispatch of `parseValue` on the first byte, for a reader of the values inside.
  unfoldable pub start_value : (Bytes → Read (Value N)) → Bytes → Read (Value N)
  start_value below [] = fail unexpected_end []
  start_value below (c ∷ s) =
      if c == b'{'
      then read_object below s
      else if c == b'['
      then read_array below s
      else if c == quote
      then (read_string s >>= λ t s1. ok (string t) s1)
      else if c == b't' || c == b'f'
      then read_bool (c ∷ s)
      else if c == b'n'
      then read_null (c ∷ s)
      else if c == b'-' || is_digit c
      then read_number (c ∷ s)
      else fail (unexpected_character c) (c ∷ s)

  -- `parseValue`; the first argument is `max_depth` less `depth_`.
  unfoldable pub read_value : ℕ → Bytes → Read (Value N)
  read_value zero s = fail too_deep s
  read_value (suc room) s = start_value (read_value room) (skip_whitespace s)

  abbrev pub at_end : Value N → Bytes → Read (Value N)
  at_end v [] = ok v []
  at_end v (c ∷ s) = fail trailing_characters (c ∷ s)

  -- `parse`: one value, with white space around it, and nothing else. The first test of `parse`, for
  -- an empty text, is that of `parseValue` too.
  unfoldable pub read : Bytes → Read (Value N)
  read s = read_value max_depth (skip_whitespace s) >>= λ v s1. at_end v (skip_whitespace s1)
