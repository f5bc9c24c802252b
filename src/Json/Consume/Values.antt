-- ===== src/Json/Consume/Values.antt =====
-- `parseValue`, its loops and `parse`: how much of the text they take.
use code_scope.Prelude.{
  ℕ, zero, suc, ◌≤◌, ◌<◌, ◌≡◌, true, Option, [], ◌∷◌, Bytes, length, arith, inl, inr, Bool-cases,
  drop, ◌==◌, ◌||◌,
}
use code_scope.Json.Escape.{quote}
use code_scope.Json.Value.{Value, string, Items, nil, Fields, end, add_item, add_field}
use code_scope.Json.Reader.Strings.{out_of_fuel, Read, ok, fail, read_string}
use code_scope.Json.Reader.Values.{
  skip_whitespace, peek, next, number_run, read_bool, read_null, items_loop, items_next, read_array,
  fields_loop, fields_next, fields_value, read_object, read_number, start_value, read_value, read,
  max_depth, at_end, ◌>>=◌, is_number_byte, is_digit,
}
use code_scope.Json.Consume.{Ends, Ends-mono, Ends-bind, read_string-Ends}

length-skip : (s : Bytes) → length (skip_whitespace s) ≤ length s
unfolding skip_whitespace
length-skip [] = omega arith
length-skip (c ∷ s) = ground (arith, length-skip s)

length-next : (s : Bytes) → length (next s) ≤ length s
length-next [] = omega arith
length-next (c ∷ s) = omega arith

-- The text behind a byte that was tested.
length-next_lt : (s : Bytes) (c : ℕ) → 0 < c → (peek s == c) ≡ true → length (next s) < length s
length-next_lt [] c p h = ground arith
length-next_lt (x ∷ s) c p h = omega arith

length-drop_le : (n : ℕ) (s : Bytes) → length (drop n s) ≤ length s
length-drop_le zero s = omega arith
length-drop_le (suc n) [] = omega arith
length-drop_le (suc n) (c ∷ s) = omega (arith, length-drop_le n s)

length-run : (s : Bytes) → length (number_run s).1 ≤ length s
unfolding number_run
length-run [] = omega arith
length-run (c ∷ s) = ground (arith, length-run s)

number_byte_of_start : (c : ℕ) → (c == b'-' || is_digit c) ≡ true → is_number_byte c ≡ true
unfolding is_number_byte
number_byte_of_start c h = ground arith

read_bool-Ends : (N : Type 0) (s : Bytes) → Ends (length s) (read_bool {N = N} s)
unfolding read_bool
read_bool-Ends N [] = tt
read_bool-Ends N (c ∷ s) = ground (arith, length-drop_le 3 s, length-drop_le 4 s)

read_null-Ends : (N : Type 0) (s : Bytes) → Ends (length s) (read_null {N = N} s)
unfolding read_null
read_null-Ends N [] = tt
read_null-Ends N (c ∷ s) = ground (arith, length-drop_le 3 s)

module _ {N : Type 0} where
  items_next-Ends :
      (again : Items N → Bytes → Read (Value N)) (acc : Items N) (s : Bytes)
      → ((b : Items N) (t : Bytes) → length t < length s → Ends (length t) (again b t))
      → Ends (length s) (items_next again acc s)
  unfolding items_next
  items_next-Ends again acc s k =
      let t = skip_whitespace s in
      elim (Bool-cases (peek t == b',')) [
        | inl e ↦
            let l : length (next t) < length s =
              omega (arith, length-skip s, length-next_lt t b',' (omega arith) e) in
            rw e (
              Ends-mono (again acc (next t)) (length (next t)) (length s) (omega arith)
                (k acc (next t) l))
        | inr n ↦ rw n (ground (arith, length-skip s, length-next_lt t b']'))
      ]

  items_loop-Ends :
      (below : Bytes → Read (Value N))
      → ((s : Bytes) → Ends (length s) (below s))
      → (fuel : ℕ) (acc : Items N) (s : Bytes) → length s < fuel
      → Ends (length s) (items_loop below fuel acc s)
  unfolding items_loop
  items_loop-Ends below b zero acc s h = absurd (omega arith)
  items_loop-Ends below b (suc fuel) acc s h =
      Ends-bind (below s) _ (length s) (length s) (b s) λ v t l.
        Ends-mono (items_next (items_loop below fuel) (add_item acc v) t) (length t) (length s)
          (omega arith)
          (items_next-Ends (items_loop below fuel) (add_item acc v) t
            λ c u m. items_loop-Ends below b fuel c u (omega arith))

  fields_next-Ends :
      (again : Fields N → Bytes → Read (Value N)) (acc : Fields N) (s : Bytes)
      → ((b : Fields N) (t : Bytes) → length t < length s → Ends (length t) (again b t))
      → Ends (length s) (fields_next again acc s)
  unfolding fields_next
  fields_next-Ends again acc s k =
      let t = skip_whitespace s in
      elim (Bool-cases (peek t == b',')) [
        | inl e ↦
            let l : length (next t) < length s =
              omega (arith, length-skip s, length-next_lt t b',' (omega arith) e) in
            rw e (
              Ends-mono (again acc (next t)) (length (next t)) (length s) (omega arith)
                (k acc (next t) l))
        | inr n ↦ rw n (ground (arith, length-skip s, length-next_lt t b'}'))
      ]

  fields_value-Ends :
      (below : Bytes → Read (Value N))
      → ((s : Bytes) → Ends (length s) (below s))
      → (again : Fields N → Bytes → Read (Value N)) (acc : Fields N) (k s : Bytes)
      → ((b : Fields N) (t : Bytes) → length t < length s → Ends (length t) (again b t))
      → Ends (length s) (fields_value below again acc k s)
  unfolding fields_value
  fields_value-Ends below b again acc k s g =
      let t = skip_whitespace s in
      elim (Bool-cases (peek t == b':')) [
        | inl e ↦
            let l : length (next t) < length s =
              omega (arith, length-skip s, length-next_lt t b':' (omega arith) e) in
            rw e (
              Ends-bind (below (next t)) _ (length (next t)) (length s) (b (next t)) λ v u m.
                Ends-mono (fields_next again (add_field acc k v) u) (length u) (length s)
                  (omega arith)
                  (fields_next-Ends again (add_field acc k v) u λ c w n. g c w (omega arith)))
        | inr n ↦ rw n tt
      ]

  fields_loop-Ends :
      (below : Bytes → Read (Value N))
      → ((s : Bytes) → Ends (length s) (below s))
      → (fuel : ℕ) (acc : Fields N) (s : Bytes) → length s < fuel
      → Ends (length s) (fields_loop below fuel acc s)
  unfolding fields_loop
  fields_loop-Ends below b zero acc s h = absurd (omega arith)
  fields_loop-Ends below b (suc fuel) acc s h =
      let t = skip_whitespace s in
      elim (Bool-cases (peek t == quote)) [
        | inl e ↦
            let l : length (next t) < length s =
              omega (arith, length-skip s, length-next_lt t quote (omega arith) e) in
            rw e (
              Ends-bind (read_string (next t)) _ (length (next t)) (length s)
                (read_string-Ends (next t))
                λ k u m.
                  Ends-mono (fields_value below (fields_loop below fuel) acc k u) (length u)
                    (length s) (omega arith)
                    (fields_value-Ends below b (fields_loop below fuel) acc k u
                      λ c w n. fields_loop-Ends below b fuel c w (omega arith)))
        | inr n ↦ rw n tt
      ]

  read_array-Ends :
      (below : Bytes → Read (Value N))
      → ((s : Bytes) → Ends (length s) (below s))
      → (s : Bytes) → Ends (suc (length s)) (read_array below s)
  unfolding read_array
  read_array-Ends below b s =
      let t = skip_whitespace s in
      elim (Bool-cases (peek t == b']')) [
        | inl e ↦ rw e (omega (arith, length-skip s, length-next t))
        | inr n ↦ rw n (
            Ends-mono (items_loop below (suc (length t)) nil t) (length t) (suc (length s))
              (omega (arith, length-skip s))
              (items_loop-Ends below b (suc (length t)) nil t (omega arith)))
      ]

  read_object-Ends :
      (below : Bytes → Read (Value N))
      → ((s : Bytes) → Ends (length s) (below s))
      → (s : Bytes) → Ends (suc (length s)) (read_object below s)
  unfolding read_object
  read_object-Ends below b s =
      let t = skip_whitespace s in
      elim (Bool-cases (peek t == b'}')) [
        | inl e ↦ rw e (omega (arith, length-skip s, length-next t))
        | inr n ↦ rw n (
            Ends-mono (fields_loop below (suc (length t)) end t) (length t) (suc (length s))
              (omega (arith, length-skip s))
              (fields_loop-Ends below b (suc (length t)) end t (omega arith)))
      ]

module _ {N : Type 0} (stod : Bytes → Option (N × ℕ)) where
  read_number-Ends :
      (c : ℕ) (s : Bytes)
      → is_number_byte c ≡ true
      → Ends (suc (length s)) (read_number stod (c ∷ s))
  unfolding read_number number_run
  read_number-Ends c s h = ground (arith, length-run s)

  read_quoted-Ends :
      (s : Bytes) → Ends {A = Value N} (suc (length s)) (read_string s >>= λ t u. ok (string t) u)
  read_quoted-Ends s =
      Ends-bind (read_string s) _ (length s) (suc (length s)) (read_string-Ends s)
        λ t u l. omega arith

  start_value-Ends :
      (below : Bytes → Read (Value N))
      → ((s : Bytes) → Ends (length s) (below s))
      → (s : Bytes) → Ends (length s) (start_value stod below s)
  unfolding start_value
  start_value-Ends below b [] = tt
  start_value-Ends below b (c ∷ s) = elim (Bool-cases (c == b'{')) [
    | inl e ↦ rw e (read_object-Ends below b s)
    | inr n ↦ rw n (elim (Bool-cases (c == b'[')) [
      | inl e ↦ rw e (read_array-Ends below b s)
      | inr n ↦ rw n (elim (Bool-cases (c == quote)) [
        | inl e ↦ rw e (read_quoted-Ends s)
        | inr n ↦ rw n (elim (Bool-cases (c == b't' || c == b'f')) [
          | inl e ↦ rw e (read_bool-Ends N (c ∷ s))
          | inr n ↦ rw n (elim (Bool-cases (c == b'n')) [
            | inl e ↦ rw e (read_null-Ends N (c ∷ s))
            | inr n ↦ rw n (elim (Bool-cases (c == b'-' || is_digit c)) [
              | inl e ↦ rw e (read_number-Ends c s (number_byte_of_start c e))
              | inr n ↦ rw n (tt)
            ])
          ])
        ])
      ])
    ])
  ]

  read_value-Ends : (room : ℕ) (s : Bytes) → Ends (length s) (read_value stod room s)
  unfolding read_value
  read_value-Ends zero s = tt
  read_value-Ends (suc room) s =
      Ends-mono (start_value stod (read_value stod room) (skip_whitespace s))
        (length (skip_whitespace s)) (length s) (length-skip s)
        (start_value-Ends (read_value stod room) (read_value-Ends room) (skip_whitespace s))

  -- The answers of `parse`: a value with nothing left, or an error of its own.
  abbrev pub IsAnswer : Read (Value N) → Type 0
  IsAnswer (ok v []) = Unit
  IsAnswer (ok v (c ∷ s)) = ⊥
  IsAnswer (fail out_of_fuel s) = ⊥
  IsAnswer (fail _ s) = Unit

  at_end-IsAnswer : (v : Value N) (s : Bytes) → IsAnswer (at_end stod v s)
  at_end-IsAnswer v [] = tt
  at_end-IsAnswer v (c ∷ s) = tt

  bind-IsAnswer :
      (r : Read (Value N)) (n : ℕ)
      → Ends n r
      → IsAnswer (r >>= λ v s. at_end stod v (skip_whitespace s))
  bind-IsAnswer (ok v s) n h = at_end-IsAnswer v (skip_whitespace s)
  bind-IsAnswer (fail out_of_fuel s) n h = absurd h
  bind-IsAnswer (fail _ s) n h = ground arith

  -- Whatever the text and the number reader, `parse` returns a value and leaves nothing of the text,
  -- or it returns one of its own errors: no loop runs out of the rounds that the model gives it.
  pub read-IsAnswer : (s : Bytes) → IsAnswer (read stod s)
  unfolding read
  read-IsAnswer s =
      let t = skip_whitespace s in
      bind-IsAnswer (read_value stod max_depth t) (length t) (read_value-Ends max_depth t)
