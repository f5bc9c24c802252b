-- ===== src/Json/RoundTrip/Values.antt =====
-- `parseValue` on the compact text of a value that holds no other.
use code_scope.Prelude.{
  ℕ, suc, ◌≡◌, refl, ◌∙◌, true, false, Option, some, [], ◌∷◌, ◌++◌, Bytes, length, All,
  append_assoc, arith, ◌==◌, ◌||◌, ==_refl,
}
use code_scope.Json.Value.{
  Value, null, boolean, number, string, array, object, Items, nil, cons, Fields, end, field,
  add_item, print, print_more_items, print_more_fields,
}
use code_scope.Json.Reader.Strings.{Read, ok}
use code_scope.Json.Reader.Values.{
  is_blank, skip_whitespace, peek, is_digit, is_number_byte, number_run, items_loop, items_next,
  read_number, start_value, read, ◌>>=◌,
}
use code_scope.Json.RoundTrip.Strings.{read_string-escape}

-- The text behind a value does not go on with a byte that may stand in a number.
abbrev pub Stops : Bytes → Type 0
Stops s = is_number_byte (peek s) ≡ false

number_run-append :
    (t s : Bytes) → All (λ c. is_number_byte c ≡ true) t → Stops s → number_run (t ++ s) ≡ (t, s)
unfolding number_run
number_run-append [] [] h stop = refl
number_run-append [] (c ∷ s) h stop = rw stop
number_run-append (c ∷ t) s h stop = rw (number_run-append t s h.1 stop, h.0)

module _ {N : Type 0} (stod : Bytes → Option (N × ℕ)) (show : N → Bytes) where
  -- The text of a number is a number's, and `stod` reads all of it and gives the number.
  abbrev pub ReadsBack : N → Type 0
  ReadsBack n =
      ((peek (show n) == b'-' || is_digit (peek (show n))) ≡ true)
      × All (λ c. is_number_byte c ≡ true) (show n)
      × (stod (show n) ≡ some (n, length (show n)))

  -- So is the text of every number in a value.
  unfoldable mutual
    pub HasReadable : Value N → Type 0
    HasReadable (number n) = ReadsBack n
    HasReadable (array xs) = HaveReadable xs
    HasReadable (object fs) = MembersReadable fs
    HasReadable null = Unit
    HasReadable (boolean b) = Unit
    HasReadable (string s) = Unit

    pub HaveReadable : Items N → Type 0
    HaveReadable nil = Unit
    HaveReadable (cons v xs) = HasReadable v × HaveReadable xs

    pub MembersReadable : Fields N → Type 0
    MembersReadable end = Unit
    MembersReadable (field k v fs) = HasReadable v × MembersReadable fs

  read_number-show :
      (n : N) (s : Bytes) → ReadsBack n → Stops s → read_number stod (show n ++ s) ≡ ok (number n) s
  unfolding read_number
  read_number-show n s (starts, bytes, back) stop =
      rw (number_run-append (show n) s bytes stop) (rw back (rw ==_refl))

  -- A text that starts as a number does goes to `parseNumber`, with no white space in front.
  start_value-number :
      (below : Bytes → Read (Value N)) (t s : Bytes)
      → (peek t == b'-' || is_digit (peek t)) ≡ true
      → start_value stod below (t ++ s) ≡ read_number stod (t ++ s)
  unfolding start_value is_digit
  start_value-number below [] s h = cc
  start_value-number below (c ∷ t) s h = ground arith

  skip-number :
      (t s : Bytes)
      → (peek t == b'-' || is_digit (peek t)) ≡ true
      → skip_whitespace (t ++ s) ≡ t ++ s
  unfolding skip_whitespace is_blank is_digit
  skip-number [] s h = cc
  skip-number (c ∷ t) s h = ground arith

  -- No value starts with white space or a closing bracket.
  pub skip-print :
      (v : Value N) (s : Bytes)
      → HasReadable v
      → skip_whitespace (print show v ++ s) ≡ print show v ++ s
  unfolding HasReadable print skip_whitespace is_blank
  skip-print null s h = refl
  skip-print (boolean true) s h = refl
  skip-print (boolean false) s h = refl
  skip-print (number n) s h = skip-number (show n) s h.0
  skip-print (string t) s h = refl
  skip-print (array xs) s h = refl
  skip-print (object fs) s h = refl

  peek-number :
      (t s : Bytes) → (peek t == b'-' || is_digit (peek t)) ≡ true → (peek (t ++ s) == b']') ≡ false
  unfolding is_digit
  peek-number [] s h = cc
  peek-number (c ∷ t) s h = ground arith

  pub peek-print :
      (v : Value N) (s : Bytes) → HasReadable v → (peek (print show v ++ s) == b']') ≡ false
  unfolding HasReadable print
  peek-print null s h = refl
  peek-print (boolean true) s h = refl
  peek-print (boolean false) s h = refl
  peek-print (number n) s h = peek-number (show n) s h.0
  peek-print (string t) s h = refl
  peek-print (array xs) s h = refl
  peek-print (object fs) s h = refl

  pub start_value-string :
      (below : Bytes → Read (Value N)) (t s : Bytes)
      → start_value stod below (print show (string t) ++ s) ≡ ok (string t) s
  unfolding start_value print
  start_value-string below t s = rw append_assoc (rw read_string-escape)

  pub start_value-number_text :
      (below : Bytes → Read (Value N)) (n : N) (s : Bytes)
      → ReadsBack n
      → Stops s
      → start_value stod below (show n ++ s) ≡ ok (number n) s
  start_value-number_text below n s h stop =
      start_value-number below (show n) s h.0 ∙ read_number-show n s h stop

  -- One round of the loop of `parseArray`.
  pub items_loop-step :
      (read : Bytes → Read (Value N)) (fuel : ℕ) (acc : Items N) (v : Value N) (t s : Bytes)
      → read t ≡ ok v s
      → items_loop read (suc fuel) acc t ≡ items_next (items_loop read fuel) (add_item acc v) s
  unfolding items_loop
  items_loop-step read fuel acc v t s e = rw (e, ◌>>=◌)

  pub more_items-Stops : (xs : Items N) (s : Bytes) → Stops (print_more_items show xs ++ b']' ∷ s)
  unfolding print is_number_byte is_digit
  more_items-Stops nil s = refl
  more_items-Stops (cons v xs) s = refl

  pub more_fields-Stops :
      (fs : Fields N) (s : Bytes) → Stops (print_more_fields show fs ++ b'}' ∷ s)
  unfolding print is_number_byte is_digit
  more_fields-Stops end s = refl
  more_fields-Stops (field k v fs) s = refl
