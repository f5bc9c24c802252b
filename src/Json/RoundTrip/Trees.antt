-- ===== src/Json/RoundTrip/Trees.antt =====
-- The whole reader on the compact text of a value, nested to the depth limit.
use code_scope.Prelude.{
  ℕ, zero, suc, ◌≤◌, ◌<◌, ◌≡◌, refl, ap, ◌∙◌, true, false, Option, [], ◌∷◌, ◌++◌, Bytes, length,
  length-append, append-nil, append_assoc, arith,
}
use code_scope.Json.Escape.{quote, quoted, json_escape_string}
use code_scope.Json.Value.{
  Value, null, boolean, number, string, array, object, Items, nil, cons, Fields, end, field,
  add_item, add_field, join_items, join_items-nil, join_items-add, join_fields, join_fields-end,
  join_fields-add, print, print_more_items, print_more_fields, depth, depth_items, depth_fields,
}
use code_scope.Json.Reader.Strings.{Read, ok}
use code_scope.Json.Reader.Values.{
  is_blank, skip_whitespace, is_digit, read_bool, read_null, items_loop, items_next, read_array,
  fields_loop, fields_next, fields_value, read_object, start_value, read_value, read, max_depth,
  ◌>>=◌, is_number_byte,
}
use code_scope.Json.RoundTrip.Strings.{read_string-escape}
use code_scope.Json.RoundTrip.Values.{
  Stops, HasReadable, HaveReadable, MembersReadable, start_value-number_text, start_value-string,
  skip-print, peek-print, items_loop-step, more_items-Stops, more_fields-Stops,
}

depth-pos : {N : Type 0} (v : Value N) → 0 < depth v
unfolding depth
depth-pos (array xs) = omega arith
depth-pos _ = omega arith

regroup : (a b : Bytes) (c : ℕ) (s : Bytes) → ((a ++ b) ++ c ∷ []) ++ s ≡ a ++ (b ++ c ∷ s)
regroup a b c s = simp append_assoc

regroup_member :
    (a b c : Bytes) (x y : ℕ) (s : Bytes)
    → ((a ++ (x ∷ (b ++ c))) ++ y ∷ []) ++ s ≡ a ++ (x ∷ (b ++ (c ++ y ∷ s)))
regroup_member a b c x y s = simp append_assoc

regroup_next :
    (a b c : Bytes) (x : ℕ) (s : Bytes) → (a ++ (x ∷ (b ++ c))) ++ s ≡ a ++ (x ∷ (b ++ (c ++ s)))
regroup_next a b c x s = simp append_assoc

length-tail_member : (a b c : Bytes) (x : ℕ) → length c ≤ suc (length (a ++ (x ∷ (b ++ c))))
length-tail_member a b c x =
    omega (arith, length-append {0} a (x ∷ (b ++ c)), length-append {0} b c)

length-rest_member :
    (a b c : Bytes) (x : ℕ) (s : Bytes) {n : ℕ}
    → suc (length ((a ++ (x ∷ (b ++ c))) ++ s)) ≤ suc (suc n)
    → length (c ++ s) ≤ suc n
length-rest_member a b c x s h = omega (
  arith,
  length-append {0} (a ++ (x ∷ (b ++ c))) s,
  length-append {0} a (x ∷ (b ++ c)),
  length-append {0} b c,
  length-append {0} c s,
)

length-tail : (a b : Bytes) → length b ≤ suc (length (a ++ b))
length-tail a b = omega (arith, length-append {0} a b)

length-rest :
    (a b c : Bytes) {n : ℕ} → suc (length ((a ++ b) ++ c)) ≤ suc (suc n) → length (b ++ c) ≤ suc n
length-rest a b c h =
    omega (arith, length-append {0} (a ++ b) c, length-append {0} a b, length-append {0} b c)

no_room : (a : Bytes) (c : ℕ) (s : Bytes) → suc (length (a ++ c ∷ s)) ≤ 1 → ⊥
no_room a c s h = omega (arith, length-append {0} a (c ∷ s))

module _ {N : Type 0} (stod : Bytes → Option (N × ℕ)) (show : N → Bytes) where
  read_back :
      (v : Value N) (room : ℕ) (s : Bytes)
      → HasReadable stod show v
      → depth v ≤ room
      → ((r : ℕ)
          → depth v ≤ suc r
          → start_value stod (read_value stod r) (print show v ++ s) ≡ ok v s)
      → read_value stod room (print show v ++ s) ≡ ok v s
  unfolding read_value
  read_back v zero s h d start = absurd (omega (arith, depth-pos v))
  read_back v (suc room) s h d start = rw (skip-print stod show v s h) (start room d)

  items_loop-back :
      (v : Value N) (acc : Items N) (room fuel : ℕ) (s : Bytes)
      → HasReadable stod show v
      → depth v ≤ room
      → ((r : ℕ)
          → depth v ≤ suc r
          → start_value stod (read_value stod r) (print show v ++ s) ≡ ok v s)
      → items_loop (read_value stod room) (suc fuel) acc (print show v ++ s)
        ≡ items_next (items_loop (read_value stod room) fuel) (add_item acc v) s
  items_loop-back v acc room fuel s h d start =
      items_loop-step stod show (read_value stod room) fuel acc v (print show v ++ s) s
        (read_back v room s h d start)

  -- One round of the loop of `parseObject`.
  fields_loop-step :
      (read : Bytes → Read (Value N)) (fuel : ℕ) (acc : Fields N) (k : Bytes) (v : Value N)
      (t s : Bytes)
      → read t ≡ ok v s
      → fields_loop read (suc fuel) acc (quoted k ++ b':' ∷ t)
        ≡ fields_next (fields_loop read fuel) (add_field acc k v) s
  unfolding fields_loop fields_value skip_whitespace is_blank
  fields_loop-step read fuel acc k v t s e = rw append_assoc (rw read_string-escape (rw (e, ◌>>=◌)))

  fields_loop-back :
      (k : Bytes) (v : Value N) (acc : Fields N) (room fuel : ℕ) (s : Bytes)
      → HasReadable stod show v
      → depth v ≤ room
      → ((r : ℕ)
          → depth v ≤ suc r
          → start_value stod (read_value stod r) (print show v ++ s) ≡ ok v s)
      → fields_loop (read_value stod room) (suc fuel) acc (quoted k ++ (b':' ∷ (print show v ++ s)))
        ≡ fields_next (fields_loop (read_value stod room) fuel) (add_field acc k v) s
  fields_loop-back k v acc room fuel s h d start =
      fields_loop-step (read_value stod room) fuel acc k v (print show v ++ s) s
        (read_back v room s h d start)

  read_array-print :
      (below : Bytes → Read (Value N)) (v : Value N) (s : Bytes)
      → HasReadable stod show v
      → read_array below (print show v ++ s)
        ≡ items_loop below (suc (length (print show v ++ s))) nil (print show v ++ s)
  unfolding read_array
  read_array-print below v s h = rw (skip-print stod show v s h) (rw (peek-print stod show v s h))

  read_object-quoted :
      (below : Bytes → Read (Value N)) (k s : Bytes)
      → read_object below (quoted k ++ s)
        ≡ fields_loop below (suc (length (quoted k ++ s))) end (quoted k ++ s)
  unfolding read_object skip_whitespace is_blank
  read_object-quoted below k s = refl

  read_array-empty :
      (below : Bytes → Read (Value N)) (s : Bytes) → read_array below (b']' ∷ s) ≡ ok (array nil) s
  unfolding read_array skip_whitespace is_blank
  read_array-empty below s = refl

  read_object-empty :
      (below : Bytes → Read (Value N)) (s : Bytes)
      → read_object below (b'}' ∷ s) ≡ ok (object end) s
  unfolding read_object skip_whitespace is_blank
  read_object-empty below s = refl

  mutual
    unfolding print depth HasReadable start_value skip_whitespace is_blank is_digit read_bool
        read_null items_next fields_next add_item add_field join_items join_fields

    start-back :
        (v : Value N) (room : ℕ) (s : Bytes)
        → HasReadable stod show v
        → depth v ≤ suc room
        → Stops s
        → start_value stod (read_value stod room) (print show v ++ s) ≡ ok v s
    start-back null room s h d stop = refl
    start-back (boolean true) room s h d stop = refl
    start-back (boolean false) room s h d stop = refl
    start-back (number n) room s h d stop =
        start_value-number_text stod show (read_value stod room) n s h stop
    start-back (string t) room s h d stop = start_value-string stod show (read_value stod room) t s
    start-back (array nil) room s h d stop = read_array-empty (read_value stod room) s
    start-back (array (cons v xs)) room s h d stop =
        let t = print_more_items show xs ++ b']' ∷ s in
        rw (regroup (print show v) (print_more_items show xs) b']' s) (
          read_array-print (read_value stod room) v t h.0
          ∙ items_loop-back v nil room (length (print show v ++ t)) t h.0 (omega arith)
              (λ r e. start-back v r t h.0 e (more_items-Stops stod show xs s))
          ∙ items_next-back xs (cons v nil) room (length (print show v ++ t)) s h.1 (omega arith)
              (length-tail (print show v) t))
    start-back (object end) room s h d stop = read_object-empty (read_value stod room) s
    start-back (object (field k v fs)) room s h d stop =
        let t = print_more_fields show fs ++ b'}' ∷ s in
        rw
          (regroup_member (json_escape_string k ++ quote ∷ []) (print show v)
            (print_more_fields show fs) b':' b'}' s)
          (read_object-quoted (read_value stod room) k (b':' ∷ (print show v ++ t))
            ∙ fields_loop-back k v end room (length (quoted k ++ (b':' ∷ (print show v ++ t)))) t
                h.0 (omega arith) (λ r e. start-back v r t h.0 e (more_fields-Stops stod show fs s))
            ∙ fields_next-back fs (field k v end) room
                (length (quoted k ++ (b':' ∷ (print show v ++ t)))) s h.1 (omega arith)
                (length-tail_member (quoted k) (print show v) t b':'))

    items_next-back :
        (xs : Items N) (acc : Items N) (room fuel : ℕ) (s : Bytes)
        → HaveReadable stod show xs
        → depth_items xs ≤ room
        → length (print_more_items show xs ++ b']' ∷ s) ≤ suc fuel
        → items_next
            (items_loop (read_value stod room) fuel)
            acc
            (print_more_items show xs ++ b']' ∷ s)
          ≡ ok (array (join_items acc xs)) s
    items_next-back nil acc room fuel s h d l = rw join_items-nil
    items_next-back (cons v xs) acc room zero s h d l =
        absurd (no_room (print show v ++ print_more_items show xs) b']' s l)
    items_next-back (cons v xs) acc room (suc fuel) s h d l =
        let t = print_more_items show xs ++ b']' ∷ s in
        rw (append_assoc (print show v) (print_more_items show xs) (b']' ∷ s)) (
          items_loop-back v acc room fuel t h.0 (omega arith)
            (λ r e. start-back v r t h.0 e (more_items-Stops stod show xs s))
          ∙ items_next-back xs (add_item acc v) room fuel s h.1 (omega arith)
              (length-rest (print show v) (print_more_items show xs) (b']' ∷ s) l)
          ∙ ap (λ a. ok (array a) s) (join_items-add acc v xs))

    fields_next-back :
        (fs : Fields N) (acc : Fields N) (room fuel : ℕ) (s : Bytes)
        → MembersReadable stod show fs
        → depth_fields fs ≤ room
        → length (print_more_fields show fs ++ b'}' ∷ s) ≤ suc fuel
        → fields_next
            (fields_loop (read_value stod room) fuel)
            acc
            (print_more_fields show fs ++ b'}' ∷ s)
          ≡ ok (object (join_fields acc fs)) s
    fields_next-back end acc room fuel s h d l = rw join_fields-end
    fields_next-back (field k v fs) acc room zero s h d l =
        absurd (no_room (quoted k ++ (b':' ∷ (print show v ++ print_more_fields show fs))) b'}' s l)
    fields_next-back (field k v fs) acc room (suc fuel) s h d l =
        let t = print_more_fields show fs ++ b'}' ∷ s in
        rw
          (regroup_next (json_escape_string k ++ quote ∷ []) (print show v)
            (print_more_fields show fs) b':' (b'}' ∷ s))
          (fields_loop-back k v acc room fuel t h.0 (omega arith)
              (λ r e. start-back v r t h.0 e (more_fields-Stops stod show fs s))
            ∙ fields_next-back fs (add_field acc k v) room fuel s h.1 (omega arith) (
                length-rest_member (quoted k) (print show v) (print_more_fields show fs) b':'
                  (b'}' ∷ s) l)
            ∙ ap (λ a. ok (object a) s) (join_fields-add acc k v fs))

  read_value-print :
      (v : Value N)
      → HasReadable stod show v
      → depth v ≤ max_depth
      → read_value stod max_depth (print show v) ≡ ok v []
  read_value-print v h d = rw append-nil at (
      read_back v max_depth [] h d
        (λ r e. start-back v r [] h e (unfold is_number_byte is_digit in refl)))

  skip-print_all :
      (v : Value N) → HasReadable stod show v → skip_whitespace (print show v) ≡ print show v
  skip-print_all v h = rw append-nil at (skip-print stod show v [] h)

  -- The compact text of a value, nested at most as deep as the reader allows, is read back as that
  -- value, with nothing left, if the number reader gives back each number in it from its text.
  pub read-print :
      (v : Value N)
      → HasReadable stod show v
      → depth v ≤ max_depth
      → read stod (print show v) ≡ ok v []
  unfolding read skip_whitespace
  read-print v h d = rw (skip-print_all v h) (rw (read_value-print v h d) refl)
