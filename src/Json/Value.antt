-- ===== src/Json/Value.antt =====
-- JSON values (`JsonValue` of engine/src/evidence/rule.cpp) and their compact text. The numbers
-- are a parameter: the source's are `double`.
use code_scope.Prelude.{
  ap, ◌≡◌, refl, ℕ, suc, Bool, true, false, Option, none, some, [], ◌∷◌, ◌++◌, max, Bytes, codes,
  bytes_eq, if◌then◌else◌,
}
use code_scope.Json.Escape.{quoted}

-- An object's members are in the order in which they were added, and a key may occur twice.
mutual
  pub data Value (N : Type 0) : Type 0 where
    null : Value N
    boolean : Bool → Value N
    number : N → Value N
    string : Bytes → Value N
    array : Items N → Value N
    object : Fields N → Value N

  pub data Items (N : Type 0) : Type 0 where
    nil : Items N
    cons : Value N → Items N → Items N

  pub data Fields (N : Type 0) : Type 0 where
    end : Fields N
    field : Bytes → Value N → Fields N → Fields N

module _ {N : Type 0} where
  -- `push_back`.
  unfoldable pub add_item : Items N → Value N → Items N
  add_item nil v = cons v nil
  add_item (cons x xs) v = cons x (add_item xs v)

  unfoldable pub add_field : Fields N → Bytes → Value N → Fields N
  add_field end k v = field k v end
  add_field (field j x fs) k v = field j x (add_field fs k v)

  -- `JsonValue::find`: the first member of that name.
  unfoldable pub find_field : Bytes → Fields N → Option (Value N)
  find_field k end = none
  find_field k (field j v fs) = if bytes_eq j k then some v else find_field k fs

  unfoldable pub find : Value N → Bytes → Option (Value N)
  unfolding find_field
  find (object fs) k = find_field k fs
  find _ k = none

-- Two runs of items, or of members, one behind the other.
unfoldable pub join_items : {N : Type 0} → Items N → Items N → Items N
join_items nil ys = ys
join_items (cons x xs) ys = cons x (join_items xs ys)

unfoldable pub join_fields : {N : Type 0} → Fields N → Fields N → Fields N
join_fields end gs = gs
join_fields (field k v fs) gs = field k v (join_fields fs gs)

module _ {N : Type 0} where
  pub join_items-nil : (xs : Items N) → join_items xs nil ≡ xs
  unfolding join_items
  join_items-nil nil = refl
  join_items-nil (cons x xs) = ap (cons x) (join_items-nil xs)

  pub join_items-add :
      (xs : Items N) (v : Value N) (ys : Items N)
      → join_items (add_item xs v) ys ≡ join_items xs (cons v ys)
  unfolding join_items add_item
  join_items-add nil v ys = refl
  join_items-add (cons x xs) v ys = ap (cons x) (join_items-add xs v ys)

  pub join_fields-end : (fs : Fields N) → join_fields fs end ≡ fs
  unfolding join_fields
  join_fields-end end = refl
  join_fields-end (field k v fs) = ap (field k v) (join_fields-end fs)

  pub join_fields-add :
      (fs : Fields N) (k : Bytes) (v : Value N) (gs : Fields N)
      → join_fields (add_field fs k v) gs ≡ join_fields fs (field k v gs)
  unfolding join_fields add_field
  join_fields-add end k v gs = refl
  join_fields-add (field j x fs) k v gs = ap (field j x) (join_fields-add fs k v gs)

abbrev pub bool_text : Bool → Bytes
bool_text true = codes "true"
bool_text false = codes "false"

-- The compact text of a value: no white space, members in order.
module _ {N : Type 0} (show : N → Bytes) where
  unfoldable mutual
    pub print : Value N → Bytes
    print null = codes "null"
    print (boolean b) = bool_text b
    print (number n) = show n
    print (string s) = quoted s
    print (array xs) = b'[' ∷ print_items xs ++ b']' ∷ []
    print (object fs) = b'{' ∷ print_fields fs ++ b'}' ∷ []

    pub print_items : Items N → Bytes
    print_items nil = []
    print_items (cons v xs) = print v ++ print_more_items xs

    pub print_more_items : Items N → Bytes
    print_more_items nil = []
    print_more_items (cons v xs) = b',' ∷ (print v ++ print_more_items xs)

    pub print_fields : Fields N → Bytes
    print_fields end = []
    print_fields (field k v fs) = quoted k ++ (b':' ∷ (print v ++ print_more_fields fs))

    pub print_more_fields : Fields N → Bytes
    print_more_fields end = []
    print_more_fields (field k v fs) =
        b',' ∷ (quoted k ++ (b':' ∷ (print v ++ print_more_fields fs)))

unfoldable mutual
  -- The number of containers around the deepest value, and the value itself.
  pub depth : {N : Type 0} → Value N → ℕ
  depth (array xs) = suc (depth_items xs)
  depth (object fs) = suc (depth_fields fs)
  depth null = 1
  depth (boolean b) = 1
  depth (number n) = 1
  depth (string s) = 1

  pub depth_items : {N : Type 0} → Items N → ℕ
  depth_items nil = 0
  depth_items (cons v xs) = max (depth v) (depth_items xs)

  pub depth_fields : {N : Type 0} → Fields N → ℕ
  depth_fields end = 0
  depth_fields (field k v fs) = max (depth v) (depth_fields fs)
