-- ===== src/Json/Builder.antt =====
-- What the calls of a `JsonWriter` mean: an abstract builder of values, with no text and no flags.
-- `engine/src/util/json_writer.h` documents it: a value in an object wants a key, a key wants a
-- value, an end matches its begin, and there is one value at the top.
use code_scope.Prelude.{Bool, Option, none, some, List, [], ◌∷◌, Bytes}
use code_scope.Json.Value.{
  Value, null, boolean, number, string, array, object, Items, nil, Fields, end, add_item, add_field,
}

-- The innermost open container, with the key that waits for its value.
pub data Level (N : Type 0) : Type 0 where
  open_items : Items N → Level N
  open_fields : Fields N → Option Bytes → Level N

-- A container around the innermost one: it waits for the value that is being built.
pub data Parent (N : Type 0) : Type 0 where
  in_items : Items N → Parent N
  in_fields : Fields N → Bytes → Parent N

pub data Draft (N : Type 0) : Type 0 where
  empty : Draft N
  building : Level N → List (Parent N) → Draft N
  complete : Value N → Draft N

-- The public calls of a writer. `fragment v` is `raw` with the text of `v`, as its comment asks.
pub data Call (N : Type 0) : Type 0 where
  put_null : Call N
  put_bool : Bool → Call N
  put_number : N → Call N
  put_string : Bytes → Call N
  fragment : Value N → Call N
  put_key : Bytes → Call N
  open_array open_object close_array close_object : Call N

module _ {N : Type 0} where
  unfoldable pub fill : Parent N → Value N → Level N
  fill (in_items xs) v = open_items (add_item xs v)
  fill (in_fields fs k) v = open_fields (add_field fs k v) none

  unfoldable pub await : Level N → Option (Parent N)
  await (open_items xs) = some (in_items xs)
  await (open_fields fs none) = none
  await (open_fields fs (some k)) = some (in_fields fs k)

  unfoldable pub put_in : Option (Parent N) → Value N → List (Parent N) → Option (Draft N)
  unfolding fill
  put_in none v outer = none
  put_in (some p) v outer = some (building (fill p v) outer)

  unfoldable pub put : Value N → Draft N → Option (Draft N)
  unfolding put_in await
  put v empty = some (complete v)
  put v (complete old) = none
  put v (building l outer) = put_in (await l) v outer

  unfoldable pub open_in : Option (Parent N) → Level N → List (Parent N) → Option (Draft N)
  open_in none l outer = none
  open_in (some p) l outer = some (building l (p ∷ outer))

  unfoldable pub open_level : Level N → Draft N → Option (Draft N)
  unfolding open_in await
  open_level l empty = some (building l [])
  open_level l (complete old) = none
  open_level l (building top outer) = open_in (await top) l outer

  unfoldable pub deliver : Value N → List (Parent N) → Draft N
  unfolding fill
  deliver v [] = complete v
  deliver v (p ∷ outer) = building (fill p v) outer

  -- The draft after a call, or `none` if the call is a misuse.
  unfoldable pub build : Call N → Draft N → Option (Draft N)
  unfolding put open_level deliver
  build put_null d = put null d
  build (put_bool b) d = put (boolean b) d
  build (put_number n) d = put (number n) d
  build (put_string s) d = put (string s) d
  build (fragment v) d = put v d
  build (put_key k) (building (open_fields fs none) outer) =
      some (building (open_fields fs (some k)) outer)
  build (put_key k) _ = none
  build open_array d = open_level (open_items nil) d
  build open_object d = open_level (open_fields end none) d
  build close_array (building (open_items xs) outer) = some (deliver (array xs) outer)
  build close_array _ = none
  build close_object (building (open_fields fs none) outer) = some (deliver (object fs) outer)
  build close_object _ = none

  abbrev pub build_next : Option (Draft N) → (Draft N → Option (Draft N)) → Option (Draft N)
  build_next none go = none
  build_next (some d) go = go d

  unfoldable pub build_all : List (Call N) → Draft N → Option (Draft N)
  unfolding build
  build_all [] d = some d
  build_all (c ∷ cs) d = build_next (build c d) (λ d'. build_all cs d')
