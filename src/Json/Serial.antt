-- ===== src/Json/Serial.antt =====
-- A value written member by member, as the program's callers do.
use code_scope.Prelude.{
  true, false, none, some, List, [], ◌∷◌, ◌++◌, Bytes, ◌≡◌, refl, ap, sym, ◌∙◌, append_assoc,
  append-nil,
}
use code_scope.Json.Value.{
  join_items, join_items-nil, join_items-add, join_fields, join_fields-end, join_fields-add, Value,
  null, boolean, number, string, array, object, Items, nil, cons, Fields, end, field, add_item,
  add_field, print,
}
use code_scope.Json.Writer.{fresh}
use code_scope.Json.Builder.{
  Level, open_items, open_fields, Parent, in_items, in_fields, Draft, empty, building, complete,
  Call, put_null, put_bool, put_number, put_string, put_key, open_array, open_object, close_array,
  close_object, fill, await, put_in, put, open_level, deliver, build_next, build_all,
}
use code_scope.Json.Refine.{writer_of, writer_of-empty, writer_of-complete, perform_all}
use code_scope.Json.Refine.Runs.{perform_all-Refines}

unfoldable mutual
  pub calls : {N : Type 0} → Value N → List (Call N)
  calls null = put_null ∷ []
  calls (boolean b) = put_bool b ∷ []
  calls (number n) = put_number n ∷ []
  calls (string s) = put_string s ∷ []
  calls (array xs) = open_array ∷ item_calls xs ++ close_array ∷ []
  calls (object fs) = open_object ∷ field_calls fs ++ close_object ∷ []

  pub item_calls : {N : Type 0} → Items N → List (Call N)
  item_calls nil = []
  item_calls (cons v xs) = calls v ++ item_calls xs

  pub field_calls : {N : Type 0} → Fields N → List (Call N)
  field_calls end = []
  field_calls (field k v fs) = put_key k ∷ calls v ++ field_calls fs

module _ {N : Type 0} where
  -- `put` on an open container that waits for a value.
  put-opened :
      (v : Value N) (p : Parent N) (outer : List (Parent N)) (l : Level N)
      → await l ≡ some p
      → put v (building l outer) ≡ some (building (fill p v) outer)
  unfolding put
  put-opened v p outer l h = ap (λ o. put_in o v outer) h

  -- A container that is opened, filled and closed is one value for what is around it.
  enclose :
      (v : Value N) (l : Level N) (cs rest : List (Call N))
      → ((outer : List (Parent N))
          → build_all cs (building l outer) ≡ build_all rest (deliver v outer))
      → (d : Draft N)
      → build_next (open_level l d) (build_all cs) ≡ build_next (put v d) (build_all rest)
  unfolding open_level put deliver
  enclose v l cs rest h empty = h []
  enclose v l cs rest h (complete old) = refl
  enclose v l cs rest h (building (open_items xs) outer) = h (in_items xs ∷ outer)
  enclose v l cs rest h (building (open_fields fs none) outer) = refl
  enclose v l cs rest h (building (open_fields fs (some k)) outer) = h (in_fields fs k ∷ outer)

mutual
  unfolding calls build_all fill await put_in put join_items join_fields

  calls-put :
      {N : Type 0} (v : Value N) (rest : List (Call N)) (d : Draft N)
      → build_all (calls v ++ rest) d ≡ build_next (put v d) (build_all rest)
  calls-put null rest d = refl
  calls-put (boolean b) rest d = refl
  calls-put (number n) rest d = refl
  calls-put (string s) rest d = refl
  calls-put (array xs) rest d = rw append_assoc (
      enclose (array xs) (open_items nil) (item_calls xs ++ close_array ∷ rest) rest
        (λ outer. item_calls-put xs nil outer rest) d)
  calls-put (object fs) rest d = rw append_assoc (
      enclose (object fs) (open_fields end none) (field_calls fs ++ close_object ∷ rest) rest
        (λ outer. field_calls-put fs end outer rest) d)

  item_calls-put :
      {N : Type 0} (xs : Items N) (done : Items N) (outer : List (Parent N)) (rest : List (Call N))
      → build_all (item_calls xs ++ close_array ∷ rest) (building (open_items done) outer)
        ≡ build_all rest (deliver (array (join_items done xs)) outer)
  item_calls-put nil done outer rest = rw join_items-nil
  item_calls-put (cons v xs) done outer rest = rw append_assoc (
      calls-put v (item_calls xs ++ close_array ∷ rest) (building (open_items done) outer)
      ∙ item_calls-put xs (add_item done v) outer rest
      ∙ ap (λ ys. build_all rest (deliver (array ys) outer)) (join_items-add done v xs))

  field_calls-put :
      {N : Type 0} (fs : Fields N) (done : Fields N) (outer : List (Parent N))
      (rest : List (Call N))
      → build_all (field_calls fs ++ close_object ∷ rest) (building (open_fields done none) outer)
        ≡ build_all rest (deliver (object (join_fields done fs)) outer)
  field_calls-put end done outer rest = rw join_fields-end
  field_calls-put (field k v fs) done outer rest = rw append_assoc (
      calls-put v (field_calls fs ++ close_object ∷ rest)
        (building (open_fields done (some k)) outer)
      ∙ field_calls-put fs (add_field done k v) outer rest
      ∙ ap (λ gs. build_all rest (deliver (object gs) outer)) (join_fields-add done k v fs))

module _ {N : Type 0} (show : N → Bytes) where
  -- The calls that write a value member by member are accepted on a fresh writer, and the writer is
  -- left with the text of the value, no open container and no error.
  pub perform_all-calls :
      (v : Value N)
      → perform_all show (calls v) fresh ≡ record {
        out = print show v;
        error = none;
        stack = [];
        awaiting_value = false;
        started = true;
      }
  unfolding build_all put
  perform_all-calls v =
      let built : build_all (calls v) empty ≡ some (complete v) =
        rw append-nil at (calls-put v [] empty) in
      let run : perform_all show (calls v) (writer_of show empty) ≡ writer_of show (complete v) =
        rw built at (perform_all-Refines show (calls v) empty) in
      ap (perform_all show (calls v)) (sym (writer_of-empty show)) ∙ run ∙ writer_of-complete show v
