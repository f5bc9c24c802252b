-- ===== src/Json/Refine.antt =====
-- The writer (`JsonWriter`) against the builder: the writer that stands for a draft.
pub mod Steps
pub mod Runs
use code_scope.Prelude.{
  Bool, true, false, Option, none, some, List, [], ◌∷◌, ◌++◌, map, Bytes, ◌≡◌, refl, ap, sym, ◌∙◌,
  ◌⊎◌, inl, inr, append_assoc, append-nil, arith, Bool-cases, Option-cases,
}
use code_scope.Json.Escape.{quoted}
use code_scope.Json.Value.{
  Value, null, boolean, number, string, array, object, Items, nil, cons, Fields, end, field,
  add_item, add_field, print, print_items, print_more_items, print_fields, print_more_fields,
}
use code_scope.Json.Writer.{
  Frame, Writer, WriterError, fresh, is_ok, set_error, before_value, mark_value_done,
  begin_container, end_container, begin_object, end_object, begin_array, end_array, key, emit,
  value_string, value_bool, null_value, raw, value_double,
}
use code_scope.Json.Builder.{
  Level, open_items, open_fields, Parent, in_items, in_fields, Draft, empty, building, complete,
  Call, put_null, put_bool, put_number, put_string, fragment, put_key, open_array, open_object,
  close_array, close_object, fill, await, put_in, put, open_in, open_level, deliver, build,
  build_next, build_all,
}

module _ {N : Type 0} where
  abbrev items_comma : Items N → Bytes
  items_comma nil = []
  items_comma (cons x xs) = b',' ∷ []

  abbrev fields_comma : Fields N → Bytes
  fields_comma end = []
  fields_comma (field k v fs) = b',' ∷ []

  abbrev has_item : Items N → Bool
  has_item nil = false
  has_item (cons x xs) = true

  abbrev has_field : Fields N → Bool
  has_field end = false
  has_field (field k v fs) = true

  abbrev frame_of : Level N → Frame
  frame_of (open_items xs) = record { is_object = false; has_items = has_item xs }
  frame_of (open_fields fs k) = record { is_object = true; has_items = has_field fs }

  abbrev parent_frame : Parent N → Frame
  parent_frame (in_items xs) = record { is_object = false; has_items = true }
  parent_frame (in_fields fs k) = record { is_object = true; has_items = true }

  abbrev parent_frames : List (Parent N) → List Frame
  parent_frames [] = []
  parent_frames (p ∷ ps) = parent_frame p ∷ parent_frames ps

  abbrev is_waiting : Level N → Bool
  is_waiting (open_items xs) = false
  is_waiting (open_fields fs none) = false
  is_waiting (open_fields fs (some k)) = true

module _ {N : Type 0} (show : N → Bytes) where
  member_text : Fields N → Bytes → Bytes
  member_text fs k = (print_fields show fs ++ fields_comma fs) ++ quoted k ++ b':' ∷ []

  level_text : Level N → Bytes
  level_text (open_items xs) = b'[' ∷ print_items show xs
  level_text (open_fields fs none) = b'{' ∷ print_fields show fs
  level_text (open_fields fs (some k)) = b'{' ∷ member_text fs k

  parent_text : Parent N → Bytes
  parent_text (in_items xs) = b'[' ∷ print_items show xs ++ items_comma xs
  parent_text (in_fields fs k) = b'{' ∷ member_text fs k

  outer_text : List (Parent N) → Bytes
  outer_text [] = []
  outer_text (p ∷ ps) = outer_text ps ++ parent_text p

  -- The state of a writer that has built a draft.
  pub writer_of : Draft N → Writer
  writer_of empty = fresh
  writer_of (complete v) = record {
    out = print show v;
    error = none;
    stack = [];
    awaiting_value = false;
    started = true;
  }
  writer_of (building l outer) = record {
    out = outer_text outer ++ level_text l;
    error = none;
    stack = frame_of l ∷ parent_frames outer;
    awaiting_value = is_waiting l;
    started = true;
  }

  pub writer_of-empty : writer_of empty ≡ fresh
  unfolding writer_of
  writer_of-empty = refl

  pub writer_of-complete :
      (v : Value N)
      → writer_of (complete v) ≡ record {
        out = print show v;
        error = none;
        stack = [];
        awaiting_value = false;
        started = true;
      }
  unfolding writer_of
  writer_of-complete v = refl

  -- The writer's method for each call.
  unfoldable pub perform : Call N → Writer → Writer
  unfolding emit value_string value_bool null_value raw value_double key begin_array begin_object
      end_array end_object
  perform put_null = null_value
  perform (put_bool b) = value_bool b
  perform (put_number n) = value_double (some (show n))
  perform (put_string s) = value_string s
  perform (fragment v) = raw (print show v)
  perform (put_key k) = key k
  perform open_array = begin_array
  perform open_object = begin_object
  perform close_array = end_array
  perform close_object = end_object

  unfoldable pub perform_all : List (Call N) → Writer → Writer
  perform_all [] w = w
  perform_all (c ∷ cs) w = perform_all cs (perform c w)

  print_more_items-add :
      (xs : Items N) (v : Value N)
      → print_more_items show (add_item xs v) ≡ print_more_items show xs ++ b',' ∷ print show v
  unfolding print add_item
  print_more_items-add nil v = simp append-nil
  print_more_items-add (cons x xs) v = simp (print_more_items-add xs v, append_assoc)

  print_items-add :
      (xs : Items N) (v : Value N)
      → print_items show (add_item xs v) ≡ (print_items show xs ++ items_comma xs) ++ print show v
  unfolding print add_item
  print_items-add nil v = simp append-nil
  print_items-add (cons x xs) v = simp (print_more_items-add xs v, append_assoc)

  print_more_fields-add :
      (fs : Fields N) (k : Bytes) (v : Value N)
      → print_more_fields show (add_field fs k v)
        ≡ print_more_fields show fs ++ b',' ∷ quoted k ++ b':' ∷ print show v
  unfolding print add_field
  print_more_fields-add end k v = simp append-nil
  print_more_fields-add (field j x fs) k v = simp (print_more_fields-add fs k v, append_assoc)

  print_fields-add :
      (fs : Fields N) (k : Bytes) (v : Value N)
      → print_fields show (add_field fs k v) ≡ member_text fs k ++ print show v
  unfolding print add_field member_text
  print_fields-add end k v = simp (append-nil, append_assoc)
  print_fields-add (field j x fs) k v = simp (print_more_fields-add fs k v, append_assoc)

  -- Filling a parent writes the value behind the parent's text.
  level_text-fill :
      (p : Parent N) (v : Value N) → level_text (fill p v) ≡ parent_text p ++ print show v
  unfolding level_text parent_text fill
  level_text-fill (in_items xs) v = simp (print_items-add xs v)
  level_text-fill (in_fields fs k) v = simp (print_fields-add fs k v)
