-- ===== src/Json/Refine/Steps.antt =====
-- One call of the writer against one step of the builder.
use code_scope.Prelude.{
  true, false, Option, none, some, List, [], ◌∷◌, ◌++◌, Bytes, ◌≡◌, refl, ap, sym, ◌∙◌,
  append_assoc,
}
use code_scope.Json.Value.{
  Value, null, boolean, number, string, array, object, Items, nil, cons, Fields, end, field,
  add_item, add_field, print,
}
use code_scope.Json.Writer.{
  Writer, is_ok, begin_object, end_object, begin_array, end_array, key, emit,
}
use code_scope.Json.Builder.{
  open_items, open_fields, Parent, in_items, in_fields, Draft, empty, building, complete, Call,
  put_null, put_bool, put_number, put_string, fragment, put_key, open_array, open_object,
  close_array, close_object, fill, put, open_level, deliver, build,
}
use code_scope.Json.Refine.{
  parent_frame, parent_frames, member_text, level_text, parent_text, outer_text, writer_of, perform,
  level_text-fill,
}

module _ {N : Type 0} (show : N → Bytes) where
  -- The writer is in the state of the draft, or has an error where the call is a misuse.
  abbrev pub Refines : Option (Draft N) → Writer → Type 0
  Refines none w = is_ok w ≡ false
  Refines (some d) w = w ≡ writer_of show d

  abbrev with_out : Writer → Bytes → Writer
  with_out w text = record w { out = text }

  -- A value behind the text of the container that waits for it.
  text-fill :
      (p : Parent N) (outer : List (Parent N)) (v : Value N)
      → outer_text show (p ∷ outer) ++ print show v
        ≡ outer_text show outer ++ level_text show (fill p v)
  unfolding outer_text
  text-fill p outer v =
      append_assoc (outer_text show outer) (parent_text show p) (print show v)
      ∙ ap (λ t. outer_text show outer ++ t) (sym (level_text-fill show p v))

  -- The comma that `before_value` puts in front of an item.
  text-comma :
      (x : Value N) (xs : Items N) (outer : List (Parent N))
      → (outer_text show outer ++ level_text show (open_items (cons x xs))) ++ b',' ∷ []
        ≡ outer_text show (in_items (cons x xs) ∷ outer)
  unfolding outer_text level_text parent_text
  text-comma x xs outer = append_assoc (outer_text show outer) _ _

  text-no_comma :
      (outer : List (Parent N))
      → outer_text show outer ++ level_text show (open_items nil)
        ≡ outer_text show (in_items nil ∷ outer)
  unfolding outer_text level_text parent_text print
  text-no_comma outer = refl

  text-member :
      (fs : Fields N) (k : Bytes) (outer : List (Parent N))
      → outer_text show outer ++ level_text show (open_fields fs (some k))
        ≡ outer_text show (in_fields fs k ∷ outer)
  unfolding outer_text level_text parent_text
  text-member fs k outer = refl

  -- The state after a value for the container `p`.
  filled :
      (p : Parent N) (outer : List (Parent N)) (v : Value N)
      → record {
        out = outer_text show (p ∷ outer) ++ print show v;
        error = none;
        stack = parent_frame p ∷ parent_frames outer;
        awaiting_value = false;
        started = true;
      }
        ≡ writer_of show (building (fill p v) outer)
  unfolding writer_of fill add_item add_field
  filled (in_items nil) outer v = rw (text-fill (in_items nil) outer v)
  filled (in_items (cons x xs)) outer v = rw (text-fill (in_items (cons x xs)) outer v)
  filled (in_fields end k) outer v = rw (text-fill (in_fields end k) outer v)
  filled (in_fields (field j x fs) k) outer v = rw (text-fill (in_fields (field j x fs) k) outer v)

  emit-Refines :
      (v : Value N) (d : Draft N) → Refines (put v d) (emit (print show v) (writer_of show d))
  unfolding put emit writer_of
  emit-Refines v empty = refl
  emit-Refines v (complete old) = refl
  emit-Refines v (building (open_items nil) outer) =
      rw text-no_comma (filled (in_items nil) outer v)
  emit-Refines v (building (open_items (cons x xs)) outer) =
      rw text-comma (filled (in_items (cons x xs)) outer v)
  emit-Refines v (building (open_fields end none) outer) = refl
  emit-Refines v (building (open_fields (field j x fs) none) outer) = refl
  emit-Refines v (building (open_fields end (some k)) outer) =
      rw text-member (filled (in_fields end k) outer v)
  emit-Refines v (building (open_fields (field j x fs) (some k)) outer) =
      rw text-member (filled (in_fields (field j x fs) k) outer v)

  begin_array-Refines :
      (d : Draft N) → Refines (open_level (open_items nil) d) (begin_array (writer_of show d))
  unfolding open_level begin_array writer_of level_text outer_text print
  begin_array-Refines empty = refl
  begin_array-Refines (complete old) = refl
  begin_array-Refines (building (open_items nil) outer) = rw text-no_comma
  begin_array-Refines (building (open_items (cons x xs)) outer) = rw text-comma
  begin_array-Refines (building (open_fields fs none) outer) = refl
  begin_array-Refines (building (open_fields fs (some k)) outer) = rw text-member

  begin_object-Refines :
      (d : Draft N)
      → Refines (open_level (open_fields end none) d) (begin_object (writer_of show d))
  unfolding open_level begin_object writer_of level_text outer_text print
  begin_object-Refines empty = refl
  begin_object-Refines (complete old) = refl
  begin_object-Refines (building (open_items nil) outer) = rw text-no_comma
  begin_object-Refines (building (open_items (cons x xs)) outer) = rw text-comma
  begin_object-Refines (building (open_fields fs none) outer) = refl
  begin_object-Refines (building (open_fields fs (some k)) outer) = rw text-member

  end_array-Refines :
      (xs : Items N) (outer : List (Parent N))
      → end_array (writer_of show (building (open_items xs) outer))
        ≡ writer_of show (deliver (array xs) outer)
  unfolding end_array writer_of deliver level_text outer_text print
  end_array-Refines xs [] = refl
  end_array-Refines xs (p ∷ ps) =
      rw (append_assoc (outer_text show (p ∷ ps)) _ _)
        (unfold outer_text print in filled p ps (array xs))

  end_object-Refines :
      (fs : Fields N) (outer : List (Parent N))
      → end_object (writer_of show (building (open_fields fs none) outer))
        ≡ writer_of show (deliver (object fs) outer)
  unfolding end_object writer_of deliver level_text outer_text print
  end_object-Refines fs [] = refl
  end_object-Refines fs (p ∷ ps) =
      rw (append_assoc (outer_text show (p ∷ ps)) _ _)
        (unfold outer_text print in filled p ps (object fs))

  key-Refines :
      (k : Bytes) (fs : Fields N) (outer : List (Parent N))
      → key k (writer_of show (building (open_fields fs none) outer))
        ≡ writer_of show (building (open_fields fs (some k)) outer)
  unfolding key writer_of level_text member_text print
  key-Refines k end outer = simp append_assoc
  key-Refines k (field j x fs) outer = simp append_assoc

  -- Each call, on a writer that has built a draft: the writer ends in the state of the draft that
  -- the call makes, or it has an error, where the call is a misuse.
  pub perform-Refines :
      (c : Call N) (d : Draft N) → Refines (build c d) (perform show c (writer_of show d))
  unfolding build perform writer_of print
  perform-Refines put_null d = emit-Refines null d
  perform-Refines (put_bool b) d = emit-Refines (boolean b) d
  perform-Refines (put_number n) d = emit-Refines (number n) d
  perform-Refines (put_string s) d = emit-Refines (string s) d
  perform-Refines (fragment v) d = emit-Refines v d
  perform-Refines (put_key k) empty = refl
  perform-Refines (put_key k) (complete v) = refl
  perform-Refines (put_key k) (building (open_items xs) outer) = refl
  perform-Refines (put_key k) (building (open_fields fs none) outer) = key-Refines k fs outer
  perform-Refines (put_key k) (building (open_fields fs (some j)) outer) = refl
  perform-Refines open_array d = begin_array-Refines d
  perform-Refines open_object d = begin_object-Refines d
  perform-Refines close_array empty = refl
  perform-Refines close_array (complete v) = refl
  perform-Refines close_array (building (open_items xs) outer) = end_array-Refines xs outer
  perform-Refines close_array (building (open_fields fs k) outer) = refl
  perform-Refines close_object empty = refl
  perform-Refines close_object (complete v) = refl
  perform-Refines close_object (building (open_items xs) outer) = refl
  perform-Refines close_object (building (open_fields fs none) outer) = end_object-Refines fs outer
  perform-Refines close_object (building (open_fields fs (some k)) outer) = refl
