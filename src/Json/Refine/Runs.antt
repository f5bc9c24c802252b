-- ===== src/Json/Refine/Runs.antt =====
-- Whole sequences of calls.
use code_scope.Prelude.{
  true, false, Option, none, some, List, [], ◌∷◌, Bytes, ◌≡◌, refl, ap, ◌∙◌, arith,
}
use code_scope.Json.Value.{Value, print}
use code_scope.Json.Writer.{Writer, fresh, is_ok}
use code_scope.Json.Builder.{
  Draft, empty, building, complete, Call, put_null, put_bool, put_number, put_string, fragment,
  put_key, open_array, open_object, close_array, close_object, build, build_next, build_all,
}
use code_scope.Json.Refine.{writer_of, perform, perform_all}
use code_scope.Json.Refine.Steps.{Refines, perform-Refines}

module _ {N : Type 0} (show : N → Bytes) where
  pub perform-error : (c : Call N) (w : Writer) → is_ok w ≡ false → perform show c w ≡ w
  unfolding perform
  perform-error put_null w h = ground arith
  perform-error (put_bool b) w h = ground arith
  perform-error (put_number n) w h = ground arith
  perform-error (put_string s) w h = ground arith
  perform-error (fragment v) w h = ground arith
  perform-error (put_key k) w h = ground arith
  perform-error open_array w h = ground arith
  perform-error open_object w h = ground arith
  perform-error close_array w h = ground arith
  perform-error close_object w h = ground arith

  pub perform_all-error :
      (cs : List (Call N)) (w : Writer) → is_ok w ≡ false → perform_all show cs w ≡ w
  unfolding perform_all
  perform_all-error [] w h = refl
  perform_all-error (c ∷ cs) w h =
      let same = perform-error c w h in ap (perform_all show cs) same ∙ perform_all-error cs w h

  next-Refines :
      (cs : List (Call N)) (o : Option (Draft N)) (w : Writer)
      → Refines show o w
      → ((d : Draft N) → Refines show (build_all cs d) (perform_all show cs (writer_of show d)))
      → Refines show (build_next o (build_all cs)) (perform_all show cs w)
  next-Refines cs none w h rest = ap is_ok (perform_all-error cs w h) ∙ h
  next-Refines cs (some d) w h rest = rw h (rest d)

  -- After any calls of the emitting operations, of which `raw` is given texts of JSON values only, on a
  -- writer that has built a draft: its state is that of the draft that the
  -- calls build, or it has an error, where one of the calls is a misuse.
  pub perform_all-Refines :
      (cs : List (Call N)) (d : Draft N)
      → Refines show (build_all cs d) (perform_all show cs (writer_of show d))
  unfolding build_all perform_all
  perform_all-Refines [] d = refl
  perform_all-Refines (c ∷ cs) d =
      next-Refines cs (build c d) (perform show c (writer_of show d)) (perform-Refines show c d)
        (perform_all-Refines cs)

  -- What a writer that shows no error, has closed every container and has begun can have done.
  finished :
      (o : Option (Draft N)) (w : Writer)
      → Refines show o w
      → is_ok w ≡ true
      → w.stack ≡ []
      → w.started ≡ true
      → (v : Value N) × (o ≡ some (complete v)) × (w.out ≡ print show v)
  unfolding writer_of
  finished none w r ok closed begun = cc
  finished (some empty) w r ok closed begun = cc
  finished (some (building l outer)) w r ok closed begun = absurd (cc)
  finished (some (complete v)) w r ok closed begun = (v, refl, ap (λ (x : Writer). x.out) r)

  -- After any calls of the emitting operations on a fresh writer, of which `raw` is given texts of
  -- JSON values only, that leave it without an error, with every container closed and with some text
  -- begun, its text is the text of one JSON value, which is the value that the calls build.
  pub text-IsJson :
      (cs : List (Call N))
      → is_ok (perform_all show cs fresh) ≡ true
      → (perform_all show cs fresh).stack ≡ []
      → (perform_all show cs fresh).started ≡ true
      → (v : Value N) × (build_all cs empty ≡ some (complete v))
        × ((perform_all show cs fresh).out ≡ print show v)
  unfolding writer_of
  text-IsJson cs =
      finished (build_all cs empty) (perform_all show cs fresh) (perform_all-Refines cs empty)
