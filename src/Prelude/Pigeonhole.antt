-- ===== src/Prelude/Pigeonhole.antt =====
-- A list without repetitions is not longer than a list that has all its elements.
use Prim.Native.Nat.{suc, ◌≤◌}
use mathlib.Core.Path.{◌≡◌, refl, ap, sym, ◌∙◌, subst}
use mathlib.Core.Logic.{◌≢◌, inl, inr}
use mathlib.Core.List.{List, [], ◌∷◌}
use native.Mathlib.Omega.{arith}
use code_scope.Prelude.Lists.{length}
use code_scope.Prelude.Members.{In, IsDistinct}

module _ {A : Type 0} where
  -- A list without one of its elements.
  record Without (x : A) (xs : List A) : Type 0 where
    rest : List A
    shorter : length xs ≡ suc (length rest)
    others : (y : A) → y ≢ x → In y xs → In y rest

  remove : (x : A) (xs : List A) → In x xs → Without x xs
  remove x [] h = absurd h
  remove x (y ∷ xs) (inl e) = record {
    rest = xs;
    shorter = refl;
    others = λ z d h. elim h [ inl f ↦ absurd (d (sym f ∙ e)) | inr m ↦ m ];
  }
  remove x (y ∷ xs) (inr h) =
      let w = remove x xs h in
      record {
        rest = y ∷ w.rest;
        shorter = ap suc w.shorter;
        others = λ z d m. elim m [ inl f ↦ inl f | inr n ↦ inr (w.others z d n) ];
      }

  pub length_distinct :
      (xs ys : List A) → IsDistinct xs → ((x : A) → In x xs → In x ys) → length xs ≤ length ys
  length_distinct [] ys d h = omega arith
  length_distinct (x ∷ xs) ys d h =
      let w = remove x ys (h x (inl refl)) in
      omega (
        arith,
        w.shorter,
        length_distinct xs w.rest d.1 (λ y m. w.others y (λ e. d.0 (subst_In y e m)) (h y (inr m))),
      )
    where
      subst_In : (y : A) → y ≡ x → In y xs → In x xs
      subst_In y e m = subst (λ z. In z xs) e m
