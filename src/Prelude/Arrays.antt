-- ===== src/Prelude/Arrays.antt =====
-- Lists read and written by position.
use Prim.Native.Nat.{ℕ, zero, suc, ◌≤◌, ◌<◌}
use mathlib.Core.Path.{◌≡◌, refl, ap, subst}
use mathlib.Core.Logic.{◌≢◌}
use mathlib.Core.Option
use mathlib.Core.Option.{Option, none, some}
use mathlib.Core.List.{List, [], ◌∷◌, ◌++◌}
use native.Mathlib.Omega.{arith}
use code_scope.Prelude.Lists.{length}

module _ {ℓ} {A : Type ℓ} where
  abbrev pub get_elem? : List A → ℕ → Option A
  get_elem? [] i = none
  get_elem? (x ∷ xs) zero = some x
  get_elem? (x ∷ xs) (suc i) = get_elem? xs i

  -- Writing through a reference to one element.
  abbrev pub modify_at : ℕ → (A → A) → List A → List A
  modify_at i f [] = []
  modify_at zero f (x ∷ xs) = f x ∷ xs
  modify_at (suc i) f (x ∷ xs) = x ∷ modify_at i f xs

  pub get_elem?_inside : (xs : List A) (i : ℕ) → i < length xs → (x : A) × (get_elem? xs i ≡ some x)
  get_elem?_inside [] i h = absurd (omega (arith, h))
  get_elem?_inside (x ∷ xs) zero h = (x, refl)
  get_elem?_inside (x ∷ xs) (suc i) h = get_elem?_inside xs i (omega (arith, h))

  pub get_elem?_outside : (xs : List A) (i : ℕ) → length xs ≤ i → get_elem? xs i ≡ none
  get_elem?_outside [] i h = refl
  get_elem?_outside (x ∷ xs) zero h = absurd (omega (arith, h))
  get_elem?_outside (x ∷ xs) (suc i) h = get_elem?_outside xs i (omega (arith, h))

  pub get_elem?-append_left :
      (xs ys : List A) (i : ℕ) → i < length xs → get_elem? (xs ++ ys) i ≡ get_elem? xs i
  get_elem?-append_left [] ys i h = absurd (omega (arith, h))
  get_elem?-append_left (x ∷ xs) ys zero h = refl
  get_elem?-append_left (x ∷ xs) ys (suc i) h = get_elem?-append_left xs ys i (omega (arith, h))

  pub get_elem?-append_length :
      (xs : List A) (y : A) → get_elem? (xs ++ y ∷ []) (length xs) ≡ some y
  get_elem?-append_length [] y = refl
  get_elem?-append_length (x ∷ xs) y = get_elem?-append_length xs y

  pub length-modify_at : (i : ℕ) (f : A → A) (xs : List A) → length (modify_at i f xs) ≡ length xs
  length-modify_at i f [] = refl
  length-modify_at zero f (x ∷ xs) = refl
  length-modify_at (suc i) f (x ∷ xs) = omega (arith, length-modify_at i f xs)

  pub modify_at_here :
      (i : ℕ) (f : A → A) (xs : List A)
      → get_elem? (modify_at i f xs) i ≡ Option.map f (get_elem? xs i)
  modify_at_here i f [] = refl
  modify_at_here zero f (x ∷ xs) = refl
  modify_at_here (suc i) f (x ∷ xs) = modify_at_here i f xs

  pub modify_at_past :
      (i j : ℕ) (f : A → A) (xs : List A) → i ≢ j → get_elem? (modify_at i f xs) j ≡ get_elem? xs j
  modify_at_past i j f [] h = refl
  modify_at_past zero zero f (x ∷ xs) h = absurd (h refl)
  modify_at_past zero (suc j) f (x ∷ xs) h = refl
  modify_at_past (suc i) zero f (x ∷ xs) h = refl
  modify_at_past (suc i) (suc j) f (x ∷ xs) h = modify_at_past i j f xs (λ e. h (omega (arith, e)))

pub some_inj {ℓ} : {A : Type ℓ} (a b : A) → some a ≡ some b → a ≡ b
some_inj a b e = ap (λ o. elim o [ none ↦ a | some c ↦ c ]) e

-- What holds of every element at its position holds of one more that is pushed.
pub get_elem?-push {ℓ κ} :
    {A : Type ℓ} (P : ℕ → A → Type κ) (xs : List A) (y : A)
    → ((i : ℕ) (x : A) → get_elem? xs i ≡ some x → P i x)
    → P (length xs) y
    → (i : ℕ) (x : A) → get_elem? (xs ++ y ∷ []) i ≡ some x
    → P i x
get_elem?-push P [] y h p zero x e = subst (P 0) (some_inj y x e) p
get_elem?-push P [] y h p (suc i) x e = absurd (ground (arith, e))
get_elem?-push P (z ∷ xs) y h p zero x e = h zero x e
get_elem?-push P (z ∷ xs) y h p (suc i) x e =
    get_elem?-push (λ j. P (suc j)) xs y (λ j. h (suc j)) p i x e
