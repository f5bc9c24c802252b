-- ===== src/Prelude/Members.antt =====
-- Membership in a list, and association lists whose newest entry counts.
use Prim.Native.Nat.{ℕ}
use mathlib.Core.Path.{◌≡◌, refl, sym, ap, subst}
use mathlib.Core.Logic.{◌≢◌, ◌⊎◌, inl, inr}
use mathlib.Core.Bool.{Bool, true, false, ◌||◌, false≢true}
use mathlib.Core.Option.{Option, none, some}
use mathlib.Core.List.{List, [], ◌∷◌, ◌++◌, map}
use native.Mathlib.Omega.{arith}
use code_scope.Prelude.Tests.{◌==◌, if◌then◌else◌, Bool-cases, ==→≡, ≢→==, ==_refl}
use code_scope.Prelude.Lists.{All}

-- Where an element stands in a list; at concrete data it computes to a sum of equations.
abbrev pub In : {A : Type 0} → A → List A → Type 0
In x [] = ⊥
In x (y ∷ ys) = (y ≡ x) ⊎ In x ys

module _ {A : Type 0} where
  pub In-append_left : (x : A) (xs ys : List A) → In x xs → In x (xs ++ ys)
  In-append_left x [] ys h = absurd h
  In-append_left x (y ∷ xs) ys (inl e) = inl e
  In-append_left x (y ∷ xs) ys (inr h) = inr (In-append_left x xs ys h)

  pub In-append_right : (x : A) (xs ys : List A) → In x ys → In x (xs ++ ys)
  In-append_right x [] ys h = h
  In-append_right x (y ∷ xs) ys h = inr (In-append_right x xs ys h)

  pub In-append_cases : (x : A) (xs ys : List A) → In x (xs ++ ys) → In x xs ⊎ In x ys
  In-append_cases x [] ys h = inr h
  In-append_cases x (y ∷ xs) ys (inl e) = inl (inl e)
  In-append_cases x (y ∷ xs) ys (inr h) = elim (In-append_cases x xs ys h) [
    | inl l ↦ inl (inr l)
    | inr r ↦ inr r
  ]

  pub All-In {κ} : (P : A → Type κ) (xs : List A) → All P xs → (x : A) → In x xs → P x
  All-In P [] h x m = absurd m
  All-In P (y ∷ xs) h x (inl e) = subst P e h.0
  All-In P (y ∷ xs) h x (inr m) = All-In P xs h.1 x m

  pub In-All {κ} : (P : A → Type κ) (xs : List A) → ((x : A) → In x xs → P x) → All P xs
  In-All P [] h = tt
  In-All P (y ∷ xs) h = (h y (inl refl), In-All P xs (λ x m. h x (inr m)))

  pub All-append {κ} : (P : A → Type κ) (xs ys : List A) → All P xs → All P ys → All P (xs ++ ys)
  All-append P [] ys h k = k
  All-append P (x ∷ xs) ys h k = (h.0, All-append P xs ys h.1 k)

  -- No element twice.
  abbrev pub IsDistinct : List A → Type 0
  IsDistinct [] = Unit
  IsDistinct (x ∷ xs) = ¬ In x xs × IsDistinct xs

  pub IsDistinct-snoc :
      (xs : List A) (x : A) → IsDistinct xs → ¬ In x xs → IsDistinct (xs ++ x ∷ [])
  IsDistinct-snoc [] x d h = (λ m. m, tt)
  IsDistinct-snoc (y ∷ xs) x d h = (
    λ m. elim (In-append_cases y xs (x ∷ []) m) [
      | inl l ↦ d.0 l
      | inr (inl e) ↦ h (inl (sym e))
      | inr (inr m) ↦ m
    ],
    IsDistinct-snoc xs x d.1 (λ m. h (inr m)),
  )

pub In-map : {A B : Type 0} (f : A → B) (x : A) (xs : List A) → In x xs → In (f x) (map f xs)
In-map f x [] h = absurd h
In-map f x (y ∷ xs) (inl e) = inl (ap f e)
In-map f x (y ∷ xs) (inr h) = inr (In-map f x xs h)

-- `std::unordered_set<uint64_t>::count`.
abbrev pub member : ℕ → List ℕ → Bool
member k [] = false
member k (j ∷ js) = j == k || member k js

pub member→In : (k : ℕ) (js : List ℕ) → member k js ≡ true → In k js
member→In k [] h = absurd (false≢true h)
member→In k (j ∷ js) h = elim (Bool-cases (j == k)) [
  | inl y ↦ inl (==→≡ j k y)
  | inr n ↦ inr (member→In k js (rw n at h))
]

pub In→member : (k : ℕ) (js : List ℕ) → In k js → member k js ≡ true
In→member k [] h = absurd h
In→member k (j ∷ js) (inl e) = rw (e, ==_refl k)
In→member k (j ∷ js) (inr h) = elim (Bool-cases (j == k)) [
  | inl y ↦ rw y
  | inr n ↦ rw n (In→member k js h)
]

module _ {ℓ} {V : Type ℓ} where
  -- `std::unordered_map<uint64_t, V>::find`; an entry in front is one that was stored later.
  abbrev pub find : ℕ → List (ℕ × V) → Option V
  find k [] = none
  find k ((j, v) ∷ m) = if j == k then some v else find k m

  pub find_here : (k : ℕ) (v : V) (m : List (ℕ × V)) → find k ((k, v) ∷ m) ≡ some v
  find_here k v m = rw (==_refl k)

  pub find_past : (k j : ℕ) (v : V) (m : List (ℕ × V)) → j ≢ k → find k ((j, v) ∷ m) ≡ find k m
  find_past k j v m h = rw (≢→== j k h)

  abbrev pub keys : List (ℕ × V) → List ℕ
  keys [] = []
  keys ((k, v) ∷ m) = k ∷ keys m

  pub find-keys : (k : ℕ) (m : List (ℕ × V)) (v : V) → find k m ≡ some v → In k (keys m)
  find-keys k [] v h = absurd (ground arith)
  find-keys k ((j, w) ∷ m) v h = elim (Bool-cases (j == k)) [
    | inl y ↦ inl (==→≡ j k y)
    | inr n ↦ inr (find-keys k m v (rw n at h))
  ]
