-- ===== src/Resolver/Text.antt =====
-- The string operations that the factors use.
use code_scope.Prelude.{
  ℕ, ◌+◌, Bool, true, false, ◌&&◌, ◌||◌, List, [], ◌∷◌, ◌++◌, Bytes, bytes_eq, leb, ◌==◌,
  if◌then◌else◌, All, ◌≡◌, refl, inl, inr, ||_cases, ==→≡, ==_refl, Bool-cases, false≢true, subst,
  sym, ap,
}

-- `std::tolower` in the classic locale.
unfoldable pub to_lower : ℕ → ℕ
to_lower c = if leb b'A' c && leb c b'Z' then c + 32 else c

unfoldable pub lower : Bytes → Bytes
unfolding to_lower
lower [] = []
lower (c ∷ s) = to_lower c ∷ lower s

abbrev pub has_byte : ℕ → Bytes → Bool
has_byte d [] = false
has_byte d (c ∷ s) = c == d || has_byte d s

-- `rfind` and `substr`: from the last byte of a kind on, or nothing.
unfoldable pub from_last : ℕ → Bytes → Bytes
from_last d [] = []
from_last d (c ∷ s) =
    let later = from_last d s in if has_byte d s then later else if c == d then c ∷ s else []

-- What stands before the last byte of a kind, or nothing.
unfoldable pub before_last : ℕ → Bytes → Bytes
before_last d [] = []
before_last d (c ∷ s) = let later = before_last d s in if has_byte d s then c ∷ later else []

-- What stands behind the last byte of a kind, or the whole text.
unfoldable pub after_last : ℕ → Bytes → Bytes
after_last d [] = []
after_last d (c ∷ s) =
    let later = after_last d s in if has_byte d s then later else if c == d then s else c ∷ s

unfoldable pub starts_with : Bytes → Bytes → Bool
starts_with [] s = true
starts_with (c ∷ p) [] = false
starts_with (c ∷ p) (x ∷ s) = x == c && starts_with p s

unfoldable pub contains : Bytes → Bytes → Bool
unfolding starts_with
contains p [] = starts_with p []
contains p (x ∷ s) = starts_with p (x ∷ s) || contains p s

-- A text is one of a list.
unfoldable pub one_of : Bytes → List Bytes → Bool
one_of s [] = false
one_of s (t ∷ ts) = bytes_eq s t || one_of s ts

pub bytes_eq_refl : (s : Bytes) → bytes_eq s s ≡ true
bytes_eq_refl [] = refl
bytes_eq_refl (c ∷ s) = rw (==_refl c) (bytes_eq_refl s)

pub bytes_eq→≡ : (s t : Bytes) → bytes_eq s t ≡ true → s ≡ t
bytes_eq→≡ [] [] h = refl
bytes_eq→≡ [] (d ∷ t) h = absurd (false≢true h)
bytes_eq→≡ (c ∷ s) [] h = absurd (false≢true h)
bytes_eq→≡ (c ∷ s) (d ∷ t) h = elim (Bool-cases (c == d)) [
  | inl e ↦
      subst (λ d. (c ∷ s) ≡ (d ∷ t)) (==→≡ c d e) (ap (λ u. c ∷ u) (bytes_eq→≡ s t (rw e at h)))
  | inr n ↦ absurd (false≢true (rw n at h))
]

-- What holds of every text of a list holds of a text that is one of them.
pub one_of-All {ℓ} :
    (P : Bytes → Type ℓ) (s : Bytes) (ts : List Bytes) → All P ts → one_of s ts ≡ true → P s
unfolding one_of
one_of-All P s [] h e = absurd (false≢true e)
one_of-All P s (t ∷ ts) h e = elim (||_cases (bytes_eq s t) (one_of s ts) e) [
  | inl here ↦ subst P (sym (bytes_eq→≡ s t here)) h.0
  | inr later ↦ one_of-All P s ts h.1 later
]

pub starts_with-append : (p s : Bytes) → starts_with p (p ++ s) ≡ true
unfolding starts_with
starts_with-append [] s = refl
starts_with-append (c ∷ p) s = rw (==_refl c) (starts_with-append p s)
