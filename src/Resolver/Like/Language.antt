-- ===== src/Resolver/Like/Language.antt =====
-- The language of a LIKE pattern, and what a greedy matcher needs to know of it.
use code_scope.Prelude.{
  ◌≤◌, length, ◌≡◌, refl, sym, ◌≢◌, true, ◌⊎◌, inl, inr, [], ◌∷◌, Bytes, ◌==◌, ==→≡, Bool-cases,
  false≢true, arith, ℕ, subst,
}
use code_scope.Resolver.Like.{percent, like_byte, only_percents, behind}

pub data Likes : Bytes → Bytes → Type 0 where
  likes_end : Likes [] []
  likes_byte :
      {p t : Bytes} (c x : ℕ)
      → c ≢ percent
      → like_byte c x ≡ true
      → Likes p t
      → Likes (c ∷ p) (x ∷ t)
  likes_none : {p t : Bytes} → Likes p t → Likes (percent ∷ p) t
  likes_more : {p t : Bytes} (x : ℕ) → Likes (percent ∷ p) t → Likes (percent ∷ p) (x ∷ t)

-- The rests of a text.
pub data Suffix : Bytes → Bytes → Type 0 where
  whole : {t : Bytes} → Suffix t t
  rest : {s t : Bytes} (x : ℕ) → Suffix s t → Suffix s (x ∷ t)

pub Suffix-behind : {s t : Bytes} {y : ℕ} → Suffix (y ∷ s) t → Suffix s t
Suffix-behind {y = y} whole = rest y whole
Suffix-behind (rest x h) = rest x (Suffix-behind h)

-- A `%` takes whatever stands in front.
pub Likes-Suffix : {p s t : Bytes} → Suffix s t → Likes (percent ∷ p) s → Likes (percent ∷ p) t
Likes-Suffix whole l = l
Likes-Suffix (rest x h) l = likes_more x (Likes-Suffix h l)

-- What a `%` leaves to the pattern behind it.
pub Likes-split : {p t : Bytes} → Likes (percent ∷ p) t → (s : Bytes) × Suffix s t × Likes p s
Likes-split {t = t} (likes_none l) = (t, whole, l)
Likes-split (likes_more x l) = let (s, h, l') = Likes-split l in (s, rest x h, l')
Likes-split (likes_byte c x n e l) = absurd (n refl)

pub Likes-byte :
    {c x : ℕ} {p t : Bytes}
    → c ≢ percent
    → Likes (c ∷ p) (x ∷ t)
    → (like_byte c x ≡ true) × Likes p t
Likes-byte n (likes_byte c x m e l) = (e, l)
Likes-byte n (likes_none l) = absurd (n refl)
Likes-byte n (likes_more x l) = absurd (n refl)

-- A pattern that starts with a byte of its own takes a byte.
pub Likes-take :
    {c : ℕ} {p t : Bytes}
    → c ≢ percent
    → Likes (c ∷ p) t
    → (x : ℕ) × (s : Bytes) × (t ≡ x ∷ s) × Likes p s
Likes-take n (likes_byte {t = s} c x m e l) = (x, s, refl, l)
Likes-take n (likes_none l) = absurd (n refl)
Likes-take n (likes_more x l) = absurd (n refl)

pub Likes-nil : {p t : Bytes} → Likes p t → p ≡ [] → t ≡ []
Likes-nil likes_end e = refl
Likes-nil (likes_byte c x m e' l) e = absurd (ground arith)
Likes-nil (likes_none l) e = absurd (ground arith)
Likes-nil (likes_more x l) e = absurd (ground arith)

-- A `%` takes nothing, or a byte and then what a `%` takes.
pub Likes-unroll :
    {p t : Bytes} → Likes (percent ∷ p) t → Likes p t ⊎ Likes (percent ∷ p) (behind t)
Likes-unroll (likes_none l) = inl l
Likes-unroll (likes_more x l) = inr l
Likes-unroll (likes_byte c x n e l) = absurd (n refl)

pub Likes-roll : (p t : Bytes) → Likes p t ⊎ Likes (percent ∷ p) (behind t) → Likes (percent ∷ p) t
Likes-roll p t (inl l) = likes_none l
Likes-roll p [] (inr l) = l
Likes-roll p (x ∷ t) (inr l) = likes_more x l

pub Suffix-tail : {s t : Bytes} {y x : ℕ} → Suffix (y ∷ s) (x ∷ t) → Suffix s t
Suffix-tail whole = whole
Suffix-tail (rest x h) = Suffix-behind h

pub Suffix-of_behind : (s t : Bytes) → Suffix s (behind t) → Suffix s t
Suffix-of_behind s [] h = h
Suffix-of_behind s (x ∷ t) h = rest x h

pub length-Suffix : {s t : Bytes} → Suffix s t → length s ≤ length t
length-Suffix whole = omega arith
length-Suffix (rest x h) = omega (arith, length-Suffix h)

pub Likes-end : {p r : Bytes} → Suffix r [] → Likes p r → Likes p []
Likes-end whole l = l

pub only_percents-Likes : (p : Bytes) → only_percents p ≡ true → Likes p []
unfolding only_percents
only_percents-Likes [] h = likes_end
only_percents-Likes (c ∷ p) h = elim (Bool-cases (c == percent)) [
  | inl e ↦
      subst (λ c. Likes (c ∷ p) []) (sym (==→≡ c percent e))
        (likes_none (only_percents-Likes p (rw e at h)))
  | inr n ↦ absurd (false≢true (rw n at h))
]

pub Likes-only_percents : {p : Bytes} → Likes p [] → only_percents p ≡ true
unfolding only_percents
Likes-only_percents likes_end = refl
Likes-only_percents (likes_none l) = Likes-only_percents l
