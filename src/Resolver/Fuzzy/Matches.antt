-- ===== src/Resolver/Fuzzy/Matches.antt =====
-- What a LIKE pattern with one `%` at an end and no other wildcard matches.
use code_scope.Prelude.{
  ℕ, Bool, true, false, ◌||◌, Option, some, [], ◌∷◌, ◌++◌, append_assoc, append-nil, Bytes, ◌==◌,
  All, ◌≡◌, refl, sym, ap, ◌∙◌, subst, ◌≢◌, inl, inr, Bool-cases, ||_cases, ||_right, ==→≡, ==→≢,
  ==_refl, arith, false≢true,
}
use code_scope.Resolver.Text.{has_byte, starts_with, starts_with-append}
use code_scope.Resolver.Like.{percent, like_fold, like_byte, sqlite_like_match}
use code_scope.Resolver.Like.Language.{
  Likes, likes_end, likes_byte, likes_none, likes_more, Suffix, whole, rest, Likes-Suffix,
  Likes-split, Likes-byte, Likes-take,
}
use code_scope.Resolver.Like.Decides.{Decides, sqlite_like_match-Decides}
use code_scope.Resolver.Fuzzy.{fold_name, backwards, has_wildcard}

-- No `%` and no `_`.
abbrev pub IsPlain : Bytes → Type 0
IsPlain = All (λ c. (c ≢ percent) × (c ≢ b'_'))

pub has_wildcard-IsPlain : (s : Bytes) → has_wildcard s ≡ false → IsPlain s
has_wildcard-IsPlain [] h = tt
has_wildcard-IsPlain (c ∷ s) h = elim (Bool-cases (c == percent)) [
  | inl y ↦ absurd (false≢true (sym h ∙ rw y refl))
  | inr n ↦ elim (Bool-cases (c == b'_')) [
    | inl y ↦ absurd (
        false≢true (
          sym h
          ∙ ||_right (c == percent || has_byte percent s) (c == b'_' || has_byte b'_' s)
              (rw y refl)))
    | inr m ↦ ((==→≢ c percent n, ==→≢ c b'_' m), has_wildcard-IsPlain s (rw (n, m) at h))
  ]
]

-- A byte that is no wildcard matches the bytes that fold alike.
like_byte_plain : (c x : ℕ) → c ≢ b'_' → like_byte c x ≡ true → like_fold c ≡ like_fold x
unfolding like_byte
like_byte_plain c x d h = elim (||_cases (c == b'_') (like_fold c == like_fold x) h) [
  | inl y ↦ absurd (d (==→≡ c b'_' y))
  | inr y ↦ ==→≡ (like_fold c) (like_fold x) y
]

like_byte_folded : (c x : ℕ) → like_fold c ≡ like_fold x → like_byte c x ≡ true
unfolding like_byte
like_byte_folded c x h = elim (Bool-cases (c == b'_')) [
  | inl y ↦ rw y refl
  | inr n ↦ rw n (rw h (==_refl (like_fold x)))
]

Likes-any : (t : Bytes) → Likes (percent ∷ []) t
Likes-any [] = likes_none likes_end
Likes-any (x ∷ t) = likes_more x (Likes-any t)

-- A prefix pattern.
Likes-prefix :
    (p t : Bytes)
    → IsPlain p
    → Likes (p ++ percent ∷ []) t
    → starts_with (fold_name p) (fold_name t) ≡ true
unfolding fold_name starts_with
Likes-prefix [] t plain l = refl
Likes-prefix (c ∷ p) [] plain l =
    let (x, s, e, l') = Likes-take plain.0.0 l in absurd (ground (arith, e))
Likes-prefix (c ∷ p) (x ∷ t) plain l =
    let (m, l') = Likes-byte plain.0.0 l in
    let same = like_byte_plain c x plain.0.1 m in
    rw (sym same, ==_refl (like_fold c)) (Likes-prefix p t plain.1 l')

prefix-Likes :
    (p t : Bytes)
    → IsPlain p
    → starts_with (fold_name p) (fold_name t) ≡ true
    → Likes (p ++ percent ∷ []) t
unfolding fold_name starts_with
prefix-Likes [] t plain h = Likes-any t
prefix-Likes (c ∷ p) [] plain h = absurd (false≢true h)
prefix-Likes (c ∷ p) (x ∷ t) plain h = elim (Bool-cases (like_fold x == like_fold c)) [
  | inr n ↦ absurd (false≢true (rw n at h))
  | inl y ↦
      likes_byte c x plain.0.0 (like_byte_folded c x (sym (==→≡ (like_fold x) (like_fold c) y)))
        (prefix-Likes p t plain.1 (rw y at h))
]

-- A pattern without a wildcard.
Likes-fold : (p t : Bytes) → IsPlain p → Likes p t → fold_name p ≡ fold_name t
unfolding fold_name
Likes-fold [] t plain likes_end = refl
Likes-fold (c ∷ p) [] plain l =
    let (x, s, e, l') = Likes-take plain.0.0 l in absurd (ground (arith, e))
Likes-fold (c ∷ p) (x ∷ t) plain l =
    let (m, l') = Likes-byte plain.0.0 l in
    ap (λ d. d ∷ fold_name p) (like_byte_plain c x plain.0.1 m)
    ∙ ap (λ r. like_fold x ∷ r) (Likes-fold p t plain.1 l')

head_of : ℕ → Bytes → ℕ
head_of d [] = d
head_of d (c ∷ s) = c

tail_of : Bytes → Bytes
tail_of [] = []
tail_of (c ∷ s) = s

fold-Likes : (p t : Bytes) → IsPlain p → fold_name p ≡ fold_name t → Likes p t
unfolding fold_name head_of tail_of
fold-Likes [] [] plain e = likes_end
fold-Likes [] (x ∷ t) plain e = absurd (ground (arith, e))
fold-Likes (c ∷ p) [] plain e = absurd (ground (arith, e))
fold-Likes (c ∷ p) (x ∷ t) plain e =
    likes_byte c x plain.0.0 (like_byte_folded c x (ap (head_of 0) e))
      (fold-Likes p t plain.1 (ap tail_of e))

fold_name-append : (s t : Bytes) → fold_name (s ++ t) ≡ fold_name s ++ fold_name t
unfolding fold_name
fold_name-append [] t = refl
fold_name-append (c ∷ s) t = ap (λ r. like_fold c ∷ r) (fold_name-append s t)

backwards-append : (s t : Bytes) → backwards (s ++ t) ≡ backwards t ++ backwards s
unfolding backwards
backwards-append [] t = sym (append-nil (backwards t))
backwards-append (c ∷ s) t =
    ap (λ r. r ++ c ∷ []) (backwards-append s t) ∙ append_assoc (backwards t) (backwards s) (c ∷ [])

backwards-backwards : (s : Bytes) → backwards (backwards s) ≡ s
unfolding backwards
backwards-backwards [] = refl
backwards-backwards (c ∷ s) =
    backwards-append (backwards s) (c ∷ []) ∙ ap (λ r. c ∷ r) (backwards-backwards s)

starts_with_rest : (p s : Bytes) → starts_with p s ≡ true → (u : Bytes) × (s ≡ p ++ u)
unfolding starts_with
starts_with_rest [] s h = (s, refl)
starts_with_rest (c ∷ p) [] h = absurd (false≢true h)
starts_with_rest (c ∷ p) (x ∷ s) h = elim (Bool-cases (x == c)) [
  | inr n ↦ absurd (false≢true (rw n at h))
  | inl y ↦
      let (u, e) = starts_with_rest p s (rw y at h) in
      (u, ap (λ d. d ∷ s) (==→≡ x c y) ∙ ap (λ r. c ∷ r) e)
]

Suffix-append : {s t : Bytes} → Suffix s t → (q : Bytes) × (t ≡ q ++ s)
Suffix-append whole = ([], refl)
Suffix-append (rest x h) = let (q, e) = Suffix-append h in (x ∷ q, ap (λ r. x ∷ r) e)

append-Suffix : (q s : Bytes) → Suffix s (q ++ s)
append-Suffix [] s = whole
append-Suffix (x ∷ q) s = rest x (append-Suffix q s)

-- A text whose folded form ends in one part ends in a text that folds to it.
fold_split :
    (t a b : Bytes)
    → fold_name t ≡ a ++ b
    → (q : Bytes) × (s : Bytes) × (t ≡ q ++ s) × (fold_name s ≡ b)
unfolding fold_name tail_of
fold_split t [] b e = ([], t, refl, e)
fold_split [] (c ∷ a) b e = absurd (ground (arith, e))
fold_split (x ∷ t) (c ∷ a) b e =
    let (q, s, f, g) = fold_split t a b (ap tail_of e) in (x ∷ q, s, ap (λ r. x ∷ r) f, g)

-- A suffix pattern.
Likes-suffix :
    (s t : Bytes)
    → IsPlain s
    → Likes (percent ∷ s) t
    → starts_with (backwards (fold_name s)) (backwards (fold_name t)) ≡ true
Likes-suffix s t plain l =
    let (r, suffix, l') = Likes-split l in
    let (q, e) = Suffix-append suffix in
    let folded : fold_name t ≡ fold_name q ++ fold_name s =
      ap fold_name e
      ∙ fold_name-append q r
      ∙ ap (λ x. fold_name q ++ x) (sym (Likes-fold s r plain l')) in
    let turned = ap backwards folded ∙ backwards-append (fold_name q) (fold_name s) in
    subst (λ x. starts_with (backwards (fold_name s)) x ≡ true) (sym turned)
      (starts_with-append (backwards (fold_name s)) (backwards (fold_name q)))

suffix-Likes :
    (s t : Bytes)
    → IsPlain s
    → starts_with (backwards (fold_name s)) (backwards (fold_name t)) ≡ true
    → Likes (percent ∷ s) t
suffix-Likes s t plain h =
    let (u, e) = starts_with_rest (backwards (fold_name s)) (backwards (fold_name t)) h in
    let folded : fold_name t ≡ backwards u ++ fold_name s =
      sym (backwards-backwards (fold_name t))
      ∙ ap backwards e
      ∙ backwards-append (backwards (fold_name s)) u
      ∙ ap (λ x. backwards u ++ x) (backwards-backwards (fold_name s)) in
    let (q, r, f, g) = fold_split t (backwards u) (fold_name s) folded in
    subst (Likes (percent ∷ s)) (sym f)
      (Likes-Suffix (append-Suffix q r) (likes_none (fold-Likes s r plain (sym g))))

decided :
    {P : Type 0} (o : Option Bool) (b : Bool)
    → Decides o P
    → (P → b ≡ true)
    → (b ≡ true → P)
    → o ≡ some b
decided o true (r, e, (to, from)) f g = e ∙ ap some (from (g refl))
decided o false (true, e, (to, from)) f g = absurd (false≢true (f (to refl)))
decided o false (false, e, (to, from)) f g = e

-- On a prefix without a wildcard, LIKE with `%` behind it is a comparison of folded names.
pub sqlite_like_match-prefix :
    (p t : Bytes)
    → IsPlain p
    → sqlite_like_match (p ++ percent ∷ []) t ≡ some (starts_with (fold_name p) (fold_name t))
sqlite_like_match-prefix p t plain =
    decided _ _ (sqlite_like_match-Decides (p ++ percent ∷ []) t) (Likes-prefix p t plain)
      (prefix-Likes p t plain)

-- The same for a suffix, with the names reversed.
pub sqlite_like_match-suffix :
    (s t : Bytes)
    → IsPlain s
    → sqlite_like_match (percent ∷ s) t
      ≡ some (starts_with (backwards (fold_name s)) (backwards (fold_name t)))
sqlite_like_match-suffix s t plain =
    decided _ _ (sqlite_like_match-Decides (percent ∷ s) t) (Likes-suffix s t plain)
      (suffix-Likes s t plain)
