-- ===== src/Filter/Glob/Decides.antt =====
-- `globMatch` against the language of its pattern.
use code_scope.Prelude.{
  ℕ, zero, suc, ◌≡◌, refl, sym, ap, ◌∙◌, subst, ◌≢◌, ◌||◌, ◌↔◌, ◌⊎◌, inl, inr, Bool, true, false,
  ||_cases, ||_left, ||_right, ==→≡, ==→≢, ≢→==, false≢true, [], ◌∷◌, ◌++◌, Bytes, All, ◌+◌, ◌*◌,
  ◌≤◌, ◌==◌, if◌then◌else◌, if_all, ap-if, ⊎_elim, Bool-cases, arith,
}
use code_scope.Filter.Glob.{
  star, slash, star_loop, span_loop, match_byte, match_one, match_span, is_span, glob_impl,
  glob_match, max_double_stars,
}

-- A text without a slash.
abbrev IsFlat : Bytes → Type 0
IsFlat = All (λ x. x ≢ slash)

-- The first byte of a pattern, or 0.
abbrev pub first : Bytes → ℕ
first [] = 0
first (c ∷ p) = c

-- The texts of a pattern with room for so many `**` on the way. A slash behind a `**` stands for
-- nothing, and a `**` may end in the middle of a name.
pub data Globs : ℕ → Bytes → Bytes → Type 0 where
  globs_end : {room : ℕ} → Globs room [] []
  globs_byte :
      {room : ℕ} {p s : Bytes} (c x : ℕ)
      → c ≢ star
      → (x ≡ c) ⊎ (c ≡ b'?')
      → Globs room p s
      → Globs room (c ∷ p) (x ∷ s)
  globs_star :
      {room : ℕ} {p s : Bytes} (u : Bytes)
      → first p ≢ star
      → IsFlat u
      → Globs room p s
      → Globs room (star ∷ p) (u ++ s)
  globs_span :
      {room : ℕ} {p s : Bytes} (u : Bytes)
      → first p ≢ slash
      → Globs room p s
      → Globs (suc room) (star ∷ star ∷ p) (u ++ s)
  globs_deep :
      {room : ℕ} {p s : Bytes} (u : Bytes)
      → Globs room p s
      → Globs (suc room) (star ∷ star ∷ slash ∷ p) (u ++ s)

-- The loops try every way to split the text.
module _ (rest : Bytes → Bool) where
  star_loop-split :
      (s : Bytes)
      → star_loop rest s ≡ true
      → (u v : Bytes) × (s ≡ u ++ v) × IsFlat u × (rest v ≡ true)
  unfolding star_loop
  star_loop-split [] h = ([], [], refl, tt, h)
  star_loop-split (x ∷ s) h = elim (Bool-cases (x == slash)) [
    | inl e ↦ ([], x ∷ s, refl, tt, rw (e, star_loop) at h)
    | inr n ↦ elim (||_cases (rest (x ∷ s)) (star_loop rest s) (rw (n, star_loop) at h)) [
      | inl here ↦ ([], x ∷ s, refl, tt, here)
      | inr later ↦
          let (u, v, e, flat, h') = star_loop-split s later in
          (x ∷ u, v, ap (λ t. x ∷ t) e, (==→≢ x slash n, flat), h')
    ]
  ]

  star_loop-join : (u v : Bytes) → IsFlat u → rest v ≡ true → star_loop rest (u ++ v) ≡ true
  unfolding star_loop
  star_loop-join [] [] flat h = h
  star_loop-join [] (x ∷ v) flat h = elim (Bool-cases (x == slash)) [
    | inl e ↦ rw (e, star_loop) h
    | inr n ↦ rw (n, star_loop) (||_left (rest (x ∷ v)) (star_loop rest v) h)
  ]
  star_loop-join (x ∷ u) v flat h =
      rw (≢→== x slash flat.0, star_loop)
        (||_right (rest (x ∷ (u ++ v))) (star_loop rest (u ++ v)) (star_loop-join u v flat.1 h))

  span_loop-split :
      (s : Bytes) → span_loop rest s ≡ true → (u v : Bytes) × (s ≡ u ++ v) × (rest v ≡ true)
  unfolding span_loop
  span_loop-split [] h = ([], [], refl, h)
  span_loop-split (x ∷ s) h = elim (||_cases (rest (x ∷ s)) (span_loop rest s) h) [
    | inl here ↦ ([], x ∷ s, refl, here)
    | inr later ↦ let (u, v, e, h') = span_loop-split s later in (x ∷ u, v, ap (λ t. x ∷ t) e, h')
  ]

  span_loop-join : (u v : Bytes) → rest v ≡ true → span_loop rest (u ++ v) ≡ true
  unfolding span_loop
  span_loop-join [] [] h = h
  span_loop-join [] (x ∷ v) h = ||_left (rest (x ∷ v)) (span_loop rest v) h
  span_loop-join (x ∷ u) v h =
      ||_right (rest (x ∷ (u ++ v))) (span_loop rest (u ++ v)) (span_loop-join u v h)

sound_byte :
    (c room : ℕ) (p s : Bytes)
    → c ≢ star
    → ((t : Bytes) → glob_impl p room t ≡ true → Globs room p t)
    → match_byte c (glob_impl p room) s ≡ true
    → Globs room (c ∷ p) s
unfolding match_byte
sound_byte c room p [] n ih h = ground arith
sound_byte c room p (x ∷ s) n ih h = elim (Bool-cases (x == c || c == b'?')) [
  | inl e ↦
      globs_byte c x n
        (⊎_elim (λ a. inl (==→≡ x c a)) (λ b. inr (==→≡ c b'?' b))
          (||_cases (x == c) (c == b'?') e))
        (ih s (rw (e, match_byte) at h))
  | inr e ↦ absurd (false≢true (rw (e, match_byte) at h))
]

-- One round of the matcher, for what the rest of the pattern matches.
sound_one :
    (c room : ℕ) (p s : Bytes)
    → is_span c (first p) ≡ false
    → ((t : Bytes) → glob_impl p room t ≡ true → Globs room p t)
    → match_one c (glob_impl p room) s ≡ true
    → Globs room (c ∷ p) s
unfolding match_one match_byte
sound_one c room p s one ih h = elim (Bool-cases (c == star)) [
  | inl e ↦
      let (u, v, e', flat, h') = star_loop-split (glob_impl p room) s (rw (e, match_one) at h) in
      let c≡ = ==→≡ c star e in
      let p≢ = ==→≢ (first p) star (rw (e, is_span) at one) in
      subst (λ d. Globs room (d ∷ p) s) (sym c≡)
        (subst (λ t. Globs room (star ∷ p) t) (sym e') (globs_star u p≢ flat (ih v h')))
  | inr n ↦ sound_byte c room p s (==→≢ c star n) ih (rw (n, match_one) at h)
]

sound_span :
    (room : ℕ) (p q s : Bytes)
    → ((room : ℕ) (u t : Bytes) → Globs room q t → Globs (suc room) (star ∷ star ∷ p) (u ++ t))
    → ((room : ℕ) (t : Bytes) → glob_impl q room t ≡ true → Globs room q t)
    → match_span room (glob_impl q) s ≡ true
    → Globs room (star ∷ star ∷ p) s
unfolding match_span
sound_span zero p q s make ih h = absurd (false≢true h)
sound_span (suc room) p q s make ih h =
    let (u, v, e, h') = span_loop-split (glob_impl q room) s h in
    subst (λ t. Globs (suc room) (star ∷ star ∷ p) t) (sym e) (make room u v (ih room v h'))

no_span : (c : ℕ) → is_span c 0 ≡ false
no_span c = ground arith

is_span→ : (c d : ℕ) → is_span c d ≡ true → (c ≡ star) × (d ≡ star)
is_span→ c d h = ground arith

-- What stands behind a `**`.
abbrev skip_slash : Bytes → Bytes
skip_slash [] = []
skip_slash (e ∷ p) = if e == slash then p else e ∷ p

glob_impl-one :
    (c : ℕ) (p : Bytes) (room : ℕ) (s : Bytes)
    → is_span c (first p) ≡ false
    → glob_impl (c ∷ p) room s ≡ match_one c (glob_impl p room) s
unfolding glob_impl
glob_impl-one c [] room s h = refl
glob_impl-one c (d ∷ []) room s h = rw (h, glob_impl)
glob_impl-one c (d ∷ e ∷ p) room s h = rw (h, glob_impl)

glob_impl-span :
    (p : Bytes) (room : ℕ) (s : Bytes)
    → glob_impl (star ∷ star ∷ p) room s ≡ match_span room (glob_impl (skip_slash p)) s
unfolding glob_impl
glob_impl-span [] room s = refl
glob_impl-span (e ∷ p) room s =
    ap (λ g. match_span room g s) (sym (ap-if glob_impl (e == slash) p (e ∷ p)))

Globs-past :
    (p : Bytes) (room : ℕ) (u t : Bytes)
    → Globs room (skip_slash p) t
    → Globs (suc room) (star ∷ star ∷ p) (u ++ t)
Globs-past [] room u t g = globs_span u (ground arith) g
Globs-past (e ∷ p) room u t g = elim (Bool-cases (e == slash)) [
  | inl y ↦
      subst (λ e. Globs (suc room) (star ∷ star ∷ e ∷ p) (u ++ t)) (sym (==→≡ e slash y))
        (globs_deep u (rw y at g))
  | inr n ↦ globs_span u (==→≢ e slash n) (rw n at g)
]

sound_two :
    (c d : ℕ) (p : Bytes) (room : ℕ) (s : Bytes)
    → ((t : Bytes) → glob_impl (d ∷ p) room t ≡ true → Globs room (d ∷ p) t)
    → ((r : ℕ) (t : Bytes) → glob_impl (skip_slash p) r t ≡ true → Globs r (skip_slash p) t)
    → glob_impl (c ∷ d ∷ p) room s ≡ true
    → Globs room (c ∷ d ∷ p) s
sound_two c d p room s one span h = elim (Bool-cases (is_span c d)) [
  | inl y ↦
      let (c≡, d≡) = is_span→ c d y in
      let h' : glob_impl (star ∷ star ∷ p) room s ≡ true = rw (c≡, d≡) at h in
      rw (c≡, d≡)
        (sound_span room p (skip_slash p) s (Globs-past p) span
          (sym (glob_impl-span p room s) ∙ h'))
  | inr n ↦ sound_one c room (d ∷ p) s n one (sym (glob_impl-one c (d ∷ p) room s n) ∙ h)
]

-- What the matcher accepts is in the pattern's language.
glob_impl_sound : (p : Bytes) (room : ℕ) (s : Bytes) → glob_impl p room s ≡ true → Globs room p s
unfolding glob_impl
glob_impl_sound [] room [] h = globs_end
glob_impl_sound [] room (x ∷ s) h = absurd (false≢true h)
glob_impl_sound (c ∷ []) room s h = sound_one c room [] s (no_span c) (glob_impl_sound [] room) h
glob_impl_sound (c ∷ d ∷ []) room s h =
    sound_two c d [] room s (glob_impl_sound (d ∷ []) room) (glob_impl_sound []) h
glob_impl_sound (c ∷ d ∷ e ∷ p) room s h =
    sound_two c d (e ∷ p) room s (glob_impl_sound (d ∷ e ∷ p) room)
      (if_all (λ q. (r : ℕ) (t : Bytes) → glob_impl q r t ≡ true → Globs r q t) (e == slash) p
        (e ∷ p) (glob_impl_sound p) (glob_impl_sound (e ∷ p)))
      h

other_byte : (c d : ℕ) → c ≢ star → is_span c d ≡ false
other_byte c d n = ground arith

one_star : (c d : ℕ) → d ≢ star → is_span c d ≡ false
one_star c d n = ground arith

skip_slash-other : (p : Bytes) → first p ≢ slash → skip_slash p ≡ p
skip_slash-other [] n = refl
skip_slash-other (e ∷ p) n = rw (≢→== e slash n)

match_one-byte :
    (c x : ℕ) (rest : Bytes → Bool) (s : Bytes)
    → c ≢ star
    → (x ≡ c) ⊎ (c ≡ b'?')
    → rest s ≡ true
    → match_one c rest (x ∷ s) ≡ true
unfolding match_one match_byte
match_one-byte c x rest s n e h = ground arith

-- It accepts all of it.
glob_impl_complete : {room : ℕ} {p s : Bytes} → Globs room p s → glob_impl p room s ≡ true
unfolding glob_impl match_one match_span
glob_impl_complete globs_end = refl
glob_impl_complete {room} (globs_byte {p = p} {s = s} c x n e g) =
    glob_impl-one c p room (x ∷ s) (other_byte c (first p) n)
    ∙ match_one-byte c x (glob_impl p room) s n e (glob_impl_complete g)
glob_impl_complete {room} (globs_star {p = p} {s = s} u n flat g) =
    glob_impl-one star p room (u ++ s) (one_star star (first p) n)
    ∙ star_loop-join (glob_impl p room) u s flat (glob_impl_complete g)
glob_impl_complete (globs_span {room = r} {p = p} {s = s} u n g) =
    glob_impl-span p (suc r) (u ++ s)
    ∙ span_loop-join (glob_impl (skip_slash p) r) u s
        (rw (skip_slash-other p n) (glob_impl_complete g))
glob_impl_complete (globs_deep {room = r} {p = p} {s = s} u g) =
    span_loop-join (glob_impl p r) u s (glob_impl_complete g)

-- The matcher accepts exactly the texts of the pattern, with at most eight `**` on the way.
pub glob_match-Globs :
    (pattern text : Bytes) → (glob_match pattern text ≡ true) ↔ Globs max_double_stars pattern text
unfolding glob_match
glob_match-Globs pattern text = (glob_impl_sound pattern max_double_stars text, glob_impl_complete)

abbrev stars : Bytes → ℕ
stars [] = 0
stars (c ∷ p) = (if c == star then 1 else 0) + stars p

-- Room for half of the stars is all the room a pattern can use.
Globs-stars :
    {room : ℕ} {p s : Bytes} → Globs room p s → (k : ℕ) → stars p ≤ 2 * k + 1 → Globs k p s
Globs-stars globs_end k h = globs_end
Globs-stars (globs_byte {p = p} c x n e g) k h = globs_byte c x n e (Globs-stars g k (omega arith))
Globs-stars (globs_star u n flat g) k h = globs_star u n flat (Globs-stars g k (omega arith))
Globs-stars (globs_span u n g) zero h = absurd (ground arith)
Globs-stars (globs_span u n g) (suc k) h = globs_span u n (Globs-stars g k (omega arith))
Globs-stars (globs_deep u g) zero h = absurd (ground arith)
Globs-stars (globs_deep u g) (suc k) h = globs_deep u (Globs-stars g k (omega arith))

-- On a pattern of at most 17 stars the limit of eight changes nothing: what matches with any
-- number of `**` on the way is accepted.
pub glob_match-stars :
    (room : ℕ) (pattern text : Bytes)
    → stars pattern ≤ 17
    → Globs room pattern text
    → glob_match pattern text ≡ true
unfolding glob_match
glob_match-stars room pattern text h g = glob_impl_complete (Globs-stars g max_double_stars h)
