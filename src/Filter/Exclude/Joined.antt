-- ===== src/Filter/Exclude/Joined.antt =====
-- `loadExcludeEnv` on a value that the server joined.
use code_scope.Prelude.{
  ℕ, true, false, ◌||◌, some, List, [], ◌∷◌, ◌++◌, append_assoc, append-nil, Bytes, All, ◌==◌, ◌≡◌,
  refl, sym, ap, ◌∙◌, ◌≢◌, inl, inr, Bool-cases, arith, subst,
}
use code_scope.Json.Escape.{backslash}
use code_scope.Filter.Trim.{IsTight, trim-IsTight}
use code_scope.Filter.Exclude.{
  comma, is_margin, add_pattern, trimmed, flush, is_escape, split_loop, load_exclude_env,
  escape_exclude_byte, escape_exclude_pattern, join_exclude_patterns,
}

plain-no_escape : (c d : ℕ) → (c == backslash || c == comma) ≡ false → is_escape c d ≡ false
plain-no_escape c d h = ground arith

plain-no_comma : (c : ℕ) → (c == backslash || c == comma) ≡ false → (c == comma) ≡ false
plain-no_comma c h = ground arith

special-is_escape : (c : ℕ) → (c == backslash || c == comma) ≡ true → is_escape backslash c ≡ true
special-is_escape c h = ground arith

split_loop-plain :
    (patterns : List Bytes) (pat : Bytes) (c : ℕ) (s : Bytes)
    → (c == backslash || c == comma) ≡ false
    → split_loop patterns pat (c ∷ s) ≡ split_loop patterns (pat ++ c ∷ []) s
unfolding split_loop
split_loop-plain patterns pat c [] h = rw (plain-no_comma c h, split_loop)
split_loop-plain patterns pat c (d ∷ s) h =
    rw (plain-no_escape c d h, split_loop) (rw (plain-no_comma c h, split_loop))

escape-special :
    (c : ℕ) → (c == backslash || c == comma) ≡ true → escape_exclude_byte c ≡ backslash ∷ c ∷ []
unfolding escape_exclude_byte
escape-special c h = rw (h, escape_exclude_byte)

escape-plain : (c : ℕ) → (c == backslash || c == comma) ≡ false → escape_exclude_byte c ≡ c ∷ []
unfolding escape_exclude_byte
escape-plain c h = rw (h, escape_exclude_byte)

split_loop-special :
    (patterns : List Bytes) (pat : Bytes) (c : ℕ) (s : Bytes)
    → (c == backslash || c == comma) ≡ true
    → split_loop patterns pat (backslash ∷ c ∷ s) ≡ split_loop patterns (pat ++ c ∷ []) s
unfolding split_loop
split_loop-special patterns pat c s h = rw (special-is_escape c h, split_loop)

-- An escaped byte is read as the byte.
split_loop-byte :
    (patterns : List Bytes) (pat : Bytes) (c : ℕ) (s : Bytes)
    → split_loop patterns pat (escape_exclude_byte c ++ s) ≡ split_loop patterns (pat ++ c ∷ []) s
split_loop-byte patterns pat c s = elim (Bool-cases (c == backslash || c == comma)) [
  | inl y ↦
      ap (λ t. split_loop patterns pat (t ++ s)) (escape-special c y)
      ∙ split_loop-special patterns pat c s y
  | inr n ↦
      ap (λ t. split_loop patterns pat (t ++ s)) (escape-plain c n)
      ∙ split_loop-plain patterns pat c s n
]

split_loop-escape :
    (patterns : List Bytes) (pat p s : Bytes)
    → split_loop patterns pat (escape_exclude_pattern p ++ s) ≡ split_loop patterns (pat ++ p) s
unfolding escape_exclude_pattern
split_loop-escape patterns pat [] s = ap (λ t. split_loop patterns t s) (sym (append-nil pat))
split_loop-escape patterns pat (c ∷ p) s =
    ap (split_loop patterns pat) (append_assoc (escape_exclude_byte c) (escape_exclude_pattern p) s)
    ∙ split_loop-byte patterns pat c (escape_exclude_pattern p ++ s)
    ∙ split_loop-escape patterns (pat ++ c ∷ []) p s
    ∙ ap (λ t. split_loop patterns t s) (append_assoc pat (c ∷ []) p)

-- A pattern that is not empty, with no white space at its ends.
abbrev pub IsPattern : Bytes → Type 0
IsPattern p = (p ≢ []) × IsTight is_margin p

trimmed-IsTight : (c : ℕ) (p : Bytes) → IsTight is_margin (c ∷ p) → trimmed (c ∷ p) ≡ c ∷ p
unfolding trimmed
trimmed-IsTight c p tight = rw (tight.0, trimmed) (trim-IsTight is_margin (c ∷ p) tight)

flush-IsPattern :
    (patterns : List Bytes) (p : Bytes) → IsPattern p → flush patterns p ≡ patterns ++ p ∷ []
unfolding flush
flush-IsPattern patterns [] h = absurd (h.0 refl)
flush-IsPattern patterns (c ∷ p) h = ap (add_pattern patterns) (trimmed-IsTight c p h.1)

split_loop-comma :
    (patterns : List Bytes) (pat s : Bytes)
    → split_loop patterns pat (comma ∷ s) ≡ split_loop (flush patterns pat) [] s
unfolding split_loop
split_loop-comma patterns pat [] = refl
split_loop-comma patterns pat (d ∷ s) = refl

split_loop-join :
    (patterns : List Bytes) (p : Bytes) (ps : List Bytes)
    → All IsPattern (p ∷ ps)
    → split_loop patterns [] (join_exclude_patterns (p ∷ ps)) ≡ patterns ++ p ∷ ps
unfolding join_exclude_patterns split_loop
split_loop-join patterns p [] h =
    ap (split_loop patterns []) (sym (append-nil (escape_exclude_pattern p)))
    ∙ split_loop-escape patterns [] p []
    ∙ flush-IsPattern patterns p h.0
split_loop-join patterns p (q ∷ ps) h =
    split_loop-escape patterns [] p (comma ∷ join_exclude_patterns (q ∷ ps))
    ∙ split_loop-comma patterns p (join_exclude_patterns (q ∷ ps))
    ∙ ap (λ ls. split_loop ls [] (join_exclude_patterns (q ∷ ps))) (flush-IsPattern patterns p h.0)
    ∙ split_loop-join (patterns ++ p ∷ []) q ps h.1
    ∙ append_assoc patterns (p ∷ []) (q ∷ ps)

-- A text that is not empty.
abbrev HasByte : Bytes → Type 0
HasByte s = (c : ℕ) × (t : Bytes) × (s ≡ c ∷ t)

escape-HasByte : (c : ℕ) (s : Bytes) → HasByte (escape_exclude_byte c ++ s)
escape-HasByte c s = elim (Bool-cases (c == backslash || c == comma)) [
  | inl y ↦ (backslash, c ∷ s, ap (λ t. t ++ s) (escape-special c y))
  | inr n ↦ (c, s, ap (λ t. t ++ s) (escape-plain c n))
]

join-HasByte : (p : Bytes) (ps : List Bytes) → p ≢ [] → HasByte (join_exclude_patterns (p ∷ ps))
unfolding join_exclude_patterns escape_exclude_pattern
join-HasByte [] ps h = absurd (h refl)
join-HasByte (c ∷ p) [] h = escape-HasByte c (escape_exclude_pattern p)
join-HasByte (c ∷ p) (q ∷ ps) h =
    subst HasByte
      (sym (
        append_assoc (escape_exclude_byte c) (escape_exclude_pattern p)
          (comma ∷ join_exclude_patterns (q ∷ ps))))
      (escape-HasByte c (escape_exclude_pattern p ++ comma ∷ join_exclude_patterns (q ∷ ps)))

load_exclude_env-split :
    (s : Bytes) (patterns : List Bytes)
    → HasByte s
    → (load_exclude_env (some s) patterns).0 ≡ split_loop patterns [] s
unfolding load_exclude_env
load_exclude_env-split [] patterns (c, t, e) = absurd (ground arith)
load_exclude_env-split (c ∷ s) patterns h = refl

-- Whatever the list of patterns that the server joins (none empty, none with white space at an end)
-- the engine adds exactly these patterns, in order; commas and backslashes in a
-- pattern are no exception.
pub load_exclude_env-join :
    (p : Bytes) (ps patterns : List Bytes)
    → All IsPattern (p ∷ ps)
    → (load_exclude_env (some (join_exclude_patterns (p ∷ ps))) patterns).0 ≡ patterns ++ p ∷ ps
load_exclude_env-join p ps patterns h =
    load_exclude_env-split (join_exclude_patterns (p ∷ ps)) patterns (join-HasByte p ps h.0.0)
    ∙ split_loop-join patterns p ps h
