-- ===== src/Filter/Glob.antt =====
-- `FilterPolicy::globImpl`, on the rest of the pattern and the rest of the text.
pub mod Decides
use code_scope.Prelude.{ℕ, zero, suc, Bool, true, false, ◌||◌, [], ◌∷◌, Bytes, ◌==◌, if◌then◌else◌}

abbrev pub star : ℕ
star = b'*'

abbrev pub slash : ℕ
slash = b'/'

-- The loop at a `*`: the rest of the pattern at every position up to the first slash.
unfoldable pub star_loop : (Bytes → Bool) → Bytes → Bool
star_loop rest [] = rest []
star_loop rest (x ∷ s) = elim (x == slash) [
  | true ↦ rest (x ∷ s)
  | false ↦ rest (x ∷ s) || star_loop rest s
]

-- The loop at a `**`: the rest of the pattern at every position.
unfoldable pub span_loop : (Bytes → Bool) → Bytes → Bool
span_loop rest [] = rest []
span_loop rest (x ∷ s) = rest (x ∷ s) || span_loop rest s

-- A byte of the pattern that is no `*`.
unfoldable pub match_byte : ℕ → (Bytes → Bool) → Bytes → Bool
match_byte c rest [] = false
match_byte c rest (x ∷ s) = elim (x == c || c == b'?') [ true ↦ rest s | false ↦ false ]

-- One round of the loop at a byte that starts no `**`.
unfoldable pub match_one : ℕ → (Bytes → Bool) → Bytes → Bool
unfolding star_loop match_byte
match_one c rest s = elim (c == star) [ true ↦ star_loop rest s | false ↦ match_byte c rest s ]

-- A `**`, unless there is no room for it: then this branch gives up.
unfoldable pub match_span : ℕ → (ℕ → Bytes → Bool) → Bytes → Bool
unfolding span_loop
match_span zero rest s = false
match_span (suc room) rest s = span_loop (rest room) s

abbrev pub is_empty : Bytes → Bool
is_empty [] = true
is_empty (x ∷ s) = false

abbrev pub is_span : ℕ → ℕ → Bool
is_span c d = elim (c == star) [ true ↦ d == star | false ↦ false ]

-- `room` is `kGlobDoubleStarMaxDepth` less the depth.
unfoldable pub glob_impl : Bytes → ℕ → Bytes → Bool
unfolding match_one match_span
glob_impl [] room s = is_empty s
glob_impl (c ∷ []) room s = match_one c (glob_impl [] room) s
glob_impl (c ∷ d ∷ []) room s = elim (is_span c d) [
  | true ↦ match_span room (glob_impl []) s
  | false ↦ match_one c (glob_impl (d ∷ []) room) s
]
glob_impl (c ∷ d ∷ e ∷ p) room s = elim (is_span c d) [
  | true ↦ match_span room (if e == slash then glob_impl p else glob_impl (e ∷ p)) s
  | false ↦ match_one c (glob_impl (d ∷ e ∷ p) room) s
]

abbrev pub max_double_stars : ℕ
max_double_stars = 8

unfoldable pub glob_match : Bytes → Bytes → Bool
unfolding glob_impl
glob_match pattern text = glob_impl pattern max_double_stars text
