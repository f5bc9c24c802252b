-- ===== src/Resolver/Like.antt =====
-- `sqliteLikeMatch`. A cursor is the rest of its text; the last `%` is the rest of the pattern
-- behind it with the rest of the text aligned with it.
use code_scope.Prelude.{
  ℕ, zero, suc, ◌+◌, ◌*◌, Bool, true, false, ◌&&◌, ◌||◌, Option, none, some, [], ◌∷◌, Bytes, length,
  leb, ◌==◌, if◌then◌else◌,
}
pub mod Language
pub mod Decides

abbrev pub percent : ℕ
percent = b'%'

-- `likeFold`.
unfoldable pub like_fold : ℕ → ℕ
like_fold c = if leb b'A' c && leb c b'Z' then c + 32 else c

unfoldable pub like_byte : ℕ → ℕ → Bool
unfolding like_fold
like_byte c x = c == b'_' || like_fold c == like_fold x

-- The last loop: nothing but `%` is left of the pattern.
unfoldable pub only_percents : Bytes → Bool
only_percents [] = true
only_percents (c ∷ p) = c == percent && only_percents p

abbrev pub behind : Bytes → Bytes
behind [] = []
behind (x ∷ t) = t

-- The last `%` takes one byte more.
abbrev pub backtrack :
    (Bytes → Bytes → Option (Bytes × Bytes) → Option Bool) → Option (Bytes × Bytes) → Option Bool
backtrack again none = some false
backtrack again (some (q, m)) = again q (behind m) (some (q, behind m))

unfoldable pub like_round :
    (Bytes → Bytes → Option (Bytes × Bytes) → Option Bool)
    → Bytes
    → ℕ
    → Bytes
    → Option (Bytes × Bytes)
    → Option Bool
unfolding like_byte
like_round again [] x t saved = backtrack again saved
like_round again (c ∷ p) x t saved = elim (c == percent) [
  | true ↦ again p (x ∷ t) (some (p, x ∷ t))
  | false ↦ elim (like_byte c x) [ true ↦ again p t saved | false ↦ backtrack again saved ]
]

-- The loop; `none` is for running out of fuel.
unfoldable pub like_loop : ℕ → Bytes → Bytes → Option (Bytes × Bytes) → Option Bool
unfolding like_round only_percents
like_loop zero p t saved = none
like_loop (suc fuel) p [] saved = some (only_percents p)
like_loop (suc fuel) p (x ∷ t) saved = like_round (like_loop fuel) p x t saved

unfoldable pub sqlite_like_match : Bytes → Bytes → Option Bool
unfolding like_loop
sqlite_like_match pattern text =
    like_loop (suc (length text) * suc (length pattern)) pattern text none
