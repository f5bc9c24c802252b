-- ===== src/Filter/Exclude.antt =====
-- `FilterPolicy::loadExcludeEnv`, and `join_exclude_patterns` of server/src/scheduler/worker.rs,
-- which writes the variable that it reads.
use code_scope.Prelude.{
  ℕ, Bool, true, false, not, ◌&&◌, ◌||◌, Option, none, some, List, [], ◌∷◌, ◌++◌, Bytes, ◌==◌,
}
use code_scope.Json.Escape.{backslash}
use code_scope.Filter.Glob.{is_empty}
use code_scope.Filter.Trim.{trim_front, trim}
pub mod Joined

abbrev pub comma : ℕ
comma = b','

abbrev pub is_margin : ℕ → Bool
is_margin c = c == b' ' || c == 9

-- A pattern of margins only is kept as it is.
unfoldable pub trimmed : Bytes → Bytes
unfolding trim trim_front
trimmed pat = elim (is_empty (trim_front is_margin pat)) [ true ↦ pat | false ↦ trim is_margin pat ]

abbrev pub add_pattern : List Bytes → Bytes → List Bytes
add_pattern patterns [] = patterns
add_pattern patterns (c ∷ pat) = patterns ++ (c ∷ pat) ∷ []

-- `flush`; the pattern that is being read becomes empty.
unfoldable pub flush : List Bytes → Bytes → List Bytes
unfolding trimmed
flush patterns pat = add_pattern patterns (trimmed pat)

abbrev pub is_escape : ℕ → ℕ → Bool
is_escape c d = c == backslash && (d == comma || d == backslash)

-- The loop over the variable's bytes.
unfoldable pub split_loop : List Bytes → Bytes → Bytes → List Bytes
unfolding flush
split_loop patterns pat [] = flush patterns pat
split_loop patterns pat (c ∷ []) = elim (c == comma) [
  | true ↦ split_loop (flush patterns pat) [] []
  | false ↦ split_loop patterns (pat ++ c ∷ []) []
]
split_loop patterns pat (c ∷ d ∷ s) = elim (is_escape c d) [
  | true ↦ split_loop patterns (pat ++ d ∷ []) s
  | false ↦ elim (c == comma) [
    | true ↦ split_loop (flush patterns pat) [] (d ∷ s)
    | false ↦ split_loop patterns (pat ++ c ∷ []) (d ∷ s)
  ]
]

-- The patterns and the result, for the value of the variable; an empty one counts as unset.
unfoldable pub load_exclude_env : Option Bytes → List Bytes → List Bytes × Bool
unfolding split_loop
load_exclude_env none patterns = (patterns, false)
load_exclude_env (some []) patterns = (patterns, false)
load_exclude_env (some (c ∷ s)) patterns =
    let loaded = split_loop patterns [] (c ∷ s) in
    (loaded, elim loaded [ [] ↦ false | p ∷ ps ↦ true ])

unfoldable pub escape_exclude_byte : ℕ → Bytes
escape_exclude_byte c = elim (c == backslash || c == comma) [
  | true ↦ backslash ∷ c ∷ []
  | false ↦ c ∷ []
]

unfoldable pub escape_exclude_pattern : Bytes → Bytes
unfolding escape_exclude_byte
escape_exclude_pattern [] = []
escape_exclude_pattern (c ∷ p) = escape_exclude_byte c ++ escape_exclude_pattern p

unfoldable pub join_exclude_patterns : List Bytes → Bytes
unfolding escape_exclude_pattern
join_exclude_patterns [] = []
join_exclude_patterns (p ∷ []) = escape_exclude_pattern p
join_exclude_patterns (p ∷ q ∷ ps) =
    escape_exclude_pattern p ++ comma ∷ join_exclude_patterns (q ∷ ps)
