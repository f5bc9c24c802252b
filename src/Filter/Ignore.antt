-- ===== src/Filter/Ignore.antt =====
-- `FilterPolicy::gitignoreMatches`.
use code_scope.Prelude.{
  Bool, true, false, not, ◌&&◌, ◌||◌, List, [], ◌∷◌, ◌++◌, Bytes, bytes_eq, ◌==◌, if◌then◌else◌,
}
use code_scope.Filter.Glob.{slash, is_empty, glob_match}
pub mod Literal
pub mod Ignored

-- `GitignoreRule`.
pub record Rule : Type 0 where
  pub pattern : Bytes
  pub negate : Bool
  pub dir_only : Bool
  pub anchored : Bool
  pub has_star : Bool

unfoldable pub has_slash : Bytes → Bool
has_slash [] = false
has_slash (x ∷ s) = x == slash || has_slash s

-- What follows the last slash.
unfoldable pub basename : Bytes → Bytes
unfolding has_slash
basename [] = []
basename (x ∷ s) =
    let rest = basename s in if has_slash s then rest else if x == slash then s else x ∷ s

-- The end of the text, or a slash.
abbrev pub at_boundary : Bytes → Bool
at_boundary [] = true
at_boundary (x ∷ s) = x == slash

-- The pattern at the front, up to a boundary.
unfoldable pub literal_here : Bytes → Bytes → Bool
literal_here [] s = at_boundary s
literal_here (c ∷ p) [] = false
literal_here (c ∷ p) (x ∷ s) = x == c && literal_here p s

-- The loop over the occurrences of a literal pattern; `left` says that a boundary is on the left.
unfoldable pub literal_loop : Bool → Bytes → Bytes → Bool
unfolding literal_here
literal_loop left p [] = left && literal_here p []
literal_loop left p (x ∷ s) = (left && literal_here p (x ∷ s)) || literal_loop (x == slash) p s

-- `matches_one`.
unfoldable pub matches_one : Rule → Bytes → Bool
unfolding literal_loop glob_match has_slash basename
matches_one r candidate =
    if r.has_star
    then (if not r.anchored && not (has_slash r.pattern)
        then glob_match r.pattern (basename candidate)
        else glob_match r.pattern candidate)
    else if r.anchored
    then bytes_eq candidate r.pattern
    else literal_loop true r.pattern candidate

-- The loop over the directories above a path; `above` is the part of the path before `s`.
unfoldable pub any_above : (Bytes → Bool) → Bytes → Bytes → Bool
any_above test above [] = false
any_above test above (x ∷ s) = (x == slash && test above) || any_above test (above ++ x ∷ []) s

unfoldable pub rule_matches : Rule → Bytes → Bool → Bool
unfolding any_above matches_one
rule_matches r path is_dir =
    if r.dir_only && not is_dir
    then any_above (matches_one r) [] path
    else (matches_one r path || (r.dir_only && any_above (matches_one r) [] path))

-- The loop over the rules: it stops at the first rule that matches and does not negate.
unfoldable pub ignore_loop : Bytes → Bool → Bool → List Rule → Bool
unfolding rule_matches
ignore_loop path is_dir ignored [] = ignored
ignore_loop path is_dir ignored (r ∷ rules) =
    let reset = ignore_loop path is_dir false rules in
    let kept = ignore_loop path is_dir ignored rules in
    if rule_matches r path is_dir then (if r.negate then reset else true) else kept

unfoldable pub gitignore_matches : List Rule → Bytes → Bool → Bool
unfolding ignore_loop
gitignore_matches rules path is_dir = ignore_loop path is_dir false rules
