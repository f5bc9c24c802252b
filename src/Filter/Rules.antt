-- ===== src/Filter/Rules.antt =====
-- `FilterPolicy::loadGitignore`: the rules of a .gitignore, given the file's text.
use code_scope.Prelude.{
  ℕ, Bool, true, false, ◌||◌, Option, none, some, List, [], ◌∷◌, ◌++◌, Bytes, ◌==◌, if◌then◌else◌,
}
use code_scope.Filter.Glob.{star, slash}
use code_scope.Filter.Trim.{trim}
use code_scope.Filter.Ignore.{Rule}
pub mod Written

abbrev pub is_edge : ℕ → Bool
is_edge c = c == b' ' || c == 9 || c == 13

unfoldable pub has_star_byte : Bytes → Bool
has_star_byte [] = false
has_star_byte (c ∷ s) = c == star || has_star_byte s

-- A mark at the front, and the rest.
abbrev pub take_mark : ℕ → Bytes → Bool × Bytes
take_mark mark [] = (false, [])
take_mark mark (c ∷ s) = if c == mark then (true, s) else (false, c ∷ s)

-- A slash at the end, and the rest.
unfoldable pub take_end : Bytes → Bool × Bytes
take_end [] = (false, [])
take_end (c ∷ []) = if c == slash then (true, []) else (false, c ∷ [])
take_end (c ∷ d ∷ s) = let (found, rest) = take_end (d ∷ s) in (found, c ∷ rest)

-- The rule behind the marks; a pattern with nothing in it is no rule.
abbrev pub make_rule : Bool → Bool → Bool × Bytes → Option Rule
make_rule negate dir_only (anchored, []) = none
make_rule negate dir_only (anchored, c ∷ s) = some (record {
  pattern = c ∷ s;
  negate = negate;
  dir_only = dir_only;
  anchored = anchored;
  has_star = has_star_byte (c ∷ s);
})

abbrev pub with_end : Bool → Bool × Bytes → Option Rule
with_end negate (dir_only, name) = make_rule negate dir_only (take_mark slash name)

abbrev pub with_mark : Bool × Bytes → Option Rule
with_mark (negate, body) = with_end negate (take_end body)

-- A line without its margins.
unfoldable pub parse_trimmed : Bytes → Option Rule
unfolding take_end has_star_byte
parse_trimmed [] = none
parse_trimmed (c ∷ s) = if c == b'#' then none else with_mark (take_mark b'!' (c ∷ s))

unfoldable pub parse_line : Bytes → Option Rule
unfolding trim parse_trimmed
parse_line line = parse_trimmed (trim is_edge line)

abbrev pub add_rule : List Rule → Option Rule → List Rule
add_rule rules none = rules
add_rule rules (some r) = rules ++ r ∷ []

-- The loop over `std::getline`: `line` is what is read of the current line.
unfoldable pub load_lines : List Rule → Bytes → Bytes → List Rule
unfolding parse_line
load_lines rules line [] = add_rule rules (parse_line line)
load_lines rules line (c ∷ s) = elim (c == 10) [
  | true ↦ load_lines (add_rule rules (parse_line line)) [] s
  | false ↦ load_lines rules (line ++ c ∷ []) s
]

abbrev some_rule : List Rule → Bool
some_rule [] = false
some_rule (r ∷ rules) = true

-- The rules and the result; `none` stands for a file that cannot be opened.
unfoldable pub load_gitignore : Option Bytes → Bool → List Rule → List Rule × Bool
unfolding load_lines
load_gitignore none append rules = (rules, false)
load_gitignore (some text) append rules =
    let loaded = load_lines (if append then rules else []) [] text in (loaded, some_rule loaded)
