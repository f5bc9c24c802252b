-- ===== src/Impact.antt =====
-- Change impact, query/impact_analysis.cpp: the list of modified files and the depth-limited search
-- from their entities. The adjacency that the store answers is a function.
pub mod Inv
pub mod Rounds
pub mod Seeds
pub mod Entries
pub mod Least
pub mod Files
mod Tests
use code_scope.Prelude.{
  ℕ, zero, suc, ◌+◌, Bool, true, false, ◌&&◌, ◌||◌, Option, none, some, List, [], ◌∷◌, ◌++◌, Bytes,
  find, length, member, ltb, leb, ◌==◌, if◌then◌else◌,
}

abbrev pub impact_max_depth : ℕ
impact_max_depth = 3

-- White space, and white space with commas.
unfoldable pub is_list_blank : ℕ → Bool
is_list_blank c = c == 32 || c == 9 || c == 10 || c == 13

unfoldable pub skip_blanks_of : (ℕ → Bool) → Bytes → Bytes
skip_blanks_of t [] = []
skip_blanks_of t (c ∷ s) = let rest = skip_blanks_of t s in if t c then rest else c ∷ s

-- The path up to its closing quote, with the text behind it; `none` when the quote is missing. A
-- backslash with a byte behind it stands for that byte.
unfoldable pub quoted_path : Bytes → Option (Bytes × Bytes)
quoted_path [] = none
quoted_path (c ∷ []) = if c == 34 then some ([], []) else none
quoted_path (c ∷ d ∷ s) = elim (c == 34) [
  | true ↦ some ([], d ∷ s)
  | false ↦ elim (c == 92) [
    | true ↦ elim (quoted_path s) [ none ↦ none | some (path, t) ↦ some (d ∷ path, t) ]
    | false ↦ elim (quoted_path (d ∷ s)) [ none ↦ none | some (path, t) ↦ some (c ∷ path, t) ]
  ]
]

abbrev pub cons_path : Bytes → Option (List Bytes) → Option (List Bytes)
cons_path path none = none
cons_path [] (some files) = some files
cons_path (d ∷ path) (some files) = some ((d ∷ path) ∷ files)

-- The loop over the array; `none` is for running out of fuel. What was read before a failure is kept,
-- as in the source.
unfoldable pub file_items : ℕ → Bytes → Option (List Bytes)
unfolding is_list_blank skip_blanks_of quoted_path
file_items zero s = none
file_items (suc fuel) s = elim (skip_blanks_of (λ c. is_list_blank c || c == 44) s) [
  | [] ↦ some []
  | c ∷ t ↦ elim (c == 34) [
    | false ↦ some []
    | true ↦ elim (quoted_path t) [
      | none ↦ some []
      | some (path, u) ↦ cons_path path (file_items fuel u)
    ]
  ]
]

unfoldable pub parse_file_list : Bytes → Option (List Bytes)
unfolding file_items skip_blanks_of is_list_blank
parse_file_list s = elim (skip_blanks_of is_list_blank s) [
  | [] ↦ some []
  | c ∷ t ↦ if c == 91 then file_items (length t + 1) t else some []
]

pub record ImpactEntry : Type 0 where
  pub node_id : ℕ
  pub via_seed : ℕ
  pub depth : ℕ

-- `m[k] = v` of a map, in place.
unfoldable pub put_at : ℕ → ℕ → List (ℕ × ℕ) → List (ℕ × ℕ)
put_at k v [] = (k, v) ∷ []
put_at k v ((j, w) ∷ m) = let rest = put_at k v m in if j == k then (k, v) ∷ m else (j, w) ∷ rest

-- The two maps and the stack, its top in front.
pub record Search : Type 0 where
  pub min_depth : List (ℕ × ℕ)
  pub seed_of : List (ℕ × ℕ)
  pub stack : List (ℕ × ℕ)

unfoldable pub start_search : Search → List ℕ → Search
unfolding put_at
start_search s [] = s
start_search s (seed ∷ seeds) =
    start_search
      (record {
        min_depth = put_at seed 0 s.min_depth;
        seed_of = put_at seed seed s.seed_of;
        stack = (seed, 0) ∷ s.stack;
      })
      seeds

-- `seed_of[node]`, which is 0 for a missing key.
abbrev pub seed_at : ℕ → List (ℕ × ℕ) → ℕ
seed_at n m = elim (find n m) [ none ↦ 0 | some s ↦ s ]

-- The test that a neighbour is known at no greater depth.
abbrev pub is_known : ℕ → ℕ → List (ℕ × ℕ) → Bool
is_known nb nd m = elim (find nb m) [ none ↦ false | some d ↦ leb d nd ]

unfoldable pub visit_neighbour : ℕ → ℕ → Search → ℕ → Search
unfolding put_at
visit_neighbour node depth s nb = if is_known nb (depth + 1) s.min_depth then s else record {
  min_depth = put_at nb (depth + 1) s.min_depth;
  seed_of = put_at nb (seed_at node s.seed_of) s.seed_of;
  stack = (nb, depth + 1) ∷ s.stack;
}

unfoldable pub visit_neighbours : ℕ → ℕ → Search → List ℕ → Search
unfolding visit_neighbour
visit_neighbours node depth s [] = s
visit_neighbours node depth s (nb ∷ nbs) =
    visit_neighbours node depth (visit_neighbour node depth s nb) nbs

-- The `while` loop; `none` when the fuel is used up.
unfoldable pub search_loop : (ℕ → List ℕ) → ℕ → Search → Option Search
unfolding visit_neighbours
search_loop nbrs zero s = none
search_loop nbrs (suc fuel) s = elim s.stack [
  | [] ↦ some s
  | (node, depth) ∷ rest ↦ elim (leb impact_max_depth depth) [
    | true ↦ search_loop nbrs fuel (record s { stack = rest })
    | false ↦
        search_loop nbrs fuel (visit_neighbours node depth (record s { stack = rest }) (nbrs node))
  ]
]

unfoldable pub entries_of : List ℕ → List (ℕ × ℕ) → List (ℕ × ℕ) → List ImpactEntry
entries_of seeds seed_of [] = []
entries_of seeds seed_of ((n, d) ∷ m) =
    let rest = entries_of seeds seed_of m in
    if member n seeds
    then rest
    else record { node_id = n; via_seed = seed_at n seed_of; depth = d } ∷ rest

-- The comparison of the final sort.
unfoldable pub entry_lt : ImpactEntry → ImpactEntry → Bool
entry_lt a b = if a.node_id == b.node_id then ltb a.depth b.depth else ltb a.node_id b.node_id

unfoldable pub insert_impact : ImpactEntry → List ImpactEntry → List ImpactEntry
unfolding entry_lt
insert_impact e [] = e ∷ []
insert_impact e (d ∷ ds) =
    let rest = insert_impact e ds in if entry_lt d e then d ∷ rest else e ∷ d ∷ ds

unfoldable pub sort_impact : List ImpactEntry → List ImpactEntry
unfolding insert_impact
sort_impact [] = []
sort_impact (e ∷ es) = insert_impact e (sort_impact es)

-- `dfsImpact`.
unfoldable pub dfs_impact : ℕ → (ℕ → List ℕ) → List ℕ → Option (List ImpactEntry)
unfolding search_loop start_search entries_of sort_impact
dfs_impact fuel nbrs seeds =
    elim (search_loop nbrs fuel
      (start_search (record { min_depth = []; seed_of = []; stack = [] }) seeds)) [
        | none ↦ none
        | some s ↦ some (sort_impact (entries_of seeds s.seed_of s.min_depth))
      ]
