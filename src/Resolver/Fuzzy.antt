-- ===== src/Resolver/Fuzzy.antt =====
-- `FuzzyResolver`, resolver/fuzzy_resolver.cpp: names looked up without their case, by prefix and by
-- suffix. The rows of the entity table, in the order of the query, are an argument.
pub mod Sorted
pub mod Matches
pub mod Scan
use code_scope.Prelude.{
  ℕ, ◌+◌, Bool, true, false, ◌||◌, Option, none, some, List, [], ◌∷◌, ◌++◌, Bytes, bytes_eq, length,
  take, map, ltb, leb, ◌==◌, if◌then◌else◌,
}
use code_scope.Resolver.Like.{percent, like_fold, sqlite_like_match}
use code_scope.Resolver.Text.{has_byte, starts_with}

pub record EntityName : Type 0 where
  pub id : ℕ
  pub raw : Bytes

-- A folded name, or its reverse, with the id of its entity.
abbrev pub Entry : Type 0
Entry = Bytes × ℕ

pub record FuzzyResolver : Type 0 where
  pub entities : List EntityName
  pub folded_index : List (Bytes × List ℕ)
  pub prefix_sorted : List Entry
  pub suffix_sorted : List Entry

unfoldable pub fold_name : Bytes → Bytes
unfolding like_fold
fold_name [] = []
fold_name (c ∷ s) = like_fold c ∷ fold_name s

unfoldable pub backwards : Bytes → Bytes
backwards [] = []
backwards (c ∷ s) = backwards s ++ c ∷ []

-- `operator<` of two byte strings.
unfoldable pub bytes_lt : Bytes → Bytes → Bool
bytes_lt s [] = false
bytes_lt [] (d ∷ t) = true
bytes_lt (c ∷ s) (d ∷ t) = if ltb c d then true else if ltb d c then false else bytes_lt s t

-- `std::sort` by the names, as insertion.
unfoldable pub insert_entry : Entry → List Entry → List Entry
unfolding bytes_lt
insert_entry e [] = e ∷ []
insert_entry e (d ∷ ds) =
    let rest = insert_entry e ds in if bytes_lt d.0 e.0 then d ∷ rest else e ∷ d ∷ ds

unfoldable pub sort_entries : List Entry → List Entry
unfolding insert_entry
sort_entries [] = []
sort_entries (e ∷ es) = insert_entry e (sort_entries es)

-- `std::sort` of the ids.
unfoldable pub insert_id : ℕ → List ℕ → List ℕ
insert_id a [] = a ∷ []
insert_id a (b ∷ bs) = let rest = insert_id a bs in if ltb b a then b ∷ rest else a ∷ b ∷ bs

unfoldable pub sort_ids : List ℕ → List ℕ
unfolding insert_id
sort_ids [] = []
sort_ids (a ∷ bs) = insert_id a (sort_ids bs)

-- `folded_index_[folded].push_back(id)`.
unfoldable pub push_id : Bytes → ℕ → List (Bytes × List ℕ) → List (Bytes × List ℕ)
push_id key id [] = (key, id ∷ []) ∷ []
push_id key id ((k, ids) ∷ idx) =
    let rest = push_id key id idx in
    if bytes_eq k key then (k, ids ++ id ∷ []) ∷ idx else (k, ids) ∷ rest

-- The rows with a name.
unfoldable pub load_rows : List (ℕ × Bytes) → List EntityName
load_rows [] = []
load_rows ((id, []) ∷ rows) = load_rows rows
load_rows ((id, c ∷ s) ∷ rows) = record { id = id; raw = c ∷ s } ∷ load_rows rows

unfoldable pub index_names : List (Bytes × List ℕ) → List EntityName → List (Bytes × List ℕ)
unfolding fold_name push_id
index_names idx [] = idx
index_names idx (e ∷ es) = index_names (push_id (fold_name e.raw) e.id idx) es

unfoldable pub prefix_entry : EntityName → Entry
unfolding fold_name
prefix_entry e = (fold_name e.raw, e.id)

unfoldable pub suffix_entry : EntityName → Entry
unfolding fold_name backwards
suffix_entry e = (backwards (fold_name e.raw), e.id)

unfoldable pub load_entities : List (ℕ × Bytes) → FuzzyResolver
unfolding load_rows index_names prefix_entry suffix_entry sort_entries
load_entities rows =
    let es = load_rows rows in
    record {
      entities = es;
      folded_index = index_names [] es;
      prefix_sorted = sort_entries (map prefix_entry es);
      suffix_sorted = sort_entries (map suffix_entry es);
    }

unfoldable pub ids_of : Bytes → List (Bytes × List ℕ) → List ℕ
ids_of key [] = []
ids_of key ((k, ids) ∷ idx) = let rest = ids_of key idx in if bytes_eq k key then ids else rest

unfoldable pub resolve_case_insensitive : FuzzyResolver → Bytes → ℕ → List ℕ
unfolding fold_name ids_of
resolve_case_insensitive f [] limit = []
resolve_case_insensitive f (c ∷ s) limit = take limit (ids_of (fold_name (c ∷ s)) f.folded_index)

abbrev pub has_wildcard : Bytes → Bool
has_wildcard s = has_byte percent s || has_byte b'_' s

-- The linear scan: the ids of the names that match, until there are as many as the limit.
unfoldable pub scan_like : Bytes → ℕ → ℕ → List EntityName → List ℕ
scan_like pattern limit found [] = []
scan_like pattern limit found (e ∷ es) = elim (sqlite_like_match pattern e.raw) [
  | some true ↦
      let rest = scan_like pattern limit (found + 1) es in
      e.id ∷ (if leb limit (found + 1) then [] else rest)
  | _ ↦ scan_like pattern limit found es
]

-- `std::lower_bound`: the entries from the first that is not below the name.
unfoldable pub lower_bound : Bytes → List Entry → List Entry
unfolding bytes_lt
lower_bound p [] = []
lower_bound p (e ∷ es) = let rest = lower_bound p es in if bytes_lt e.0 p then rest else e ∷ es

-- The ids of the entries that follow each other and start with the name.
unfoldable pub run_of : Bytes → List Entry → List ℕ
unfolding starts_with
run_of p [] = []
run_of p (e ∷ es) = let rest = run_of p es in if starts_with p e.0 then e.1 ∷ rest else []

unfoldable pub search_index : Bytes → ℕ → List Entry → List ℕ
unfolding lower_bound run_of sort_ids
search_index p limit index = take limit (sort_ids (run_of p (lower_bound p index)))

unfoldable pub resolve_prefix : FuzzyResolver → Bytes → ℕ → List ℕ
unfolding scan_like search_index fold_name
resolve_prefix f prefix limit =
    if ltb (length prefix) 3
    then []
    else if has_wildcard prefix
    then scan_like (prefix ++ percent ∷ []) limit 0 f.entities
    else search_index (fold_name prefix) limit f.prefix_sorted

unfoldable pub resolve_suffix : FuzzyResolver → Bytes → ℕ → List ℕ
unfolding scan_like search_index fold_name backwards
resolve_suffix f suffix limit =
    if ltb (length suffix) 3
    then []
    else if has_wildcard suffix
    then scan_like (percent ∷ suffix) limit 0 f.entities
    else search_index (backwards (fold_name suffix)) limit f.suffix_sorted

abbrev pub or_else : List ℕ → List ℕ → List ℕ
or_else [] later = later
or_else (a ∷ bs) later = a ∷ bs

unfoldable pub resolve : FuzzyResolver → Bytes → ℕ → List ℕ
unfolding resolve_case_insensitive resolve_prefix resolve_suffix
resolve f [] limit = []
resolve f (c ∷ s) limit = elim f.entities [
  | [] ↦ []
  | e ∷ es ↦
      or_else (resolve_case_insensitive f (c ∷ s) limit)
        (or_else (resolve_prefix f (c ∷ s) limit) (resolve_suffix f (c ∷ s) limit))
]
