-- ===== src/Resolver/Paths.antt =====
-- Relative imports, `relativeImportMatchesFile` of engine/src/resolver/factors.h.
use code_scope.Prelude.{
  ℕ, Bool, false, not, ◌||◌, List, [], ◌∷◌, ◌++◌, Bytes, codes, bytes_eq, ◌==◌, if◌then◌else◌,
}
use code_scope.Filter.Glob.{slash}
use code_scope.Resolver.Text.{has_byte, before_last, after_last, starts_with}
use code_scope.Resolver.Factors.{is_empty_text}

abbrev pub put_byte : ℕ → List Bytes → List Bytes
put_byte c [] = (c ∷ []) ∷ []
put_byte c (s ∷ ss) = (c ∷ s) ∷ ss

-- The pieces between the slashes, the empty ones too.
unfoldable pub segments : Bytes → List Bytes
segments [] = [] ∷ []
segments (c ∷ s) = let rest = segments s in if c == slash then [] ∷ rest else put_byte c rest

-- A round of the loop that collapses the segments; the last part is in front.
abbrev pub add_segment : List Bytes → Bytes → List Bytes
add_segment parts seg =
    if bytes_eq seg (codes "..")
    then elim parts [ [] ↦ [] | p ∷ ps ↦ ps ]
    else if is_empty_text seg || bytes_eq seg (codes ".")
    then parts
    else seg ∷ parts

unfoldable pub collapse : List Bytes → List Bytes → List Bytes
collapse parts [] = parts
collapse parts (s ∷ ss) = collapse (add_segment parts s) ss

-- The parts, the last one in front, with slashes between them.
unfoldable pub join_parts : List Bytes → Bytes
join_parts [] = []
join_parts (p ∷ ps) =
    let front = join_parts ps in if is_empty_text front then p else front ++ slash ∷ p

abbrev pub joined_path : Bytes → Bytes → Bytes
joined_path dir spec = if is_empty_text dir then spec else dir ++ slash ∷ spec

abbrev pub starts_at : ℕ → Bytes → Bool
starts_at d [] = false
starts_at d (c ∷ s) = c == d

abbrev pub rooted : Bytes → Bytes → Bytes
rooted joined base = if starts_at slash joined then slash ∷ base else base

-- The path without its extension; a dot that a slash follows begins none.
unfoldable pub strip_ext : Bytes → Bytes
unfolding before_last after_last
strip_ext path = if has_byte b'.' (after_last slash path) then before_last b'.' path else path

unfoldable pub relative_import_matches_file : Bytes → Bytes → Bytes → Bool
unfolding segments collapse join_parts strip_ext starts_with
relative_import_matches_file dir spec file =
    let joined = joined_path dir spec in
    let base = join_parts (collapse [] (segments joined)) in
    let full = rooted joined base in
    if not (starts_at b'.' spec)
    then false
    else if is_empty_text base
    then false
    else bytes_eq file full
      || bytes_eq (strip_ext file) full
      || starts_with (full ++ slash ∷ []) file
