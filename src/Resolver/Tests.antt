-- ===== src/Resolver/Tests.antt =====
-- The resolver's helpers on small texts.
use code_scope.Prelude.{
  ℕ, true, false, some, codes, List, Bytes, [], ◌∷◌, ◌++◌, arith, ◌≡◌, refl, ◌≢◌,
}
use code_scope.Resolver.Factors.{
  exact_match, no_match, is_sigil_or_space, canonical_type_name, build_receiver_match_context,
  factor_receiver_type_match, factor_visibility_check, language_from_path,
}
use code_scope.Resolver.Factors.Receiver.{
  AreBlank, canonical_type_name-around, factor_receiver_type_match-around,
}
use code_scope.Resolver.Factors.Languages.{factor_visibility_check-own_file}
use code_scope.Resolver.Fuzzy.{
  load_entities, load_rows, scan_like, resolve, resolve_prefix, resolve_suffix,
}
use code_scope.Resolver.Fuzzy.Scan.{IsAscending, resolve_prefix-scan_like}
use code_scope.Resolver.Like.{percent, sqlite_like_match}
use code_scope.Resolver.Like.Decides.{Decides}

like_backtracks : sqlite_like_match (codes "%a_c%") (codes "x/AaBAXc/d") ≡ some true
unfolding sqlite_like_match
like_backtracks = refl

like_fails : sqlite_like_match (codes "%ab") (codes "abc") ≡ some false
unfolding sqlite_like_match
like_fails = refl

star_sigil-AreBlank : AreBlank is_sigil_or_space (codes "* ")
star_sigil-AreBlank = (refl, (refl, tt))

no_sigil-AreBlank : AreBlank is_sigil_or_space []
no_sigil-AreBlank = tt

manager_name : canonical_type_name (codes "ares.Manager") ≡ codes "Manager"
unfolding canonical_type_name
manager_name = refl

instantiation_name : canonical_type_name (codes "std::vector<int>") ≡ []
unfolding canonical_type_name
instantiation_name = refl

canonical_type_name-around_example :
    canonical_type_name (codes "* ares.Manager") ≡ canonical_type_name (codes "ares.Manager")
canonical_type_name-around_example =
    canonical_type_name-around (codes "* ") (codes "ares.Manager") [] star_sigil-AreBlank
      no_sigil-AreBlank

factor_receiver_type_match-around_example :
    factor_receiver_type_match
      (build_receiver_match_context (codes "* ares.Manager"))
      (codes "Manager::Get")
      (codes "a.go")
    ≡ exact_match
factor_receiver_type_match-around_example =
    factor_receiver_type_match-around (codes "* ") (codes "ares.Manager") [] (codes "Manager")
      (codes "Get") (codes "a.go") star_sigil-AreBlank no_sigil-AreBlank manager_name (ground arith)

factor_visibility_check-own_file_example :
    factor_visibility_check (codes "python") (codes "_load") (codes "m.py") (codes "m.py")
    ≢ no_match
factor_visibility_check-own_file_example =
    factor_visibility_check-own_file (codes "python") (codes "_load") (codes "m.py")

-- A `.c++` file is a C++ source file whose language is unknown.
cxx_language : language_from_path (codes "a.c++") ≡ []
unfolding language_from_path
cxx_language = refl

abbrev rows : List (ℕ × Bytes)
rows =
    (1, codes "LoggerFactory") ∷ (2, codes "log") ∷ (4, codes "LOG_all") ∷ (7, codes "logger") ∷ []

rows-IsAscending : IsAscending rows
rows-IsAscending = (
  (omega arith, (omega arith, (omega arith, tt))),
  ((omega arith, (omega arith, tt)), ((omega arith, tt), (tt, tt))),
)

prefix_found : resolve_prefix (load_entities rows) (codes "logG") 2 ≡ 1 ∷ 7 ∷ []
unfolding resolve_prefix load_entities
prefix_found = refl

suffix_found : resolve (load_entities rows) (codes "all") 5 ≡ 4 ∷ []
unfolding resolve load_entities
suffix_found = refl

resolve_prefix-scan_like_example :
    (resolve_prefix (load_entities rows) (codes "log") 2
      ≡ scan_like (codes "log" ++ percent ∷ []) 2 0 (load_rows rows))
    × (resolve_suffix (load_entities rows) (codes "log") 2
        ≡ scan_like (percent ∷ codes "log") 2 0 (load_rows rows))
resolve_prefix-scan_like_example =
    resolve_prefix-scan_like rows (codes "log") 2 rows-IsAscending (omega arith) (omega arith)
