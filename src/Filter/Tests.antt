-- ===== src/Filter/Tests.antt =====
-- Rules, patterns and paths.
use code_scope.Prelude.{
  true, false, some, [], ◌∷◌, ◌++◌, Bytes, codes, All, arith, ◌≡◌, refl, ◌↔◌, inl,
}
use code_scope.Filter.Glob.{slash, glob_match, max_double_stars}
use code_scope.Filter.Glob.Decides.{
  Globs, globs_end, globs_byte, globs_deep, glob_match-Globs, glob_match-stars,
}
use code_scope.Filter.Ignore.{Rule, matches_one, gitignore_matches, literal_loop}
use code_scope.Filter.Ignore.Literal.{Occurs, literal_loop-Occurs}
use code_scope.Filter.Ignore.Ignored.{
  any_positive, gitignore_matches-positive, gitignore_matches-below,
}
use code_scope.Filter.Exclude.{join_exclude_patterns, load_exclude_env}
use code_scope.Filter.Exclude.Joined.{IsPattern, load_exclude_env-join}
use code_scope.Filter.Rules.{load_gitignore, take_end, has_star_byte}
use code_scope.Filter.Trim.{trim_front, trim_back}
use code_scope.Filter.Rules.Written.{IsWritten, file_text, load_gitignore-file_text}

glob_deep : glob_match (codes "src/**/*.cpp") (codes "src/a/b/c.cpp") ≡ true
unfolding glob_match
glob_deep = refl

-- A `**` may end inside a name.
glob_inside : glob_match (codes "**/foo") (codes "a/xfoo") ≡ true
unfolding glob_match
glob_inside = refl

glob_flat : glob_match (codes "test/*") (codes "test/sub/x.cpp") ≡ false
unfolding glob_match
glob_flat = refl

glob_match-Globs_example :
    (glob_match (codes "**/a?") (codes "x/ab") ≡ true)
    ↔ Globs max_double_stars (codes "**/a?") (codes "x/ab")
glob_match-Globs_example = glob_match-Globs (codes "**/a?") (codes "x/ab")

sample-Globs : Globs 20 (codes "**/a") (codes "x/a")
sample-Globs = globs_deep (codes "x/") (globs_byte b'a' b'a' (ground arith) (inl refl) globs_end)

glob_match-stars_example : glob_match (codes "**/a") (codes "x/a") ≡ true
glob_match-stars_example =
    glob_match-stars 20 (codes "**/a") (codes "x/a") (ground arith) sample-Globs

abbrev build_dirs : Rule
build_dirs = record {
  pattern = codes "build-*";
  negate = false;
  dir_only = true;
  anchored = false;
  has_star = true;
}

abbrev keep_readme : Rule
keep_readme = record {
  pattern = codes "readme";
  negate = true;
  dir_only = false;
  anchored = true;
  has_star = false;
}

build_dirs-matches : matches_one build_dirs (codes "a/build-x") ≡ true
unfolding matches_one
build_dirs-matches = refl

gitignore_matches-below_example :
    gitignore_matches
      (keep_readme ∷ build_dirs ∷ [])
      (codes "a/build-x" ++ slash ∷ codes "m/c.cpp")
      false
    ≡ true
gitignore_matches-below_example =
    gitignore_matches-below (keep_readme ∷ []) [] build_dirs (codes "a/build-x") (codes "m/c.cpp")
      false refl refl build_dirs-matches

abbrev drop_readme : Rule
drop_readme = record keep_readme { negate = false }

gitignore_matches-positive_example :
    gitignore_matches (drop_readme ∷ keep_readme ∷ []) (codes "readme") false
    ≡ any_positive (codes "readme") false (drop_readme ∷ keep_readme ∷ [])
gitignore_matches-positive_example =
    gitignore_matches-positive (drop_readme ∷ keep_readme ∷ []) (codes "readme") false

-- The later `!/readme` does not bring the file back.
negation_ignored : gitignore_matches (drop_readme ∷ keep_readme ∷ []) (codes "readme") false ≡ true
unfolding gitignore_matches
negation_ignored = refl

literal_loop-Occurs_example :
    (literal_loop true (codes "foo") (codes "xfoo/foo") ≡ true)
    ↔ Occurs true (codes "foo") (codes "xfoo/foo")
literal_loop-Occurs_example = literal_loop-Occurs (codes "foo") (codes "xfoo/foo")

abbrev comma_pattern : Bytes
comma_pattern = codes "a,b\\/**"

sample-IsPattern : All IsPattern (comma_pattern ∷ codes "docs" ∷ [])
unfolding trim_front trim_back
sample-IsPattern = ((ground arith, (refl, refl)), ((ground arith, (refl, refl)), tt))

load_exclude_env-join_example :
    (load_exclude_env (some (join_exclude_patterns (comma_pattern ∷ codes "docs" ∷ []))) []).0
    ≡ comma_pattern ∷ codes "docs" ∷ []
load_exclude_env-join_example =
    load_exclude_env-join comma_pattern (codes "docs" ∷ []) [] sample-IsPattern

sample-IsWritten : All IsWritten (keep_readme ∷ build_dirs ∷ [])
unfolding take_end has_star_byte trim_back
sample-IsWritten = (
  (refl, refl, refl, refl, (refl, (refl, (refl, (refl, (refl, (refl, tt))))))),
  ((refl, refl, refl, refl, (refl, (refl, (refl, (refl, (refl, (refl, (refl, tt)))))))), tt),
)

load_gitignore-file_text_example :
    (load_gitignore (some (file_text (keep_readme ∷ build_dirs ∷ []))) false []).0
    ≡ keep_readme ∷ build_dirs ∷ []
load_gitignore-file_text_example =
    load_gitignore-file_text (keep_readme ∷ build_dirs ∷ []) [] false sample-IsWritten
