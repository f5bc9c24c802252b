-- ===== src/Resolver/Factors/Languages.antt =====
-- Languages, visibility, source files and headers.
use code_scope.Prelude.{
  ℕ, Bool, true, false, ◌&&◌, ◌||◌, [], ◌∷◌, Bytes, codes, bytes_eq, ◌==◌, ◌≡◌, refl, ◌≢◌, arith,
  if◌then◌else◌,
}
use code_scope.Resolver.Text.{one_of, one_of-All, bytes_eq_refl, before_last}
use code_scope.Filter.Glob.{slash}
use code_scope.Resolver.Factors.{
  exact_match, partial_match, no_match, languages_compatible, is_empty_text, c_family, js_family,
  factor_visibility_check, is_cpp_source_file, is_cpp_header_file, starts_lower, starts_underscore,
  lower_extension, source_extensions, header_extensions,
}

swap : (a b c : Bool) → a || b || c ≡ b || a || c
swap true true c = refl
swap true false c = refl
swap false true c = refl
swap false false c = refl

&&_comm : (a b : Bool) → a && b ≡ b && a
&&_comm true true = refl
&&_comm true false = refl
&&_comm false true = refl
&&_comm false false = refl

==_comm : (a b : ℕ) → (a == b) ≡ (b == a)
==_comm a b = ground arith

bytes_eq_comm : (s t : Bytes) → bytes_eq s t ≡ bytes_eq t s
bytes_eq_comm [] [] = refl
bytes_eq_comm [] (d ∷ t) = refl
bytes_eq_comm (c ∷ s) [] = refl
bytes_eq_comm (c ∷ s) (d ∷ t) = rw (==_comm c d, bytes_eq_comm s t)

-- Whether two labels may describe the same code does not depend on their order.
pub languages_compatible_comm : (a b : Bytes) → languages_compatible a b ≡ languages_compatible b a
unfolding languages_compatible
languages_compatible_comm a b =
    let same : (is_empty_text a || is_empty_text b || bytes_eq a b)
        ≡ (is_empty_text b || is_empty_text a || bytes_eq b a) =
      rw (bytes_eq_comm a b) (swap (is_empty_text a) (is_empty_text b) (bytes_eq b a)) in
    rw (
      same,
      &&_comm (one_of a c_family) (one_of b c_family),
      &&_comm (one_of a js_family) (one_of b js_family),
    )

never_no_match :
    (unnamed go python java : Bool)
    → (if unnamed
        then exact_match
        else if go
        then exact_match
        else if python
        then exact_match
        else if java
        then partial_match
        else exact_match)
      ≢ no_match
never_no_match unnamed go python java = ground arith

-- A candidate in the caller's own file is visible, whatever the language and the name: it is never
-- rejected.
pub factor_visibility_check-own_file :
    (language name file : Bytes) → factor_visibility_check language name file file ≢ no_match
unfolding factor_visibility_check
factor_visibility_check-own_file language name file =
    rw (bytes_eq_refl file, bytes_eq_refl (before_last slash file))
      (never_no_match (is_empty_text name) (bytes_eq language (codes "go") && starts_lower name)
        (bytes_eq language (codes "python") && starts_underscore name)
        (one_of language (codes "java" ∷ codes "kotlin" ∷ codes "csharp" ∷ [])
          && starts_lower name))

-- No file is a C or C++ source file and a header at once.
pub is_cpp_source_file-header :
    (path : Bytes) → is_cpp_source_file path ≡ true → is_cpp_header_file path ≡ false
unfolding is_cpp_source_file is_cpp_header_file
is_cpp_source_file-header path h =
    one_of-All (λ e. one_of e header_extensions ≡ false) (lower_extension path) source_extensions
      (refl, (refl, (refl, (refl, (refl, (refl, (refl, tt))))))) h
