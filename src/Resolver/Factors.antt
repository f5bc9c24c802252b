-- ===== src/Resolver/Factors.antt =====
-- The factors of engine/src/resolver/factors.h and factors.cpp. The scores are the constants of
-- the source, and its arities are numbers from 0 on.
use code_scope.Prelude.{
  ℕ, Bool, true, false, not, ◌&&◌, ◌||◌, List, [], ◌∷◌, ◌++◌, Bytes, codes, bytes_eq, leb, ◌==◌,
  if◌then◌else◌,
}
use code_scope.Filter.Trim.{trim, trim_front, trim_back}
use code_scope.Filter.Glob.{slash}
use code_scope.Resolver.Text.{
  to_lower, lower, from_last, before_last, after_last, has_byte, starts_with, contains, one_of,
}
pub mod Receiver
pub mod Languages

-- The values 1, 0.5, 0.25, 0.2, 0 and -0.5.
pub data Score : Type 0 where
  exact_match partial_match common_name_penalty weak_filename_match no_match penalty : Score

unfoldable pub lower_extension : Bytes → Bytes
unfolding from_last lower
lower_extension path = lower (from_last b'.' path)

abbrev cpp_paths : List Bytes
cpp_paths =
    codes ".cpp"
    ∷ codes ".cc"
    ∷ codes ".cxx"
    ∷ codes ".c"
    ∷ codes ".h"
    ∷ codes ".hpp"
    ∷ codes ".hh"
    ∷ codes ".hxx"
    ∷ []

unfoldable pub language_from_path : Bytes → Bytes
unfolding lower_extension one_of
language_from_path path =
    let ext = lower_extension path in
    if one_of ext cpp_paths
    then codes "cpp"
    else if bytes_eq ext (codes ".rs")
    then codes "rust"
    else if bytes_eq ext (codes ".py")
    then codes "python"
    else if bytes_eq ext (codes ".go")
    then codes "go"
    else if one_of ext (codes ".ts" ∷ codes ".tsx" ∷ [])
    then codes "typescript"
    else if one_of ext (codes ".js" ∷ codes ".jsx" ∷ [])
    then codes "javascript"
    else if bytes_eq ext (codes ".java")
    then codes "java"
    else []

unfoldable pub allows_default_arguments : Bytes → Bool
unfolding language_from_path
allows_default_arguments path =
    one_of (language_from_path path)
      (codes "cpp" ∷ codes "python" ∷ codes "javascript" ∷ codes "typescript" ∷ codes "java" ∷ [])

abbrev pub c_family : List Bytes
c_family =
    codes "c" ∷ codes "cpp" ∷ codes "c++" ∷ codes "cxx" ∷ codes "objc" ∷ codes "objective-c" ∷ []

abbrev pub js_family : List Bytes
js_family = codes "javascript" ∷ codes "typescript" ∷ codes "tsx" ∷ []

abbrev pub is_empty_text : Bytes → Bool
is_empty_text [] = true
is_empty_text (c ∷ s) = false

unfoldable pub languages_compatible : Bytes → Bytes → Bool
unfolding one_of
languages_compatible a b =
    (is_empty_text a || is_empty_text b || bytes_eq a b)
    || ((one_of a c_family && one_of b c_family) || (one_of a js_family && one_of b js_family))

unfoldable pub factor_signature_match : ℕ → ℕ → Score
factor_signature_match caller candidate =
    if caller == 0 && candidate == 0
    then partial_match
    else if caller == candidate
    then exact_match
    else if candidate == 0
    then partial_match
    else penalty

unfoldable pub factor_constructor_match : Bytes → Bytes → ℕ → Score
factor_constructor_match ref_name candidate_name kind =
    if not (kind == 2) && not (kind == 3)
    then no_match
    else if bytes_eq ref_name candidate_name
    then exact_match
    else no_match

-- `isspace`, a pointer sigil or a reference sigil.
abbrev pub is_sigil_or_space : ℕ → Bool
is_sigil_or_space c = c == b'*' || c == b'&' || (c == b' ' || (leb 9 c && leb c 13))

-- `isalnum`, an underscore or a separator.
abbrev is_name_byte : ℕ → Bool
is_name_byte c =
    (c == b'.' || c == b':')
    || ((leb b'0' c && leb c b'9') || (leb b'A' c && leb c b'Z') || (leb b'a' c && leb c b'z'))
    || c == b'_'

unfoldable pub is_plain_name : Bytes → Bool
is_plain_name [] = true
is_plain_name (c ∷ s) = is_name_byte c && is_plain_name s

-- What stands behind the last `.` or `:`.
unfoldable pub last_segment : Bytes → Bytes
last_segment [] = []
last_segment (c ∷ s) =
    let later = last_segment s in
    if has_byte b'.' s || has_byte b':' s
    then later
    else if c == b'.' || c == b':'
    then s
    else c ∷ s

abbrev pub plain_segment : Bytes → Bytes
plain_segment text = if is_plain_name text then last_segment text else []

unfoldable pub canonical_type_name : Bytes → Bytes
unfolding trim trim_front trim_back is_plain_name last_segment
canonical_type_name name = plain_segment (trim is_sigil_or_space name)

pub record ReceiverMatchContext : Type 0 where
  pub prefix1 : Bytes
  pub prefix2 : Bytes
  pub rtype_lower : Bytes
  pub is_unknown : Bool

abbrev pub context_of : Bytes → ReceiverMatchContext
context_of [] = record { prefix1 = []; prefix2 = []; rtype_lower = []; is_unknown = true }
context_of (c ∷ s) = record {
  prefix1 = (c ∷ s) ++ codes "::";
  prefix2 = (c ∷ s) ++ codes ".";
  rtype_lower = lower (c ∷ s);
  is_unknown = false;
}

unfoldable pub build_receiver_match_context : Bytes → ReceiverMatchContext
unfolding canonical_type_name lower
build_receiver_match_context receiver_type = context_of (canonical_type_name receiver_type)

-- The candidate's file name mentions the type.
unfoldable pub filename_match : ReceiverMatchContext → Bytes → Score
unfolding after_last lower contains
filename_match ctx file =
    if not (is_empty_text ctx.rtype_lower)
      && contains ctx.rtype_lower (lower (after_last slash file))
    then weak_filename_match
    else no_match

-- An empty qualified name goes to the file name at once; no prefix stands in it in any case.
unfoldable pub factor_receiver_type_match : ReceiverMatchContext → Bytes → Bytes → Score
unfolding filename_match starts_with contains
factor_receiver_type_match ctx qname file =
    if ctx.is_unknown
    then partial_match
    else if not (is_empty_text qname)
        && (starts_with ctx.prefix1 qname || starts_with ctx.prefix2 qname)
    then exact_match
    else if not (is_empty_text qname) && (contains ctx.prefix1 qname || contains ctx.prefix2 qname)
    then partial_match
    else filename_match ctx file

abbrev pub starts_lower : Bytes → Bool
starts_lower [] = false
starts_lower (c ∷ s) = leb b'a' c && leb c b'z'

abbrev pub starts_underscore : Bytes → Bool
starts_underscore [] = false
starts_underscore (c ∷ s) = c == b'_'

unfoldable pub factor_visibility_check : Bytes → Bytes → Bytes → Bytes → Score
unfolding before_last one_of
factor_visibility_check language name caller_file candidate_file =
    if is_empty_text name
    then exact_match
    else if bytes_eq language (codes "go") && starts_lower name
    then (if bytes_eq (before_last slash caller_file) (before_last slash candidate_file)
        then exact_match
        else no_match)
    else if bytes_eq language (codes "python") && starts_underscore name
    then (if bytes_eq caller_file candidate_file then exact_match else no_match)
    else if one_of language (codes "java" ∷ codes "kotlin" ∷ codes "csharp" ∷ [])
        && starts_lower name
    then partial_match
    else exact_match

abbrev pub source_extensions : List Bytes
source_extensions =
    codes ".c"
    ∷ codes ".cpp"
    ∷ codes ".cc"
    ∷ codes ".cxx"
    ∷ codes ".c++"
    ∷ codes ".m"
    ∷ codes ".mm"
    ∷ []

abbrev pub header_extensions : List Bytes
header_extensions =
    codes ".h"
    ∷ codes ".hpp"
    ∷ codes ".hh"
    ∷ codes ".hxx"
    ∷ codes ".h++"
    ∷ codes ".inl"
    ∷ codes ".ipp"
    ∷ codes ".tpp"
    ∷ codes ".tcc"
    ∷ []

unfoldable pub is_cpp_source_file : Bytes → Bool
unfolding lower_extension one_of
is_cpp_source_file path = one_of (lower_extension path) source_extensions

unfoldable pub is_cpp_header_file : Bytes → Bool
unfolding lower_extension one_of
is_cpp_header_file path = one_of (lower_extension path) header_extensions

unfoldable pub factor_definition_match : Bytes → Bytes → Score
unfolding is_cpp_source_file is_cpp_header_file
factor_definition_match language file =
    if not (bytes_eq language (codes "cpp"))
    then exact_match
    else if is_cpp_source_file file
    then exact_match
    else if is_cpp_header_file file
    then penalty
    else exact_match
