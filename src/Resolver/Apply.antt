-- ===== src/Resolver/Apply.antt =====
-- The scoring of candidates, `applyConstraints` of engine/src/resolver/pipeline_apply.cpp. Doubles are a
-- parameter; a decimal literal is a number of hundredths.
use code_scope.Prelude.{
  ℕ, Bool, true, false, not, ◌&&◌, ◌||◌, Option, none, some, List, [], ◌∷◌, ◌++◌, map, Bytes, codes,
  bytes_eq, ltb, ◌==◌, if◌then◌else◌,
}
use code_scope.Filter.Glob.{slash}
use code_scope.Resolver.Text.{before_last, after_last, contains, one_of}
use code_scope.Resolver.Factors.{
  Score, exact_match, partial_match, common_name_penalty, weak_filename_match, no_match, penalty,
  is_empty_text, allows_default_arguments, factor_signature_match, factor_constructor_match,
  ReceiverMatchContext, build_receiver_match_context, factor_receiver_type_match,
  factor_definition_match,
}
use code_scope.Resolver.Paths.{starts_at, relative_import_matches_file}
pub mod Fused
pub mod Order
mod Tests

pub record Doubles (D : Type 0) : Type 0 where
  pub hundredths : ℕ → D
  pub add : D → D → D
  pub mul : D → D → D
  pub div : D → D → D
  pub neg : D → D
  pub less : D → D → Bool
  pub equal : D → D → Bool

pub record Candidate (D : Type 0) : Type 0 where
  pub entity_id : ℕ
  pub name : Bytes
  pub file_path : Bytes
  pub language : Bytes
  pub qualified_name : Bytes
  pub arity : ℕ
  pub kind : ℕ
  pub cand_dir : Bytes
  pub cand_parent : Bytes
  pub cand_module : Bytes
  pub total_score : D
  pub deciding_factor : Bytes
  pub receiver_score : D

-- The arguments of the call, with the two indexes and the name of the disabled factor.
pub record Reference : Type 0 where
  pub caller_file : Bytes
  pub callee_name : Bytes
  pub call_kind : ℕ
  pub caller_arity : ℕ
  pub receiver_type : Bytes
  pub import_index : Bytes → Option (List Bytes)
  pub import_alias_index : Bytes → Bytes → Option Bytes
  pub disabled : Bytes

abbrev pub factor_names : List Bytes
factor_names =
    codes "ModuleMatch"
    ∷ codes "ImportMatch"
    ∷ codes "ImportModuleMatch"
    ∷ codes "NamespaceMatch"
    ∷ codes "SignatureMatch"
    ∷ codes "DistanceMatch"
    ∷ codes "ConstructorMatch"
    ∷ codes "ReceiverMatch"
    ∷ codes "CommonNamePenalty"
    ∷ codes "CallKindMatch"
    ∷ codes "DefinitionMatch"
    ∷ []

-- `disabledFactor` on the value of the environment variable.
unfoldable pub disabled_factor : Option Bytes → Bytes
unfolding one_of
disabled_factor none = []
disabled_factor (some name) = if one_of name factor_names then name else []

abbrev pub common_names : List Bytes
common_names =
    codes "Len"
    ∷ codes "Init"
    ∷ codes "Run"
    ∷ codes "Stop"
    ∷ codes "Close"
    ∷ codes "Open"
    ∷ codes "Read"
    ∷ codes "Write"
    ∷ codes "Get"
    ∷ codes "Set"
    ∷ codes "Add"
    ∷ codes "Remove"
    ∷ codes "Update"
    ∷ codes "Delete"
    ∷ codes "Create"
    ∷ codes "New"
    ∷ codes "Process"
    ∷ codes "Handle"
    ∷ codes "Execute"
    ∷ codes "Start"
    ∷ codes "End"
    ∷ codes "Error"
    ∷ codes "String"
    ∷ codes "Format"
    ∷ codes "Marshal"
    ∷ codes "Unmarshal"
    ∷ codes "Equals"
    ∷ codes "Compare"
    ∷ codes "Hash"
    ∷ codes "Copy"
    ∷ codes "Clone"
    ∷ codes "Reset"
    ∷ codes "Clear"
    ∷ codes "IsEmpty"
    ∷ codes "IsValid"
    ∷ codes "HasNext"
    ∷ codes "Next"
    ∷ codes "Previous"
    ∷ codes "First"
    ∷ codes "Last"
    ∷ codes "Value"
    ∷ codes "Key"
    ∷ codes "Int"
    ∷ codes "Float"
    ∷ codes "Bool"
    ∷ codes "Bytes"
    ∷ codes "Size"
    ∷ codes "Cap"
    ∷ []

unfoldable pub factor_common_name_penalty : Bytes → Score
unfolding one_of
factor_common_name_penalty name = if one_of name common_names then common_name_penalty else no_match

-- The paths in one text, a NUL behind each.
unfoldable pub join_imports : List Bytes → Bytes
join_imports [] = []
join_imports (p ∷ ps) = p ++ 0 ∷ join_imports ps

-- The one search over that text, which stands for the search in each path.
unfoldable pub fused_match : List Bytes → Bytes → Bool
unfolding join_imports contains
fused_match paths mod_name =
    let joined = join_imports paths in not (is_empty_text joined) && contains mod_name joined

unfoldable pub any_import_matches : List Bytes → Bytes → Bool
unfolding contains
any_import_matches [] mod_name = false
any_import_matches (p ∷ ps) mod_name = contains mod_name p || any_import_matches ps mod_name

abbrev pub paths_of : Option (List Bytes) → List Bytes
paths_of none = []
paths_of (some paths) = paths

abbrev pub relative_spec : Option Bytes → Bytes
relative_spec none = []
relative_spec (some spec) = if starts_at b'.' spec then spec else []

-- `import_score` of a candidate that has the name of the callee.
unfoldable pub imports_agree : Reference → Bytes → Bytes → Bytes → Bytes → Bool
unfolding fused_match any_import_matches before_last after_last
imports_agree r caller_dir file dir mod_name =
    (not (is_empty_text caller_dir) && bytes_eq caller_dir dir)
    || (fused_match (paths_of (r.import_index r.caller_file)) mod_name
        || any_import_matches (paths_of (r.import_index file)) (after_last slash caller_dir))

-- Fewer arguments than the candidate declares are no penalty where defaults exist.
unfoldable pub signature_score : ℕ → ℕ → Bytes → Score
unfolding factor_signature_match allows_default_arguments
signature_score caller candidate file = elim (factor_signature_match caller candidate) [
  | penalty ↦
      if ltb caller candidate && allows_default_arguments file then partial_match else penalty
  | exact_match ↦ exact_match
  | partial_match ↦ partial_match
  | common_name_penalty ↦ common_name_penalty
  | weak_filename_match ↦ weak_filename_match
  | no_match ↦ no_match
]

unfoldable pub insert_by : {A : Type 0} → (A → A → Bool) → A → List A → List A
insert_by before a [] = a ∷ []
insert_by before a (b ∷ bs) =
    let rest = insert_by before a bs in if before b a then b ∷ rest else a ∷ b ∷ bs

unfoldable pub sort_by : {A : Type 0} → (A → A → Bool) → List A → List A
unfolding insert_by
sort_by before [] = []
sort_by before (a ∷ as_) = insert_by before a (sort_by before as_)

-- What a candidate's factors add up to.
pub record Sums (D : Type 0) : Type 0 where
  pub sum_weight : D
  pub sum_scored : D
  pub best_contribution : D
  pub deciding : Bytes

module _ {D : Type 0} (num : Doubles D) where
  abbrev pub score_value : Score → D
  score_value exact_match = num.hundredths 100
  score_value partial_match = num.hundredths 50
  score_value common_name_penalty = num.hundredths 25
  score_value weak_filename_match = num.hundredths 20
  score_value no_match = num.hundredths 0
  score_value penalty = num.neg (num.hundredths 50)

  abbrev pub truth_value : Bool → D
  truth_value true = num.hundredths 100
  truth_value false = num.hundredths 0

  abbrev pub no_sums : Sums D
  no_sums = record {
    sum_weight = num.hundredths 0;
    sum_scored = num.hundredths 0;
    best_contribution = num.hundredths 0;
    deciding = [];
  }

  -- `acc`.
  unfoldable pub accumulate : Bytes → D → D → Bytes → Sums D → Sums D
  accumulate disabled weight score factor s = if bytes_eq disabled factor then s else record {
    sum_weight = num.add s.sum_weight weight;
    sum_scored = num.add s.sum_scored (num.mul weight score);
    best_contribution =
        if num.less s.best_contribution (num.mul weight score)
        then num.mul weight score
        else s.best_contribution;
    deciding = if num.less s.best_contribution (num.mul weight score) then factor else s.deciding;
  }

  unfoldable pub namespace_score : Bytes → Bytes → Bytes → D
  unfolding before_last
  namespace_score caller_dir dir parent =
      if is_empty_text dir || is_empty_text caller_dir
      then num.hundredths 0
      else if bytes_eq caller_dir dir
      then num.hundredths 100
      else if bytes_eq (before_last slash caller_dir) parent
          && not (is_empty_text (before_last slash caller_dir))
      then num.hundredths 50
      else num.hundredths 0

  abbrev pub distance_score : Bytes → Bytes → Bytes → Bytes → D
  distance_score caller_file caller_dir file dir =
      if bytes_eq caller_file file
      then num.hundredths 100
      else if not (is_empty_text caller_dir) && bytes_eq caller_dir dir
      then num.hundredths 30
      else num.hundredths 0

  abbrev pub call_kind_score : ℕ → D
  call_kind_score kind =
      if kind == 3
      then num.hundredths 30
      else if kind == 2
      then num.neg (num.hundredths 30)
      else if kind == 1
      then num.neg (num.hundredths 10)
      else num.hundredths 0

  abbrev pub receiver_match_score : Bytes → Bytes → Bytes → D
  receiver_match_score receiver_type qname file =
      if is_empty_text receiver_type
      then num.hundredths 50
      else score_value
          (factor_receiver_type_match (build_receiver_match_context receiver_type) qname file)

  -- The factors of a candidate, in the order of the source.
  unfoldable pub factor_sums : Reference → Candidate D → Sums D
  unfolding accumulate namespace_score imports_agree signature_score relative_import_matches_file
      factor_constructor_match factor_receiver_type_match build_receiver_match_context
      factor_common_name_penalty factor_definition_match before_last
  factor_sums r c =
      let dir = before_last slash r.caller_file in
      let ns = namespace_score dir c.cand_dir c.cand_parent in
      let spec = relative_spec (r.import_alias_index r.caller_file r.callee_name) in
      let w = num.hundredths in
      let acc = accumulate r.disabled in
      let s1 = acc (w 15) ns (codes "ModuleMatch") no_sums in
      let s2 =
        acc (w 80)
          (truth_value (
            bytes_eq c.name r.callee_name
            && imports_agree r dir c.file_path c.cand_dir c.cand_module))
          (codes "ImportMatch") s1 in
      let s3 =
        if is_empty_text spec
        then s2
        else acc (w 90) (truth_value (relative_import_matches_file dir spec c.file_path))
            (codes "ImportModuleMatch") s2 in
      let s4 = acc (w 10) ns (codes "NamespaceMatch") s3 in
      let s5 =
        acc (w 10) (score_value (signature_score r.caller_arity c.arity c.file_path))
          (codes "SignatureMatch") s4 in
      let s6 =
        acc (w 5) (distance_score r.caller_file dir c.file_path c.cand_dir) (codes "DistanceMatch")
          s5 in
      let s7 =
        acc (w 10) (score_value (factor_constructor_match r.callee_name c.name c.kind))
          (codes "ConstructorMatch") s6 in
      let s8 =
        acc (w 15) (receiver_match_score r.receiver_type c.qualified_name c.file_path)
          (codes "ReceiverMatch") s7 in
      let s9 =
        acc (w 10)
          (num.neg (
            if num.less (w 0) ns
            then w 0
            else score_value (factor_common_name_penalty r.callee_name)))
          (codes "CommonNamePenalty") s8 in
      let s10 =
        if r.call_kind == 0
        then s9
        else acc (w 15) (call_kind_score r.call_kind) (codes "CallKindMatch") s9 in
      acc (w 20) (score_value (factor_definition_match c.language c.file_path))
        (codes "DefinitionMatch") s10

  unfoldable pub average : Sums D → D
  average s =
      if num.less (num.hundredths 0) s.sum_weight
      then num.div s.sum_scored s.sum_weight
      else num.hundredths 0

  unfoldable pub score_candidate : Reference → Candidate D → Candidate D
  unfolding factor_sums average
  score_candidate r c =
      let s = factor_sums r c in
      record c {
        receiver_score = receiver_match_score r.receiver_type c.qualified_name c.file_path;
        deciding_factor = s.deciding;
        total_score = average s;
      }

  -- The comparison of the final sort.
  unfoldable pub ranks_before : Candidate D → Candidate D → Bool
  ranks_before a b =
      if num.equal a.total_score b.total_score
      then ltb a.entity_id b.entity_id
      else num.less b.total_score a.total_score

  unfoldable pub apply_constraints : Reference → List (Candidate D) → List (Candidate D)
  unfolding score_candidate sort_by ranks_before
  apply_constraints r cs = sort_by ranks_before (map (score_candidate r) cs)
