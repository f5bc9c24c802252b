-- ===== src/Evidence/Rules.antt =====
-- `parseRuleFile` and what it calls, in engine/src/evidence/rule.cpp. `int` is a parameter: only
-- the conversion from a number and the default 1 are used.
use code_scope.Prelude.{
  ℕ, Bool, true, false, Option, none, some, List, [], ◌∷◌, Bytes, codes, bytes_eq, if◌then◌else◌,
}
use code_scope.Json.Value.{
  Value, null, boolean, number, string, array, object, Items, nil, cons, find, find_field,
}
use code_scope.Json.Reader.Strings.{Read, ok, fail}
use code_scope.Json.Reader.Values.{read}
pub mod Written

pub record FactNeed : Type 0 where
  pub category : Bytes
  pub primitive : Bytes
  pub kind : Bytes
  pub optional : Bool

pub data CombineMode : Type 0 where
  collect missing_match missing_match_per_function count : CombineMode

pub record RuleOutput (I : Type 0) : Type 0 where
  pub severity : I
  pub title_template : Bytes
  pub message_template : Bytes

pub record Rule (I : Type 0) : Type 0 where
  pub name : Bytes
  pub description : Bytes
  pub category : Bytes
  pub needs : List FactNeed
  pub combine : CombineMode
  pub output : RuleOutput I

pub record RuleSet (I : Type 0) : Type 0 where
  pub category : Bytes
  pub rules : List (Rule I)

-- Empty and unknown texts give `collect`.
unfoldable pub combine_mode_from_string : Bytes → CombineMode
combine_mode_from_string s =
    if bytes_eq s (codes "missing_match")
    then missing_match
    else if bytes_eq s (codes "missing_match_per_function")
    then missing_match_per_function
    else if bytes_eq s (codes "count")
    then count
    else collect

unfoldable pub combine_mode_to_string : CombineMode → Bytes
combine_mode_to_string collect = codes "collect"
combine_mode_to_string missing_match = codes "missing_match"
combine_mode_to_string missing_match_per_function = codes "missing_match_per_function"
combine_mode_to_string count = codes "count"

module _ {N : Type 0} where
  abbrev string_of : Option (Value N) → Bytes
  string_of (some (string s)) = s
  string_of _ = []

  unfoldable pub get_string : Value N → Bytes → Bytes
  unfolding find find_field
  get_string obj key = string_of (find obj key)

  abbrev bool_of : Bool → Option (Value N) → Bool
  bool_of fallback (some (boolean b)) = b
  bool_of fallback _ = fallback

  unfoldable pub get_bool : Value N → Bytes → Bool → Bool
  unfolding find find_field
  get_bool obj key fallback = bool_of fallback (find obj key)

  unfoldable pub parse_fact_need : Value N → FactNeed
  unfolding get_string get_bool
  parse_fact_need obj = record {
    category = get_string obj (codes "category");
    primitive = get_string obj (codes "primitive");
    kind = get_string obj (codes "kind");
    optional = get_bool obj (codes "optional") false;
  }

  unfoldable pub parse_needs : Items N → List FactNeed
  unfolding parse_fact_need
  parse_needs nil = []
  parse_needs (cons v xs) = parse_fact_need v ∷ parse_needs xs

  -- The array under `need`, or else the one under `needs`.
  abbrev array_or : Option (Value N) → Option (Items N) → Option (Items N)
  array_or (some (array xs)) other = some xs
  array_or _ other = other

  unfoldable pub find_needs : Value N → Option (Items N)
  unfolding find find_field
  find_needs obj = array_or (find obj (codes "need")) (array_or (find obj (codes "needs")) none)

abbrev pub or_fallback : Bytes → Bytes → Bytes
or_fallback [] fallback = fallback
or_fallback (c ∷ s) fallback = c ∷ s

module _ {N I : Type 0} (to_int : N → I) (one : I) where
  abbrev int_of : I → Option (Value N) → I
  int_of fallback (some (number n)) = to_int n
  int_of fallback _ = fallback

  unfoldable pub get_int : Value N → Bytes → I → I
  unfolding find find_field
  get_int obj key fallback = int_of fallback (find obj key)

  unfoldable pub parse_rule_output : Value N → RuleOutput I
  unfolding get_string get_int
  parse_rule_output obj = record {
    severity = get_int obj (codes "severity") one;
    title_template = get_string obj (codes "title");
    message_template = get_string obj (codes "message");
  }

  abbrev output_of : Option (Value N) → RuleOutput I
  output_of (some (object fs)) = parse_rule_output (object fs)
  output_of _ = record { severity = one; title_template = []; message_template = [] }

  abbrev pub if_named : Bytes → Rule I → Option (Rule I)
  if_named [] rule = none
  if_named (c ∷ s) rule = some rule

  abbrev unless_unnamed : Rule I → Option (Rule I)
  unless_unnamed rule = if_named rule.name rule

  abbrev with_needs : Value N → Bytes → Option (Items N) → Option (Rule I)
  with_needs obj fallback_cat none = none
  with_needs obj fallback_cat (some needs) = unless_unnamed (record {
    name = get_string obj (codes "name");
    description = get_string obj (codes "description");
    category = or_fallback (get_string obj (codes "category")) fallback_cat;
    needs = parse_needs needs;
    combine = combine_mode_from_string (get_string obj (codes "combine"));
    output = output_of (find obj (codes "output"));
  })

  unfoldable pub parse_rule : Value N → Bytes → Option (Rule I)
  unfolding find_needs parse_needs parse_rule_output combine_mode_from_string get_string find
      find_field
  parse_rule obj fallback_cat = with_needs obj fallback_cat (find_needs obj)

  abbrev pub keep_rule : Option (Rule I) → List (Rule I) → List (Rule I)
  keep_rule none rules = rules
  keep_rule (some r) rules = r ∷ rules

  -- The loop over the rules; one that is not valid is left out.
  unfoldable pub parse_rules : Bytes → Items N → List (Rule I)
  unfolding parse_rule
  parse_rules cat nil = []
  parse_rules cat (cons v xs) = keep_rule (parse_rule v cat) (parse_rules cat xs)

  abbrev set_of : Bytes → Option (Value N) → Option (RuleSet I)
  set_of cat (some (array xs)) = some (record { category = cat; rules = parse_rules cat xs })
  set_of cat _ = none

  abbrev pub root_set : Read (Value N) → Option (RuleSet I)
  root_set (ok (object fs) s) =
      set_of (get_string (object fs) (codes "category")) (find (object fs) (codes "rules"))
  root_set _ = none

  -- `parseRuleFile`; `none` where it returns false.
  unfoldable pub parse_rule_file : (Bytes → Option (N × ℕ)) → Bytes → Option (RuleSet I)
  unfolding read parse_rules get_string find find_field
  parse_rule_file stod content = root_set (read stod content)

  abbrev pub if_some : List (Rule I) → RuleSet I → List (RuleSet I) → List (RuleSet I)
  if_some [] rs sets = sets
  if_some (r ∷ rules) rs sets = rs ∷ sets

  abbrev pub keep_set : Option (RuleSet I) → List (RuleSet I) → List (RuleSet I)
  keep_set none sets = sets
  keep_set (some rs) sets = if_some rs.rules rs sets

  -- The loop of `loadFromDirectory` over the files in order, given their texts; `none` for one
  -- that cannot be opened.
  unfoldable pub load_files : (Bytes → Option (N × ℕ)) → List (Option Bytes) → List (RuleSet I)
  unfolding parse_rule_file
  load_files stod [] = []
  load_files stod (none ∷ files) = load_files stod files
  load_files stod (some content ∷ files) =
      keep_set (parse_rule_file stod content) (load_files stod files)
