-- ===== src/Evidence/Rules/Written.antt =====
-- `parseRuleFile` and the loader on the texts of rule sets.
use code_scope.Prelude.{
  ℕ, ◌≤◌, Option, some, List, [], ◌∷◌, Bytes, codes, All, arith, ◌≡◌, refl, ap, ◌∙◌, ◌≢◌,
}
use code_scope.Json.Value.{
  Value, boolean, number, string, array, object, Items, nil, cons, end, field, print, depth,
  depth_items,
}
use code_scope.Json.Reader.Values.{max_depth}
use code_scope.Json.RoundTrip.Values.{ReadsBack, HasReadable, HaveReadable}
use code_scope.Json.RoundTrip.Trees.{read-print}
use code_scope.Evidence.Rules.{
  FactNeed, CombineMode, collect, missing_match, missing_match_per_function, count, RuleOutput,
  Rule, RuleSet, combine_mode_from_string, combine_mode_to_string, parse_needs, parse_rule,
  parse_rules, parse_rule_file, load_files, or_fallback, if_named, if_some, keep_rule, keep_set,
  root_set,
}

combine_mode_from_string-to_string :
    (m : CombineMode) → combine_mode_from_string (combine_mode_to_string m) ≡ m
unfolding combine_mode_from_string combine_mode_to_string
combine_mode_from_string-to_string collect = refl
combine_mode_from_string-to_string missing_match = refl
combine_mode_from_string-to_string missing_match_per_function = refl
combine_mode_from_string-to_string count = refl

-- A rule with a name and a category.
abbrev pub IsComplete : {I : Type 0} → Rule I → Type 0
IsComplete r = (r.name ≢ []) × (r.category ≢ [])

-- A set as the loader keeps it: not without rules.
abbrev pub IsKept : {I : Type 0} → RuleSet I → Type 0
IsKept s = (s.rules ≢ []) × All IsComplete s.rules

module _ {N I : Type 0} (of_int : I → N) where
  abbrev need_value : FactNeed → Value N
  need_value n = object (
      field (codes "category") (string n.category) (
        field (codes "primitive") (string n.primitive) (
          field (codes "kind") (string n.kind)
            (field (codes "optional") (boolean n.optional) end))))

  abbrev need_values : List FactNeed → Items N
  need_values [] = nil
  need_values (n ∷ ns) = cons (need_value n) (need_values ns)

  abbrev output_value : RuleOutput I → Value N
  output_value o = object (
      field (codes "severity") (number (of_int o.severity)) (
        field (codes "title") (string o.title_template)
          (field (codes "message") (string o.message_template) end)))

  abbrev rule_value : Rule I → Value N
  rule_value r = object (
      field (codes "name") (string r.name) (
        field (codes "description") (string r.description) (
          field (codes "category") (string r.category) (
            field (codes "need") (array (need_values r.needs)) (
              field (codes "combine") (string (combine_mode_to_string r.combine))
                (field (codes "output") (output_value r.output) end))))))

  abbrev rule_values : List (Rule I) → Items N
  rule_values [] = nil
  rule_values (r ∷ rs) = cons (rule_value r) (rule_values rs)

  -- The value of a rule file, as its comment lays it out.
  abbrev pub set_value : RuleSet I → Value N
  set_value s = object (
      field (codes "category") (string s.category)
        (field (codes "rules") (array (rule_values s.rules)) end))

  -- The texts of the files of rule sets.
  abbrev pub files_of : (N → Bytes) → List (RuleSet I) → List (Option Bytes)
  files_of show [] = []
  files_of show (s ∷ sets) = some (print show (set_value s)) ∷ files_of show sets

  parse_needs-need_values : (ns : List FactNeed) → parse_needs (need_values ns) ≡ ns
  unfolding parse_needs
  parse_needs-need_values [] = refl
  parse_needs-need_values (n ∷ ns) = ap (λ l. n ∷ l) (parse_needs-need_values ns)

  module _ (to_int : N → I) (one : I) (back : (i : I) → to_int (of_int i) ≡ i) where
    if_named-some : (s : Bytes) (r : Rule I) → s ≢ [] → if_named to_int one s r ≡ some r
    if_named-some [] r h = absurd (h refl)
    if_named-some (c ∷ s) r h = refl

    or_fallback-some : (s cat : Bytes) → s ≢ [] → or_fallback s cat ≡ s
    or_fallback-some [] cat h = absurd (h refl)
    or_fallback-some (c ∷ s) cat h = refl

    parse_rule-rule_value :
        (r : Rule I) (cat : Bytes)
        → r.name ≢ []
        → r.category ≢ []
        → parse_rule to_int one (rule_value r) cat ≡ some r
    unfolding parse_rule
    parse_rule-rule_value r cat named filed =
        rw
          (
            or_fallback-some r.category cat filed,
            parse_needs-need_values r.needs,
            combine_mode_from_string-to_string r.combine,
            back r.output.severity,
          )
          (if_named-some r.name r named)

    parse_rules-rule_values :
        (rs : List (Rule I)) (cat : Bytes)
        → All IsComplete rs
        → parse_rules to_int one cat (rule_values rs) ≡ rs
    unfolding parse_rules
    parse_rules-rule_values [] cat h = refl
    parse_rules-rule_values (r ∷ rs) cat h =
        ap (λ o. keep_rule to_int one o (parse_rules to_int one cat (rule_values rs)))
          (parse_rule-rule_value r cat h.0.0 h.0.1)
        ∙ ap (λ l. r ∷ l) (parse_rules-rule_values rs cat h.1)

    if_some-some :
        (rules : List (Rule I)) (s : RuleSet I) (sets : List (RuleSet I))
        → rules ≢ []
        → if_some to_int one rules s sets ≡ s ∷ sets
    if_some-some [] s sets h = absurd (h refl)
    if_some-some (r ∷ rules) s sets h = refl

-- The file of a rule set is shallow enough for the parser, and its numbers are the severities.
module _ {N I : Type 0} (of_int : I → N) where
  need_values-shallow : (ns : List FactNeed) → depth_items (need_values of_int ns) ≤ 2
  unfolding depth_items
  need_values-shallow [] = omega arith
  need_values-shallow (n ∷ ns) = omega (arith, need_values-shallow ns)

  rule_values-shallow : (rs : List (Rule I)) → depth_items (rule_values of_int rs) ≤ 4
  unfolding depth_items
  rule_values-shallow [] = omega arith
  rule_values-shallow (r ∷ rs) = omega (arith, rule_values-shallow rs, need_values-shallow r.needs)

  set_value-shallow : (s : RuleSet I) → depth (set_value of_int s) ≤ max_depth
  unfolding depth
  set_value-shallow s = omega (arith, rule_values-shallow s.rules)

  module _ (stod : Bytes → Option (N × ℕ)) (show : N → Bytes)
      (reads : (i : I) → ReadsBack stod show (of_int i)) where
    need_values-HaveReadable : (ns : List FactNeed) → HaveReadable stod show (need_values of_int ns)
    unfolding HaveReadable
    need_values-HaveReadable [] = tt
    need_values-HaveReadable (n ∷ ns) = ((tt, (tt, (tt, (tt, tt)))), need_values-HaveReadable ns)

    rule_values-HaveReadable : (rs : List (Rule I)) → HaveReadable stod show (rule_values of_int rs)
    unfolding HaveReadable
    rule_values-HaveReadable [] = tt
    rule_values-HaveReadable (r ∷ rs) = (
      (
        tt,
        (
          tt,
          (
            tt,
            (
              need_values-HaveReadable r.needs,
              (tt, ((reads r.output.severity, (tt, (tt, tt))), tt)),
            ),
          ),
        ),
      ),
      rule_values-HaveReadable rs,
    )

    set_value-HasReadable : (s : RuleSet I) → HasReadable stod show (set_value of_int s)
    unfolding HasReadable
    set_value-HasReadable s = (tt, (rule_values-HaveReadable s.rules, tt))

    module _ (to_int : N → I) (one : I) (back : (i : I) → to_int (of_int i) ≡ i) where
      -- A rule set in which every rule has a name and a category (its own, whatever that of the set) is
      -- read from the text of its file as it is: no rule is left out, and no field is changed.
      pub parse_rule_file-set_value :
          (s : RuleSet I)
          → All IsComplete s.rules
          → parse_rule_file to_int one stod (print show (set_value of_int s)) ≡ some s
      unfolding parse_rule_file
      parse_rule_file-set_value s h =
          ap (root_set to_int one) (
            read-print stod show (set_value of_int s) (set_value-HasReadable s)
              (set_value-shallow s))
          ∙ ap (λ rules. some (record s { rules = rules }))
              (parse_rules-rule_values of_int to_int one back s.rules s.category h)

      keep_set-some :
          (s : RuleSet I) (sets : List (RuleSet I))
          → s.rules ≢ []
          → keep_set to_int one (some s) sets ≡ s ∷ sets
      keep_set-some s sets h = if_some-some of_int to_int one back s.rules s sets h

      -- The loader reads the files of rule sets, each with a rule at least and every rule with a name and
      -- a category (its own, whatever that of the set), as exactly these sets, in the order of the files.
      pub load_files-set_value :
          (sets : List (RuleSet I))
          → All IsKept sets
          → load_files to_int one stod (files_of of_int show sets) ≡ sets
      unfolding load_files
      load_files-set_value [] h = refl
      load_files-set_value (s ∷ sets) h =
          ap (λ o. keep_set to_int one o (load_files to_int one stod (files_of of_int show sets)))
            (parse_rule_file-set_value s h.0.1)
          ∙ keep_set-some s (load_files to_int one stod (files_of of_int show sets)) h.0.0
          ∙ ap (λ l. s ∷ l) (load_files-set_value sets h.1)
