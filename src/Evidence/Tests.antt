-- ===== src/Evidence/Tests.antt =====
-- Rule sets written as files and loaded. The severities are 0 and 1, of one digit.
use code_scope.Prelude.{
  ℕ, Bool, true, false, Option, none, some, [], ◌∷◌, Bytes, codes, arith, ◌==◌, ◌≡◌, refl,
}
use code_scope.Json.Value.{print}
use code_scope.Json.Reader.Values.{is_number_byte, is_digit}
use code_scope.Json.RoundTrip.Values.{ReadsBack}
use code_scope.Evidence.Rules.{FactNeed, missing_match, Rule, RuleSet, parse_rule_file, load_files}
use code_scope.Evidence.Rules.Written.{
  IsComplete, IsKept, set_value, files_of, parse_rule_file-set_value, load_files-set_value,
}

abbrev show_bit : Bool → Bytes
show_bit true = b'1' ∷ []
show_bit false = b'0' ∷ []

abbrev read_bit : Bytes → Option (Bool × ℕ)
read_bit [] = none
read_bit (c ∷ s) = some (c == b'1', 1)

abbrev same : Bool → Bool
same b = b

same-same : (b : Bool) → same (same b) ≡ b
same-same b = refl

bit-ReadsBack : (b : Bool) → ReadsBack read_bit show_bit (same b)
unfolding is_number_byte is_digit
bit-ReadsBack true = (refl, (refl, tt), refl)
bit-ReadsBack false = (refl, (refl, tt), refl)

abbrev locked : FactNeed
locked = record {
  category = codes "sync";
  primitive = codes "mutex";
  kind = codes "lock";
  optional = false;
}

abbrev sync_rule : Rule Bool
sync_rule = record {
  name = codes "mutex";
  description = codes "a \"lock\"";
  category = codes "sync";
  needs = locked ∷ record locked { kind = codes "unlock"; optional = true } ∷ [];
  combine = missing_match;
  output = record { severity = true; title_template = codes "{count}"; message_template = [] };
}

abbrev sync_set : RuleSet Bool
sync_set = record { category = codes "sync"; rules = sync_rule ∷ [] }

sync-IsComplete : IsComplete sync_rule
sync-IsComplete = (ground arith, ground arith)

parse_rule_file-set_value_example :
    parse_rule_file same false read_bit (print show_bit (set_value same sync_set)) ≡ some sync_set
parse_rule_file-set_value_example =
    parse_rule_file-set_value same read_bit show_bit bit-ReadsBack same false same-same sync_set
      (sync-IsComplete, tt)

sync-IsKept : IsKept sync_set
sync-IsKept = (ground arith, (sync-IsComplete, tt))

load_files-set_value_example :
    load_files same false read_bit (files_of same show_bit (sync_set ∷ sync_set ∷ []))
    ≡ sync_set ∷ sync_set ∷ []
load_files-set_value_example =
    load_files-set_value same read_bit show_bit bit-ReadsBack same false same-same
      (sync_set ∷ sync_set ∷ []) (sync-IsKept, (sync-IsKept, tt))
