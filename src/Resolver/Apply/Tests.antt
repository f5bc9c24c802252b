-- ===== src/Resolver/Apply/Tests.antt =====
-- The scoring of two candidates, with numbers of hundredths in place of doubles.
use mathlib.Core.List.{Permᴰ}
use code_scope.Prelude.{
  ℕ, ◌+◌, ◌-◌, ◌*◌, ◌/◌, none, [], ◌∷◌, Bytes, codes, ltb, ◌==◌, ◌≡◌, refl, arith, inl, inr,
}
use code_scope.Resolver.Apply.{
  Doubles, Candidate, Reference, apply_constraints, fused_match, any_import_matches,
}
use code_scope.Resolver.Apply.Order.{IsOrder, ids, apply_constraints-perm}
use code_scope.Resolver.Apply.Fused.{fused_match-any_import_matches}

-- A number of hundredths and a thousand more, so that the negative ones are numbers too.
abbrev fixed : Doubles ℕ
fixed = record {
  hundredths = λ n. n + 1000;
  add = λ x y. x + y - 1000;
  mul = λ x y. (100000 + (x - 1000) * y - (x - 1000) * 1000) / 100;
  div = λ x y. (1000 * (y - 1000) + 100 * x - 100000) / (y - 1000);
  neg = λ x. 2000 - x;
  less = ltb;
  equal = λ x y. x == y;
}

fixed-IsOrder : IsOrder fixed
fixed-IsOrder = record {
  asym = λ x y h. ground (arith, h);
  neg_trans = λ x y z h k. ground (arith, h, k);
  equal_lem = λ x y. ground arith;
}

abbrev candidate : ℕ → Bytes → Bytes → Candidate ℕ
candidate id file dir = record {
  entity_id = id;
  name = codes "run";
  file_path = file;
  language = codes "go";
  qualified_name = codes "run";
  arity = 1;
  kind = 0;
  cand_dir = dir;
  cand_parent = [];
  cand_module = dir;
  total_score = 1000;
  deciding_factor = [];
  receiver_score = 1000;
}

abbrev near : Candidate ℕ
near = candidate 9 (codes "a/y.go") (codes "a")

abbrev far : Candidate ℕ
far = candidate 4 (codes "b/z.go") (codes "b")

abbrev reference : Reference
reference = record {
  caller_file = codes "a/x.go";
  callee_name = codes "run";
  call_kind = 0;
  caller_arity = 1;
  receiver_type = [];
  import_index = λ f. none;
  import_alias_index = λ f n. none;
  disabled = [];
}

near_first : ids (apply_constraints fixed reference (far ∷ near ∷ [])) ≡ 9 ∷ 4 ∷ []
unfolding apply_constraints
near_first = refl

apply_constraints-perm_example :
    apply_constraints fixed reference (far ∷ near ∷ [])
    ≡ apply_constraints fixed reference (near ∷ far ∷ [])
apply_constraints-perm_example =
    apply_constraints-perm fixed fixed-IsOrder reference (far ∷ near ∷ []) (near ∷ far ∷ [])
      (Permᴰ.swap refl refl)
      (λ m. elim m [ inl e ↦ absurd (ground (arith, e)) | inr i ↦ i ], (λ i. i, tt))

fused_match-any_import_matches_example :
    fused_match (codes "a/lib" ∷ codes "b/util" ∷ []) (codes "util")
    ≡ any_import_matches (codes "a/lib" ∷ codes "b/util" ∷ []) (codes "util")
fused_match-any_import_matches_example =
    fused_match-any_import_matches (codes "a/lib" ∷ codes "b/util" ∷ []) (codes "util") refl
