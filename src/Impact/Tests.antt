-- ===== src/Impact/Tests.antt =====
-- The search on a small graph, and the list of files on small texts.
use code_scope.Prelude.{
  ℕ, some, List, [], ◌∷◌, codes, In, All, All-In, if_all, ◌==◌, ◌≡◌, refl, inl, inr, arith,
  if◌then◌else◌,
}
use code_scope.Impact.{ImpactEntry, dfs_impact, parse_file_list}
use code_scope.Impact.Least.{IsImpact, dfs_impact-IsImpact}

-- 1 → 2 → 3 → 4 → 5, 1 → 4 and 5 → 1.
abbrev arrows : ℕ → List ℕ
arrows n =
    if n == 1
    then 2 ∷ 4 ∷ []
    else if n == 2
    then 3 ∷ []
    else if n == 3
    then 4 ∷ []
    else if n == 4
    then 5 ∷ []
    else if n == 5
    then 1 ∷ []
    else []

abbrev nodes : List ℕ
nodes = 1 ∷ 2 ∷ 3 ∷ 4 ∷ 5 ∷ []

abbrev entry : ℕ → ℕ → ℕ → ImpactEntry
entry n v d = record { node_id = n; via_seed = v; depth = d }

arrows_found :
    dfs_impact 50 arrows (1 ∷ [])
    ≡ some (entry 2 1 1 ∷ entry 3 1 2 ∷ entry 4 1 1 ∷ entry 5 1 2 ∷ [])
unfolding dfs_impact
arrows_found = refl

seeds-In : (v : ℕ) → In v (1 ∷ []) → In v nodes
seeds-In v (inl e) = inl e
seeds-In v (inr i) = absurd i

abbrev AreNodes : List ℕ → Type 0
AreNodes = All (λ x. In x nodes)

arrows-AreNodes : (n : ℕ) → AreNodes (arrows n)
arrows-AreNodes n =
    if_all AreNodes (n == 1) _ _ (inr (inl refl), (inr (inr (inr (inl refl))), tt))
      (if_all AreNodes (n == 2) _ _ (inr (inr (inl refl)), tt)
        (if_all AreNodes (n == 3) _ _ (inr (inr (inr (inl refl))), tt)
          (if_all AreNodes (n == 4) _ _ (inr (inr (inr (inr (inl refl)))), tt)
            (if_all AreNodes (n == 5) _ _ (inl refl, tt) tt))))

arrows-In : (n nb : ℕ) → In n nodes → In nb (arrows n) → In nb nodes
arrows-In n nb i = All-In (λ x. In x nodes) (arrows n) (arrows-AreNodes n) nb

dfs_impact-IsImpact_example : IsImpact arrows (1 ∷ []) (dfs_impact 50 arrows (1 ∷ []))
dfs_impact-IsImpact_example =
    dfs_impact-IsImpact arrows (1 ∷ []) nodes 50 seeds-In arrows-In (omega arith)

-- What stands before a mistake is kept.
files_found :
    parse_file_list (codes " [\"a.c\", \"b\\\"c\", 7]") ≡ some (codes "a.c" ∷ codes "b\"c" ∷ [])
unfolding parse_file_list
files_found = refl
