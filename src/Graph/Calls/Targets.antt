-- ===== src/Graph/Calls/Targets.antt =====
-- The targets of one call record, as a list and as a relation.
use code_scope.Prelude.{
  ℕ, Bool, true, false, not, ◌||◌, none, some, List, [], ◌∷◌, find, ◌==◌, if◌then◌else◌, ◌≡◌, refl,
  ap, ◌∙◌, inl, inr, Option-cases, Bool-cases, false≢true,
}
use code_scope.Graph.Unit.{Record}
use code_scope.Graph.Types.{EdgeType}
use code_scope.Graph.Builder.{GraphBuilder, add_graph_edge, is_empty}
use code_scope.Graph.Calls.{
  CalleeCandidate, CalleeIndex, equal_range, match_qualified, add_calls, with_arity, is_nil,
  add_all_named, resolve_by_name, resolve_by_reference, resolve_call_edges,
}

-- The targets that are not the caller itself.
unfoldable pub others : ℕ → List ℕ → List ℕ
others caller [] = []
others caller (t ∷ ts) = let rest = others caller ts in if t == caller then rest else t ∷ rest

unfoldable pub node_ids : List CalleeCandidate → List ℕ
node_ids [] = []
node_ids (c ∷ cs) = c.graph_node_id ∷ node_ids cs

unfoldable pub named_targets : CalleeIndex → Record → ℕ → List ℕ
unfolding equal_range others node_ids with_arity
named_targets idx r caller =
    let range = equal_range r.name idx.by_name in
    if is_empty r.name
    then []
    else if r.arity == 0
    then others caller (node_ids range)
    else if is_nil (with_arity caller r.arity range)
    then with_arity caller 0 range
    else with_arity caller r.arity range

unfoldable pub qualified_targets : CalleeIndex → Record → ℕ → List ℕ
unfolding equal_range others
qualified_targets idx r caller =
    if is_empty r.qualified_name
    then []
    else others caller (equal_range r.qualified_name idx.by_qualified_name)

unfoldable pub referenced : List (ℕ × ℕ) → Record → ℕ → List ℕ
unfolding others
referenced m r caller = elim (find r.ref_original_id m) [
  | none ↦ []
  | some t ↦ others caller (t ∷ [])
]

unfoldable pub call_targets : List (ℕ × ℕ) → CalleeIndex → Record → ℕ → List ℕ
unfolding named_targets qualified_targets referenced
call_targets m idx r caller =
    if r.ref_original_id == 0
    then (if is_nil (qualified_targets idx r caller)
        then named_targets idx r caller
        else qualified_targets idx r caller)
    else referenced m r caller

true_or : (m : Bool) → true ≡ m || true
true_or true = refl
true_or false = refl

match_qualified-add_calls :
    (k : ℕ) (matched : Bool) (b : GraphBuilder) (ts : List ℕ)
    → match_qualified k matched b ts
      ≡ (matched || not (is_nil (others k ts)), add_calls b k (others k ts))
unfolding match_qualified add_calls others
match_qualified-add_calls k true b [] = refl
match_qualified-add_calls k false b [] = refl
match_qualified-add_calls k matched b (t ∷ ts) = elim (Bool-cases (t == k)) [
  | inl y ↦ rw (y, match_qualified) (match_qualified-add_calls k matched b ts)
  | inr n ↦
      rw (n, match_qualified)
        (match_qualified-add_calls k true (add_graph_edge b k t EdgeType.calls) ts
          ∙ ap (λ m. (m, add_calls (add_graph_edge b k t EdgeType.calls) k (others k ts)))
              (true_or matched))
]

add_all_named-add_calls :
    (b : GraphBuilder) (k : ℕ) (cs : List CalleeCandidate)
    → add_all_named b k cs ≡ add_calls b k (others k (node_ids cs))
unfolding add_all_named add_calls others node_ids
add_all_named-add_calls b k [] = refl
add_all_named-add_calls b k (c ∷ cs) = elim (Bool-cases (c.graph_node_id == k)) [
  | inl y ↦ rw (y, add_all_named) (add_all_named-add_calls b k cs)
  | inr n ↦
      rw (n, add_all_named)
        (add_all_named-add_calls (add_graph_edge b k c.graph_node_id EdgeType.calls) k cs)
]

resolve_by_name-add_calls :
    (b : GraphBuilder) (r : Record) (k : ℕ) (idx : CalleeIndex)
    → resolve_by_name b r k idx ≡ add_calls b k (named_targets idx r k)
unfolding resolve_by_name named_targets
resolve_by_name-add_calls b r k idx = elim (Bool-cases (is_empty r.name)) [
  | inl y ↦ rw y refl
  | inr n ↦ elim (Bool-cases (r.arity == 0)) [
    | inl y ↦ rw (n, y) (add_all_named-add_calls b k (equal_range r.name idx.by_name))
    | inr d ↦ rw (n, d) refl
  ]
]

resolve_by_reference-add_calls :
    (b : GraphBuilder) (r : Record) (k : ℕ)
    → resolve_by_reference b r k ≡ add_calls b k (referenced b.ir_to_graph_node r k)
unfolding resolve_by_reference referenced others add_calls
resolve_by_reference-add_calls b r k =
    elim (Option-cases (find r.ref_original_id b.ir_to_graph_node)) [
      | inl e ↦ rw (e, resolve_by_reference, referenced) refl
      | inr (t, e) ↦ elim (Bool-cases (t == k)) [
        | inl y ↦ rw (e, y, resolve_by_reference, referenced) refl
        | inr d ↦ rw (e, d, resolve_by_reference, referenced) refl
      ]
    ]

add_calls_nil : (b : GraphBuilder) (k : ℕ) (ts : List ℕ) → is_nil ts ≡ true → add_calls b k ts ≡ b
unfolding add_calls
add_calls_nil b k [] e = refl
add_calls_nil b k (t ∷ ts) e = absurd (false≢true e)

-- The layers of `resolveCallEdges` add edges to the targets, in their order.
pub resolve_call_edges-add_calls :
    (b : GraphBuilder) (r : Record) (k : ℕ) (idx : CalleeIndex)
    → resolve_call_edges b r k idx ≡ add_calls b k (call_targets b.ir_to_graph_node idx r k)
unfolding resolve_call_edges call_targets qualified_targets
resolve_call_edges-add_calls b r k idx = elim (Bool-cases (r.ref_original_id == 0)) [
  | inr n ↦ rw n (resolve_by_reference-add_calls b r k)
  | inl y ↦ rw y (elim (Bool-cases (is_empty r.qualified_name)) [
    | inl e ↦ rw e (resolve_by_name-add_calls b r k idx)
    | inr d ↦
        let ts = equal_range r.qualified_name idx.by_qualified_name in
        rw (d, match_qualified-add_calls k false b ts)
          (elim (Bool-cases (is_nil (others k ts))) [
            | inl e ↦ rw e (
                ap (λ c. resolve_by_name c r k idx) (add_calls_nil b k (others k ts) e)
                ∙ resolve_by_name-add_calls b r k idx)
            | inr f ↦ rw f refl
          ])
  ])
]
