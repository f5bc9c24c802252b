-- ===== src/Graph/Calls.antt =====
-- The call graph of a unit: `buildCalleeIndex`, `resolveCallEdges` and `buildCallGraph` of
-- graph/graph_builder.cpp.
pub mod Targets
pub mod Layers
pub mod Resolved
pub mod Steps
pub mod Built
use code_scope.Prelude.{
  ℕ, Bool, true, false, Option, none, some, List, [], ◌∷◌, ◌++◌, Bytes, bytes_eq, codes, find, ◌==◌,
  if◌then◌else◌,
}
use code_scope.Graph.Unit.{RecordKind, Record, SemanticUnit, is_kind}
use code_scope.Graph.Types.{EdgeType, CodeGraph}
use code_scope.Graph.Builder.{
  GraphBuilder, add_graph_edge, empty_graph, is_empty, find_containing_function,
}

pub record CalleeCandidate : Type 0 where
  pub arity : ℕ
  pub graph_node_id : ℕ

-- The two multimaps, as lists of their entries.
pub record CalleeIndex : Type 0 where
  pub by_qualified_name : List (Bytes × ℕ)
  pub by_name : List (Bytes × CalleeCandidate)

-- The values under one key.
unfoldable pub equal_range : {V : Type 0} → Bytes → List (Bytes × V) → List V
equal_range key [] = []
equal_range key ((k, v) ∷ entries) =
    let rest = equal_range key entries in if bytes_eq k key then v ∷ rest else rest

abbrev pub candidate : ℕ → ℕ → CalleeCandidate
candidate arity id = record { arity = arity; graph_node_id = id }

unfoldable pub index_record : List (ℕ × ℕ) → CalleeIndex → Record → CalleeIndex
index_record m idx r = elim (find r.id m) [
  | none ↦ idx
  | some n ↦ if is_empty r.name then idx else record {
    by_qualified_name =
        if is_empty r.qualified_name
        then idx.by_qualified_name
        else idx.by_qualified_name ++ (r.qualified_name, n) ∷ [];
    by_name = idx.by_name ++ (r.name, candidate r.arity n) ∷ [];
  }
]

unfoldable pub index_records : List (ℕ × ℕ) → CalleeIndex → List Record → CalleeIndex
unfolding index_record
index_records m idx [] = idx
index_records m idx (r ∷ rs) = index_records m (index_record m idx r) rs

unfoldable pub build_callee_index : SemanticUnit → List (ℕ × ℕ) → CalleeIndex
unfolding index_records
build_callee_index u m = index_records m (record { by_qualified_name = []; by_name = [] }) u.records

unfoldable pub build_name_index : SemanticUnit → GraphBuilder → CalleeIndex
unfolding build_callee_index
build_name_index u b = build_callee_index u b.ir_to_graph_node

-- Layer 2: whether a candidate matched, and the builder with its edges.
unfoldable pub match_qualified : ℕ → Bool → GraphBuilder → List ℕ → Bool × GraphBuilder
unfolding add_graph_edge
match_qualified caller matched b [] = (matched, b)
match_qualified caller matched b (t ∷ ts) = elim (t == caller) [
  | true ↦ match_qualified caller matched b ts
  | false ↦ match_qualified caller true (add_graph_edge b caller t EdgeType.calls) ts
]

-- The edges to the chosen candidates.
unfoldable pub add_calls : GraphBuilder → ℕ → List ℕ → GraphBuilder
unfolding add_graph_edge
add_calls b caller [] = b
add_calls b caller (t ∷ ts) = add_calls (add_graph_edge b caller t EdgeType.calls) caller ts

-- Layer 3: the candidates with an arity, without the caller.
unfoldable pub with_arity : ℕ → ℕ → List CalleeCandidate → List ℕ
with_arity caller arity [] = []
with_arity caller arity (c ∷ cs) =
    let rest = with_arity caller arity cs in
    if c.graph_node_id == caller
    then rest
    else if c.arity == arity
    then c.graph_node_id ∷ rest
    else rest

abbrev pub is_nil : List ℕ → Bool
is_nil [] = true
is_nil (t ∷ ts) = false

-- Layer 4: every candidate of the name, but not the caller.
unfoldable pub add_all_named : GraphBuilder → ℕ → List CalleeCandidate → GraphBuilder
unfolding add_graph_edge
add_all_named b caller [] = b
add_all_named b caller (c ∷ cs) = elim (c.graph_node_id == caller) [
  | true ↦ add_all_named b caller cs
  | false ↦ add_all_named (add_graph_edge b caller c.graph_node_id EdgeType.calls) caller cs
]

unfoldable pub resolve_by_name : GraphBuilder → Record → ℕ → CalleeIndex → GraphBuilder
unfolding equal_range add_calls with_arity add_all_named
resolve_by_name b r caller idx =
    let range = equal_range r.name idx.by_name in
    let exact_matches = with_arity caller r.arity range in
    let unknown_arity_matches = with_arity caller 0 range in
    if is_empty r.name
    then b
    else if r.arity == 0
    then add_all_named b caller range
    else add_calls b caller (if is_nil exact_matches then unknown_arity_matches else exact_matches)

unfoldable pub resolve_by_reference : GraphBuilder → Record → ℕ → GraphBuilder
unfolding add_graph_edge
resolve_by_reference b r caller = elim (find r.ref_original_id b.ir_to_graph_node) [
  | none ↦ b
  | some t ↦ if t == caller then b else add_graph_edge b caller t EdgeType.calls
]

unfoldable pub resolve_call_edges : GraphBuilder → Record → ℕ → CalleeIndex → GraphBuilder
unfolding equal_range match_qualified resolve_by_name resolve_by_reference
resolve_call_edges b r caller idx =
    let (matched, b') =
      match_qualified caller false b (equal_range r.qualified_name idx.by_qualified_name) in
    if r.ref_original_id == 0
    then (if is_empty r.qualified_name
        then resolve_by_name b r caller idx
        else if matched
        then b'
        else resolve_by_name b' r caller idx)
    else resolve_by_reference b r caller

-- A call without a name, a qualified name and a reference is skipped.
abbrev pub has_signal : Record → Bool
has_signal r =
    if is_empty r.name
    then (if is_empty r.qualified_name
        then (if r.ref_original_id == 0 then false else true)
        else true)
    else true

unfoldable pub add_call_record : SemanticUnit → CalleeIndex → GraphBuilder → Record → GraphBuilder
unfolding is_kind find_containing_function resolve_call_edges
add_call_record u idx b r =
    let (caller_id, b') = find_containing_function u b r in
    if is_kind r.kind RecordKind.call_expr
    then (if has_signal r
        then elim (find caller_id b'.ir_to_graph_node) [
          | none ↦ b'
          | some caller ↦ resolve_call_edges b' r caller idx
        ]
        else b)
    else b

unfoldable pub add_call_records :
    SemanticUnit → CalleeIndex → GraphBuilder → List Record → GraphBuilder
unfolding add_call_record
add_call_records u idx b [] = b
add_call_records u idx b (r ∷ rs) = add_call_records u idx (add_call_record u idx b r) rs

-- A builder at the start of a call graph: the map and the cache of the symbol graph are kept.
unfoldable pub start_call_graph : GraphBuilder → GraphBuilder
start_call_graph b = record b {
  current_graph = empty_graph (codes "call_graph") (codes "call-graph");
  next_edge_id = 1;
  added_edges = [];
  building_call_graph = true;
}

unfoldable pub build_call_graph_impl : SemanticUnit → CalleeIndex → GraphBuilder → GraphBuilder
unfolding add_call_records start_call_graph
build_call_graph_impl u idx b = add_call_records u idx (start_call_graph b) u.records

-- `buildCallGraph`: calls are resolved against the unit's own declarations.
unfoldable pub build_call_graph : SemanticUnit → GraphBuilder → GraphBuilder
unfolding build_name_index build_call_graph_impl
build_call_graph u b = build_call_graph_impl u (build_name_index u b) b
