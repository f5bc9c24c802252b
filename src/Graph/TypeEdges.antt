-- ===== src/Graph/TypeEdges.antt =====
-- `buildTypeEdges`, graph/graph_builder.cpp: edges from the records that use a type to its declaration.
use code_scope.Prelude.{
  ℕ, ◌||◌, Option, none, some, List, [], ◌∷◌, Bytes, bytes_eq, find, if◌then◌else◌,
}
use code_scope.Graph.Unit.{RecordKind, Record, SemanticUnit, is_kind}
use code_scope.Graph.Types.{EdgeType}
use code_scope.Graph.Builder.{GraphBuilder, add_graph_edge, is_empty}

-- `type_decl_map`: a later declaration of a name stands in front and hides an earlier one.
unfoldable pub type_decl_map : List (ℕ × ℕ) → List (Bytes × ℕ) → List Record → List (Bytes × ℕ)
unfolding is_kind
type_decl_map m types [] = types
type_decl_map m types (r ∷ rs) = elim (find r.id m) [
  | none ↦ type_decl_map m types rs
  | some n ↦
      type_decl_map m
        (if is_kind r.kind RecordKind.type_decl
          then (if is_empty r.name then types else (r.name, n) ∷ types)
          else types)
        rs
]

unfoldable pub type_node : Bytes → List (Bytes × ℕ) → Option ℕ
type_node name [] = none
type_node name ((key, n) ∷ types) =
    let rest = type_node name types in if bytes_eq key name then some n else rest

unfoldable pub link_type : List (Bytes × ℕ) → GraphBuilder → Record → GraphBuilder
unfolding type_node add_graph_edge
link_type types b r = elim (find r.id b.ir_to_graph_node) [
  | none ↦ b
  | some src ↦ elim (type_node r.type_name types) [
    | none ↦ b
    | some tgt ↦ add_graph_edge b src tgt EdgeType.uses_type
  ]
]

unfoldable pub add_type_edge : List (Bytes × ℕ) → GraphBuilder → Record → GraphBuilder
unfolding is_kind link_type
add_type_edge types b r =
    if is_kind r.kind RecordKind.type_ref || is_kind r.kind RecordKind.type_assign
    then (if is_empty r.name then b else if is_empty r.type_name then b else link_type types b r)
    else b

unfoldable pub add_type_edges : List (Bytes × ℕ) → GraphBuilder → List Record → GraphBuilder
unfolding add_type_edge
add_type_edges types b [] = b
add_type_edges types b (r ∷ rs) = add_type_edges types (add_type_edge types b r) rs

unfoldable pub build_type_edges : SemanticUnit → GraphBuilder → GraphBuilder
unfolding type_decl_map add_type_edges
build_type_edges u b = add_type_edges (type_decl_map b.ir_to_graph_node [] u.records) b u.records
