-- ===== src/Graph/Symbols.antt =====
-- `buildSymbolGraph` over a `SemanticUnit`, graph/graph_builder.cpp: a node for each declaration,
-- then an edge to it from its containing node.
pub mod Contains
pub mod Declared
pub mod Built
use code_scope.Prelude.{
  ℕ, Bool, true, false, ◌&&◌, none, some, List, [], ◌∷◌, codes, find, ◌==◌, if◌then◌else◌,
}
use code_scope.Graph.Unit.{RecordKind, Record, SemanticUnit, is_kind}
use code_scope.Graph.Types.{EdgeType}
use code_scope.Graph.Builder.{
  GraphBuilder, add_graph_node, add_graph_edge, empty_graph, is_empty, is_declaration_kind,
  record_kind_to_node_type, find_containing_function,
}

-- The nameless record at the top that holds the others.
unfoldable pub is_root : Record → Bool
unfolding is_kind
is_root r = is_kind r.kind RecordKind.variable && is_empty r.name && r.parent_id == 0

-- The records that get a node.
unfoldable pub is_declared : Record → Bool
unfolding is_declaration_kind is_root
is_declared r = if is_declaration_kind r.kind then (if is_root r then false else true) else false

-- The first pass.
unfoldable pub add_declarations : GraphBuilder → List Record → GraphBuilder
unfolding is_declared add_graph_node record_kind_to_node_type
add_declarations b [] = b
add_declarations b (r ∷ rs) =
    let added = add_graph_node b r (record_kind_to_node_type r.kind) in
    add_declarations (if is_declared r then added else b) rs

-- The body of the second pass.
unfoldable pub add_containment : SemanticUnit → GraphBuilder → Record → GraphBuilder
unfolding find_containing_function add_graph_edge
add_containment u b r = elim (r.parent_id == 0) [
  | true ↦ b
  | false ↦ elim (find r.id b.ir_to_graph_node) [
    | none ↦ b
    | some child ↦
        let (ancestor_id, b') = find_containing_function u b r in
        if ancestor_id == 0
        then b'
        else if ancestor_id == r.id
        then b'
        else elim (find ancestor_id b'.ir_to_graph_node) [
          | none ↦ b'
          | some parent ↦
              if parent == child then b' else add_graph_edge b' parent child EdgeType.contains
        ]
  ]
]

unfoldable pub add_containments : SemanticUnit → GraphBuilder → List Record → GraphBuilder
unfolding add_containment
add_containments u b [] = b
add_containments u b (r ∷ rs) = add_containments u (add_containment u b r) rs

-- What is reset at the start; the node ids go on from the builder's last graph.
unfoldable pub start_symbol_graph : GraphBuilder → GraphBuilder
start_symbol_graph b = record b {
  current_graph = empty_graph (codes "symbol_reference") (codes "symbol-graph");
  next_edge_id = 1;
  ir_to_graph_node = [];
  parent_cache = [];
  added_edges = [];
  building_call_graph = false;
}

unfoldable pub build_symbol_graph : SemanticUnit → GraphBuilder → GraphBuilder
unfolding add_declarations add_containments start_symbol_graph
build_symbol_graph u b =
    add_containments u (add_declarations (start_symbol_graph b) u.records) u.records
