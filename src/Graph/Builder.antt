-- ===== src/Graph/Builder.antt =====
-- `GraphBuilder` over a `SemanticUnit`, graph/graph_builder.h and graph/graph_builder.cpp: its state,
-- its nodes and edges, and the walk to a record's containing node.
pub mod Nearest
use code_scope.Prelude.{
  ℕ, zero, suc, ◌+◌, ◌*◌, ◌%◌, ◌^◌, Bool, true, false, ◌&&◌, ◌||◌, Option, none, some, List, [],
  ◌∷◌, ◌++◌, Bytes, bytes_eq, codes, length, find, member, ◌==◌, if◌then◌else◌,
}
use code_scope.Graph.Unit.{RecordKind, Record, SemanticUnit, get_record, is_kind}
use code_scope.Graph.Types.{
  NodeType, EdgeType, GraphNode, GraphEdge, CodeGraph, relation_type_to_int,
}

-- (source, target, type, graph type)
abbrev pub EdgeKey : Type 0
EdgeKey = ℕ × ℕ × ℕ × Bytes

-- The maps are association lists, the newest entry in front.
pub record GraphBuilder : Type 0 where
  pub current_graph : CodeGraph
  pub next_node_id : ℕ
  pub next_edge_id : ℕ
  pub building_call_graph : Bool
  pub ir_to_graph_node : List (ℕ × ℕ)
  pub added_edges : List EdgeKey
  pub parent_cache : List (ℕ × ℕ)

abbrev pub empty_graph : Bytes → Bytes → CodeGraph
empty_graph type name = record { id = 0; name = name; graph_type = type; nodes = []; edges = [] }

-- The constructor.
unfoldable pub new_builder : ℕ → GraphBuilder
new_builder start_node_id = record {
  current_graph = empty_graph [] [];
  next_node_id = start_node_id;
  next_edge_id = 1;
  building_call_graph = false;
  ir_to_graph_node = [];
  added_edges = [];
  parent_cache = [];
}

unfoldable pub record_kind_to_node_type : RecordKind → NodeType
record_kind_to_node_type RecordKind.function = NodeType.function
record_kind_to_node_type RecordKind.method = NodeType.method
record_kind_to_node_type RecordKind.class = NodeType.class
record_kind_to_node_type RecordKind.interface = NodeType.interface
record_kind_to_node_type RecordKind.enum = NodeType.module_node
record_kind_to_node_type RecordKind.type_alias = NodeType.module_node
record_kind_to_node_type RecordKind.type_decl = NodeType.module_node
record_kind_to_node_type RecordKind.variable = NodeType.variable
record_kind_to_node_type RecordKind.import_kind = NodeType.module_node
record_kind_to_node_type RecordKind.export = NodeType.module_node
record_kind_to_node_type RecordKind.field_kind = NodeType.variable
record_kind_to_node_type k = NodeType.file

unfoldable pub is_declaration_kind : RecordKind → Bool
is_declaration_kind RecordKind.function = true
is_declaration_kind RecordKind.method = true
is_declaration_kind RecordKind.class = true
is_declaration_kind RecordKind.interface = true
is_declaration_kind RecordKind.enum = true
is_declaration_kind RecordKind.type_alias = true
is_declaration_kind RecordKind.type_decl = true
is_declaration_kind RecordKind.variable = true
is_declaration_kind RecordKind.field_kind = true
is_declaration_kind RecordKind.import_kind = true
is_declaration_kind RecordKind.export = true
is_declaration_kind k = false

abbrev pub is_empty : Bytes → Bool
is_empty [] = true
is_empty (c ∷ s) = false

-- The node that stands for a record.
unfoldable pub graph_node : ℕ → Record → NodeType → GraphNode
graph_node id r type = record {
  id = id;
  ir_node_id = r.id;
  type = type;
  name = r.name;
  qualified_name = if is_empty r.qualified_name then r.name else r.qualified_name;
  module_path = [];
  package_name = [];
  class_name = [];
  file_path = r.file_path;
  start_row = r.loc.start_row;
  start_col = r.loc.start_col;
  end_row = r.loc.end_row;
  end_col = r.loc.end_col;
  language = r.language;
  signature = [];
  is_entry_point = false;
}

-- The keys under which a record's node is found: its id, and its original id if that differs.
abbrev pub map_node : Record → ℕ → List (ℕ × ℕ) → List (ℕ × ℕ)
map_node r id m =
    if r.original_id == 0
    then (r.id, id) ∷ m
    else if r.original_id == r.id
    then (r.id, id) ∷ m
    else (r.original_id, id) ∷ (r.id, id) ∷ m

unfoldable pub add_graph_node : GraphBuilder → Record → NodeType → GraphBuilder
unfolding graph_node
add_graph_node b r type = elim (find r.id b.ir_to_graph_node) [
  | some n ↦ b
  | none ↦ record b {
    current_graph = record b.current_graph {
      nodes = b.current_graph.nodes ++ graph_node b.next_node_id r type ∷ [];
    };
    next_node_id = (b.next_node_id + 1) % 2 ^ 64;
    ir_to_graph_node = map_node r b.next_node_id b.ir_to_graph_node;
  }
]

unfoldable pub key_eq : EdgeKey → EdgeKey → Bool
key_eq (s, t, k, g) (s', t', k', g') = s == s' && t == t' && k == k' && bytes_eq g g'

unfoldable pub has_key : EdgeKey → List EdgeKey → Bool
unfolding key_eq
has_key e [] = false
has_key e (d ∷ ds) = key_eq d e || has_key e ds

abbrev pub edge_key : GraphEdge → EdgeKey
edge_key e = (e.source_id, e.target_id, relation_type_to_int e.type, e.graph_type)

unfoldable pub new_edge : GraphBuilder → ℕ → ℕ → EdgeType → GraphEdge
new_edge b src tgt type = record {
  id = b.next_edge_id;
  source_id = src;
  target_id = tgt;
  type = type;
  graph_type = b.current_graph.graph_type;
  call_site_file = [];
  call_site_line = 0;
  label = [];
}

-- `addGraphEdge`: a key that is already in the set adds nothing.
unfoldable pub add_graph_edge : GraphBuilder → ℕ → ℕ → EdgeType → GraphBuilder
unfolding relation_type_to_int has_key new_edge
add_graph_edge b src tgt type =
    let key : EdgeKey = (src, tgt, relation_type_to_int type, b.current_graph.graph_type) in
    let e : GraphEdge = new_edge b src tgt type in
    if has_key key b.added_edges then b else record b {
      current_graph = record b.current_graph { edges = b.current_graph.edges ++ e ∷ [] };
      next_edge_id = (b.next_edge_id + 1) % 2 ^ 64;
      added_edges = key ∷ b.added_edges;
    }

-- The loop of `findContainingFunction`: one unit of fuel for each id that it visits; `none` when
-- the fuel is used up.
unfoldable pub walk : SemanticUnit → List (ℕ × ℕ) → List (ℕ × ℕ) → ℕ → List ℕ → ℕ → Option ℕ
unfolding get_record
walk u m cache zero visited pid = none
walk u m cache (suc fuel) visited pid = elim (pid == 0) [
  | true ↦ some 0
  | false ↦ elim (member pid visited) [
    | true ↦ some 0
    | false ↦ elim (find pid m) [
      | some n ↦ some pid
      | none ↦ elim (find pid cache) [
        | some r ↦ some r
        | none ↦ elim (get_record u pid) [
          | none ↦ some 0
          | some r ↦ walk u m cache fuel (pid ∷ visited) r.parent_id
        ]
      ]
    ]
  ]
]

-- The record id of the containing node, or 0, and the builder with its cache filled. The walk has
-- fuel for every id of the unit's index and one more.
unfoldable pub find_containing_function : SemanticUnit → GraphBuilder → Record → ℕ × GraphBuilder
unfolding walk
find_containing_function u b r = elim (r.parent_id == 0) [
  | true ↦ (0, b)
  | false ↦ elim (find r.parent_id b.parent_cache) [
    | some c ↦ (c, b)
    | none ↦
        elim (walk u b.ir_to_graph_node b.parent_cache (length u.id_to_index + 1) [] r.parent_id) [
          | none ↦ (0, b)
          | some c ↦ (c, record b { parent_cache = (r.parent_id, c) ∷ b.parent_cache })
        ]
  ]
]
