-- ===== src/Graph/Types.antt =====
-- graph/graph_types.h and graph/graph_types.cpp: nodes, edges and graphs, and the integers that the
-- store keeps for the kinds of edges.
use code_scope.Prelude.{ℕ, Bool, not, List, Bytes, codes, ◌==◌, if◌then◌else◌}

pub data NodeType : Type 0 where
  function method class struct interface variable macro module_node file : NodeType

pub data EdgeType : Type 0 where
  references calls defines contains imports inherits uses_type has_type : EdgeType

pub record GraphNode : Type 0 where
  pub id : ℕ
  pub ir_node_id : ℕ
  pub type : NodeType
  pub name : Bytes
  pub qualified_name : Bytes
  pub module_path : Bytes
  pub package_name : Bytes
  pub class_name : Bytes
  pub file_path : Bytes
  pub start_row : ℕ
  pub start_col : ℕ
  pub end_row : ℕ
  pub end_col : ℕ
  pub language : Bytes
  pub signature : Bytes
  pub is_entry_point : Bool

pub record GraphEdge : Type 0 where
  pub id : ℕ
  pub source_id : ℕ
  pub target_id : ℕ
  pub type : EdgeType
  pub graph_type : Bytes
  pub call_site_file : Bytes
  pub call_site_line : ℕ
  pub label : Bytes

pub record CodeGraph : Type 0 where
  pub id : ℕ
  pub name : Bytes
  pub graph_type : Bytes
  pub nodes : List GraphNode
  pub edges : List GraphEdge

unfoldable pub relation_type_from_int : ℕ → EdgeType
relation_type_from_int n =
    if n == 0
    then EdgeType.references
    else if n == 1
    then EdgeType.calls
    else if n == 2
    then EdgeType.defines
    else if n == 3
    then EdgeType.contains
    else if n == 4
    then EdgeType.imports
    else if n == 5
    then EdgeType.inherits
    else if n == 6
    then EdgeType.uses_type
    else if n == 7
    then EdgeType.has_type
    else EdgeType.references

-- The enumerators' values; equality of two edge types is that of their values.
unfoldable pub relation_type_to_int : EdgeType → ℕ
relation_type_to_int EdgeType.references = 0
relation_type_to_int EdgeType.calls = 1
relation_type_to_int EdgeType.defines = 2
relation_type_to_int EdgeType.contains = 3
relation_type_to_int EdgeType.imports = 4
relation_type_to_int EdgeType.inherits = 5
relation_type_to_int EdgeType.uses_type = 6
relation_type_to_int EdgeType.has_type = 7

unfoldable pub is_calls_edge : EdgeType → Bool
unfolding relation_type_to_int
is_calls_edge t = relation_type_to_int t == relation_type_to_int EdgeType.calls

unfoldable pub is_calls_relation : ℕ → Bool
unfolding relation_type_from_int is_calls_edge
is_calls_relation n = is_calls_edge (relation_type_from_int n)

unfoldable pub is_relates_edge : EdgeType → Bool
unfolding is_calls_edge
is_relates_edge t = not (is_calls_edge t)

unfoldable pub is_relates_relation : ℕ → Bool
unfolding is_calls_relation
is_relates_relation n = not (is_calls_relation n)

unfoldable pub node_type_name : NodeType → Bytes
node_type_name NodeType.function = codes "function"
node_type_name NodeType.method = codes "method"
node_type_name NodeType.class = codes "class"
node_type_name NodeType.struct = codes "struct"
node_type_name NodeType.interface = codes "interface"
node_type_name NodeType.variable = codes "variable"
node_type_name NodeType.macro = codes "macro"
node_type_name NodeType.module_node = codes "module"
node_type_name NodeType.file = codes "file"

unfoldable pub edge_type_name : EdgeType → Bytes
edge_type_name EdgeType.references = codes "references"
edge_type_name EdgeType.calls = codes "calls"
edge_type_name EdgeType.defines = codes "defines"
edge_type_name EdgeType.contains = codes "contains"
edge_type_name EdgeType.imports = codes "imports"
edge_type_name EdgeType.inherits = codes "inherits"
edge_type_name EdgeType.uses_type = codes "uses_type"
edge_type_name EdgeType.has_type = codes "has_type"
