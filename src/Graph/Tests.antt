-- ===== src/Graph/Tests.antt =====
-- Runs of the unit and of the builder on a small file, and on records whose parents form a cycle.
use code_scope.Prelude.{
  ℕ, suc, ◌+◌, ◌%◌, ◌<◌, Bytes, true, false, some, [], ◌∷◌, codes, length, get_elem?, map, find, In,
  ◌≡◌, refl, ◌↔◌, arith,
}
use mathlib.Core.Option
use code_scope.Graph.Unit.{
  SourceRange, RecordKind, Record, SemanticUnit, empty_unit, set_file_path, set_language,
  add_record, add_original, get_record, set_call_reference, set_call_kind, set_call_strategy,
  set_call_facts, set_qualified_name, get_children,
}
use code_scope.Graph.Unit.Lookup.{Built, get_record_lem}
use code_scope.Graph.Unit.Setters.{Sets, setters_lem}
use code_scope.Graph.Types.{GraphNode, is_calls_relation}
use code_scope.Graph.Builder.{GraphBuilder, new_builder, walk, find_containing_function}
use code_scope.Graph.Builder.Nearest.{Finds, walk_ends, find_containing_function_lem}
use code_scope.Graph.Edges.{IsDeduped, edge_keys}
use code_scope.Graph.Symbols.{build_symbol_graph}
use code_scope.Graph.Symbols.Contains.{IsWithinOf, contains_key}
use code_scope.Graph.Symbols.Declared.{declared, numbered}
use code_scope.Graph.Symbols.Built.{build_symbol_graph-contains, build_symbol_graph-nodes}
use code_scope.Graph.Calls.{build_call_graph}
use code_scope.Graph.Calls.Steps.{call_key}
use code_scope.Graph.Calls.Built.{build_call_graph-IsDeduped}

abbrev nowhere : SourceRange
nowhere = record { start_row = 0; start_col = 0; end_row = 0; end_col = 0 }

abbrev u0 : SemanticUnit
u0 = set_language (set_file_path empty_unit (codes "a.go")) (codes "go")

abbrev u1 : SemanticUnit
u1 = (add_record u0 RecordKind.variable [] 0 nowhere 0 false 0).1

abbrev u2 : SemanticUnit
u2 = (add_record u1 RecordKind.function (codes "f") 1 nowhere 0 false 1).1

abbrev u3 : SemanticUnit
u3 = (add_record u2 RecordKind.call_expr (codes "g") 2 nowhere 1 false 0).1

abbrev u4 : SemanticUnit
u4 = (add_record u3 RecordKind.function (codes "g") 2 nowhere 1 false 0).1

-- The file: `f` holds a call of `g` with one argument, the function `g` with one parameter, and
-- another `g` with two.
abbrev sample : SemanticUnit
sample = (add_record u4 RecordKind.function (codes "g") 1 nowhere 2 false 0).1

sample-Built : Built sample
sample-Built = Built.added _ _ _ _ _ _ _ (
    Built.added _ _ _ _ _ _ _ (
      Built.added _ _ _ _ _ _ _ (
        Built.added _ _ _ _ _ _ _
          (Built.added _ _ _ _ _ _ _ (Built.labelled _ (Built.located _ Built.empty))))))

abbrev graph : GraphBuilder
graph = build_symbol_graph sample (new_builder 10)

sample_nodes : map (λ n. n.id) graph.current_graph.nodes ≡ 10 ∷ 11 ∷ 12 ∷ []
unfolding build_symbol_graph new_builder add_record set_file_path set_language
sample_nodes = refl

sample_contains : edge_keys graph ≡ contains_key 10 11 ∷ []
unfolding build_symbol_graph new_builder add_record set_file_path set_language
sample_contains = refl

-- Only the `g` of the same arity is called.
sample_calls : edge_keys (build_call_graph sample graph) ≡ call_key 10 11 ∷ []
unfolding build_symbol_graph build_call_graph new_builder add_record set_file_path set_language
sample_calls = refl

find_children : get_children sample 1 ≡ 1 ∷ 4 ∷ []
unfolding get_children add_record set_file_path set_language
find_children = refl

-- A rebuilt record whose original id is the id of an earlier record hides that record.
original_hides :
    Option.map
      (λ r. r.id)
      (get_record (add_original u2 RecordKind.call_expr (codes "h") [] 1 2 nowhere).1 1)
    ≡ some 3
unfolding add_original get_record add_record set_file_path set_language
original_hides = refl

-- Two records that are each other's parents.
abbrev cyclic : SemanticUnit
cyclic =
    (add_record (add_record u0 RecordKind.call_expr (codes "a") 2 nowhere 0 false 0).1
      RecordKind.call_expr (codes "b") 1 nowhere 0 false 0).1

cyclic-walk : walk cyclic [] [] 3 [] 2 ≡ some 0
unfolding walk add_record set_file_path set_language
cyclic-walk = refl

walk_ends_example : (r : ℕ) × (walk cyclic [] [] (length cyclic.id_to_index + 1) [] 2 ≡ some r)
walk_ends_example = walk_ends cyclic [] [] 2

abbrev call_b : Record
call_b = record {
  id = 3;
  original_id = 0;
  kind = RecordKind.call_expr;
  name = codes "c";
  qualified_name = [];
  type_name = [];
  parent_id = 2;
  ref_original_id = 0;
  resolve_strategy = [];
  loc = nowhere;
  file_path = [];
  language = [];
  arity = 0;
  is_static = false;
  call_kind = 0;
  visibility = 0;
  qualified_target = [];
  receiver_text = [];
  receiver_type = [];
  import_alias = [];
}

find_containing_function_lem_example :
    Finds cyclic (new_builder 1) 2 (find_containing_function cyclic (new_builder 1) call_b)
unfolding new_builder
find_containing_function_lem_example =
    find_containing_function_lem cyclic (new_builder 1) call_b (λ p r e. absurd (ground (arith, e)))

get_record_lem_example :
    ((i : ℕ) → i < length sample.records → get_record sample (suc i) ≡ get_elem? sample.records i)
    × ((k : ℕ) (r : Record) → get_record sample k ≡ some r → r.id ≡ k)
unfolding add_record set_file_path set_language
get_record_lem_example = get_record_lem sample-Built (omega arith)

setters_lem_example :
    ((ref : ℕ)
      → Sets sample 3 (λ r. record r { ref_original_id = ref }) (set_call_reference sample 3 ref))
    × ((kind : ℕ)
        → Sets sample 3 (λ r. record r { call_kind = kind % 256 }) (set_call_kind sample 3 kind))
    × ((s : Bytes)
        → Sets sample 3 (λ r. record r { resolve_strategy = s }) (set_call_strategy sample 3 s))
    × ((target text type alias : Bytes)
        → Sets sample 3
            (λ r. record r {
              qualified_target = target;
              receiver_text = text;
              receiver_type = type;
              import_alias = alias;
            })
            (set_call_facts sample 3 target text type alias))
    × ((name : Bytes)
        → Sets sample 3
            (λ r. record r { qualified_name = name })
            (set_qualified_name sample 3 name))
unfolding add_record set_file_path set_language
setters_lem_example = setters_lem 3 sample-Built (omega arith)

build_symbol_graph-nodes_example :
    (graph.current_graph.nodes ≡ numbered (new_builder 10).next_node_id (declared sample.records))
    × ((n : GraphNode)
        → In n graph.current_graph.nodes
        → find n.ir_node_id graph.ir_to_graph_node ≡ some n.id)
    × ((k v : ℕ)
        → find k graph.ir_to_graph_node ≡ some v
        → (n : GraphNode) × (In n graph.current_graph.nodes × (n.ir_node_id ≡ k) × (n.id ≡ v)))
unfolding add_record set_file_path set_language
build_symbol_graph-nodes_example =
    build_symbol_graph-nodes (new_builder 10) sample-Built (omega arith)

build_symbol_graph-contains_example :
    In (contains_key 10 11) (edge_keys graph)
    ↔ IsWithinOf sample graph.ir_to_graph_node sample.records (contains_key 10 11)
build_symbol_graph-contains_example =
    build_symbol_graph-contains sample (new_builder 10) (contains_key 10 11)

build_call_graph-IsDeduped_example : IsDeduped (build_call_graph sample graph)
build_call_graph-IsDeduped_example = build_call_graph-IsDeduped sample (new_builder 10)

relation_types : map is_calls_relation (0 ∷ 1 ∷ 2 ∷ 9 ∷ []) ≡ false ∷ true ∷ false ∷ false ∷ []
unfolding is_calls_relation
relation_types = refl
