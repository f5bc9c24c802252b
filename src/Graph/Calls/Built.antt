-- ===== src/Graph/Calls/Built.antt =====
-- The edges of a call graph against the calls of the unit.
use code_scope.Prelude.{ℕ, List, [], ◌∷◌, refl}
use code_scope.Graph.Unit.{Record, SemanticUnit}
use code_scope.Graph.Builder.{GraphBuilder}
use code_scope.Graph.Edges.{IsDeduped, IsDeduped-empty}
use code_scope.Graph.Symbols.{build_symbol_graph}
use code_scope.Graph.Symbols.Built.{build_symbol_graph-Going}
use code_scope.Graph.Calls.{
  build_callee_index, build_name_index, start_call_graph, build_call_graph, build_call_graph_impl,
  CalleeIndex, add_call_record, add_call_records,
}
use code_scope.Graph.Calls.Steps.{Going, add_call_record-Steps}

module _ (u : SemanticUnit) (m : List (ℕ × ℕ)) (idx : CalleeIndex) where
  add_call_records-Going :
      (b : GraphBuilder) (rs : List Record)
      → Going u m idx b
      → Going u m idx (add_call_records u idx b rs)
  unfolding add_call_records
  add_call_records-Going b [] h = h
  add_call_records-Going b (r ∷ rs) h =
      add_call_records-Going (add_call_record u idx b r) rs
        (add_call_record-Steps u m idx b r h).going

-- The map of nodes of a unit's symbol graph, and the index of its declarations.
abbrev pub symbols : SemanticUnit → GraphBuilder → List (ℕ × ℕ)
symbols u b = (build_symbol_graph u b).ir_to_graph_node

start_call_graph-Going :
    (u : SemanticUnit) (b : GraphBuilder)
    → Going u
        (symbols u b)
        (build_callee_index u (symbols u b))
        (start_call_graph (build_symbol_graph u b))
unfolding start_call_graph
start_call_graph-Going u b =
    let h = build_symbol_graph-Going u b in
    record {
      mapped = refl;
      cached = h.cached;
      graph = refl;
      deduped = IsDeduped-empty (start_call_graph (build_symbol_graph u b)) refl refl refl;
    }

built-Going :
    (u : SemanticUnit) (b : GraphBuilder)
    → Going u
        (symbols u b)
        (build_callee_index u (symbols u b))
        (build_call_graph u (build_symbol_graph u b))
unfolding build_call_graph build_call_graph_impl build_name_index
built-Going u b =
    add_call_records-Going u (symbols u b) (build_callee_index u (symbols u b))
      (start_call_graph (build_symbol_graph u b)) u.records (start_call_graph-Going u b)

-- The call graph that follows the symbol graph of any unit: no two of its edges have the same source,
-- target and type, their ids count from 1, and they all have the graph's type.
pub build_call_graph-IsDeduped :
    (u : SemanticUnit) (b : GraphBuilder) → IsDeduped (build_call_graph u (build_symbol_graph u b))
build_call_graph-IsDeduped u b = (built-Going u b).deduped
