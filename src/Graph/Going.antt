-- ===== src/Graph/Going.antt =====
-- What stays true of a builder while it adds the edges of one graph.
use code_scope.Prelude.{
  ℕ, List, Bytes, ltb, ◌≡◌, refl, sym, ap, ◌∙◌, subst, inl, inr, Bool-cases, arith,
}
use code_scope.Graph.Unit.{Record, SemanticUnit}
use code_scope.Graph.Types.{EdgeType}
use code_scope.Graph.Builder.{GraphBuilder, has_key, add_graph_edge, find_containing_function}
use code_scope.Graph.Builder.Nearest.{
  HasNode, IsNearest, IsCache, ancestor, find_containing_function_lem,
}
use code_scope.Graph.Edges.{
  edge_of, IsDeduped, add_graph_edge_old, add_graph_edge_new, add_graph_edge-IsDeduped,
}

-- The map of nodes, the graph's type and the node counter are those of the start; the cache is right
-- for the map; and the edges are without repetitions.
pub record IsGoing (u : SemanticUnit) (m : List (ℕ × ℕ)) (g : Bytes) (b : GraphBuilder)
    : Type 0 where
  pub mapped : b.ir_to_graph_node ≡ m
  pub cached : IsCache u m b.parent_cache
  pub graph : b.current_graph.graph_type ≡ g
  pub deduped : IsDeduped b

-- Nothing but edges and the cache changes.
pub record IsFrame (b c : GraphBuilder) : Type 0 where
  pub same_nodes : c.current_graph.nodes ≡ b.current_graph.nodes
  pub same_next : c.next_node_id ≡ b.next_node_id
  pub same_map : c.ir_to_graph_node ≡ b.ir_to_graph_node
  pub same_graph : c.current_graph.graph_type ≡ b.current_graph.graph_type

pub IsFrame-refl : (b : GraphBuilder) → IsFrame b b
IsFrame-refl b = record { same_nodes = refl; same_next = refl; same_map = refl; same_graph = refl }

pub IsFrame-trans : (a b c : GraphBuilder) → IsFrame a b → IsFrame b c → IsFrame a c
IsFrame-trans a b c f g = record {
  same_nodes = g.same_nodes ∙ f.same_nodes;
  same_next = g.same_next ∙ f.same_next;
  same_map = g.same_map ∙ f.same_map;
  same_graph = g.same_graph ∙ f.same_graph;
}

pub add_graph_edge-IsFrame :
    (b : GraphBuilder) (src tgt : ℕ) (type : EdgeType)
    → IsFrame b (add_graph_edge b src tgt type)
      × ((add_graph_edge b src tgt type).parent_cache ≡ b.parent_cache)
add_graph_edge-IsFrame b src tgt type =
    elim (Bool-cases (has_key (edge_of b src tgt type) b.added_edges)) [
      | inl y ↦
          subst (λ c. IsFrame b c × (c.parent_cache ≡ b.parent_cache))
            (sym (add_graph_edge_old b src tgt type y)) (IsFrame-refl b, refl)
      | inr n ↦
          subst (λ c. IsFrame b c × (c.parent_cache ≡ b.parent_cache))
            (sym (add_graph_edge_new b src tgt type n))
            (
              record { same_nodes = refl; same_next = refl; same_map = refl; same_graph = refl },
              refl,
            )
    ]

pub add_graph_edge-IsGoing :
    (u : SemanticUnit) (m : List (ℕ × ℕ)) (g : Bytes) (b : GraphBuilder) (src tgt : ℕ)
    (type : EdgeType)
    → IsGoing u m g b
    → IsGoing u m g (add_graph_edge b src tgt type)
add_graph_edge-IsGoing u m g b src tgt type h =
    let (f, cache) = add_graph_edge-IsFrame b src tgt type in
    record {
      mapped = f.same_map ∙ h.mapped;
      cached = subst (IsCache u m) (sym cache) h.cached;
      graph = f.same_graph ∙ h.graph;
      deduped = add_graph_edge-IsDeduped b src tgt type h.deduped;
    }

-- What the walk to the containing node leaves, and what it returns.
pub record IsContained (u : SemanticUnit) (m : List (ℕ × ℕ)) (g : Bytes) (b : GraphBuilder)
    (r : Record) : Type 0 where
  pub going : IsGoing u m g (find_containing_function u b r).1
  pub nearest : IsNearest u m r.parent_id (find_containing_function u b r).0
  pub same_edges : (find_containing_function u b r).1.added_edges ≡ b.added_edges
  pub frame : IsFrame b (find_containing_function u b r).1

recached :
    (b c : GraphBuilder) (cache : List (ℕ × ℕ))
    → c ≡ record b { parent_cache = cache }
    → IsDeduped b
    → IsDeduped c
recached b c cache e h = subst IsDeduped (sym e) (record {
  kept = h.kept;
  stored = h.stored;
  distinct = h.distinct;
  next = h.next;
  ids = h.ids;
  typed = h.typed;
})

pub find_containing_function-IsContained :
    (u : SemanticUnit) (m : List (ℕ × ℕ)) (g : Bytes) (b : GraphBuilder) (r : Record)
    → IsGoing u m g b
    → IsContained u m g b r
find_containing_function-IsContained u m g b r h =
    let (near, cache, same) =
      find_containing_function_lem u b r
        (subst (λ k. IsCache u k b.parent_cache) (sym h.mapped) h.cached) in
    record {
      going = record {
        mapped = ap (λ c. c.ir_to_graph_node) same ∙ h.mapped;
        cached =
            subst (λ k. IsCache u k (find_containing_function u b r).1.parent_cache) h.mapped cache;
        graph = ap (λ c. c.current_graph.graph_type) same ∙ h.graph;
        deduped = recached b _ _ same h.deduped;
      };
      nearest =
          subst (λ k. IsNearest u k r.parent_id (find_containing_function u b r).0) h.mapped near;
      same_edges = ap (λ c. c.added_edges) same;
      frame = record {
        same_nodes = ap (λ c. c.current_graph.nodes) same;
        same_next = ap (λ c. c.next_node_id) same;
        same_map = ap (λ c. c.ir_to_graph_node) same;
        same_graph = ap (λ c. c.current_graph.graph_type) same;
      };
    }

-- The nearest ancestor with a node is one.
pub IsNearest-unique :
    (u : SemanticUnit) (m : List (ℕ × ℕ)) (p r s : ℕ)
    → IsNearest u m p r
    → IsNearest u m p s
    → r ≡ s
IsNearest-unique u m p r s (inl (hr, (j, er, fr))) (inl (hs, (k, es, fs))) =
    elim (Bool-cases (ltb j k)) [
      | inl y ↦ absurd (fs j (ground arith) (subst (HasNode m) (sym er) hr))
      | inr n ↦ elim (Bool-cases (ltb k j)) [
        | inl y ↦ absurd (fr k (ground arith) (subst (HasNode m) (sym es) hs))
        | inr d ↦ sym er ∙ ap (λ i. ancestor u i p) (ground arith) ∙ es
      ]
    ]
IsNearest-unique u m p r s (inl (hr, (j, er, fr))) (inr (e, f)) =
    absurd (f j (subst (HasNode m) (sym er) hr))
IsNearest-unique u m p r s (inr (e, f)) (inl (hs, (k, es, fs))) =
    absurd (f k (subst (HasNode m) (sym es) hs))
IsNearest-unique u m p r s (inr (e, f)) (inr (e', f')) = e ∙ sym e'
