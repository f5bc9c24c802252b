-- ===== src/Graph/Symbols/Declared.antt =====
-- The nodes of a symbol graph against the declarations of the unit.
use code_scope.Prelude.{
  ℕ, ◌+◌, ◌%◌, ◌^◌, true, false, none, some, List, [], ◌∷◌, ◌++◌, append_assoc, append-nil, map,
  find, find_here, find_past, In, IsDistinct, All, In-map, ◌==◌, if◌then◌else◌, ◌≡◌, refl, sym, ap,
  ◌∙◌, subst, ◌⊎◌, inl, inr, Option-cases, Bool-cases, ==→≡, arith,
}
use code_scope.Graph.Unit.{Record}
use code_scope.Graph.Types.{GraphNode}
use code_scope.Graph.Builder.{
  GraphBuilder, graph_node, map_node, add_graph_node, record_kind_to_node_type,
}
use code_scope.Graph.Symbols.{is_declared, add_declarations}

unfoldable pub declared : List Record → List Record
unfolding is_declared
declared [] = []
declared (r ∷ rs) = let rest = declared rs in if is_declared r then r ∷ rest else rest

-- A node for each record, the ids counted from the first, in 64 bits.
unfoldable pub numbered : ℕ → List Record → List GraphNode
unfolding graph_node record_kind_to_node_type
numbered id [] = []
numbered id (r ∷ rs) =
    graph_node id r (record_kind_to_node_type r.kind) ∷ numbered ((id + 1) % 2 ^ 64) rs

-- What adding nodes does not touch.
pub record IsStill (b c : GraphBuilder) : Type 0 where
  pub same_cache : c.parent_cache ≡ b.parent_cache
  pub same_added : c.added_edges ≡ b.added_edges
  pub same_edges : c.current_graph.edges ≡ b.current_graph.edges
  pub same_next : c.next_edge_id ≡ b.next_edge_id
  pub same_graph : c.current_graph.graph_type ≡ b.current_graph.graph_type

IsStill-refl : (b : GraphBuilder) → IsStill b b
IsStill-refl b = record {
  same_cache = refl;
  same_added = refl;
  same_edges = refl;
  same_next = refl;
  same_graph = refl;
}

IsStill-trans : (a b c : GraphBuilder) → IsStill a b → IsStill b c → IsStill a c
IsStill-trans a b c f g = record {
  same_cache = g.same_cache ∙ f.same_cache;
  same_added = g.same_added ∙ f.same_added;
  same_edges = g.same_edges ∙ f.same_edges;
  same_next = g.same_next ∙ f.same_next;
  same_graph = g.same_graph ∙ f.same_graph;
}

abbrev with_node : GraphBuilder → Record → List (ℕ × ℕ) → GraphBuilder
with_node b r m = record b {
  current_graph = record b.current_graph {
    nodes =
        b.current_graph.nodes ++ graph_node b.next_node_id r (record_kind_to_node_type r.kind) ∷ [];
  };
  next_node_id = (b.next_node_id + 1) % 2 ^ 64;
  ir_to_graph_node = m;
}

add_graph_node-IsStill :
    (b : GraphBuilder) (r : Record)
    → IsStill b (add_graph_node b r (record_kind_to_node_type r.kind))
unfolding add_graph_node
add_graph_node-IsStill b r = elim (Option-cases (find r.id b.ir_to_graph_node)) [
  | inl e ↦
      let run : add_graph_node b r (record_kind_to_node_type r.kind)
          ≡ with_node b r (map_node r b.next_node_id b.ir_to_graph_node) =
        rw (e, add_graph_node) refl in
      subst (IsStill b) (sym run) (record {
        same_cache = refl;
        same_added = refl;
        same_edges = refl;
        same_next = refl;
        same_graph = refl;
      })
  | inr (n, e) ↦
      let run : add_graph_node b r (record_kind_to_node_type r.kind) ≡ b =
        rw (e, add_graph_node) refl in
      subst (IsStill b) (sym run) (IsStill-refl b)
]

pub add_declarations-IsStill :
    (rs : List Record) (b : GraphBuilder) → IsStill b (add_declarations b rs)
unfolding add_declarations
add_declarations-IsStill [] b = IsStill-refl b
add_declarations-IsStill (r ∷ rs) b = elim (Bool-cases (is_declared r)) [
  | inl y ↦
      let b' = add_graph_node b r (record_kind_to_node_type r.kind) in
      subst (IsStill b) (sym (rw (y, add_declarations) refl))
        (IsStill-trans b b' _ (add_graph_node-IsStill b r) (add_declarations-IsStill rs b'))
  | inr n ↦ rw (n, add_declarations) (add_declarations-IsStill rs b)
]

-- A record whose id has no node yet, and that has no original id, gets the next node.
add_graph_node_new :
    (b : GraphBuilder) (r : Record)
    → find r.id b.ir_to_graph_node ≡ none
    → r.original_id ≡ 0
    → add_graph_node b r (record_kind_to_node_type r.kind)
      ≡ with_node b r ((r.id, b.next_node_id) ∷ b.ir_to_graph_node)
unfolding add_graph_node
add_graph_node_new b r e o = rw (e, ap (λ x. x == 0) o, add_graph_node) refl

-- The builder after the first pass over some records.
pub record IsNumbered (b : GraphBuilder) (rs : List Record) (c : GraphBuilder) : Type 0 where
  pub nodes : c.current_graph.nodes ≡ b.current_graph.nodes ++ numbered b.next_node_id (declared rs)
  pub older : (k v : ℕ) → find k b.ir_to_graph_node ≡ some v → find k c.ir_to_graph_node ≡ some v
  pub newer :
      (n : GraphNode)
      → In n (numbered b.next_node_id (declared rs))
      → find n.ir_node_id c.ir_to_graph_node ≡ some n.id
  pub only :
      (k v : ℕ)
      → find k c.ir_to_graph_node ≡ some v
      → (find k b.ir_to_graph_node ≡ some v)
        ⊎ ((n : GraphNode) × (In n (numbered b.next_node_id (declared rs))
              × (n.ir_node_id ≡ k)
              × (n.id ≡ v)))

abbrev pub record_ids : List Record → List ℕ
record_ids = map (λ r. r.id)

node_here :
    (b : GraphBuilder) (r : Record) (rs : List Record) (c : GraphBuilder)
    → find r.id b.ir_to_graph_node ≡ none
    → IsNumbered (with_node b r ((r.id, b.next_node_id) ∷ b.ir_to_graph_node)) rs c
    → is_declared r ≡ true
    → IsNumbered b (r ∷ rs) c
unfolding declared numbered
node_here b r rs c fresh h y =
    let node : GraphNode = graph_node b.next_node_id r (record_kind_to_node_type r.kind) in
    let m = b.ir_to_graph_node in
    record {
      nodes = rw (y, declared) (h.nodes ∙ append_assoc b.current_graph.nodes (node ∷ []) _);
      older = λ k v e. h.older k v (elim (Bool-cases (r.id == k)) [
        | inl q ↦ absurd (ground (arith, fresh, e, ==→≡ r.id k q))
        | inr d ↦ rw d e
      ]);
      newer =
          rw (y, declared)
            (λ n i. elim i [
              | inl e ↦
                  subst (λ x. find x.ir_node_id c.ir_to_graph_node ≡ some x.id) e
                    (h.older r.id b.next_node_id (find_here r.id b.next_node_id m))
              | inr j ↦ h.newer n j
            ]);
      only =
          rw (y, declared)
            (λ k v e. elim (h.only k v e) [
              | inr (n, (i, at, same)) ↦ inr (n, (inr i, at, same))
              | inl old ↦ elim (Bool-cases (r.id == k)) [
                | inl q ↦
                    let same : b.next_node_id ≡ v = ground (arith, rw q at old) in
                    inr (node, (inl refl, ==→≡ r.id k q, same))
                | inr d ↦ inl (rw d at old)
              ]
            ]);
    }

node_skipped :
    (b : GraphBuilder) (r : Record) (rs : List Record) (c : GraphBuilder)
    → IsNumbered b rs c
    → is_declared r ≡ false
    → IsNumbered b (r ∷ rs) c
unfolding declared
node_skipped b r rs c h n = record {
  nodes = rw (n, declared) h.nodes;
  older = h.older;
  newer = rw (n, declared) h.newer;
  only = rw (n, declared) h.only;
}

-- Records with ids of their own, none of which has a node yet, and without original ids.
pub add_declarations-IsNumbered :
    (rs : List Record) (b : GraphBuilder)
    → All (λ r. r.original_id ≡ 0) rs
    → IsDistinct (record_ids rs)
    → ((r : Record) → In r rs → find r.id b.ir_to_graph_node ≡ none)
    → IsNumbered b rs (add_declarations b rs)
unfolding add_declarations declared numbered
add_declarations-IsNumbered [] b o d fresh = record {
  nodes = sym (append-nil b.current_graph.nodes);
  older = λ k v e. e;
  newer = λ n i. absurd i;
  only = λ k v e. inl e;
}
add_declarations-IsNumbered (r ∷ rs) b o d fresh = elim (Bool-cases (is_declared r)) [
  | inl y ↦
      let b' = with_node b r ((r.id, b.next_node_id) ∷ b.ir_to_graph_node) in
      let here = fresh r (inl refl) in
      let run : add_declarations b (r ∷ rs) ≡ add_declarations b' rs =
        rw (y, add_graph_node_new b r here o.0, add_declarations) refl in
      let rest = add_declarations-IsNumbered rs b' o.1 d.1 (λ q i.
        find_past q.id r.id b.next_node_id b.ir_to_graph_node
          (λ e. d.0 (subst (λ k. In k (record_ids rs)) (sym e) (In-map (λ x. x.id) q rs i)))
        ∙ fresh q (inr i)) in
      subst (IsNumbered b (r ∷ rs)) (sym run) (node_here b r rs _ here rest y)
  | inr n ↦
      let run : add_declarations b (r ∷ rs) ≡ add_declarations b rs =
        rw (n, add_declarations) refl in
      let rest = add_declarations-IsNumbered rs b o.1 d.1 (λ q i. fresh q (inr i)) in
      subst (IsNumbered b (r ∷ rs)) (sym run) (node_skipped b r rs _ rest n)
]
