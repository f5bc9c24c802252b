-- ===== src/Graph/Symbols/Built.antt =====
-- The symbol graph of a whole unit.
use code_scope.Prelude.{
  ℕ, suc, ◌+◌, ◌^◌, ◌<◌, some, List, [], ◌∷◌, length, get_elem?, find, In, In-All, All-In,
  IsDistinct, All, ◌≡◌, refl, sym, ap, ◌∙◌, subst, ◌⊎◌, ◌↔◌, inl, inr, arith,
}
use code_scope.Graph.Unit.{Record, SemanticUnit}
use code_scope.Graph.Unit.Lookup.{Built, Built-IsIndexed}
use code_scope.Graph.Types.{GraphNode}
use code_scope.Graph.Builder.{GraphBuilder, EdgeKey}
use code_scope.Graph.Edges.{edge_keys, IsDeduped, IsDeduped-empty}
use code_scope.Graph.Going.{IsFrame, IsFrame-refl, IsFrame-trans}
use code_scope.Graph.Symbols.{
  add_containment, add_containments, add_declarations, start_symbol_graph, build_symbol_graph,
}
use code_scope.Graph.Symbols.Contains.{IsWithinOf, Going, add_containment-Steps}
use code_scope.Graph.Symbols.Declared.{
  declared, numbered, record_ids, add_declarations-IsStill, add_declarations-IsNumbered,
}

module _ (u : SemanticUnit) (m : List (ℕ × ℕ)) where
  -- The whole second pass.
  record Run (b : GraphBuilder) (rs : List Record) (c : GraphBuilder) : Type 0 where
    going : Going u m c
    frame : IsFrame b c
    only : (k : EdgeKey) → In k c.added_edges → In k b.added_edges ⊎ IsWithinOf u m rs k
    each : (k : EdgeKey) → In k b.added_edges ⊎ IsWithinOf u m rs k → In k c.added_edges

  add_containments-Run :
      (rs : List Record) (b : GraphBuilder) → Going u m b → Run b rs (add_containments u b rs)
  unfolding add_containments
  add_containments-Run [] b h = record {
    going = h;
    frame = IsFrame-refl b;
    only = λ k i. inl i;
    each = λ k c. elim c [ inl i ↦ i | inr (r, (i, rest)) ↦ absurd i ];
  }
  add_containments-Run (r ∷ rs) b h =
      let step = add_containment-Steps u m b r h in
      let run = add_containments-Run rs (add_containment u b r) step.going in
      record {
        going = run.going;
        frame = IsFrame-trans b (add_containment u b r) _ step.frame run.frame;
        only = λ k i. elim (run.only k i) [
          | inr (q, (j, rest)) ↦ inr (q, (inr j, rest))
          | inl j ↦ elim (step.only k j) [
            | inl old ↦ inl old
            | inr (q, (inl e, rest)) ↦ inr (q, (inl e, rest))
            | inr (q, (inr z, rest)) ↦ absurd z
          ]
        ];
        each = λ k c. run.each k (elim c [
          | inl i ↦ inl (step.each k (inl i))
          | inr (q, (inl e, rest)) ↦ inl (step.each k (inr (q, (inl e, rest))))
          | inr (q, (inr i, rest)) ↦ inr (q, (i, rest))
        ]);
      }

module _ (u : SemanticUnit) (b : GraphBuilder) where
  -- After the first pass.
  abbrev listed : GraphBuilder
  listed = add_declarations (start_symbol_graph b) u.records

  listed-Going : Going u listed.ir_to_graph_node listed
  unfolding start_symbol_graph
  listed-Going =
      let still = add_declarations-IsStill u.records (start_symbol_graph b) in
      record {
        mapped = refl;
        cached = λ p r e. absurd (ground (arith, ap (find p) still.same_cache, e));
        graph = still.same_graph;
        deduped = IsDeduped-empty listed still.same_edges still.same_added still.same_next;
      }

  abbrev node_map : List (ℕ × ℕ)
  node_map = listed.ir_to_graph_node

  built-Run : Run u node_map listed u.records (build_symbol_graph u b)
  unfolding build_symbol_graph
  built-Run = add_containments-Run u node_map u.records listed listed-Going

-- The map of nodes after the first pass is that of the whole graph.
build_symbol_graph-map :
    (u : SemanticUnit) (b : GraphBuilder) → (build_symbol_graph u b).ir_to_graph_node ≡ node_map u b
build_symbol_graph-map u b = (built-Run u b).going.mapped

-- The symbol graph of any unit: no two of its edges have the same source, target and type, their ids
-- count from 1, they all have the graph's type, and the set of keys is that of the edges.
pub build_symbol_graph-IsDeduped :
    (u : SemanticUnit) (b : GraphBuilder) → IsDeduped (build_symbol_graph u b)
build_symbol_graph-IsDeduped u b = (built-Run u b).going.deduped

pub build_symbol_graph-Going :
    (u : SemanticUnit) (b : GraphBuilder)
    → Going u (build_symbol_graph u b).ir_to_graph_node (build_symbol_graph u b)
build_symbol_graph-Going u b =
    subst (λ m. Going u m (build_symbol_graph u b)) (sym (build_symbol_graph-map u b))
      (built-Run u b).going

-- The edges of the symbol graph of any unit are those that go to the node of a record from the node of
-- the nearest record around it that has a node, where the two records and the two nodes differ, and no
-- others.
pub build_symbol_graph-contains :
    (u : SemanticUnit) (b : GraphBuilder) (k : EdgeKey)
    → In k (edge_keys (build_symbol_graph u b))
      ↔ IsWithinOf u (build_symbol_graph u b).ir_to_graph_node u.records k
unfolding start_symbol_graph
build_symbol_graph-contains u b k =
    let run = built-Run u b in
    let still = add_declarations-IsStill u.records (start_symbol_graph b) in
    let mapped = build_symbol_graph-map u b in
    (
      λ i. elim (run.only k (run.going.deduped.stored k i)) [
        | inl old ↦ absurd (subst (In k) still.same_added old)
        | inr w ↦ subst (λ m. IsWithinOf u m u.records k) (sym mapped) w
      ],
      λ w.
          run.going.deduped.kept k
            (run.each k (inr (subst (λ m. IsWithinOf u m u.records k) mapped w))),
    )

ids_above :
    (rs : List Record) (off : ℕ)
    → ((i : ℕ) (r : Record) → get_elem? rs i ≡ some r → r.id ≡ suc (i + off))
    → All (λ k. off < k) (record_ids rs) × IsDistinct (record_ids rs)
ids_above [] off h = (tt, tt)
ids_above (r ∷ rs) off h =
    let (above, distinct) = ids_above rs (suc off) (λ i q g. omega (arith, h (suc i) q g)) in
    let here = h 0 r refl in
    (
      (
        omega (arith, here),
        In-All (λ k. off < k) (record_ids rs)
            (λ k i. omega (arith, All-In (λ j. suc off < j) (record_ids rs) above k i)),
      ),
      (λ i. omega (arith, here, All-In (λ j. suc off < j) (record_ids rs) above r.id i), distinct),
    )

no_originals :
    (rs : List Record)
    → ((i : ℕ) (r : Record) → get_elem? rs i ≡ some r → r.original_id ≡ 0)
    → All (λ r. r.original_id ≡ 0) rs
no_originals [] h = tt
no_originals (r ∷ rs) h = (h 0 r refl, no_originals rs (λ i. h (suc i)))

-- The nodes of the symbol graph of a unit that the visitors build, with fewer than 2^64 - 1 records:
-- they stand for the declarations but the nameless root, in their order, with ids that count on from
-- the builder's; and the map finds each of them under its record's id and finds nothing else.
pub build_symbol_graph-nodes :
    {u : SemanticUnit} (b : GraphBuilder)
    → Built u
    → length u.records + 1 < 2 ^ 64
    → ((build_symbol_graph u b).current_graph.nodes ≡ numbered b.next_node_id (declared u.records))
      × ((n : GraphNode)
          → In n (build_symbol_graph u b).current_graph.nodes
          → find n.ir_node_id (build_symbol_graph u b).ir_to_graph_node ≡ some n.id)
      × ((k v : ℕ)
          → find k (build_symbol_graph u b).ir_to_graph_node ≡ some v
          → (n : GraphNode) × (In n (build_symbol_graph u b).current_graph.nodes
              × (n.ir_node_id ≡ k)
              × (n.id ≡ v)))
unfolding start_symbol_graph
build_symbol_graph-nodes {u} b built small =
    let h = Built-IsIndexed built small in
    let distinct = (ids_above u.records 0 (λ i r g. omega (arith, h.named i r g))).1 in
    let run =
      add_declarations-IsNumbered u.records (start_symbol_graph b)
        (no_originals u.records h.no_original) distinct (λ r i. refl) in
    let nodes = (built-Run u b).frame.same_nodes ∙ run.nodes in
    let mapped = build_symbol_graph-map u b in
    (
      nodes,
      λ n i. ap (find n.ir_node_id) mapped ∙ run.newer n (subst (In n) nodes i),
      λ k v e. elim (run.only k v (sym (ap (find k) mapped) ∙ e)) [
        | inl none_yet ↦ absurd (ground (arith, none_yet))
        | inr (n, (i, at, same)) ↦ (n, (subst (In n) (sym nodes) i, at, same))
      ],
    )
