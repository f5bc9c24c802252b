-- ===== src/Graph/Edges.antt =====
-- What `addGraphEdge` keeps true of the edges of a graph that is being built.
use code_scope.Prelude.{
  ℕ, suc, ◌+◌, ◌%◌, ◌^◌, Bool, true, false, ◌&&◌, some, List, [], ◌∷◌, ◌++◌, bytes_eq, map, length,
  length-append, In, In-append_left, In-append_right, In-append_cases, IsDistinct, IsDistinct-snoc,
  All, All-append, get_elem?, get_elem?-push, ◌==◌, ◌≡◌, refl, sym, ap, ◌∙◌, subst, ◌⊎◌, inl, inr,
  Bool-cases, ==→≡, ==_refl, arith, false≢true,
}
use code_scope.Resolver.Text.{bytes_eq_refl, bytes_eq→≡}
use code_scope.Graph.Types.{EdgeType, GraphEdge, relation_type_to_int}
use code_scope.Graph.Builder.{
  GraphBuilder, EdgeKey, edge_key, key_eq, has_key, new_edge, add_graph_edge,
}

&&_both : (a b : Bool) → a && b ≡ true → (a ≡ true) × (b ≡ true)
&&_both true b h = (refl, h)
&&_both false b h = absurd (false≢true h)

key_eq→≡ : (d e : EdgeKey) → key_eq d e ≡ true → d ≡ e
unfolding key_eq
key_eq→≡ (s, t, k, g) (s', t', k', g') h =
    let (h3, hg) = &&_both (s == s' && t == t' && k == k') (bytes_eq g g') h in
    let (h2, hk) = &&_both (s == s' && t == t') (k == k') h3 in
    let (hs, ht) = &&_both (s == s') (t == t') h2 in
    ap (λ x. (x, t, k, g)) (==→≡ s s' hs)
    ∙ ap (λ x. (s', x, k, g)) (==→≡ t t' ht)
    ∙ ap (λ x. (s', t', x, g)) (==→≡ k k' hk)
    ∙ ap (λ x. (s', t', k', x)) (bytes_eq→≡ g g' hg)

key_eq_refl : (d : EdgeKey) → key_eq d d ≡ true
unfolding key_eq
key_eq_refl (s, t, k, g) = rw (==_refl s, ==_refl t, ==_refl k) (bytes_eq_refl g)

has_key→In : (e : EdgeKey) (ds : List EdgeKey) → has_key e ds ≡ true → In e ds
unfolding has_key
has_key→In e [] h = absurd (false≢true h)
has_key→In e (d ∷ ds) h = elim (Bool-cases (key_eq d e)) [
  | inl y ↦ inl (key_eq→≡ d e y)
  | inr n ↦ inr (has_key→In e ds (rw n at h))
]

In→has_key : (e : EdgeKey) (ds : List EdgeKey) → In e ds → has_key e ds ≡ true
unfolding has_key
In→has_key e [] h = absurd h
In→has_key e (d ∷ ds) (inl q) = rw (ap (λ x. key_eq x e) q ∙ key_eq_refl e) refl
In→has_key e (d ∷ ds) (inr i) = elim (Bool-cases (key_eq d e)) [
  | inl y ↦ rw y refl
  | inr n ↦ rw n (In→has_key e ds i)
]

abbrev pub edge_of : GraphBuilder → ℕ → ℕ → EdgeType → EdgeKey
edge_of b src tgt type = (src, tgt, relation_type_to_int type, b.current_graph.graph_type)

abbrev pub edge_keys : GraphBuilder → List EdgeKey
edge_keys b = map edge_key b.current_graph.edges

-- The set of keys is that of the edges; no two edges have one key; the ids count the edges from 1;
-- and every edge has the graph's type.
pub record IsDeduped (b : GraphBuilder) : Type 0 where
  pub kept : (k : EdgeKey) → In k b.added_edges → In k (edge_keys b)
  pub stored : (k : EdgeKey) → In k (edge_keys b) → In k b.added_edges
  pub distinct : IsDistinct (edge_keys b)
  pub next : b.next_edge_id ≡ (length b.current_graph.edges + 1) % 2 ^ 64
  pub ids :
      (i : ℕ) (e : GraphEdge) → get_elem? b.current_graph.edges i ≡ some e → e.id ≡ suc i % 2 ^ 64
  pub typed : All (λ e. e.graph_type ≡ b.current_graph.graph_type) b.current_graph.edges

map-append : {A B : Type 0} (f : A → B) (xs ys : List A) → map f (xs ++ ys) ≡ map f xs ++ map f ys
map-append f [] ys = refl
map-append f (x ∷ xs) ys = ap (λ l. f x ∷ l) (map-append f xs ys)

module _ (b : GraphBuilder) (src tgt : ℕ) (type : EdgeType) where
  pub add_graph_edge_old :
      has_key (edge_of b src tgt type) b.added_edges ≡ true → add_graph_edge b src tgt type ≡ b
  unfolding add_graph_edge
  add_graph_edge_old y = rw (y, add_graph_edge) refl

  abbrev pub with_edge : GraphBuilder
  with_edge = record b {
    current_graph = record b.current_graph {
      edges = b.current_graph.edges ++ new_edge b src tgt type ∷ [];
    };
    next_edge_id = (b.next_edge_id + 1) % 2 ^ 64;
    added_edges = edge_of b src tgt type ∷ b.added_edges;
  }

  pub add_graph_edge_new :
      has_key (edge_of b src tgt type) b.added_edges ≡ false
      → add_graph_edge b src tgt type ≡ with_edge
  unfolding add_graph_edge
  add_graph_edge_new n = rw (n, add_graph_edge) refl

  -- An edge is kept once: its key is in the set, and so is what was there; nothing else.
  pub add_graph_edge-In :
      (k : EdgeKey)
      → In k (add_graph_edge b src tgt type).added_edges
      → (k ≡ edge_of b src tgt type) ⊎ In k b.added_edges
  add_graph_edge-In k h = elim (Bool-cases (has_key (edge_of b src tgt type) b.added_edges)) [
    | inl y ↦ inr (subst (λ c. In k c.added_edges) (add_graph_edge_old y) h)
    | inr n ↦ elim (subst (λ c. In k c.added_edges) (add_graph_edge_new n) h) [
      | inl e ↦ inl (sym e)
      | inr i ↦ inr i
    ]
  ]

  pub In-add_graph_edge :
      (k : EdgeKey)
      → (k ≡ edge_of b src tgt type) ⊎ In k b.added_edges
      → In k (add_graph_edge b src tgt type).added_edges
  In-add_graph_edge k h = elim (Bool-cases (has_key (edge_of b src tgt type) b.added_edges)) [
    | inl y ↦
        subst (λ c. In k c.added_edges) (sym (add_graph_edge_old y))
          (elim h [
            | inl e ↦ subst (λ d. In d b.added_edges) (sym e) (has_key→In _ _ y)
            | inr i ↦ i
          ])
    | inr n ↦
        subst (λ c. In k c.added_edges) (sym (add_graph_edge_new n))
          (elim h [ inl e ↦ inl (sym e) | inr i ↦ inr i ])
  ]

  with_edge-IsDeduped :
      IsDeduped b → has_key (edge_of b src tgt type) b.added_edges ≡ false → IsDeduped with_edge
  unfolding new_edge
  with_edge-IsDeduped h n =
      let es = b.current_graph.edges in
      let e : GraphEdge = new_edge b src tgt type in
      let keys = map-append edge_key es (e ∷ []) in
      record {
        kept = λ k i. subst (In k) (sym keys) (elim i [
          | inl q ↦ In-append_right k (edge_keys b) _ (inl q)
          | inr j ↦ In-append_left k (edge_keys b) _ (h.kept k j)
        ]);
        stored = λ k i. elim (In-append_cases k (edge_keys b) _ (subst (In k) keys i)) [
          | inl j ↦ inr (h.stored k j)
          | inr (inl q) ↦ inl q
          | inr (inr z) ↦ absurd z
        ];
        distinct = subst IsDistinct (sym keys) (
            IsDistinct-snoc (edge_keys b) (edge_of b src tgt type) h.distinct
              (λ i. false≢true (sym n ∙ In→has_key _ _ (h.stored _ i))));
        next = omega (arith, h.next, length-append es (e ∷ []));
        ids = get_elem?-push (λ i d. d.id ≡ suc i % 2 ^ 64) es e h.ids (omega (arith, h.next));
        typed =
            All-append (λ d. d.graph_type ≡ b.current_graph.graph_type) es (e ∷ []) h.typed
              (refl, tt);
      }

  -- `addGraphEdge` keeps the invariant.
  pub add_graph_edge-IsDeduped : IsDeduped b → IsDeduped (add_graph_edge b src tgt type)
  add_graph_edge-IsDeduped h = elim (Bool-cases (has_key (edge_of b src tgt type) b.added_edges)) [
    | inl y ↦ subst IsDeduped (sym (add_graph_edge_old y)) h
    | inr n ↦ subst IsDeduped (sym (add_graph_edge_new n)) (with_edge-IsDeduped h n)
  ]

-- A builder whose graph has no edge yet.
pub IsDeduped-empty :
    (b : GraphBuilder)
    → b.current_graph.edges ≡ []
    → b.added_edges ≡ []
    → b.next_edge_id ≡ 1
    → IsDeduped b
IsDeduped-empty b e a n = record {
  kept = λ k i. absurd (subst (In k) a i);
  stored = λ k i. absurd (subst (λ es. In k (map edge_key es)) e i);
  distinct = subst (λ es. IsDistinct (map edge_key es)) (sym e) tt;
  next = n ∙ ap (λ es. (length es + 1) % 2 ^ 64) (sym e);
  ids = λ i d g. absurd (ground (arith, g, ap (λ es. get_elem? es i) e));
  typed = subst (All (λ d. d.graph_type ≡ b.current_graph.graph_type)) (sym e) tt;
}
