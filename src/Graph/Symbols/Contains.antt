-- ===== src/Graph/Symbols/Contains.antt =====
-- The edges of a symbol graph against the parents of the unit's records.
use code_scope.Prelude.{
  ℕ, false, some, List, [], ◌∷◌, codes, find, In, ◌==◌, ◌≡◌, refl, sym, ap, ◌∙◌, subst, ◌≢◌, ◌⊎◌,
  inl, inr, Option-cases, Bool-cases, ==→≡, ==→≢, arith, some_inj,
}
use code_scope.Graph.Unit.{Record, SemanticUnit}
use code_scope.Graph.Types.{EdgeType, relation_type_to_int}
use code_scope.Graph.Builder.{GraphBuilder, EdgeKey, add_graph_edge, find_containing_function}
use code_scope.Graph.Builder.Nearest.{IsNearest, Nearest-zero}
use code_scope.Graph.Edges.{edge_of, add_graph_edge-In, In-add_graph_edge}
use code_scope.Graph.Going.{
  IsGoing, IsContained, IsFrame, IsFrame-refl, IsFrame-trans, add_graph_edge-IsGoing,
  add_graph_edge-IsFrame, find_containing_function-IsContained, IsNearest-unique,
}
use code_scope.Graph.Symbols.{add_containment}

abbrev pub contains_key : ℕ → ℕ → EdgeKey
contains_key s t = (s, t, relation_type_to_int EdgeType.contains, codes "symbol_reference")

-- A record with a node lies in the nearest record around it that has another node.
abbrev pub IsWithin : SemanticUnit → List (ℕ × ℕ) → Record → ℕ → ℕ → Type 0
IsWithin u m r s t =
    (find r.id m ≡ some t)
    × ((c : ℕ) × (IsNearest u m r.parent_id c
          × (c ≢ 0)
          × (c ≢ r.id)
          × (find c m ≡ some s)
          × (s ≢ t)))

abbrev pub IsWithinOf : SemanticUnit → List (ℕ × ℕ) → List Record → EdgeKey → Type 0
IsWithinOf u m rs k =
    (r : Record) × (In r rs × ((s : ℕ) × ((t : ℕ) × ((k ≡ contains_key s t) × IsWithin u m r s t))))

module _ (u : SemanticUnit) (m : List (ℕ × ℕ)) where
  abbrev pub Going : GraphBuilder → Type 0
  Going = IsGoing u m (codes "symbol_reference")

  -- One record of the second pass: what it leaves, and the edge that it adds.
  pub record Steps (b : GraphBuilder) (r : Record) (b' : GraphBuilder) : Type 0 where
    pub going : Going b'
    pub frame : IsFrame b b'
    pub only : (k : EdgeKey) → In k b'.added_edges → In k b.added_edges ⊎ IsWithinOf u m (r ∷ []) k
    pub each : (k : EdgeKey) → In k b.added_edges ⊎ IsWithinOf u m (r ∷ []) k → In k b'.added_edges

  skip :
      (b : GraphBuilder) (r : Record) (b' : GraphBuilder)
      → Going b'
      → IsFrame b b'
      → b'.added_edges ≡ b.added_edges
      → ((s t : ℕ) → ¬ IsWithin u m r s t)
      → Steps b r b'
  skip b r b' h f e none_of = record {
    going = h;
    frame = f;
    only = λ k i. inl (subst (In k) e i);
    each = λ k c. elim c [
      | inl i ↦ subst (In k) (sym e) i
      | inr (q, (inl same, (s, (t, (ek, within))))) ↦
          absurd (none_of s t (subst (λ x. IsWithin u m x s t) (sym same) within))
      | inr (q, (inr j, rest)) ↦ absurd j
    ];
  }

  -- What the walk found decides the edge: its source and target are determined.
  within_is :
      (b : GraphBuilder) (r : Record) (s t : ℕ)
      → IsContained u m (codes "symbol_reference") b r
      → IsWithin u m r s t
      → ((find_containing_function u b r).0 ≢ 0)
        × ((find_containing_function u b r).0 ≢ r.id)
        × (find (find_containing_function u b r).0 m ≡ some s)
  within_is b r s t c (child, (a, (near, top, self, at, other))) =
      let same = IsNearest-unique u m r.parent_id a _ near c.nearest in
      (λ e. top (same ∙ e), λ e. self (same ∙ e), ap (λ x. find x m) (sym same) ∙ at)

  edge-Steps :
      (b : GraphBuilder) (r : Record) (s t : ℕ)
      → IsContained u m (codes "symbol_reference") b r
      → IsWithin u m r s t
      → Steps b r (add_graph_edge (find_containing_function u b r).1 s t EdgeType.contains)
  edge-Steps b r s t c within =
      let b' = (find_containing_function u b r).1 in
      let key : edge_of b' s t EdgeType.contains ≡ contains_key s t =
        ap (λ g. (s, t, relation_type_to_int EdgeType.contains, g)) c.going.graph in
      record {
        going = add_graph_edge-IsGoing u m _ b' s t EdgeType.contains c.going;
        frame = IsFrame-trans b b' _ c.frame (add_graph_edge-IsFrame b' s t EdgeType.contains).0;
        only = λ k i. elim (add_graph_edge-In b' s t EdgeType.contains k i) [
          | inl e ↦ inr (r, (inl refl, (s, (t, (e ∙ key, within)))))
          | inr j ↦ inl (subst (In k) c.same_edges j)
        ];
        each = λ k d. In-add_graph_edge b' s t EdgeType.contains k (elim d [
          | inl j ↦ inr (subst (In k) (sym c.same_edges) j)
          | inr (q, (inl same, (s', (t', (ek, other))))) ↦
              let mine = subst (λ x. IsWithin u m x s' t') (sym same) other in
              let source =
                some_inj s' s
                  (sym (within_is b r s' t' c mine).2 ∙ (within_is b r s t c within).2) in
              let target = some_inj t' t (sym mine.0 ∙ within.0) in
              inl (
                ek
                ∙ ap (λ x. contains_key x t') source
                ∙ ap (λ x. contains_key s x) target
                ∙ sym key)
          | inr (q, (inr j, rest)) ↦ absurd j
        ]);
      }

  -- The record has a parent and a node.
  module _ (b : GraphBuilder) (r : Record) (t : ℕ) (h : Going b) (p : (r.parent_id == 0) ≡ false)
      (e : find r.id m ≡ some t) where
    abbrev b' : GraphBuilder
    b' = (find_containing_function u b r).1

    abbrev a : ℕ
    a = (find_containing_function u b r).0

    abbrev c : IsContained u m (codes "symbol_reference") b r
    c = find_containing_function-IsContained u m (codes "symbol_reference") b r h

    leave :
        add_containment u b r ≡ b'
        → ((s t : ℕ) → ¬ IsWithin u m r s t)
        → Steps b r (add_containment u b r)
    leave run none_of =
        subst (Steps b r) (sym run) (skip b r b' c.going c.frame c.same_edges none_of)

    child : find r.id b.ir_to_graph_node ≡ some t
    child = ap (find r.id) h.mapped ∙ e

    linked-Steps :
        (a == 0) ≡ false
        → (a == r.id) ≡ false
        → (s : ℕ) → find a m ≡ some s
        → Steps b r (add_containment u b r)
    unfolding add_containment
    linked-Steps n d s f =
        let found = ap (find a) c.going.mapped ∙ f in
        elim (Bool-cases (s == t)) [
          | inl y ↦ leave (rw (p, child, n, d, found, y, add_containment) refl) (λ s' t' w.
              w.1.1.4 (
                some_inj s' s (sym (within_is b r s' t' c w).2 ∙ f)
                ∙ ==→≡ s t y
                ∙ some_inj t t' (sym e ∙ w.0)))
          | inr o ↦
              let run : add_containment u b r ≡ add_graph_edge b' s t EdgeType.contains =
                rw (p, child, n, d, found, o, add_containment) refl in
              let within : IsWithin u m r s t =
                (e, (a, (c.nearest, ==→≢ a 0 n, ==→≢ a r.id d, f, ==→≢ s t o))) in
              subst (Steps b r) (sym run) (edge-Steps b r s t c within)
        ]

    child-Steps : Steps b r (add_containment u b r)
    unfolding add_containment
    child-Steps = elim (Bool-cases (a == 0)) [
      | inl y ↦
          leave (rw (p, child, y, add_containment) refl)
            (λ s t w. (within_is b r s t c w).0 (==→≡ a 0 y))
      | inr n ↦ elim (Bool-cases (a == r.id)) [
        | inl y ↦
            leave (rw (p, child, n, y, add_containment) refl)
              (λ s t w. (within_is b r s t c w).1 (==→≡ a r.id y))
        | inr d ↦ elim (Option-cases (find a m)) [
          | inr (s, f) ↦ linked-Steps n d s f
          | inl f ↦
              leave (rw (p, child, n, d, ap (find a) c.going.mapped ∙ f, add_containment) refl)
                (λ s t w. absurd (ground (arith, f, (within_is b r s t c w).2)))
        ]
      ]
    ]

  pub add_containment-Steps :
      (b : GraphBuilder) (r : Record) → Going b → Steps b r (add_containment u b r)
  unfolding add_containment
  add_containment-Steps b r h = elim (Bool-cases (r.parent_id == 0)) [
    | inl y ↦
        let run : add_containment u b r ≡ b = rw (y, add_containment) refl in
        subst (Steps b r) (sym run) (
          skip b r b h (IsFrame-refl b) refl (λ s t (_, (d, (near, top, self, at, other))).
            let zero = subst (λ p. IsNearest u m p d) (==→≡ r.parent_id 0 y) near in
            top (IsNearest-unique u m 0 d 0 zero (Nearest-zero u m))))
    | inr p ↦ elim (Option-cases (find r.id m)) [
      | inr (t, e) ↦ child-Steps b r t h p e
      | inl e ↦
          let run : add_containment u b r ≡ b =
            rw (p, ap (find r.id) h.mapped ∙ e, add_containment) refl in
          subst (Steps b r) (sym run) (
            skip b r b h (IsFrame-refl b) refl
              (λ s t (child, _). absurd (ground (arith, e, child))))
    ]
  ]
