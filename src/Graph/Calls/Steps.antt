-- ===== src/Graph/Calls/Steps.antt =====
-- The edges that one call record adds to a call graph.
use code_scope.Prelude.{
  ℕ, true, some, List, [], ◌∷◌, codes, find, In, ◌≡◌, refl, sym, ap, ◌∙◌, subst, ◌≢◌, ◌⊎◌, inl, inr,
  Option-cases, Bool-cases, ≢→==, arith, false≢true, some_inj,
}
use code_scope.Graph.Unit.{RecordKind, Record, SemanticUnit, is_kind}
use code_scope.Graph.Types.{EdgeType, relation_type_to_int}
use code_scope.Graph.Builder.{
  GraphBuilder, EdgeKey, add_graph_edge, is_empty, find_containing_function,
}
use code_scope.Graph.Builder.Nearest.{IsNearest}
use code_scope.Graph.Edges.{edge_of, add_graph_edge-In, In-add_graph_edge}
use code_scope.Graph.Going.{
  IsGoing, IsContained, add_graph_edge-IsGoing, find_containing_function-IsContained,
  IsNearest-unique,
}
use code_scope.Graph.Calls.{CalleeIndex, add_calls, has_signal, resolve_call_edges, add_call_record}
use code_scope.Graph.Calls.Targets.{call_targets, resolve_call_edges-add_calls}
use code_scope.Graph.Calls.Layers.{Resolves, not_empty}
use code_scope.Graph.Calls.Resolved.{call_targets-Resolves, Resolves-call_targets}

abbrev pub call_key : ℕ → ℕ → EdgeKey
call_key s t = (s, t, relation_type_to_int EdgeType.calls, codes "call_graph")

-- A call record gives an edge from the nearest node around it to a target that it resolves to.
abbrev pub IsCall : SemanticUnit → List (ℕ × ℕ) → CalleeIndex → Record → ℕ → ℕ → Type 0
IsCall u m idx r s t =
    (is_kind r.kind RecordKind.call_expr ≡ true)
    × ((c : ℕ) × (IsNearest u m r.parent_id c × (find c m ≡ some s) × Resolves m idx r s t))

-- The calls of some records, as keys.
abbrev pub IsCallOf : SemanticUnit → List (ℕ × ℕ) → CalleeIndex → List Record → EdgeKey → Type 0
IsCallOf u m idx rs k =
    (r : Record) × (In r rs × ((s : ℕ) × ((t : ℕ) × ((k ≡ call_key s t) × IsCall u m idx r s t))))

named_signal : (r : Record) → r.name ≢ [] → has_signal r ≡ true
named_signal r d = rw (not_empty r.name d) refl

qualified_signal : (r : Record) → r.qualified_name ≢ [] → has_signal r ≡ true
qualified_signal r d = elim (Bool-cases (is_empty r.name)) [
  | inl y ↦ rw (y, not_empty r.qualified_name d) refl
  | inr n ↦ rw n refl
]

referenced_signal : (r : Record) → r.ref_original_id ≢ 0 → has_signal r ≡ true
referenced_signal r d = elim (Bool-cases (is_empty r.name)) [
  | inr n ↦ rw n refl
  | inl y ↦ elim (Bool-cases (is_empty r.qualified_name)) [
    | inr n ↦ rw (y, n) refl
    | inl q ↦ rw (y, q, ≢→== r.ref_original_id 0 d) refl
  ]
]

-- The guard of the loop skips no call that resolves.
Resolves-has_signal :
    (m : List (ℕ × ℕ)) (idx : CalleeIndex) (r : Record) (k t : ℕ)
    → Resolves m idx r k t
    → has_signal r ≡ true
Resolves-has_signal m idx r k t (Resolves.by_reference n e d) = referenced_signal r n
Resolves-has_signal m idx r k t (Resolves.by_qualified_name ref q i d) = qualified_signal r q
Resolves-has_signal m idx r k t (Resolves.by_arity ref q name a i d) = named_signal r name
Resolves-has_signal m idx r k t (Resolves.by_unknown_arity ref q name a only i d) =
    named_signal r name
Resolves-has_signal m idx r k t (Resolves.by_name ref q name e a i d) = named_signal r name

module _ (u : SemanticUnit) (m : List (ℕ × ℕ)) (idx : CalleeIndex) where
  abbrev pub Going : GraphBuilder → Type 0
  Going = IsGoing u m (codes "call_graph")

  edge_of_call :
      (b : GraphBuilder) (s t : ℕ) → Going b → edge_of b s t EdgeType.calls ≡ call_key s t
  edge_of_call b s t h = ap (λ g. (s, t, relation_type_to_int EdgeType.calls, g)) h.graph

  add_calls-Going : (b : GraphBuilder) (s : ℕ) (ts : List ℕ) → Going b → Going (add_calls b s ts)
  unfolding add_calls
  add_calls-Going b s [] h = h
  add_calls-Going b s (t ∷ ts) h =
      add_calls-Going (add_graph_edge b s t EdgeType.calls) s ts
        (add_graph_edge-IsGoing u m _ b s t EdgeType.calls h)

  add_calls-In :
      (b : GraphBuilder) (s : ℕ) (ts : List ℕ) (k : EdgeKey)
      → Going b
      → In k (add_calls b s ts).added_edges
      → In k b.added_edges ⊎ ((t : ℕ) × (In t ts × (k ≡ call_key s t)))
  unfolding add_calls
  add_calls-In b s [] k h i = inl i
  add_calls-In b s (t ∷ ts) k h i =
      elim (add_calls-In (add_graph_edge b s t EdgeType.calls) s ts k
        (add_graph_edge-IsGoing u m _ b s t EdgeType.calls h) i) [
          | inr (v, (j, e)) ↦ inr (v, (inr j, e))
          | inl j ↦ elim (add_graph_edge-In b s t EdgeType.calls k j) [
            | inl e ↦ inr (t, (inl refl, e ∙ edge_of_call b s t h))
            | inr old ↦ inl old
          ]
        ]

  In-add_calls :
      (b : GraphBuilder) (s : ℕ) (ts : List ℕ) (k : EdgeKey)
      → Going b
      → In k b.added_edges ⊎ ((t : ℕ) × (In t ts × (k ≡ call_key s t)))
      → In k (add_calls b s ts).added_edges
  unfolding add_calls
  In-add_calls b s [] k h (inl i) = i
  In-add_calls b s [] k h (inr (t, (i, e))) = absurd i
  In-add_calls b s (t ∷ ts) k h c =
      let b' = add_graph_edge b s t EdgeType.calls in
      let h' = add_graph_edge-IsGoing u m _ b s t EdgeType.calls h in
      let now = In-add_graph_edge b s t EdgeType.calls k in
      In-add_calls b' s ts k h' (elim c [
        | inl i ↦ inl (now (inr i))
        | inr (v, (inl q, e)) ↦
            inl (now (inl (e ∙ ap (λ x. call_key s x) (sym q) ∙ sym (edge_of_call b s t h))))
        | inr (v, (inr i, e)) ↦ inr (v, (i, e))
      ])

  -- One call record: what it leaves, and the edges that it adds.
  pub record Steps (b : GraphBuilder) (r : Record) (b' : GraphBuilder) : Type 0 where
    pub going : Going b'
    pub only :
        (k : EdgeKey) → In k b'.added_edges → In k b.added_edges ⊎ IsCallOf u m idx (r ∷ []) k
    pub each :
        (k : EdgeKey) → In k b.added_edges ⊎ IsCallOf u m idx (r ∷ []) k → In k b'.added_edges

  skip :
      (b : GraphBuilder) (r : Record) (b' : GraphBuilder)
      → Going b'
      → b'.added_edges ≡ b.added_edges
      → ((s t : ℕ) → ¬ IsCall u m idx r s t)
      → Steps b r b'
  skip b r b' h e none_of = record {
    going = h;
    only = λ k i. inl (subst (In k) e i);
    each = λ k c. elim c [
      | inl i ↦ subst (In k) (sym e) i
      | inr (q, (inl same, (s, (t, (ek, call))))) ↦
          absurd (none_of s t (subst (λ x. IsCall u m idx x s t) (sym same) call))
      | inr (q, (inr j, rest)) ↦ absurd j
    ];
  }

  -- The caller of a call is the node of the containing record that was found.
  caller_is :
      (b : GraphBuilder) (r : Record) (s s' t : ℕ)
      → IsContained u m (codes "call_graph") b r
      → find (find_containing_function u b r).0 m ≡ some s
      → IsCall u m idx r s' t
      → (s' ≡ s) × Resolves m idx r s t
  caller_is b r s s' t c e (kind, (a, (near, at, res))) =
      let same = IsNearest-unique u m r.parent_id a _ near c.nearest in
      let caller = some_inj s' s (sym at ∙ ap (λ x. find x m) same ∙ e) in
      (caller, subst (λ x. Resolves m idx r x t) caller res)

  resolve-Steps :
      (b : GraphBuilder) (r : Record) (s : ℕ)
      → Going b
      → IsContained u m (codes "call_graph") b r
      → is_kind r.kind RecordKind.call_expr ≡ true
      → find (find_containing_function u b r).0 m ≡ some s
      → Steps b r (resolve_call_edges (find_containing_function u b r).1 r s idx)
  resolve-Steps b r s h c kind e =
      let b' = (find_containing_function u b r).1 in
      let run = resolve_call_edges-add_calls b' r s idx in
      let ts = call_targets b'.ir_to_graph_node idx r s in
      let mapped = c.going.mapped in
      subst (Steps b r) (sym run) (record {
        going = add_calls-Going b' s ts c.going;
        only = λ k i. elim (add_calls-In b' s ts k c.going i) [
          | inl j ↦ inl (subst (In k) c.same_edges j)
          | inr (t, (j, ek)) ↦
              let target = subst (λ x. In t (call_targets x idx r s)) mapped j in
              inr (
                r,
                (
                  inl refl,
                  (
                    s,
                    (
                      t,
                      (
                        ek,
                        (
                          kind,
                          (
                            (find_containing_function u b r).0,
                            (c.nearest, e, call_targets-Resolves m idx r s t target),
                          ),
                        ),
                      ),
                    ),
                  ),
                ),
              )
        ];
        each = λ k d. In-add_calls b' s ts k c.going (elim d [
          | inl j ↦ inl (subst (In k) (sym c.same_edges) j)
          | inr (q, (inl same, (s', (t, (ek, call))))) ↦
              let mine = subst (λ x. IsCall u m idx x s' t) (sym same) call in
              let (caller, res) = caller_is b r s s' t c e mine in
              let target = Resolves-call_targets m idx r s t res in
              inr (
                t,
                (
                  subst (λ x. In t (call_targets x idx r s)) (sym mapped) target,
                  ek ∙ ap (λ x. call_key x t) caller,
                ),
              )
          | inr (q, (inr j, rest)) ↦ absurd j
        ]);
      })

  pub add_call_record-Steps :
      (b : GraphBuilder) (r : Record) → Going b → Steps b r (add_call_record u idx b r)
  unfolding add_call_record
  add_call_record-Steps b r h = elim (Bool-cases (is_kind r.kind RecordKind.call_expr)) [
    | inr n ↦
        let run : add_call_record u idx b r ≡ b = rw (n, add_call_record) refl in
        subst (Steps b r) (sym run) (skip b r b h refl (λ s t call. false≢true (sym n ∙ call.0)))
    | inl kind ↦ elim (Bool-cases (has_signal r)) [
      | inr n ↦
          let run : add_call_record u idx b r ≡ b = rw (kind, n, add_call_record) refl in
          subst (Steps b r) (sym run) (
            skip b r b h refl
              (λ s t call. false≢true (sym n ∙ Resolves-has_signal m idx r s t call.1.1.2)))
      | inl signal ↦
          let c = find_containing_function-IsContained u m (codes "call_graph") b r h in
          let b' = (find_containing_function u b r).1 in
          let mapped = ap (λ x. find (find_containing_function u b r).0 x) c.going.mapped in
          elim (Option-cases (find (find_containing_function u b r).0 m)) [
            | inl e ↦
                let run : add_call_record u idx b r ≡ b' =
                  rw (kind, signal, mapped ∙ e, add_call_record) refl in
                subst (Steps b r) (sym run) (
                  skip b r b' c.going c.same_edges (λ s t (_, (a, (near, at, _))).
                    let same = IsNearest-unique u m r.parent_id a _ near c.nearest in
                    absurd (ground (arith, sym at ∙ ap (λ x. find x m) same ∙ e))))
            | inr (s, e) ↦
                let run : add_call_record u idx b r ≡ resolve_call_edges b' r s idx =
                  rw (kind, signal, mapped ∙ e, add_call_record) refl in
                subst (Steps b r) (sym run) (resolve-Steps b r s h c kind e)
          ]
    ]
  ]
