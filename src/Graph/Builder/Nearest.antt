-- ===== src/Graph/Builder/Nearest.antt =====
-- The walk of `findContainingFunction` against the chain of a record's ancestors.
use code_scope.Prelude.{
  ℕ, zero, suc, ◌+◌, ◌≤◌, ◌<◌, none, some, List, [], ◌∷◌, length, In, find, keys, find-keys, member,
  member→In, In→member, IsDistinct, length_distinct, ◌==◌, ◌≡◌, refl, sym, ap, ◌∙◌, subst, ◌≢◌, ◌⊎◌,
  inl, inr, Option-cases, Bool-cases, ==→≡, ==→≢, arith, false≢true,
}
use code_scope.Graph.Unit.{Record, SemanticUnit, get_record}
use code_scope.Graph.Builder.{GraphBuilder, walk, find_containing_function}

-- The parent of an id; 0 at the top and for an id that the unit does not have.
unfoldable pub above : SemanticUnit → ℕ → ℕ
above u zero = 0
above u (suc i) = elim (get_record u (suc i)) [ none ↦ 0 | some r ↦ r.parent_id ]

-- The ancestor some generations up; generation 0 is the id itself.
unfoldable pub ancestor : SemanticUnit → ℕ → ℕ → ℕ
ancestor u zero p = p
ancestor u (suc k) p = ancestor u k (above u p)

-- The id of a record with a graph node.
abbrev pub HasNode : List (ℕ × ℕ) → ℕ → Type 0
HasNode m p = (p ≢ 0) × ((n : ℕ) × (find p m ≡ some n))

-- The first of an id's ancestors with a graph node, the id included; 0 if no ancestor has one.
abbrev pub IsNearest : SemanticUnit → List (ℕ × ℕ) → ℕ → ℕ → Type 0
IsNearest u m p r =
    (HasNode m r
      × ((k : ℕ) × (ancestor u k p ≡ r) × ((j : ℕ) → j < k → ¬ HasNode m (ancestor u j p))))
    ⊎ ((r ≡ 0) × ((k : ℕ) → ¬ HasNode m (ancestor u k p)))

-- What the cache holds is right.
abbrev pub IsCache : SemanticUnit → List (ℕ × ℕ) → List (ℕ × ℕ) → Type 0
IsCache u m cache = (p r : ℕ) → find p cache ≡ some r → IsNearest u m p r

module _ (u : SemanticUnit) (m : List (ℕ × ℕ)) where
  Nearest-here : (p : ℕ) → HasNode m p → IsNearest u m p p
  unfolding ancestor
  Nearest-here p h = inl (h, (0, refl, λ j l. absurd (omega (arith, l))))

  Nearest-up : (p r : ℕ) → ¬ HasNode m p → IsNearest u m (above u p) r → IsNearest u m p r
  unfolding ancestor
  Nearest-up p r h (inl (marked, (k, e, first))) = inl (marked, (suc k, e, earlier))
    where
      earlier : (j : ℕ) → j < suc k → ¬ HasNode m (ancestor u j p)
      earlier zero l = h
      earlier (suc j) l = first j (omega (arith, l))
  Nearest-up p r h (inr (e, none_up)) = inr (e, later)
    where
      later : (k : ℕ) → ¬ HasNode m (ancestor u k p)
      later zero = h
      later (suc k) = none_up k

  ancestor-zero : (k : ℕ) → ancestor u k 0 ≡ 0
  unfolding ancestor above
  ancestor-zero zero = refl
  ancestor-zero (suc k) = ancestor-zero k

  pub Nearest-zero : IsNearest u m 0 0
  Nearest-zero = inr (refl, λ k h. h.0 (ancestor-zero k))

  -- A set of ids without nodes that is closed under parents.
  record IsClosed (vs : List ℕ) : Type 0 where
    bare : (v : ℕ) → In v vs → ¬ HasNode m v
    closed : (v : ℕ) → In v vs → In (above u v) vs

  Nearest-cycle : (vs : List ℕ) → IsClosed vs → (p : ℕ) → In p vs → IsNearest u m p 0
  unfolding ancestor
  Nearest-cycle vs c p h = inr (refl, λ k. never k p h)
    where
      never : (k q : ℕ) → In q vs → ¬ HasNode m (ancestor u k q)
      never zero q i = c.bare q i
      never (suc k) q i = never k (above u q) (c.closed q i)

  -- What the loop knows of the ids that it visited when it stands at `pid`.
  record IsTrail (vs : List ℕ) (pid : ℕ) : Type 0 where
    bare : (v : ℕ) → In v vs → ¬ HasNode m v
    onward : (v : ℕ) → In v vs → In (above u v) vs ⊎ (above u v ≡ pid)
    known : (v : ℕ) → In v vs → In v (keys u.id_to_index)
    distinct : IsDistinct vs

  get_record-keys : (p : ℕ) (r : Record) → get_record u p ≡ some r → In p (keys u.id_to_index)
  unfolding get_record
  get_record-keys p r g = elim (Option-cases (find p u.id_to_index)) [
    | inl e ↦ absurd (ground (arith, rw (e, get_record) at g))
    | inr (i, e) ↦ find-keys p u.id_to_index i e
  ]

  above_known : (p : ℕ) (r : Record) → p ≢ 0 → get_record u p ≡ some r → above u p ≡ r.parent_id
  unfolding above
  above_known zero r d g = absurd (d refl)
  above_known (suc i) r d g = rw (g, above) refl

  above_unknown : (p : ℕ) → get_record u p ≡ none → above u p ≡ 0
  unfolding above
  above_unknown zero g = refl
  above_unknown (suc i) g = rw (g, above) refl

  IsTrail-start : (p : ℕ) → IsTrail [] p
  IsTrail-start p = record {
    bare = λ v h. absurd h;
    onward = λ v h. absurd h;
    known = λ v h. absurd h;
    distinct = tt;
  }

  IsTrail-step :
      (vs : List ℕ) (p : ℕ)
      → IsTrail vs p
      → ¬ HasNode m p
      → In p (keys u.id_to_index)
      → ¬ In p vs
      → IsTrail (p ∷ vs) (above u p)
  IsTrail-step vs p t bare known new = record {
    bare = λ v h. elim h [ inl e ↦ subst (λ w. ¬ HasNode m w) e bare | inr i ↦ t.bare v i ];
    onward = λ v h. elim h [
      | inl e ↦ inr (ap (above u) (sym e))
      | inr i ↦ elim (t.onward v i) [ inl k ↦ inl (inr k) | inr k ↦ inl (inl (sym k)) ]
    ];
    known = λ v h. elim h [
      | inl e ↦ subst (λ w. In w (keys u.id_to_index)) e known
      | inr i ↦ t.known v i
    ];
    distinct = (new, t.distinct);
  }

  IsTrail-cycle : (vs : List ℕ) (p : ℕ) → IsTrail vs p → In p vs → IsNearest u m p 0
  IsTrail-cycle vs p t h =
      Nearest-cycle vs
        (record {
          bare = t.bare;
          closed =
              λ v i. elim (t.onward v i) [ inl k ↦ k | inr e ↦ subst (λ w. In w vs) (sym e) h ];
        })
        p h

  keys-length : (m : List (ℕ × ℕ)) → length (keys m) ≡ length m
  keys-length [] = refl
  keys-length ((k, v) ∷ m) = ap suc (keys-length m)

  -- The walk with enough fuel: one unit for each id of the index that is not visited yet, and one
  -- more. It returns an id, which is in any relation that the walk's steps keep.
  module _ (cache : List (ℕ × ℕ)) (Near : ℕ → ℕ → Type 0) (top : Near 0 0)
      (cycle : (vs : List ℕ) (p : ℕ) → IsTrail vs p → In p vs → Near p 0)
      (here : (p : ℕ) → HasNode m p → Near p p)
      (up : (p r : ℕ) → ¬ HasNode m p → Near (above u p) r → Near p r)
      (cached : (p r : ℕ) → find p cache ≡ some r → Near p r) where
    walk-Near :
        (fuel : ℕ) (vs : List ℕ) (p : ℕ)
        → IsTrail vs p
        → length u.id_to_index + 1 ≤ fuel + length vs
        → (r : ℕ) × (walk u m cache fuel vs p ≡ some r) × Near p r
    unfolding walk
    walk-Near zero vs p t enough = absurd (
        omega (
          arith,
          enough,
          keys-length u.id_to_index,
          length_distinct vs (keys u.id_to_index) t.distinct t.known,
        ))
    walk-Near (suc fuel) vs p t enough = elim (Bool-cases (p == 0)) [
      | inl y ↦ (0, rw (y, walk) refl, subst (λ q. Near q 0) (sym (==→≡ p 0 y)) top)
      | inr d ↦ elim (Bool-cases (member p vs)) [
        | inl y ↦ (0, rw (d, y, walk) refl, cycle vs p t (member→In p vs y))
        | inr n ↦ elim (Option-cases (find p m)) [
          | inr (node, e) ↦ (p, rw (d, n, e, walk) refl, here p (==→≢ p 0 d, (node, e)))
          | inl e ↦
              let bare : ¬ HasNode m p = λ h. ground (arith, h.1.1, e) in
              elim (Option-cases (find p cache)) [
                | inr (c, f) ↦ (c, rw (d, n, e, f, walk) refl, cached p c f)
                | inl f ↦ elim (Option-cases (get_record u p)) [
                  | inl g ↦ (
                    0,
                    rw (d, n, e, f, g, walk) refl,
                    up p 0 bare (subst (λ q. Near q 0) (sym (above_unknown p g)) top),
                  )
                  | inr (r, g) ↦
                      let parent = above_known p r (==→≢ p 0 d) g in
                      let new : ¬ In p vs = λ i. false≢true (sym n ∙ In→member p vs i) in
                      let t' = IsTrail-step vs p t bare (get_record-keys p r g) new in
                      let (c, run, near) =
                        walk-Near fuel (p ∷ vs) r.parent_id (subst (IsTrail (p ∷ vs)) parent t')
                          (omega (arith, enough)) in
                      (
                        c,
                        rw (d, n, e, f, g, walk) run,
                        up p c bare (subst (λ q. Near q c) (sym parent) near),
                      )
                ]
              ]
        ]
      ]
    ]

  -- With a cache that is right, the id is that of the nearest ancestor with a node.
  walk-IsNearest :
      (cache : List (ℕ × ℕ)) (p : ℕ)
      → IsCache u m cache
      → (r : ℕ) × (walk u m cache (length u.id_to_index + 1) [] p ≡ some r) × IsNearest u m p r
  walk-IsNearest cache p sound =
      walk-Near cache (IsNearest u m) Nearest-zero IsTrail-cycle Nearest-here Nearest-up sound
        (length u.id_to_index + 1) [] p (IsTrail-start p) (omega arith)

-- The walk to the containing function ends, on any records, also if their parents form a cycle, and
-- whatever the cache and the map of nodes hold: with one unit of fuel for each entry of the unit's
-- index and one more, the loop returns an id.
pub walk_ends :
    (u : SemanticUnit) (m cache : List (ℕ × ℕ)) (p : ℕ)
    → (r : ℕ) × (walk u m cache (length u.id_to_index + 1) [] p ≡ some r)
walk_ends u m cache p =
    let (r, run, near) =
      walk-Near u m cache (λ q r. Unit) tt (λ vs q t i. tt) (λ q h. tt) (λ q r h n. tt)
        (λ q r e. tt) (length u.id_to_index + 1) [] p (IsTrail-start u m p) (omega arith) in
    (r, run)

IsCache-store :
    (u : SemanticUnit) (m cache : List (ℕ × ℕ)) (p r : ℕ)
    → IsCache u m cache
    → IsNearest u m p r
    → IsCache u m ((p, r) ∷ cache)
IsCache-store u m cache p r sound near q c e = elim (Bool-cases (p == q)) [
  | inl y ↦
      let same : r ≡ c = ground (arith, rw y at e) in
      subst (λ k. IsNearest u m q k) same (subst (λ k. IsNearest u m k r) (==→≡ p q y) near)
  | inr n ↦ sound q c (rw n at e)
]

-- A result of `findContainingFunction` for a parent: the nearest ancestor with a node, in a builder
-- that differs in its cache at most, where the cache is right.
abbrev pub Finds : SemanticUnit → GraphBuilder → ℕ → ℕ × GraphBuilder → Type 0
Finds u b p (c, d) =
    IsNearest u b.ir_to_graph_node p c
    × IsCache u b.ir_to_graph_node d.parent_cache
    × (d ≡ record b { parent_cache = d.parent_cache })

-- What `findContainingFunction` returns with a cache that is right: the nearest ancestor of the
-- record that has a graph node, or 0 if none has one, also if the parents form a cycle; it changes
-- nothing but the cache, and the cache is right again.
pub find_containing_function_lem :
    (u : SemanticUnit) (b : GraphBuilder) (r : Record)
    → IsCache u b.ir_to_graph_node b.parent_cache
    → Finds u b r.parent_id (find_containing_function u b r)
unfolding find_containing_function
find_containing_function_lem u b r sound = elim (Bool-cases (r.parent_id == 0)) [
  | inl y ↦
      let top =
        subst (λ p. IsNearest u b.ir_to_graph_node p 0) (sym (==→≡ r.parent_id 0 y))
          (Nearest-zero u b.ir_to_graph_node) in
      let run_eq : find_containing_function u b r ≡ (0, b) =
        rw (y, find_containing_function) refl in
      subst (Finds u b r.parent_id) (sym run_eq) (top, sound, refl)
  | inr n ↦ elim (Option-cases (find r.parent_id b.parent_cache)) [
    | inr (c, e) ↦
        let run_eq : find_containing_function u b r ≡ (c, b) =
          rw (n, e, find_containing_function) refl in
        subst (Finds u b r.parent_id) (sym run_eq) (sound r.parent_id c e, sound, refl)
    | inl e ↦
        let (c, run, near) = walk-IsNearest u b.ir_to_graph_node b.parent_cache r.parent_id sound in
        let run_eq : find_containing_function u b r
            ≡ (c, record b { parent_cache = (r.parent_id, c) ∷ b.parent_cache }) =
          rw (n, e, run, find_containing_function) refl in
        subst (Finds u b r.parent_id) (sym run_eq)
          (near, IsCache-store u b.ir_to_graph_node b.parent_cache r.parent_id c sound near, refl)
  ]
]
