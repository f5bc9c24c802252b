-- ===== src/Impact/Rounds.antt =====
-- The rounds of the search: each keeps the invariant, and they come to an end.
use code_scope.Prelude.{
  ℕ, zero, suc, ◌+◌, ◌*◌, ◌≤◌, ◌<◌, false, Option, none, some, List, [], ◌∷◌, length, find, In, leb,
  ◌==◌, ◌≡◌, refl, sym, ap, subst, inl, inr, Option-cases, Bool-cases, ==→≡, ==→≢, arith,
}
use code_scope.Impact.{
  Search, put_at, impact_max_depth, is_known, visit_neighbour, visit_neighbours, search_loop,
}
use code_scope.Impact.Inv.{
  find-put_at_here, find-put_at_past, IsNear, IsMid, IsInv, improves, IsNear-put_at, known-IsNear,
  pushed-IsMid, known-IsMid,
}

-- What a node can still cost: its depth, or one more than any depth.
abbrev pub cost : Option ℕ → ℕ
cost none = 4
cost (some d) = d

unfoldable pub potential : List ℕ → List (ℕ × ℕ) → ℕ
potential [] m = 0
potential (n ∷ ns) m = cost (find n m) + potential ns m

module _ (nbrs : ℕ → List ℕ) (m : List (ℕ × ℕ)) (nb nd : ℕ) (small : nd < 4)
    (fresh : is_known nb nd m ≡ false) where
  cost-put_at_less : cost (find nb (put_at nb nd m)) < cost (find nb m)
  cost-put_at_less = elim (Option-cases (find nb m)) [
    | inl e ↦ ground (arith, small, ap cost e, ap cost (find-put_at_here nb nd m))
    | inr (d, e) ↦
        ground
          (arith, improves nbrs m nb nd fresh d e, ap cost e, ap cost (find-put_at_here nb nd m))
  ]

  cost-put_at : (n : ℕ) → cost (find n (put_at nb nd m)) ≤ cost (find n m)
  cost-put_at n = elim (Bool-cases (n == nb)) [
    | inr o ↦ ground (arith, ap cost (find-put_at_past nb n nd m (==→≢ n nb o)))
    | inl y ↦
        subst (λ k. cost (find k (put_at nb nd m)) ≤ cost (find k m)) (sym (==→≡ n nb y))
          (omega (arith, cost-put_at_less))
  ]

  potential-put_at : (ns : List ℕ) → potential ns (put_at nb nd m) ≤ potential ns m
  unfolding potential
  potential-put_at [] = omega arith
  potential-put_at (n ∷ ns) = omega (arith, cost-put_at n, potential-put_at ns)

  potential-put_at_less : (ns : List ℕ) → In nb ns → potential ns (put_at nb nd m) < potential ns m
  unfolding potential
  potential-put_at_less [] i = absurd i
  potential-put_at_less (n ∷ ns) (inl e) =
      let less =
        subst (λ k. cost (find k (put_at nb nd m)) < cost (find k m)) (sym e) cost-put_at_less in
      omega (arith, less, potential-put_at ns)
  potential-put_at_less (n ∷ ns) (inr i) = omega (arith, cost-put_at n, potential-put_at_less ns i)

module _ (nbrs : ℕ → List ℕ) (seeds ns : List ℕ)
    (all : (n nb : ℕ) → In n ns → In nb (nbrs n) → In nb ns) where
  abbrev pub measure : Search → ℕ
  measure s = 2 * potential ns s.min_depth + length s.stack

  abbrev pub IsWithin : Search → Type 0
  IsWithin s = (n d : ℕ) → In (n, d) s.stack → In n ns

  -- Some neighbours visited: what is left, and what is kept.
  record IsVisited (node depth : ℕ) (todo : List ℕ) (s t : Search) : Type 0 where
    mid : IsMid nbrs seeds node depth todo t
    near : IsNear nbrs t.min_depth node depth
    within : IsWithin t
    less : measure t ≤ measure s

  visit_neighbour-IsVisited :
      (node depth nb : ℕ) (todo : List ℕ) (s : Search)
      → IsMid nbrs seeds node depth (nb ∷ todo) s
      → IsNear nbrs s.min_depth node depth
      → IsWithin s
      → depth < impact_max_depth
      → In node ns
      → In nb (nbrs node)
      → IsVisited node depth todo s (visit_neighbour node depth s nb)
  unfolding visit_neighbour
  visit_neighbour-IsVisited node depth nb todo s h near within l member mem =
      elim (Bool-cases (is_known nb (depth + 1) s.min_depth)) [
        | inl y ↦
            rw (y, visit_neighbour)
              (record {
                mid =
                    known-IsMid nbrs seeds node depth nb todo s h
                      (known-IsNear nbrs s.min_depth nb (depth + 1) y);
                near = near;
                within = within;
                less = omega arith;
              })
        | inr n ↦
            rw (n, visit_neighbour)
              (record {
                mid = pushed-IsMid nbrs seeds node depth nb todo s h n l mem near;
                near = IsNear-put_at nbrs s.min_depth nb (depth + 1) n node depth near;
                within = λ k d i. elim i [
                  | inl e ↦ subst (λ p. In p.0 ns) e (all node nb member mem)
                  | inr j ↦ within k d j
                ];
                less = omega (
                  arith,
                  potential-put_at_less nbrs s.min_depth nb (depth + 1) (omega (arith, l)) n ns
                      (all node nb member mem),
                );
              })
      ]

  visit_neighbours-IsVisited :
      (node depth : ℕ) (todo : List ℕ) (s : Search)
      → IsMid nbrs seeds node depth todo s
      → IsNear nbrs s.min_depth node depth
      → IsWithin s
      → depth < impact_max_depth
      → In node ns
      → ((x : ℕ) → In x todo → In x (nbrs node))
      → IsVisited node depth [] s (visit_neighbours node depth s todo)
  unfolding visit_neighbours
  visit_neighbours-IsVisited node depth [] s h near within l member mem = record {
    mid = h;
    near = near;
    within = within;
    less = omega arith;
  }
  visit_neighbours-IsVisited node depth (nb ∷ todo) s h near within l member mem =
      let one =
        visit_neighbour-IsVisited node depth nb todo s h near within l member (mem nb (inl refl)) in
      let rest =
        visit_neighbours-IsVisited node depth todo (visit_neighbour node depth s nb) one.mid
          one.near one.within l member (λ x i. mem x (inr i)) in
      record {
        mid = rest.mid;
        near = rest.near;
        within = rest.within;
        less = omega (arith, one.less, rest.less);
      }

  -- What the loop comes to.
  pub record IsEnd (r : Option Search) : Type 0 where
    pub final : Search
    pub returned : r ≡ some final
    pub inv : IsInv nbrs seeds final
    pub empty : final.stack ≡ []

  deep-IsInv :
      (node depth : ℕ) (rest : List (ℕ × ℕ)) (s : Search)
      → s.stack ≡ (node, depth) ∷ rest
      → impact_max_depth ≤ depth
      → IsInv nbrs seeds s
      → IsInv nbrs seeds (record s { stack = rest })
  deep-IsInv node depth rest s e deep h = record {
    keyed = h.keyed;
    sound = h.sound;
    stacked = λ n d i. h.stacked n d (subst (In (n, d)) (sym e) (inr i));
    zeros = h.zeros;
    closed = λ n d f l. elim (h.closed n d f l) [
      | inr near ↦ inr near
      | inl i ↦ elim (subst (In (n, d)) e i) [
        | inl q ↦ absurd (omega (arith, deep, l, ap (λ p. p.1) q))
        | inr j ↦ inl j
      ]
    ];
  }

  emptied-IsInv :
      (s : Search) → s.stack ≡ [] → IsInv nbrs seeds s → IsInv nbrs seeds (record s { stack = [] })
  emptied-IsInv s e h = record {
    keyed = h.keyed;
    sound = h.sound;
    stacked = λ n d i. absurd i;
    zeros = h.zeros;
    closed = λ n d f l. elim (h.closed n d f l) [
      | inr near ↦ inr near
      | inl i ↦ absurd (subst (In (n, d)) e i)
    ];
  }

  popped-IsMid :
      (node depth : ℕ) (rest : List (ℕ × ℕ)) (s : Search)
      → s.stack ≡ (node, depth) ∷ rest
      → IsInv nbrs seeds s
      → IsMid nbrs seeds node depth (nbrs node) (record s { stack = rest })
  popped-IsMid node depth rest s e h = record {
    keyed = h.keyed;
    sound = h.sound;
    stacked = λ n d i. h.stacked n d (subst (In (n, d)) (sym e) (inr i));
    zeros = h.zeros;
    closed = λ n d f l. elim (h.closed n d f l) [
      | inr near ↦
          inr (λ x mem. elim (near x mem) [ inl found ↦ inl found | inr (a, b, i) ↦ absurd i ])
      | inl i ↦ elim (subst (In (n, d)) e i) [
        | inl q ↦
            let same = sym (ap (λ p. p.0) q) in
            inr (λ x mem. inr (same, sym (ap (λ p. p.1) q), subst (λ k. In x (nbrs k)) same mem))
        | inr j ↦ inl j
      ]
    ];
  }

  settled-IsInv :
      (node depth : ℕ) (s : Search) → IsMid nbrs seeds node depth [] s → IsInv nbrs seeds s
  settled-IsInv node depth s h = record {
    keyed = h.keyed;
    sound = h.sound;
    stacked = h.stacked;
    zeros = h.zeros;
    closed = λ n d f l. elim (h.closed n d f l) [
      | inl i ↦ inl i
      | inr near ↦
          inr (λ x mem. elim (near x mem) [ inl found ↦ inl found | inr (a, b, i) ↦ absurd i ])
    ];
  }

  -- With more fuel than the measure, the loop ends.
  pub search_loop-IsEnd :
      (fuel : ℕ) (s : Search) (st : List (ℕ × ℕ))
      → s.stack ≡ st
      → IsInv nbrs seeds s
      → IsWithin s
      → measure s < fuel
      → IsEnd (search_loop nbrs fuel s)
  unfolding search_loop
  search_loop-IsEnd zero s st e h within l = absurd (omega (arith, l))
  search_loop-IsEnd (suc fuel) s [] e h within l = record {
    final = record s { stack = [] };
    returned =
        rw (e, search_loop)
          (ap {A = List (ℕ × ℕ)} {B = Option Search} (λ q. some (record s { stack = q })) e);
    inv = emptied-IsInv s e h;
    empty = refl;
  }
  search_loop-IsEnd (suc fuel) s ((node, depth) ∷ rest) e h within l =
      let popped : Search = record s { stack = rest } in
      let fewer : measure popped < fuel = omega (arith, l, ap (λ x. length x) e) in
      let inside : IsWithin popped = λ n d i. within n d (subst (In (n, d)) (sym e) (inr i)) in
      let here : In (node, depth) s.stack = subst (In (node, depth)) (sym e) (inl refl) in
      elim (Bool-cases (leb impact_max_depth depth)) [
        | inl y ↦
            rw (e, y, search_loop)
              (search_loop-IsEnd fuel popped rest refl
                (deep-IsInv node depth rest s e (ground arith) h) inside fewer)
        | inr n ↦
            let t = visit_neighbours node depth popped (nbrs node) in
            let visited =
              visit_neighbours-IsVisited node depth (nbrs node) popped
                (popped-IsMid node depth rest s e h) (h.stacked node depth here) inside
                (ground arith) (within node depth here) (λ x i. i) in
            rw (e, n, search_loop)
              (search_loop-IsEnd fuel t t.stack refl (settled-IsInv node depth t visited.mid)
                visited.within (omega (arith, visited.less, fewer)))
      ]
