-- ===== src/Impact/Least.antt =====
-- The entries that the search reports.
use code_scope.Prelude.{
  ℕ, ◌+◌, ◌*◌, ◌≤◌, ◌<◌, Option, some, List, [], ◌∷◌, length, find, keys, In, IsDistinct, leb, ◌==◌,
  ◌≡◌, refl, sym, ap, ◌∙◌, subst, inl, inr, Bool-cases, ==→≡, ==_refl, arith, some_inj,
}
use code_scope.Impact.{
  ImpactEntry, Search, impact_max_depth, seed_at, start_search, search_loop, entries_of,
  sort_impact, dfs_impact,
}
use code_scope.Impact.Inv.{Walk, IsNear, IsInv}
use code_scope.Impact.Seeds.{
  start_search-IsSeeded, blank, blank-IsSeeded, IsSeeded-IsInv, potential-start,
}
use code_scope.Impact.Entries.{entries_of-In, In-entries_of, sort_impact-In, In-sort_impact}
use code_scope.Impact.Rounds.{search_loop-IsEnd}

find-In : (k v : ℕ) (m : List (ℕ × ℕ)) → find k m ≡ some v → In (k, v) m
find-In k v [] h = absurd (ground (arith, h))
find-In k v ((j, w) ∷ m) h = elim (Bool-cases (j == k)) [
  | inl y ↦ inl (ap (λ i. (i, w)) (==→≡ j k y) ∙ ap (λ i. (k, i)) (some_inj w v (rw y at h)))
  | inr n ↦ inr (find-In k v m (rw n at h))
]

In-keys : (k v : ℕ) (m : List (ℕ × ℕ)) → In (k, v) m → In k (keys m)
In-keys k v [] i = absurd i
In-keys k v ((j, w) ∷ m) (inl e) = inl (ap (λ p. p.0) e)
In-keys k v ((j, w) ∷ m) (inr i) = inr (In-keys k v m i)

In-find : (k v : ℕ) (m : List (ℕ × ℕ)) → IsDistinct (keys m) → In (k, v) m → find k m ≡ some v
In-find k v [] d i = absurd i
In-find k v ((j, w) ∷ m) d (inl e) = rw (ap (λ p. p.0 == k) e ∙ ==_refl k) (ap (λ p. some p.1) e)
In-find k v ((j, w) ∷ m) d (inr i) = elim (Bool-cases (j == k)) [
  | inl y ↦ absurd (d.0 (subst (λ x. In x (keys m)) (sym (==→≡ j k y)) (In-keys k v m i)))
  | inr n ↦ rw n (In-find k v m d.1 i)
]

module _ (nbrs : ℕ → List ℕ) (seeds : List ℕ) where
  -- When nothing is left on the stack, every walk of at most three steps is accounted for.
  Walk-IsNear :
      (s : Search) (v : ℕ)
      → IsInv nbrs seeds s
      → s.stack ≡ []
      → In v seeds
      → (k n : ℕ) → Walk nbrs v k n
      → k ≤ impact_max_depth
      → IsNear nbrs s.min_depth n k
  Walk-IsNear s v h e seed _ _ Walk.here l = (0, (h.zeros v seed, omega arith))
  Walk-IsNear s v h e seed _ _ (Walk.onward {k = k} {n = n} nb w mem) l =
      let (d, (at, le)) = Walk-IsNear s v h e seed k n w (omega (arith, l)) in
      elim (h.closed n d at (omega (arith, le, l))) [
        | inl i ↦ absurd (subst (In (n, d)) e i)
        | inr near ↦ elim (near nb mem) [
          | inl (c, (found, lc)) ↦ (c, (found, omega (arith, lc, le)))
          | inr (a, b, i) ↦ absurd i
        ]
      ]

  -- An entry: a node that is no seed, a seed, a walk between them of the depth given, of at most
  -- three steps, and no shorter walk from any seed.
  pub record IsLeast (e : ImpactEntry) : Type 0 where
    pub no_seed : ¬ In e.node_id seeds
    pub seed : In e.via_seed seeds
    pub walk : Walk nbrs e.via_seed e.depth e.node_id
    pub bound : e.depth ≤ impact_max_depth
    pub least : (v k : ℕ) → In v seeds → Walk nbrs v k e.node_id → e.depth ≤ k

  found-IsLeast :
      (s : Search) (e : ImpactEntry)
      → IsInv nbrs seeds s
      → s.stack ≡ []
      → find e.node_id s.min_depth ≡ some e.depth
      → ¬ In e.node_id seeds
      → e.via_seed ≡ seed_at e.node_id s.seed_of
      → IsLeast e
  found-IsLeast s e h done at out via =
      let (small, (v, (sv, seed, (k, (le, w))))) = h.sound e.node_id e.depth at in
      let from : e.via_seed ≡ v = via ∙ rw (sv, seed_at) refl in
      let shortest : (x j : ℕ) → In x seeds → Walk nbrs x j e.node_id → e.depth ≤ j = λ x j i u.
        elim (Bool-cases (leb j impact_max_depth)) [
          | inr n ↦ ground (arith, small)
          | inl y ↦
              let (c, (found, lc)) = Walk-IsNear s x h done i j e.node_id u (ground arith) in
              omega (arith, lc, some_inj c e.depth (sym found ∙ at))
        ] in
      let exact : k ≡ e.depth = omega (arith, le, shortest v k seed w) in
      record {
        no_seed = out;
        seed = subst (λ x. In x seeds) (sym from) seed;
        walk =
            subst (λ x. Walk nbrs x e.depth e.node_id) (sym from)
              (subst (λ j. Walk nbrs v j e.node_id) exact w);
        bound = small;
        least = shortest;
      }

  -- What the search is to return.
  pub record IsImpact (r : Option (List ImpactEntry)) : Type 0 where
    pub entries : List ImpactEntry
    pub returned : r ≡ some entries
    pub sound : (e : ImpactEntry) → In e entries → IsLeast e
    pub complete :
        (v k n : ℕ)
        → In v seeds
        → Walk nbrs v k n
        → k ≤ impact_max_depth
        → ¬ In n seeds
        → (e : ImpactEntry) × In e entries × (e.node_id ≡ n)

dfs_impact_end :
    (fuel : ℕ) (nbrs : ℕ → List ℕ) (seeds : List ℕ) (s : Search)
    → search_loop nbrs fuel (start_search blank seeds) ≡ some s
    → dfs_impact fuel nbrs seeds ≡ some (sort_impact (entries_of seeds s.seed_of s.min_depth))
unfolding dfs_impact
dfs_impact_end fuel nbrs seeds s e = rw (e, dfs_impact) refl

-- On a finite list of nodes that has the modified ones and the neighbours of its nodes, the search ends
-- within eight rounds for each node, one for each modified node and one more. It reports exactly the
-- nodes, other than the modified ones, that a walk of at most three steps reaches from a modified one:
-- each with the least number of steps and with a modified node from which a walk of that many steps
-- leads to it.
pub dfs_impact-IsImpact :
    (nbrs : ℕ → List ℕ) (seeds nodes : List ℕ) (fuel : ℕ)
    → ((v : ℕ) → In v seeds → In v nodes)
    → ((n nb : ℕ) → In n nodes → In nb (nbrs n) → In nb nodes)
    → 8 * length nodes + length seeds < fuel
    → IsImpact nbrs seeds (dfs_impact fuel nbrs seeds)
dfs_impact-IsImpact nbrs seeds nodes fuel inside all enough =
    let start = start_search blank seeds in
    let (seeded, len) = start_search-IsSeeded seeds seeds blank (blank-IsSeeded seeds) (λ x i. i) in
    let inv = IsSeeded-IsInv nbrs seeds start seeded in
    let pot =
      potential-start nodes start.min_depth (λ n d f. omega (arith, (seeded.only n d f).0)) in
    let end =
      search_loop-IsEnd nbrs seeds nodes all fuel start start.stack refl inv
        (λ n d i. inside n (seeded.stacked n d i).1) (omega (arith, enough, pot, len)) in
    let s = end.final in
    let es = entries_of seeds s.seed_of s.min_depth in
    record {
      entries = sort_impact es;
      returned = dfs_impact_end fuel nbrs seeds s end.returned;
      sound = λ e i.
          let (j, out, via) = entries_of-In seeds s.seed_of e s.min_depth (sort_impact-In e es i) in
          let at = In-find e.node_id e.depth s.min_depth end.inv.keyed j in
          found-IsLeast nbrs seeds s e end.inv end.empty at out via;
      complete = λ v k n i w l out.
          let (d, (at, le)) = Walk-IsNear nbrs seeds s v end.inv end.empty i k n w l in
          let (e, j, same) =
            In-entries_of seeds s.seed_of n d s.min_depth (find-In n d s.min_depth at) out in
          (e, In-sort_impact e es j, same);
    }
