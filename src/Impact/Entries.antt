-- ===== src/Impact/Entries.antt =====
-- The list of entries against the map of depths.
use code_scope.Prelude.{
  ℕ, false, List, [], ◌∷◌, In, member, In→member, member→In, ◌≡◌, refl, sym, ap, ◌∙◌, subst, inl,
  inr, Bool-cases, false≢true,
}
use code_scope.Impact.{ImpactEntry, seed_at, entries_of, entry_lt, insert_impact, sort_impact}

module _ (seeds : List ℕ) (seed_of : List (ℕ × ℕ)) where
  pub entries_of-In :
      (e : ImpactEntry) (m : List (ℕ × ℕ))
      → In e (entries_of seeds seed_of m)
      → In (e.node_id, e.depth) m
        × (¬ In e.node_id seeds)
        × (e.via_seed ≡ seed_at e.node_id seed_of)
  unfolding entries_of
  entries_of-In e [] i = absurd i
  entries_of-In e ((n, d) ∷ m) i = elim (Bool-cases (member n seeds)) [
    | inl y ↦ let (j, out, via) = entries_of-In e m (rw y at i) in (inr j, out, via)
    | inr o ↦
        let first : ImpactEntry = record { node_id = n; via_seed = seed_at n seed_of; depth = d } in
        let g : In e (first ∷ entries_of seeds seed_of m) = rw o at i in
        elim g [
          | inr j ↦ let (q, out, via) = entries_of-In e m j in (inr q, out, via)
          | inl same ↦
              subst
                (λ (x : ImpactEntry).
                  In (x.node_id, x.depth) ((n, d) ∷ m)
                  × (¬ In x.node_id seeds)
                  × (x.via_seed ≡ seed_at x.node_id seed_of))
                same (inl refl, (λ k. false≢true (sym o ∙ In→member n seeds k)), refl)
        ]
  ]

  pub In-entries_of :
      (n d : ℕ) (m : List (ℕ × ℕ))
      → In (n, d) m
      → ¬ In n seeds
      → (e : ImpactEntry) × In e (entries_of seeds seed_of m) × (e.node_id ≡ n)
  unfolding entries_of
  In-entries_of n d [] i out = absurd i
  In-entries_of n d ((k, c) ∷ m) (inl same) out =
      let at_n : k ≡ n = ap (λ p. p.0) same in
      let no_seed : member k seeds ≡ false = elim (Bool-cases (member k seeds)) [
        | inl y ↦ absurd (out (subst (λ x. In x seeds) at_n (member→In k seeds y)))
        | inr o ↦ o
      ] in
      rw no_seed (record { node_id = k; via_seed = seed_at k seed_of; depth = c }, inl refl, at_n)
  In-entries_of n d ((k, c) ∷ m) (inr j) out =
      let (e, i, at_n) = In-entries_of n d m j out in
      elim (Bool-cases (member k seeds)) [
        | inl y ↦ rw y (e, i, at_n)
        | inr o ↦ rw o (e, inr i, at_n)
      ]

insert_impact-In :
    (x e : ImpactEntry) (es : List ImpactEntry) → In x (insert_impact e es) → In x (e ∷ es)
unfolding insert_impact
insert_impact-In x e [] i = i
insert_impact-In x e (d ∷ ds) i = elim (Bool-cases (entry_lt d e)) [
  | inr n ↦ rw n at i
  | inl y ↦
      let g : In x (d ∷ insert_impact e ds) = rw y at i in
      elim g [
        | inl q ↦ inr (inl q)
        | inr j ↦ elim (insert_impact-In x e ds j) [ inl q ↦ inl q | inr r ↦ inr (inr r) ]
      ]
]

In-insert_impact :
    (x e : ImpactEntry) (es : List ImpactEntry) → In x (e ∷ es) → In x (insert_impact e es)
unfolding insert_impact
In-insert_impact x e [] i = i
In-insert_impact x e (d ∷ ds) i = elim (Bool-cases (entry_lt d e)) [
  | inr n ↦ rw n i
  | inl y ↦ rw y (elim i [
    | inl q ↦ inr (In-insert_impact x e ds (inl q))
    | inr (inl q) ↦ inl q
    | inr (inr r) ↦ inr (In-insert_impact x e ds (inr r))
  ])
]

pub sort_impact-In : (x : ImpactEntry) (es : List ImpactEntry) → In x (sort_impact es) → In x es
unfolding sort_impact
sort_impact-In x [] i = i
sort_impact-In x (e ∷ es) i = elim (insert_impact-In x e (sort_impact es) i) [
  | inl q ↦ inl q
  | inr j ↦ inr (sort_impact-In x es j)
]

pub In-sort_impact : (x : ImpactEntry) (es : List ImpactEntry) → In x es → In x (sort_impact es)
unfolding sort_impact
In-sort_impact x [] i = i
In-sort_impact x (e ∷ es) (inl q) = In-insert_impact x e (sort_impact es) (inl q)
In-sort_impact x (e ∷ es) (inr j) =
    In-insert_impact x e (sort_impact es) (inr (In-sort_impact x es j))
