-- ===== src/Impact/Inv.antt =====
-- What holds of the search at every round.
use code_scope.Prelude.{
  ℕ, suc, ◌+◌, ◌≤◌, ◌<◌, true, false, some, List, [], ◌∷◌, find, keys, In, IsDistinct, ◌==◌,
  if◌then◌else◌, ◌≡◌, refl, sym, ap, ◌∙◌, subst, ◌≢◌, ◌⊎◌, inl, inr, Option-cases, Bool-cases, ==→≡,
  ==→≢, ≢→==, ==_refl, arith, false≢true, some_inj,
}
use code_scope.Impact.{Search, put_at, impact_max_depth, seed_at, is_known}

pub find-put_at_here : (k v : ℕ) (m : List (ℕ × ℕ)) → find k (put_at k v m) ≡ some v
unfolding put_at
find-put_at_here k v [] = rw (==_refl k) refl
find-put_at_here k v ((j, w) ∷ m) = elim (Bool-cases (j == k)) [
  | inl y ↦ rw (y, ==_refl k) refl
  | inr n ↦ rw n (rw n (find-put_at_here k v m))
]

pub find-put_at_past : (k j v : ℕ) (m : List (ℕ × ℕ)) → j ≢ k → find j (put_at k v m) ≡ find j m
unfolding put_at
find-put_at_past k j v [] d = rw (≢→== k j (λ e. d (sym e))) refl
find-put_at_past k j v ((i, w) ∷ m) d = elim (Bool-cases (i == k)) [
  | inl y ↦ rw y (rw (≢→== k j (λ e. d (sym e)), ≢→== i j (λ e. d (sym e ∙ ==→≡ i k y))) refl)
  | inr n ↦ rw n (ap (λ o. if i == j then some w else o) (find-put_at_past k j v m d))
]

keys-put_at : (x k v : ℕ) (m : List (ℕ × ℕ)) → In x (keys (put_at k v m)) → (x ≡ k) ⊎ In x (keys m)
unfolding put_at
keys-put_at x k v [] (inl e) = inl (sym e)
keys-put_at x k v [] (inr i) = absurd i
keys-put_at x k v ((j, w) ∷ m) i = elim (Bool-cases (j == k)) [
  | inl y ↦
      let g : In x (k ∷ keys m) = rw y at i in elim g [ inl e ↦ inl (sym e) | inr q ↦ inr (inr q) ]
  | inr n ↦
      let g : In x (j ∷ keys (put_at k v m)) = rw n at i in
      elim g [
        | inl e ↦ inr (inl e)
        | inr q ↦ elim (keys-put_at x k v m q) [ inl f ↦ inl f | inr p ↦ inr (inr p) ]
      ]
]

-- A map keeps one entry for each key.
pub IsDistinct-put_at :
    (k v : ℕ) (m : List (ℕ × ℕ)) → IsDistinct (keys m) → IsDistinct (keys (put_at k v m))
unfolding put_at
IsDistinct-put_at k v [] h = (λ i. i, tt)
IsDistinct-put_at k v ((j, w) ∷ m) h = elim (Bool-cases (j == k)) [
  | inl y ↦ rw y (subst (λ i. ¬ In i (keys m)) (==→≡ j k y) h.0, h.1)
  | inr n ↦ rw n (
    λ i. elim (keys-put_at j k v m i) [ inl e ↦ ==→≢ j k n e | inr q ↦ h.0 q ],
    IsDistinct-put_at k v m h.1,
  )
]

module _ (nbrs : ℕ → List ℕ) where
  -- A walk along the adjacency, by its length.
  pub data Walk (s : ℕ) : ℕ → ℕ → Type 0 where
    here : Walk s 0 s
    onward : {k n : ℕ} (nb : ℕ) → Walk s k n → In nb (nbrs n) → Walk s (suc k) nb

  -- A map has the node at no greater depth.
  abbrev pub IsNear : List (ℕ × ℕ) → ℕ → ℕ → Type 0
  IsNear m n d = (e : ℕ) × ((find n m ≡ some e) × (e ≤ d))

  -- What the maps say is witnessed by a walk from a seed.
  abbrev pub IsSound : List ℕ → Search → Type 0
  IsSound seeds s =
      (n d : ℕ)
      → find n s.min_depth ≡ some d
      → (d ≤ impact_max_depth)
        × ((v : ℕ) × ((find n s.seed_of ≡ some v)
              × In v seeds
              × ((k : ℕ) × ((k ≤ d) × Walk v k n))))

  -- While the neighbours of a node are visited: which of them are left, for the node at its depth.
  pub record IsMid (seeds : List ℕ) (node depth : ℕ) (todo : List ℕ) (s : Search) : Type 0 where
    pub keyed : IsDistinct (keys s.min_depth)
    pub sound : IsSound seeds s
    pub stacked : (n d : ℕ) → In (n, d) s.stack → IsNear s.min_depth n d
    pub zeros : (v : ℕ) → In v seeds → find v s.min_depth ≡ some 0
    pub closed :
        (n d : ℕ)
        → find n s.min_depth ≡ some d
        → d < impact_max_depth
        → In (n, d) s.stack
          ⊎ ((nb : ℕ)
              → In nb (nbrs n)
              → IsNear s.min_depth nb (suc d) ⊎ ((n ≡ node) × (d ≡ depth) × In nb todo))

  -- Between two rounds: nothing is left.
  abbrev pub IsInv : List ℕ → Search → Type 0
  IsInv seeds = IsMid seeds 0 0 []

  module _ (m : List (ℕ × ℕ)) (nb nd : ℕ) (fresh : is_known nb nd m ≡ false) where
    -- The node had no depth, or a greater one.
    pub improves : (e : ℕ) → find nb m ≡ some e → nd < e
    improves e h = ground (arith, rw (h, is_known) at fresh)

    pub IsNear-put_at : (n d : ℕ) → IsNear m n d → IsNear (put_at nb nd m) n d
    IsNear-put_at n d (e, (h, l)) = elim (Bool-cases (n == nb)) [
      | inl y ↦
          let same = ==→≡ n nb y in
          let less = improves e (ap (λ i. find i m) (sym same) ∙ h) in
          (
            nd,
            (
              ap (λ i. find i (put_at nb nd m)) same ∙ find-put_at_here nb nd m,
              omega (arith, less, l),
            ),
          )
      | inr o ↦ (e, (find-put_at_past nb n nd m (==→≢ n nb o) ∙ h, l))
    ]

  pub known-IsNear : (m : List (ℕ × ℕ)) (nb nd : ℕ) → is_known nb nd m ≡ true → IsNear m nb nd
  known-IsNear m nb nd h = elim (Option-cases (find nb m)) [
    | inl e ↦ absurd (false≢true (rw (e, is_known) at h))
    | inr (d, e) ↦ (d, (e, ground (arith, rw (e, is_known) at h)))
  ]

  module _ (seeds : List ℕ) (node depth nb : ℕ) (todo : List ℕ) (s : Search) where
    abbrev pub pushed : Search
    pushed = record {
      min_depth = put_at nb (depth + 1) s.min_depth;
      seed_of = put_at nb (seed_at node s.seed_of) s.seed_of;
      stack = (nb, depth + 1) ∷ s.stack;
    }

    module _ (h : IsMid seeds node depth (nb ∷ todo) s)
        (fresh : is_known nb (depth + 1) s.min_depth ≡ false) where
      pushed-IsSound :
          depth < impact_max_depth
          → In nb (nbrs node)
          → IsNear s.min_depth node depth
          → IsSound seeds pushed
      pushed-IsSound l mem (e, (at, le)) n d f = elim (Bool-cases (n == nb)) [
        | inr o ↦
            let other = ==→≢ n nb o in
            let (small, (v, (sv, seed, walk))) =
              h.sound n d (sym (find-put_at_past nb n (depth + 1) s.min_depth other) ∙ f) in
            (
              small,
              (
                v,
                (find-put_at_past nb n (seed_at node s.seed_of) s.seed_of other ∙ sv, seed, walk),
              ),
            )
        | inl y ↦
            let same = ==→≡ n nb y in
            let is_depth : depth + 1 ≡ d = some_inj (depth + 1) d (
              sym (find-put_at_here nb (depth + 1) s.min_depth)
              ∙ ap (λ i. find i (put_at nb (depth + 1) s.min_depth)) (sym same)
              ∙ f) in
            let (small, (v, (sv, seed, (k, (kl, walk))))) = h.sound node e at in
            let from : seed_at node s.seed_of ≡ v = rw (sv, seed_at) refl in
            (
              omega (arith, is_depth, l),
              (
                v,
                (
                  ap (λ i. find i pushed.seed_of) same
                      ∙ find-put_at_here nb (seed_at node s.seed_of) s.seed_of
                      ∙ ap some from,
                  seed,
                  (
                    suc k,
                    (
                      omega (arith, kl, le, is_depth),
                      subst (Walk v (suc k)) (sym same) (Walk.onward nb walk mem),
                    ),
                  ),
                ),
              ),
            )
      ]

      pushed-closed :
          (n d : ℕ)
          → find n pushed.min_depth ≡ some d
          → d < impact_max_depth
          → In (n, d) pushed.stack
            ⊎ ((x : ℕ)
                → In x (nbrs n)
                → IsNear pushed.min_depth x (suc d) ⊎ ((n ≡ node) × (d ≡ depth) × In x todo))
      pushed-closed n d f l = elim (Bool-cases (n == nb)) [
        | inl y ↦
            let same = ==→≡ n nb y in
            let is_depth : depth + 1 ≡ d = some_inj (depth + 1) d (
              sym (find-put_at_here nb (depth + 1) s.min_depth)
              ∙ ap (λ i. find i (put_at nb (depth + 1) s.min_depth)) (sym same)
              ∙ f) in
            inl (inl (ap (λ i. (i, depth + 1)) (sym same) ∙ ap (λ i. (n, i)) is_depth))
        | inr o ↦
            let other = ==→≢ n nb o in
            elim (h.closed n d (sym (find-put_at_past nb n (depth + 1) s.min_depth other) ∙ f) l) [
              | inl i ↦ inl (inr i)
              | inr near ↦ inr (λ x mem. elim (near x mem) [
                | inl found ↦ inl (IsNear-put_at s.min_depth nb (depth + 1) fresh x (suc d) found)
                | inr (en, ed, inl e) ↦ inl (
                  depth + 1,
                  (
                    ap (λ i. find i pushed.min_depth) (sym e)
                        ∙ find-put_at_here nb (depth + 1) s.min_depth,
                    omega (arith, ed),
                  ),
                )
                | inr (en, ed, inr i) ↦ inr (en, ed, i)
              ])
            ]
      ]

      pub pushed-IsMid :
          depth < impact_max_depth
          → In nb (nbrs node)
          → IsNear s.min_depth node depth
          → IsMid seeds node depth todo pushed
      pushed-IsMid l mem at = record {
        keyed = IsDistinct-put_at nb (depth + 1) s.min_depth h.keyed;
        sound = pushed-IsSound l mem at;
        stacked = λ n d i. elim i [
          | inl e ↦
              subst (λ p. IsNear pushed.min_depth p.0 p.1) e
                (depth + 1, (find-put_at_here nb (depth + 1) s.min_depth, omega arith))
          | inr j ↦ IsNear-put_at s.min_depth nb (depth + 1) fresh n d (h.stacked n d j)
        ];
        zeros = λ v i.
            find-put_at_past nb v (depth + 1) s.min_depth (λ e. omega (
              arith,
              improves s.min_depth nb (depth + 1) fresh 0
                  (ap (λ j. find j s.min_depth) (sym e) ∙ h.zeros v i),
            ))
            ∙ h.zeros v i;
        closed = pushed-closed;
      }

    -- A neighbour that is known already is left out.
    pub known-IsMid :
        IsMid seeds node depth (nb ∷ todo) s
        → IsNear s.min_depth nb (depth + 1)
        → IsMid seeds node depth todo s
    known-IsMid h (e, (at, le)) = record {
      keyed = h.keyed;
      sound = h.sound;
      stacked = h.stacked;
      zeros = h.zeros;
      closed = λ n d f l. elim (h.closed n d f l) [
        | inl i ↦ inl i
        | inr near ↦ inr (λ x mem. elim (near x mem) [
          | inl found ↦ inl found
          | inr (en, ed, inl q) ↦
              inl (e, (ap (λ i. find i s.min_depth) (sym q) ∙ at, omega (arith, le, ed)))
          | inr (en, ed, inr i) ↦ inr (en, ed, i)
        ])
      ];
    }
