-- ===== src/Impact/Seeds.antt =====
-- The start of the search.
use code_scope.Prelude.{
  ℕ, ◌+◌, ◌*◌, ◌≤◌, some, List, [], ◌∷◌, length, find, keys, In, IsDistinct, ◌==◌, ◌≡◌, refl, sym,
  ap, ◌∙◌, subst, ◌⊎◌, inl, inr, Option-cases, Bool-cases, ==→≡, ==→≢, arith, some_inj,
}
use code_scope.Impact.{Search, put_at, start_search}
use code_scope.Impact.Inv.{find-put_at_here, find-put_at_past, IsDistinct-put_at, Walk, IsInv}
use code_scope.Impact.Rounds.{cost, potential}

-- The state while the seeds are put in.
pub record IsSeeded (seeds todo : List ℕ) (s : Search) : Type 0 where
  pub keyed : IsDistinct (keys s.min_depth)
  pub only :
      (n d : ℕ)
      → find n s.min_depth ≡ some d
      → (d ≡ 0) × (find n s.seed_of ≡ some n) × In n seeds × In (n, 0) s.stack
  pub stacked : (n d : ℕ) → In (n, d) s.stack → (find n s.min_depth ≡ some d) × In n seeds
  pub zeros : (v : ℕ) → In v seeds → In v todo ⊎ (find v s.min_depth ≡ some 0)

IsSeeded-step :
    (seeds todo : List ℕ) (seed : ℕ) (s : Search)
    → IsSeeded seeds (seed ∷ todo) s
    → In seed seeds
    → IsSeeded seeds todo (record {
      min_depth = put_at seed 0 s.min_depth;
      seed_of = put_at seed seed s.seed_of;
      stack = (seed, 0) ∷ s.stack;
    })
IsSeeded-step seeds todo seed s h i = record {
  keyed = IsDistinct-put_at seed 0 s.min_depth h.keyed;
  only = λ n d f. elim (Bool-cases (n == seed)) [
    | inl y ↦
        let same = ==→≡ n seed y in
        let zero_depth : 0 ≡ d = some_inj 0 d (
          sym (find-put_at_here seed 0 s.min_depth)
          ∙ ap (λ k. find k (put_at seed 0 s.min_depth)) (sym same)
          ∙ f) in
        (
          sym zero_depth,
          ap (λ k. find k (put_at seed seed s.seed_of)) same
              ∙ find-put_at_here seed seed s.seed_of
              ∙ ap some (sym same),
          subst (λ k. In k seeds) (sym same) i,
          inl (ap (λ k. (k, 0)) (sym same)),
        )
    | inr o ↦
        let other = ==→≢ n seed o in
        let (z, sd, m, st) = h.only n d (sym (find-put_at_past seed n 0 s.min_depth other) ∙ f) in
        (z, find-put_at_past seed n seed s.seed_of other ∙ sd, m, inr st)
  ];
  stacked = λ n d j. elim j [
    | inl e ↦
        subst (λ p. (find p.0 (put_at seed 0 s.min_depth) ≡ some p.1) × In p.0 seeds) e
          (find-put_at_here seed 0 s.min_depth, i)
    | inr q ↦
        let (f, m) = h.stacked n d q in
        let d_zero = (h.only n d f).0 in
        (
          elim (Bool-cases (n == seed)) [
            | inl y ↦
                ap (λ k. find k (put_at seed 0 s.min_depth)) (==→≡ n seed y)
                ∙ find-put_at_here seed 0 s.min_depth
                ∙ ap some (sym d_zero)
            | inr o ↦ find-put_at_past seed n 0 s.min_depth (==→≢ n seed o) ∙ f
          ],
          m,
        )
  ];
  zeros = λ v m. elim (Bool-cases (v == seed)) [
    | inl y ↦ inr (
        ap (λ k. find k (put_at seed 0 s.min_depth)) (==→≡ v seed y)
        ∙ find-put_at_here seed 0 s.min_depth)
    | inr o ↦ elim (h.zeros v m) [
      | inl (inl e) ↦ absurd (==→≢ v seed o (sym e))
      | inl (inr j) ↦ inl j
      | inr f ↦ inr (find-put_at_past seed v 0 s.min_depth (==→≢ v seed o) ∙ f)
    ]
  ];
}

pub start_search-IsSeeded :
    (seeds todo : List ℕ) (s : Search)
    → IsSeeded seeds todo s
    → ((x : ℕ) → In x todo → In x seeds)
    → IsSeeded seeds [] (start_search s todo)
      × (length (start_search s todo).stack ≡ length todo + length s.stack)
unfolding start_search
start_search-IsSeeded seeds [] s h all = (h, omega arith)
start_search-IsSeeded seeds (seed ∷ todo) s h all =
    let (seeded, len) =
      start_search-IsSeeded seeds todo _ (IsSeeded-step seeds todo seed s h (all seed (inl refl)))
        (λ x i. all x (inr i)) in
    (seeded, omega (arith, len))

abbrev pub blank : Search
blank = record { min_depth = []; seed_of = []; stack = [] }

pub blank-IsSeeded : (seeds : List ℕ) → IsSeeded seeds seeds blank
blank-IsSeeded seeds = record {
  keyed = tt;
  only = λ n d f. absurd (ground (arith, f));
  stacked = λ n d i. absurd i;
  zeros = λ v i. inl i;
}

pub IsSeeded-IsInv :
    (nbrs : ℕ → List ℕ) (seeds : List ℕ) (s : Search) → IsSeeded seeds [] s → IsInv nbrs seeds s
IsSeeded-IsInv nbrs seeds s h = record {
  keyed = h.keyed;
  sound = λ n d f.
      let (z, sd, m, st) = h.only n d f in
      (omega (arith, z), (n, (sd, m, (0, (omega arith, Walk.here)))));
  stacked = λ n d i. (d, ((h.stacked n d i).0, omega arith));
  zeros = λ v i. elim (h.zeros v i) [ inl j ↦ absurd j | inr f ↦ f ];
  closed = λ n d f l.
      let (z, sd, m, st) = h.only n d f in inl (subst (λ k. In (n, k) s.stack) (sym z) st);
}

pub potential-start :
    (ns : List ℕ) (m : List (ℕ × ℕ))
    → ((n d : ℕ) → find n m ≡ some d → d ≤ 4)
    → potential ns m ≤ 4 * length ns
unfolding potential
potential-start [] m h = omega arith
potential-start (n ∷ ns) m h =
    let one : cost (find n m) ≤ 4 = elim (Option-cases (find n m)) [
      | inl e ↦ omega (arith, ap cost e)
      | inr (d, e) ↦ omega (arith, ap cost e, h n d e)
    ] in
    omega (arith, one, potential-start ns m h)
