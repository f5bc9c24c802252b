-- ===== src/Graph/Calls/Resolved.antt =====
-- The list of a call's targets against the layers.
use code_scope.Prelude.{
  ℕ, true, some, List, [], ◌∷◌, find, In, ◌==◌, ◌≡◌, refl, ap, ◌∙◌, ◌≢◌, inl, inr, Option-cases,
  Bool-cases, ==→≡, ==→≢, ≢→==,
}
use code_scope.Graph.Unit.{Record}
use code_scope.Graph.Builder.{is_empty}
use code_scope.Graph.Calls.{
  CalleeCandidate, CalleeIndex, equal_range, candidate, with_arity, is_nil,
}
use code_scope.Graph.Calls.Targets.{
  others, node_ids, named_targets, qualified_targets, referenced, call_targets,
}
use code_scope.Graph.Calls.Layers.{
  IsUnqualified, Resolves, others-In, In-others, equal_range-In, In-equal_range, with_arity-In,
  In-with_arity, node_ids-In, In-node_ids, is_empty_yes, is_empty_no, not_empty, something_in,
  all_nil, only_caller,
}

qualified_targets-In :
    (idx : CalleeIndex) (r : Record) (k t : ℕ)
    → In t (qualified_targets idx r k)
    → (r.qualified_name ≢ []) × In (r.qualified_name, t) idx.by_qualified_name × (t ≢ k)
unfolding qualified_targets
qualified_targets-In idx r k t h = elim (Bool-cases (is_empty r.qualified_name)) [
  | inl y ↦ absurd (rw y at h)
  | inr n ↦
      let g : In t (others k (equal_range r.qualified_name idx.by_qualified_name)) = rw n at h in
      let (i, d) = others-In k t _ g in
      (is_empty_no r.qualified_name n, equal_range-In r.qualified_name t idx.by_qualified_name i, d)
]

module _ (m : List (ℕ × ℕ)) (idx : CalleeIndex) (r : Record) (k t : ℕ) where
  abbrev range : List CalleeCandidate
  range = equal_range r.name idx.by_name

  exact_only :
      is_nil (with_arity k r.arity range) ≡ true
      → (s : ℕ) → In (r.name, candidate r.arity s) idx.by_name
      → s ≡ k
  exact_only e =
      only_caller (λ s. In (r.name, candidate r.arity s) idx.by_name) k (with_arity k r.arity range)
        e (λ s i d. In-with_arity k r.arity s range (In-equal_range r.name _ idx.by_name i) d)

  named_targets-Resolves :
      r.ref_original_id ≡ 0
      → IsUnqualified idx r k
      → In t (named_targets idx r k)
      → Resolves m idx r k t
  unfolding named_targets
  named_targets-Resolves ref q h = elim (Bool-cases (is_empty r.name)) [
    | inl y ↦ absurd (rw y at h)
    | inr n ↦
        let name = is_empty_no r.name n in
        elim (Bool-cases (r.arity == 0)) [
          | inl y ↦
              let g : In t (others k (node_ids range)) = rw (n, y) at h in
              let (i, d) = others-In k t (node_ids range) g in
              let (a, j) = node_ids-In t range i in
              Resolves.by_name ref q name (==→≡ r.arity 0 y) a
                (equal_range-In r.name _ idx.by_name j) d
          | inr f ↦ elim (Bool-cases (is_nil (with_arity k r.arity range))) [
            | inl e ↦
                let g : In t (with_arity k 0 range) = rw (n, f, e) at h in
                let (i, d) = with_arity-In k 0 t range g in
                Resolves.by_unknown_arity ref q name (==→≢ r.arity 0 f) (exact_only e)
                  (equal_range-In r.name _ idx.by_name i) d
            | inr e ↦
                let g : In t (with_arity k r.arity range) = rw (n, f, e) at h in
                let (i, d) = with_arity-In k r.arity t range g in
                Resolves.by_arity ref q name (==→≢ r.arity 0 f)
                  (equal_range-In r.name _ idx.by_name i) d
          ]
        ]
  ]

  unqualified : is_nil (qualified_targets idx r k) ≡ true → IsUnqualified idx r k
  unfolding qualified_targets
  unqualified e = elim (Bool-cases (is_empty r.qualified_name)) [
    | inl y ↦ inl (is_empty_yes r.qualified_name y)
    | inr n ↦ inr (
        only_caller (λ s. In (r.qualified_name, s) idx.by_qualified_name) k
          (others k (equal_range r.qualified_name idx.by_qualified_name)) (rw n at e)
          (λ s i d. In-others k s _ (In-equal_range r.qualified_name s idx.by_qualified_name i) d))
  ]

  -- Every target is one of a layer.
  pub call_targets-Resolves : In t (call_targets m idx r k) → Resolves m idx r k t
  unfolding call_targets referenced
  call_targets-Resolves h = elim (Bool-cases (r.ref_original_id == 0)) [
    | inl y ↦
        let ref = ==→≡ r.ref_original_id 0 y in
        elim (Bool-cases (is_nil (qualified_targets idx r k))) [
          | inl e ↦ named_targets-Resolves ref (unqualified e) (rw (y, e) at h)
          | inr e ↦
              let (q, i, d) = qualified_targets-In idx r k t (rw (y, e) at h) in
              Resolves.by_qualified_name ref q i d
        ]
    | inr n ↦ elim (Option-cases (find r.ref_original_id m)) [
      | inl e ↦ absurd (rw (n, e, referenced) at h)
      | inr (s, e) ↦
          let g : In t (others k (s ∷ [])) = rw (n, e, referenced) at h in
          let (i, d) = others-In k t (s ∷ []) g in
          elim i [
            | inl f ↦ Resolves.by_reference (==→≢ r.ref_original_id 0 n) (e ∙ ap some f) d
            | inr j ↦ absurd j
          ]
    ]
  ]

  qualified_none : IsUnqualified idx r k → is_nil (qualified_targets idx r k) ≡ true
  qualified_none q = all_nil (qualified_targets idx r k) (λ s i. none_of s i)
    where
      none_of : (s : ℕ) → ¬ In s (qualified_targets idx r k)
      none_of s i =
          let (named, j, d) = qualified_targets-In idx r k s i in
          elim q [ inl e ↦ named e | inr only ↦ d (only s j) ]

  by_name_In :
      r.name ≢ []
      → r.arity ≡ 0
      → (a : ℕ) → In (r.name, candidate a t) idx.by_name
      → t ≢ k
      → In t (named_targets idx r k)
  unfolding named_targets
  by_name_In name e a i d =
      rw (not_empty r.name name, ap (λ x. x == 0) e)
        (In-others k t _ (In-node_ids a t _ (In-equal_range r.name _ idx.by_name i)) d)

  by_arity_In :
      r.name ≢ []
      → r.arity ≢ 0
      → In (r.name, candidate r.arity t) idx.by_name
      → t ≢ k
      → In t (named_targets idx r k)
  unfolding named_targets
  by_arity_In name a i d =
      let found = In-with_arity k r.arity t range (In-equal_range r.name _ idx.by_name i) d in
      rw (not_empty r.name name, ≢→== r.arity 0 a, something_in t _ found) found

  by_unknown_arity_In :
      r.name ≢ []
      → r.arity ≢ 0
      → ((s : ℕ) → In (r.name, candidate r.arity s) idx.by_name → s ≡ k)
      → In (r.name, candidate 0 t) idx.by_name
      → t ≢ k
      → In t (named_targets idx r k)
  unfolding named_targets
  by_unknown_arity_In name a only i d =
      let found = In-with_arity k 0 t range (In-equal_range r.name _ idx.by_name i) d in
      let no_exact = all_nil (with_arity k r.arity range) (λ s j.
        let (c, e) = with_arity-In k r.arity s range j in
        e (only s (equal_range-In r.name _ idx.by_name c))) in
      rw (not_empty r.name name, ≢→== r.arity 0 a, no_exact) found

  by_name_layers :
      r.ref_original_id ≡ 0
      → IsUnqualified idx r k
      → In t (named_targets idx r k)
      → In t (call_targets m idx r k)
  unfolding call_targets
  by_name_layers ref q i = rw (ap (λ x. x == 0) ref, qualified_none q) i

  -- Every layer's targets are in the list.
  pub Resolves-call_targets : Resolves m idx r k t → In t (call_targets m idx r k)
  unfolding call_targets referenced qualified_targets
  Resolves-call_targets (Resolves.by_reference n e d) =
      rw (≢→== r.ref_original_id 0 n, e, referenced) (In-others k t (t ∷ []) (inl refl) d)
  Resolves-call_targets (Resolves.by_qualified_name ref q i d) =
      let found : In t (qualified_targets idx r k) =
        rw (not_empty r.qualified_name q)
          (In-others k t _ (In-equal_range r.qualified_name t idx.by_qualified_name i) d) in
      rw (ap (λ x. x == 0) ref, something_in t _ found) found
  Resolves-call_targets (Resolves.by_arity ref q name a i d) =
      by_name_layers ref q (by_arity_In name a i d)
  Resolves-call_targets (Resolves.by_unknown_arity ref q name a only i d) =
      by_name_layers ref q (by_unknown_arity_In name a only i d)
  Resolves-call_targets (Resolves.by_name ref q name e a i d) =
      by_name_layers ref q (by_name_In name e a i d)
