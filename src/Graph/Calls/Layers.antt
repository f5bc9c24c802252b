-- ===== src/Graph/Calls/Layers.antt =====
-- When a call record resolves to a target, layer by layer, and that the list of targets has no others.
use code_scope.Prelude.{
  ℕ, true, false, some, List, [], ◌∷◌, Bytes, bytes_eq, find, In, ◌==◌, ◌≡◌, refl, sym, ap, ◌∙◌,
  ◌≢◌, ◌⊎◌, inl, inr, Bool-cases, ==→≡, ==→≢, ≢→==, ==_refl, false≢true,
}
use code_scope.Resolver.Text.{bytes_eq_refl, bytes_eq→≡}
use code_scope.Graph.Unit.{Record}
use code_scope.Graph.Builder.{is_empty}
use code_scope.Graph.Calls.{
  CalleeCandidate, CalleeIndex, equal_range, candidate, with_arity, is_nil,
}
use code_scope.Graph.Calls.Targets.{others, node_ids}

-- No candidate with the call's qualified name but the caller.
abbrev pub IsUnqualified : CalleeIndex → Record → ℕ → Type 0
IsUnqualified idx r k =
    (r.qualified_name ≡ []) ⊎ ((t : ℕ) → In (r.qualified_name, t) idx.by_qualified_name → t ≡ k)

-- The target of a call from the node `k`: the reference alone, if the call has one; else any
-- candidate with the qualified name; else, by the name, any candidate with the arity; else any whose
-- arity is unknown; and any of the name, if the call's arity is unknown. The caller is no target.
pub data Resolves (m : List (ℕ × ℕ)) (idx : CalleeIndex) (r : Record) (k t : ℕ) : Type 0 where
  by_reference :
      r.ref_original_id ≢ 0 → find r.ref_original_id m ≡ some t → t ≢ k → Resolves m idx r k t
  by_qualified_name :
      r.ref_original_id ≡ 0
      → r.qualified_name ≢ []
      → In (r.qualified_name, t) idx.by_qualified_name
      → t ≢ k
      → Resolves m idx r k t
  by_arity :
      r.ref_original_id ≡ 0
      → IsUnqualified idx r k
      → r.name ≢ []
      → r.arity ≢ 0
      → In (r.name, candidate r.arity t) idx.by_name
      → t ≢ k
      → Resolves m idx r k t
  by_unknown_arity :
      r.ref_original_id ≡ 0
      → IsUnqualified idx r k
      → r.name ≢ []
      → r.arity ≢ 0
      → ((s : ℕ) → In (r.name, candidate r.arity s) idx.by_name → s ≡ k)
      → In (r.name, candidate 0 t) idx.by_name
      → t ≢ k
      → Resolves m idx r k t
  by_name :
      r.ref_original_id ≡ 0
      → IsUnqualified idx r k
      → r.name ≢ []
      → r.arity ≡ 0
      → (a : ℕ) → In (r.name, candidate a t) idx.by_name
      → t ≢ k
      → Resolves m idx r k t

pub others-In : (k t : ℕ) (ts : List ℕ) → In t (others k ts) → In t ts × (t ≢ k)
unfolding others
others-In k t [] h = absurd h
others-In k t (s ∷ ts) h = elim (Bool-cases (s == k)) [
  | inl y ↦ let (i, d) = others-In k t ts (rw y at h) in (inr i, d)
  | inr n ↦
      let g : In t (s ∷ others k ts) = rw n at h in
      elim g [
        | inl e ↦ (inl e, λ f. ==→≢ s k n (e ∙ f))
        | inr i ↦ let (j, d) = others-In k t ts i in (inr j, d)
      ]
]

pub In-others : (k t : ℕ) (ts : List ℕ) → In t ts → t ≢ k → In t (others k ts)
unfolding others
In-others k t [] h d = absurd h
In-others k t (s ∷ ts) (inl e) d = rw (≢→== s k (λ f. d (sym e ∙ f))) (inl e)
In-others k t (s ∷ ts) (inr i) d = elim (Bool-cases (s == k)) [
  | inl y ↦ rw y (In-others k t ts i d)
  | inr n ↦ rw n (inr (In-others k t ts i d))
]

pub equal_range-In :
    {V : Type 0} (key : Bytes) (v : V) (es : List (Bytes × V))
    → In v (equal_range key es)
    → In (key, v) es
unfolding equal_range
equal_range-In key v [] h = absurd h
equal_range-In key v ((k, w) ∷ es) h = elim (Bool-cases (bytes_eq k key)) [
  | inl y ↦
      let g : In v (w ∷ equal_range key es) = rw y at h in
      elim g [
        | inl e ↦ inl (ap (λ s. (s, w)) (bytes_eq→≡ k key y) ∙ ap (λ x. (key, x)) e)
        | inr i ↦ inr (equal_range-In key v es i)
      ]
  | inr n ↦ inr (equal_range-In key v es (rw n at h))
]

pub In-equal_range :
    {V : Type 0} (key : Bytes) (v : V) (es : List (Bytes × V))
    → In (key, v) es
    → In v (equal_range key es)
unfolding equal_range
In-equal_range key v [] h = absurd h
In-equal_range key v ((k, w) ∷ es) (inl e) =
    rw (ap (λ p. bytes_eq p.0 key) e ∙ bytes_eq_refl key) (inl (ap (λ p. p.1) e))
In-equal_range key v ((k, w) ∷ es) (inr i) = elim (Bool-cases (bytes_eq k key)) [
  | inl y ↦ rw y (inr (In-equal_range key v es i))
  | inr n ↦ rw n (In-equal_range key v es i)
]

pub with_arity-In :
    (k a t : ℕ) (cs : List CalleeCandidate)
    → In t (with_arity k a cs)
    → In (candidate a t) cs × (t ≢ k)
unfolding with_arity
with_arity-In k a t [] h = absurd h
with_arity-In k a t (c ∷ cs) h = elim (Bool-cases (c.graph_node_id == k)) [
  | inl y ↦ let (i, d) = with_arity-In k a t cs (rw y at h) in (inr i, d)
  | inr n ↦ elim (Bool-cases (c.arity == a)) [
    | inr f ↦ let (i, d) = with_arity-In k a t cs (rw (n, f) at h) in (inr i, d)
    | inl y ↦
        let g : In t (c.graph_node_id ∷ with_arity k a cs) = rw (n, y) at h in
        elim g [
          | inl e ↦ (
            inl (
                ap (λ b. candidate b c.graph_node_id) (==→≡ c.arity a y)
                ∙ ap (λ i. candidate a i) e),
            λ f. ==→≢ c.graph_node_id k n (e ∙ f),
          )
          | inr i ↦ let (j, d) = with_arity-In k a t cs i in (inr j, d)
        ]
  ]
]

pub In-with_arity :
    (k a t : ℕ) (cs : List CalleeCandidate)
    → In (candidate a t) cs
    → t ≢ k
    → In t (with_arity k a cs)
unfolding with_arity
In-with_arity k a t [] h d = absurd h
In-with_arity k a t (c ∷ cs) (inl e) d =
    let other = ≢→== c.graph_node_id k (λ f. d (sym (ap (λ x. x.graph_node_id) e) ∙ f)) in
    let same : (c.arity == a) ≡ true = ap (λ x. x.arity == a) e ∙ ==_refl a in
    rw (other, same) (inl (ap (λ x. x.graph_node_id) e))
In-with_arity k a t (c ∷ cs) (inr i) d =
    let rest = In-with_arity k a t cs i d in
    elim (Bool-cases (c.graph_node_id == k)) [
      | inl y ↦ rw y rest
      | inr n ↦ elim (Bool-cases (c.arity == a)) [
        | inl y ↦ rw (n, y) (inr rest)
        | inr f ↦ rw (n, f) rest
      ]
    ]

pub node_ids-In :
    (t : ℕ) (cs : List CalleeCandidate) → In t (node_ids cs) → (a : ℕ) × In (candidate a t) cs
unfolding node_ids
node_ids-In t [] h = absurd h
node_ids-In t (c ∷ cs) (inl e) = (c.arity, inl (ap (λ i. candidate c.arity i) e))
node_ids-In t (c ∷ cs) (inr i) = let (a, j) = node_ids-In t cs i in (a, inr j)

pub In-node_ids : (a t : ℕ) (cs : List CalleeCandidate) → In (candidate a t) cs → In t (node_ids cs)
unfolding node_ids
In-node_ids a t [] h = absurd h
In-node_ids a t (c ∷ cs) (inl e) = inl (ap (λ x. x.graph_node_id) e)
In-node_ids a t (c ∷ cs) (inr i) = inr (In-node_ids a t cs i)

pub is_empty_yes : (s : Bytes) → is_empty s ≡ true → s ≡ []
is_empty_yes [] e = refl
is_empty_yes (c ∷ s) e = absurd (false≢true e)

pub is_empty_no : (s : Bytes) → is_empty s ≡ false → s ≢ []
is_empty_no s e f = false≢true (sym e ∙ ap is_empty f)

pub not_empty : (s : Bytes) → s ≢ [] → is_empty s ≡ false
not_empty [] d = absurd (d refl)
not_empty (c ∷ s) d = refl

pub nothing_in : (t : ℕ) (ts : List ℕ) → is_nil ts ≡ true → ¬ In t ts
nothing_in t [] e i = i
nothing_in t (s ∷ ts) e i = false≢true e

pub something_in : (t : ℕ) (ts : List ℕ) → In t ts → is_nil ts ≡ false
something_in t [] i = absurd i
something_in t (s ∷ ts) i = refl

pub all_nil : (ts : List ℕ) → ((t : ℕ) → ¬ In t ts) → is_nil ts ≡ true
all_nil [] h = refl
all_nil (t ∷ ts) h = absurd (h t (inl refl))

-- Without a target in a layer, every candidate of the layer is the caller.
pub only_caller :
    (P : ℕ → Type 0) (k : ℕ) (ts : List ℕ)
    → is_nil ts ≡ true
    → ((s : ℕ) → P s → s ≢ k → In s ts)
    → (s : ℕ) → P s
    → s ≡ k
only_caller P k ts e into s h = elim (Bool-cases (s == k)) [
  | inl y ↦ ==→≡ s k y
  | inr n ↦ absurd (nothing_in s ts e (into s h (==→≢ s k n)))
]
