-- ===== src/Resolver/Apply/Order.antt =====
-- The final sort of the candidates: it does not depend on the order in which they come.
use mathlib.Core.List.{Permᴰ}
use mathlib.Core.List.Permᴰ
use code_scope.Prelude.{
  ℕ, Bool, true, false, not, ◌||◌, List, [], ◌∷◌, map, ltb, ◌≡◌, ◌≢◌, ◌⊎◌, refl, sym, ap, ◌∙◌,
  subst, inl, inr, Bool-cases, false≢true, arith, In, IsDistinct,
}
use code_scope.Resolver.Apply.{
  Doubles, Candidate, Reference, score_candidate, insert_by, sort_by, ranks_before,
  apply_constraints,
}

-- The comparison of doubles that are numbers: a strict weak order, with `==` where neither is less.
pub record IsOrder {D : Type 0} (num : Doubles D) : Type 0 where
  pub asym : (x y : D) → num.less x y ≡ true → num.less y x ≡ false
  pub neg_trans : (x y z : D) → num.less x y ≡ false → num.less y z ≡ false → num.less x z ≡ false
  pub equal_lem : (x y : D) → num.equal x y ≡ not (num.less x y || num.less y x)

ltb_asym : (m n : ℕ) → ltb m n ≡ true → ltb n m ≡ false
ltb_asym m n h = ground (arith, h)

ltb_total : (m n : ℕ) → m ≢ n → ltb m n ≡ false → ltb n m ≡ true
ltb_total m n d h = ground (arith, d, h)

ltb_trans : (l m n : ℕ) → ltb l m ≡ false → ltb m n ≡ false → ltb l n ≡ false
ltb_trans l m n h k = ground (arith, h, k)

-- Inserting two elements, the first of which ranks before the second, in either order.
module _ {A : Type 0} (before : A → A → Bool)
    (neg_trans : (a b c : A) → before a b ≡ false → before b c ≡ false → before a c ≡ false) where
  insert_by_past :
      (a c : A) (l : List A)
      → before c a ≡ true
      → insert_by before a (c ∷ l) ≡ c ∷ insert_by before a l
  unfolding insert_by
  insert_by_past a c l h = rw h refl

  insert_by_here :
      (a c : A) (l : List A) → before c a ≡ false → insert_by before a (c ∷ l) ≡ a ∷ c ∷ l
  unfolding insert_by
  insert_by_here a c l h = rw h refl

  insert_by_nil :
      (a b : A)
      → before a b ≡ true
      → before b a ≡ false
      → insert_by before a (insert_by before b []) ≡ insert_by before b (insert_by before a [])
  unfolding insert_by
  insert_by_nil a b h k = rw (h, k) refl

  insert_by_comm :
      (a b : A) (l : List A)
      → before a b ≡ true
      → before b a ≡ false
      → insert_by before a (insert_by before b l) ≡ insert_by before b (insert_by before a l)
  insert_by_comm a b [] h k = insert_by_nil a b h k
  insert_by_comm a b (c ∷ l) h k = elim (Bool-cases (before c a)) [
    | inl ca ↦ elim (Bool-cases (before c b)) [
      | inl cb ↦
          ap (insert_by before a) (insert_by_past b c l cb)
          ∙ insert_by_past a c (insert_by before b l) ca
          ∙ ap (λ l. c ∷ l) (insert_by_comm a b l h k)
          ∙ sym (
              ap (insert_by before b) (insert_by_past a c l ca)
              ∙ insert_by_past b c (insert_by before a l) cb)
      | inr cb ↦ absurd (false≢true (sym (neg_trans c b a cb k) ∙ ca))
    ]
    | inr ca ↦
        let right : insert_by before b (insert_by before a (c ∷ l))
            ≡ a ∷ insert_by before b (c ∷ l) =
          ap (insert_by before b) (insert_by_here a c l ca) ∙ insert_by_past b a (c ∷ l) h in
        elim (Bool-cases (before c b)) [
          | inl cb ↦
              ap (insert_by before a) (insert_by_past b c l cb)
              ∙ insert_by_here a c (insert_by before b l) ca
              ∙ sym (right ∙ ap (λ l. a ∷ l) (insert_by_past b c l cb))
          | inr cb ↦
              ap (insert_by before a) (insert_by_here b c l cb)
              ∙ insert_by_here a b (c ∷ l) k
              ∙ sym (right ∙ ap (λ l. a ∷ l) (insert_by_here b c l cb))
        ]
  ]

-- Either of two elements with different ids ranks before the other.
module _ {D : Type 0} (num : Doubles D) (order : IsOrder num) where
  ranks_before_equal :
      (a b : Candidate D)
      → num.less a.total_score b.total_score ≡ false
      → num.less b.total_score a.total_score ≡ false
      → ranks_before num a b ≡ ltb a.entity_id b.entity_id
  unfolding ranks_before
  ranks_before_equal a b m n = rw (order.equal_lem a.total_score b.total_score, m, n) refl

  ranks_before_above :
      (a b : Candidate D)
      → num.less b.total_score a.total_score ≡ true
      → ranks_before num a b ≡ true
  unfolding ranks_before
  ranks_before_above a b y =
      rw (order.equal_lem a.total_score b.total_score, order.asym _ _ y, y) refl

  ranks_before_below :
      (a b : Candidate D)
      → num.less a.total_score b.total_score ≡ true
      → ranks_before num a b ≡ false
  unfolding ranks_before
  ranks_before_below a b y =
      rw (order.equal_lem a.total_score b.total_score, y, order.asym _ _ y) refl

  -- One of two elements with different ids ranks before the other.
  ranks_before_total :
      (a b : Candidate D)
      → a.entity_id ≢ b.entity_id
      → (ranks_before num a b ≡ true) × (ranks_before num b a ≡ false)
        ⊎ (ranks_before num b a ≡ true) × (ranks_before num a b ≡ false)
  ranks_before_total a b d = elim (Bool-cases (num.less a.total_score b.total_score)) [
    | inl y ↦ inr (ranks_before_above b a y, ranks_before_below a b y)
    | inr m ↦ elim (Bool-cases (num.less b.total_score a.total_score)) [
      | inl y ↦ inl (ranks_before_above a b y, ranks_before_below b a y)
      | inr n ↦
          let ab = ranks_before_equal a b m n in
          let ba = ranks_before_equal b a n m in
          elim (Bool-cases (ltb a.entity_id b.entity_id)) [
            | inl y ↦ inl (ab ∙ y, ba ∙ ltb_asym a.entity_id b.entity_id y)
            | inr k ↦ inr (ba ∙ ltb_total a.entity_id b.entity_id d k, ab ∙ k)
          ]
    ]
  ]

  not_above :
      (a b : Candidate D)
      → ranks_before num a b ≡ false
      → num.less b.total_score a.total_score ≡ false
  not_above a b h = elim (Bool-cases (num.less b.total_score a.total_score)) [
    | inl y ↦ absurd (false≢true (sym h ∙ ranks_before_above a b y))
    | inr n ↦ n
  ]

  ranks_before_trans :
      (a b c : Candidate D)
      → ranks_before num a b ≡ false
      → ranks_before num b c ≡ false
      → ranks_before num a c ≡ false
  ranks_before_trans a b c h k = elim (Bool-cases (num.less a.total_score c.total_score)) [
    | inl y ↦ ranks_before_below a c y
    | inr ac ↦
        let ba = not_above a b h in
        let cb = not_above b c k in
        let ca = order.neg_trans c.total_score b.total_score a.total_score cb ba in
        let ab = order.neg_trans a.total_score c.total_score b.total_score ac cb in
        let bc = order.neg_trans b.total_score a.total_score c.total_score ba ac in
        ranks_before_equal a c ac ca
        ∙ ltb_trans a.entity_id b.entity_id c.entity_id (sym (ranks_before_equal a b ab ba) ∙ h)
            (sym (ranks_before_equal b c bc cb) ∙ k)
  ]

abbrev pub ids : {D : Type 0} → List (Candidate D) → List ℕ
ids [] = []
ids (c ∷ cs) = c.entity_id ∷ ids cs

ids-In :
    {D : Type 0} {cs ds : List (Candidate D)} (n : ℕ) → Permᴰ cs ds → In n (ids cs) → In n (ids ds)
ids-In n Permᴰ.nil i = i
ids-In n (Permᴰ.cons e p) (inl h) = inl (ap (λ c. c.entity_id) (sym e) ∙ h)
ids-In n (Permᴰ.cons e p) (inr i) = inr (ids-In n p i)
ids-In n (Permᴰ.swap d e) (inl h) = inr (inl (ap (λ c. c.entity_id) (sym d) ∙ h))
ids-In n (Permᴰ.swap d e) (inr (inl h)) = inl (ap (λ c. c.entity_id) (sym e) ∙ h)
ids-In n (Permᴰ.swap d e) (inr (inr i)) = inr (inr i)
ids-In n (Permᴰ.trans p q) i = ids-In n q (ids-In n p i)

ids-IsDistinct :
    {D : Type 0} {cs ds : List (Candidate D)}
    → Permᴰ cs ds
    → IsDistinct (ids cs)
    → IsDistinct (ids ds)
ids-IsDistinct Permᴰ.nil h = h
ids-IsDistinct (Permᴰ.cons {l₁ = k} e p) h = (
  λ i. h.0 (subst (λ c. In c.entity_id (ids k)) (sym e) (ids-In _ (Permᴰ.symm p) i)),
  ids-IsDistinct p h.1,
)
ids-IsDistinct (Permᴰ.swap {l = l} d e) h = (
  λ m. elim m [
    | inl q ↦ h.0 (inl (ap (λ c. c.entity_id) e ∙ sym q ∙ ap (λ c. c.entity_id) (sym d)))
    | inr i ↦ h.1.0 (subst (λ c. In c.entity_id (ids l)) (sym e) i)
  ],
  (λ i. h.0 (inr (subst (λ c. In c.entity_id (ids l)) (sym d) i)), h.1.1),
)
ids-IsDistinct (Permᴰ.trans p q) h = ids-IsDistinct q (ids-IsDistinct p h)

score_all-perm :
    {D : Type 0} (f : Candidate D → Candidate D) {cs ds : List (Candidate D)}
    → Permᴰ cs ds
    → Permᴰ (map f cs) (map f ds)
score_all-perm f Permᴰ.nil = Permᴰ.nil
score_all-perm f (Permᴰ.cons e p) = Permᴰ.cons (ap f e) (score_all-perm f p)
score_all-perm f (Permᴰ.swap d e) = Permᴰ.swap (ap f d) (ap f e)
score_all-perm f (Permᴰ.trans p q) = Permᴰ.trans (score_all-perm f p) (score_all-perm f q)

module _ {D : Type 0} (num : Doubles D) (order : IsOrder num) where
  insert_both :
      (a b : Candidate D) (l : List (Candidate D))
      → a.entity_id ≢ b.entity_id
      → insert_by (ranks_before num) a (insert_by (ranks_before num) b l)
        ≡ insert_by (ranks_before num) b (insert_by (ranks_before num) a l)
  insert_both a b l d = elim (ranks_before_total num order a b d) [
    | inl (h, k) ↦ insert_by_comm (ranks_before num) (ranks_before_trans num order) a b l h k
    | inr (h, k) ↦ sym (insert_by_comm (ranks_before num) (ranks_before_trans num order) b a l h k)
  ]

  sort_by-perm :
      {cs ds : List (Candidate D)}
      → Permᴰ cs ds
      → IsDistinct (ids cs)
      → sort_by (ranks_before num) cs ≡ sort_by (ranks_before num) ds
  unfolding sort_by
  sort_by-perm Permᴰ.nil h = refl
  sort_by-perm (Permᴰ.cons {a = a} {b = b} {l₁ = l} {l₂ = m} e p) h =
      ap (λ c. insert_by (ranks_before num) c (sort_by (ranks_before num) l)) e
      ∙ ap (insert_by (ranks_before num) b) (sort_by-perm p h.1)
  sort_by-perm (Permᴰ.swap {a = a} {b = b} {a' = c} {b' = d} {l = l} e f) h =
      insert_both a b (sort_by (ranks_before num) l) (λ q. h.0 (inl (sym q)))
      ∙ ap
          (λ x.
            insert_by (ranks_before num) x
              (insert_by (ranks_before num) a (sort_by (ranks_before num) l)))
          f
      ∙ ap
          (λ x.
            insert_by (ranks_before num) c
              (insert_by (ranks_before num) x (sort_by (ranks_before num) l)))
          e
  sort_by-perm (Permᴰ.trans p q) h = sort_by-perm p h ∙ sort_by-perm q (ids-IsDistinct p h)

ids-score :
    {D : Type 0} (num : Doubles D) (r : Reference) (cs : List (Candidate D))
    → ids (map (score_candidate num r) cs) ≡ ids cs
unfolding score_candidate
ids-score num r [] = refl
ids-score num r (c ∷ cs) = ap (λ l. c.entity_id ∷ l) (ids-score num r cs)

-- For candidates with different ids, the scored and ranked list does not depend on the order in which
-- the candidates come. The comparison of doubles is taken to be a strict weak order.
pub apply_constraints-perm :
    {D : Type 0} (num : Doubles D)
    → IsOrder num
    → (r : Reference) (cs ds : List (Candidate D)) → Permᴰ cs ds
    → IsDistinct (ids cs)
    → apply_constraints num r cs ≡ apply_constraints num r ds
unfolding apply_constraints
apply_constraints-perm num order r cs ds p h =
    sort_by-perm num order (score_all-perm (score_candidate num r) p)
      (subst IsDistinct (sym (ids-score num r cs)) h)
