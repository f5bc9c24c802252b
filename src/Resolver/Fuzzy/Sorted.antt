-- ===== src/Resolver/Fuzzy/Sorted.antt =====
-- Byte strings in order, and the entries of a sorted index that start with a name.
use code_scope.Prelude.{
  ℕ, true, false, List, [], ◌∷◌, Bytes, ltb, ◌==◌, if◌then◌else◌, All, ◌≡◌, refl, sym, ap, ◌∙◌, inl,
  inr, Bool-cases, ==→≡, arith, false≢true,
}
use code_scope.Resolver.Text.{starts_with}
use code_scope.Resolver.Fuzzy.{
  Entry, bytes_lt, insert_entry, sort_entries, insert_id, sort_ids, lower_bound, run_of,
}

-- A text with a prefix is not below it.
starts_with-bytes_lt : (p s : Bytes) → starts_with p s ≡ true → bytes_lt s p ≡ false
unfolding starts_with bytes_lt
starts_with-bytes_lt [] s h = refl
starts_with-bytes_lt (c ∷ p) [] h = absurd (false≢true h)
starts_with-bytes_lt (c ∷ p) (x ∷ s) h = elim (Bool-cases (x == c)) [
  | inr n ↦ absurd (false≢true (rw n at h))
  | inl y ↦ let rest = starts_with-bytes_lt p s (rw y at h) in ground (arith, rest, ==→≡ x c y)
]

-- Not above a text without the prefix and not below the prefix, a text has not the prefix either.
starts_with_between :
    (p x y : Bytes)
    → bytes_lt x p ≡ false
    → starts_with p x ≡ false
    → bytes_lt y x ≡ false
    → starts_with p y ≡ false
unfolding starts_with bytes_lt
starts_with_between [] x y h n o = absurd (false≢true (sym n))
starts_with_between (c ∷ p) [] y h n o = absurd (false≢true (sym h))
starts_with_between (c ∷ p) (a ∷ x) [] h n o = refl
starts_with_between (c ∷ p) (a ∷ x) (b ∷ y) h n o = elim (Bool-cases (b == c)) [
  | inr d ↦ rw d refl
  | inl e ↦ elim (Bool-cases (a == c)) [
    | inl f ↦ rw e (
        starts_with_between p x y (ground (arith, h, ==→≡ a c f)) (rw f at n)
          (ground (arith, o, ==→≡ a c f, ==→≡ b c e)))
    | inr d ↦ absurd (ground (arith, h, o, d, ==→≡ b c e))
  ]
]

bytes_lt_asym : (s t : Bytes) → bytes_lt s t ≡ true → bytes_lt t s ≡ false
unfolding bytes_lt
bytes_lt_asym s [] h = absurd (false≢true h)
bytes_lt_asym [] (d ∷ t) h = refl
bytes_lt_asym (c ∷ s) (d ∷ t) h = elim (Bool-cases (ltb c d)) [
  | inl y ↦ ground arith
  | inr n ↦ elim (Bool-cases (ltb d c)) [
    | inl y ↦ absurd (false≢true (rw (n, y) at h))
    | inr m ↦ rw (n, m) (bytes_lt_asym s t (rw (n, m) at h))
  ]
]

bytes_lt_trans :
    (s t u : Bytes) → bytes_lt t s ≡ false → bytes_lt u t ≡ false → bytes_lt u s ≡ false
unfolding bytes_lt
bytes_lt_trans [] t u h k = refl
bytes_lt_trans (c ∷ s) [] u h k = absurd (false≢true (sym h))
bytes_lt_trans (c ∷ s) (d ∷ t) [] h k = absurd (false≢true (sym k))
bytes_lt_trans (c ∷ s) (d ∷ t) (e ∷ u) h k = elim (Bool-cases (c == e)) [
  | inl y ↦ elim (Bool-cases (d == c)) [
    | inl f ↦
        let rest =
          bytes_lt_trans s t u (ground (arith, h, ==→≡ d c f))
            (ground (arith, k, ==→≡ d c f, ==→≡ c e y)) in
        ground (arith, rest, ==→≡ c e y)
    | inr m ↦ absurd (ground (arith, h, k, m, ==→≡ c e y))
  ]
  | inr n ↦ ground (arith, h, k, n)
]

abbrev IsAbove : Bytes → List Entry → Type 0
IsAbove p = All (λ e. bytes_lt e.0 p ≡ false)

-- The names do not decrease.
abbrev pub IsSorted : List Entry → Type 0
IsSorted [] = Unit
IsSorted (e ∷ es) = IsAbove e.0 es × IsSorted es

IsAbove-trans : (p q : Bytes) (es : List Entry) → bytes_lt q p ≡ false → IsAbove q es → IsAbove p es
IsAbove-trans p q [] h a = tt
IsAbove-trans p q (e ∷ es) h a = (bytes_lt_trans p q e.0 h a.0, IsAbove-trans p q es h a.1)

IsAbove-insert_entry :
    (p : Bytes) (e : Entry) (es : List Entry)
    → bytes_lt e.0 p ≡ false
    → IsAbove p es
    → IsAbove p (insert_entry e es)
unfolding insert_entry
IsAbove-insert_entry p e [] h a = (h, tt)
IsAbove-insert_entry p e (d ∷ ds) h a = elim (Bool-cases (bytes_lt d.0 e.0)) [
  | inl y ↦ rw y (a.0, IsAbove-insert_entry p e ds h a.1)
  | inr n ↦ rw n (h, a)
]

insert_entry-IsSorted : (e : Entry) (es : List Entry) → IsSorted es → IsSorted (insert_entry e es)
unfolding insert_entry
insert_entry-IsSorted e [] s = (tt, tt)
insert_entry-IsSorted e (d ∷ ds) s = elim (Bool-cases (bytes_lt d.0 e.0)) [
  | inl y ↦
      rw y (
        IsAbove-insert_entry d.0 e ds (bytes_lt_asym d.0 e.0 y) s.0,
        insert_entry-IsSorted e ds s.1,
      )
  | inr n ↦ rw n ((n, IsAbove-trans e.0 d.0 ds n s.0), s)
]

pub sort_entries-IsSorted : (es : List Entry) → IsSorted (sort_entries es)
unfolding sort_entries
sort_entries-IsSorted [] = tt
sort_entries-IsSorted (e ∷ es) =
    insert_entry-IsSorted e (sort_entries es) (sort_entries-IsSorted es)

-- The ids of all entries that start with a name.
unfoldable pub starting : Bytes → List Entry → List ℕ
starting p [] = []
starting p (e ∷ es) = let rest = starting p es in if starts_with p e.0 then e.1 ∷ rest else rest

none_starting :
    (p x : Bytes) (es : List Entry)
    → bytes_lt x p ≡ false
    → starts_with p x ≡ false
    → IsAbove x es
    → starting p es ≡ []
unfolding starting
none_starting p x [] h n a = refl
none_starting p x (e ∷ es) h n a =
    rw (starts_with_between p x e.0 h n a.0) (none_starting p x es h n a.1)

run_of-starting :
    (p : Bytes) (es : List Entry) → IsSorted es → IsAbove p es → run_of p es ≡ starting p es
unfolding run_of starting
run_of-starting p [] s a = refl
run_of-starting p (e ∷ es) s a = elim (Bool-cases (starts_with p e.0)) [
  | inl y ↦ rw y (ap (λ r. e.1 ∷ r) (run_of-starting p es s.1 a.1))
  | inr n ↦ rw n (sym (none_starting p e.0 es a.0 n s.0))
]

-- In a sorted index, the run behind the lower bound has all the entries that start with the name.
pub lower_bound-starting :
    (p : Bytes) (es : List Entry) → IsSorted es → run_of p (lower_bound p es) ≡ starting p es
unfolding lower_bound run_of starting
lower_bound-starting p [] s = refl
lower_bound-starting p (e ∷ es) s = elim (Bool-cases (bytes_lt e.0 p)) [
  | inr n ↦ rw n (run_of-starting p (e ∷ es) s (n, IsAbove-trans p e.0 es n s.0))
  | inl y ↦ elim (Bool-cases (starts_with p e.0)) [
    | inl t ↦ absurd (false≢true (sym (starts_with-bytes_lt p e.0 t) ∙ y))
    | inr n ↦ rw (y, n) (lower_bound-starting p es s.1)
  ]
]

insert_id_comm :
    (a b : ℕ) (bs : List ℕ) → insert_id a (insert_id b bs) ≡ insert_id b (insert_id a bs)
unfolding insert_id
insert_id_comm a b [] = ground arith
insert_id_comm a b (c ∷ bs) = ground (arith, insert_id_comm a b bs)

starting_cons :
    (p : Bytes) (d : Entry) (xs ys : List Entry)
    → sort_ids (starting p xs) ≡ sort_ids (starting p ys)
    → sort_ids (starting p (d ∷ xs)) ≡ sort_ids (starting p (d ∷ ys))
unfolding starting sort_ids
starting_cons p d xs ys h = elim (Bool-cases (starts_with p d.0)) [
  | inl y ↦ rw y (ap (insert_id d.1) h)
  | inr n ↦ rw n h
]

starting_swap :
    (p : Bytes) (d e : Entry) (es : List Entry)
    → sort_ids (starting p (d ∷ e ∷ es)) ≡ sort_ids (starting p (e ∷ d ∷ es))
unfolding starting sort_ids
starting_swap p d e es = elim (Bool-cases (starts_with p d.0)) [
  | inr n ↦ rw n refl
  | inl y ↦ elim (Bool-cases (starts_with p e.0)) [
    | inr n ↦ rw (y, n) refl
    | inl z ↦ rw (y, z) (insert_id_comm d.1 e.1 (sort_ids (starting p es)))
  ]
]

starting-insert_entry :
    (p : Bytes) (e : Entry) (es : List Entry)
    → sort_ids (starting p (insert_entry e es)) ≡ sort_ids (starting p (e ∷ es))
unfolding insert_entry
starting-insert_entry p e [] = refl
starting-insert_entry p e (d ∷ ds) = elim (Bool-cases (bytes_lt d.0 e.0)) [
  | inr n ↦ rw (n, insert_entry) refl
  | inl y ↦
      rw (y, insert_entry)
        (starting_cons p d (insert_entry e ds) (e ∷ ds) (starting-insert_entry p e ds)
          ∙ starting_swap p d e ds)
]

-- Sorting the index does not change which ids start with a name.
pub starting-sort_entries :
    (p : Bytes) (es : List Entry)
    → sort_ids (starting p (sort_entries es)) ≡ sort_ids (starting p es)
unfolding sort_entries
starting-sort_entries p [] = refl
starting-sort_entries p (e ∷ es) =
    starting-insert_entry p e (sort_entries es)
    ∙ starting_cons p e (sort_entries es) es (starting-sort_entries p es)
