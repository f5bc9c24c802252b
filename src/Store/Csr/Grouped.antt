-- ===== src/Store/Csr/Grouped.antt =====
-- What the grouping of sorted rows puts into the table.
use code_scope.Prelude.{
  ℕ, ◌≤◌, ◌<◌, Bool, true, false, Option, none, some, List, [], ◌∷◌, ◌++◌, append_assoc, append-nil,
  All, ◌==◌, if◌then◌else◌, ◌≡◌, refl, sym, ap, ◌∙◌, inl, inr, Bool-cases, ==→≡, ≢→==, arith, subst,
}
use code_scope.Store.Csr.{
  Table, Pass, start, write_group, flush_group, is_current, push, add_row, add_rows, group_rows,
  neighbours,
}

-- The targets of a node's edges, in order, without self-loops.
abbrev pub targets : ℕ → List (ℕ × ℕ) → List ℕ
targets n [] = []
targets n ((s, t) ∷ rows) =
    if s == t then targets n rows else if s == n then t ∷ targets n rows else targets n rows

abbrev AtLeast : Option ℕ → ℕ → Type 0
AtLeast none s = Unit
AtLeast (some c) s = c ≤ s

-- The query's order: sources do not decrease.
abbrev pub IsSortedFrom : Option ℕ → List (ℕ × ℕ) → Type 0
IsSortedFrom c [] = Unit
IsSortedFrom c ((s, t) ∷ rows) = AtLeast c s × IsSortedFrom (some s) rows

abbrev IsBelow : Option ℕ → ℕ → Type 0
IsBelow none m = m < 0
IsBelow (some c) m = m < c

abbrev IsOrdered : Option ℕ → Table → Type 0
IsOrdered c = All (λ (m, ts). IsBelow c m)

same_as : (c s n : ℕ) (b : Bool) → (c == s) ≡ true → (s == n) ≡ b → (c == n) ≡ b
same_as c s n b h e = subst (λ m. (m == n) ≡ b) (sym (==→≡ c s h)) e

neighbours-below : (n : ℕ) (table : Table) → IsOrdered (some n) table → neighbours table n ≡ []
unfolding neighbours
neighbours-below n [] h = refl
neighbours-below n ((m, ts) ∷ table) h = rw (≢→== m n (ground arith)) (neighbours-below n table h.1)

neighbours-append :
    (n c : ℕ) (ts : List ℕ) (table : Table)
    → IsOrdered (some c) table
    → neighbours (table ++ (c, ts) ∷ []) n ≡ (if c == n then ts else neighbours table n)
unfolding neighbours
neighbours-append n c ts [] h = refl
neighbours-append n c ts ((m, us) ∷ table) h = elim (Bool-cases (m == n)) [
  | inl y ↦ rw y (rw (≢→== c n (ground (arith, ==→≡ m n y))))
  | inr d ↦ rw d (neighbours-append n c ts table h.1)
]

IsSortedFrom-weaken :
    (c : Option ℕ) (s : ℕ) (rows : List (ℕ × ℕ))
    → AtLeast c s
    → IsSortedFrom (some s) rows
    → IsSortedFrom c rows
IsSortedFrom-weaken c s [] h sorted = tt
IsSortedFrom-weaken none s ((r, t) ∷ rows) h sorted = (tt, sorted.1)
IsSortedFrom-weaken (some c) s ((r, t) ∷ rows) h sorted = (omega (arith, sorted.0), sorted.1)

IsOrdered-later :
    (c s : ℕ) (table : Table) → c < s → IsOrdered (some c) table → IsOrdered (some s) table
IsOrdered-later c s [] h o = tt
IsOrdered-later c s ((m, ts) ∷ table) h o = (omega (arith, o.0), IsOrdered-later c s table h o.1)

IsOrdered-append :
    (c s : ℕ) (ts : List ℕ) (table : Table)
    → c < s
    → IsOrdered (some s) table
    → IsOrdered (some s) (table ++ (c, ts) ∷ [])
IsOrdered-append c s ts [] h o = (h, tt)
IsOrdered-append c s ts ((m, us) ∷ table) h o = (o.0, IsOrdered-append c s ts table h o.1)

-- A database whose `INSERT` of a group, where it succeeds, adds a row at the end of a table.
module _ {S : Type 0} (insert : ℕ → List ℕ → S → Bool × S) (table : S → Table)
    (appends : (src : ℕ) (ts : List ℕ) (s : S)
      → (insert src ts s).0 ≡ true
      → table (insert src ts s).1 ≡ table s ++ (src, ts) ∷ []) where
  -- What is known of a node so far.
  abbrev seen : Pass S → ℕ → List ℕ
  seen p n = if is_current p.current n then p.buf else neighbours (table p.store) n

  flush_group-failed : (p : Pass S) → p.failed_groups ≤ (flush_group insert p).failed_groups
  unfolding flush_group
  flush_group-failed p = ground arith

  add_row-failed : (p : Pass S) (r : ℕ × ℕ) → p.failed_groups ≤ (add_row insert p r).failed_groups
  unfolding add_row flush_group
  add_row-failed p (s, t) = ground arith

  add_rows-failed :
      (rows : List (ℕ × ℕ)) (p : Pass S) → p.failed_groups ≤ (add_rows insert p rows).failed_groups
  unfolding add_rows
  add_rows-failed [] p = omega arith
  add_rows-failed (r ∷ rows) p =
      omega (arith, add_row-failed p r, add_rows-failed rows (add_row insert p r))

  abbrev pass : Option ℕ → List ℕ → S → ℕ → Pass S
  pass c buf s failed = record { current = c; buf = buf; store = s; failed_groups = failed }

  -- Flushing writes what is known.
  write_group-seen :
      (c n failed : ℕ) (buf : List ℕ) (s : S)
      → IsOrdered (some c) (table s)
      → (write_group insert (pass (some c) buf s failed) c buf).failed_groups ≡ 0
      → neighbours (table (write_group insert (pass (some c) buf s failed) c buf).store) n
        ≡ (if c == n then buf else neighbours (table s) n)
  write_group-seen c n failed [] s o ok = elim (Bool-cases (c == n)) [
    | inl y ↦
        rw y
          (neighbours-below n (table s) (subst (λ m. IsOrdered (some m) (table s)) (==→≡ c n y) o))
    | inr d ↦ rw d
  ]
  write_group-seen c n failed (t ∷ ts) s o ok = elim (Bool-cases (insert c (t ∷ ts) s).0) [
    | inl y ↦ rw y (
        ap (λ l. neighbours l n) (appends c (t ∷ ts) s y)
        ∙ neighbours-append n c (t ∷ ts) (table s) o)
    | inr d ↦ absurd (ground (arith, rw d at ok))
  ]

  flush_group-seen :
      (c : Option ℕ) (buf : List ℕ) (s : S) (failed n : ℕ)
      → IsOrdered c (table s)
      → (flush_group insert (pass c buf s failed)).failed_groups ≡ 0
      → neighbours (table (flush_group insert (pass c buf s failed)).store) n
        ≡ (if is_current c n then buf else neighbours (table s) n)
  unfolding flush_group
  flush_group-seen none buf s failed n o ok = refl
  flush_group-seen (some c) buf s failed n o ok = write_group-seen c n failed buf s o ok

  empty_table : (t : Table) → IsOrdered none t → t ≡ []
  empty_table [] o = refl
  empty_table ((m, ts) ∷ t) o = absurd (ground arith)

  -- What is flushed stands before what comes.
  flush_group-IsOrdered :
      (c : Option ℕ) (buf : List ℕ) (st : S) (failed s : ℕ)
      → IsOrdered c (table st)
      → AtLeast c s
      → is_current c s ≡ false
      → (flush_group insert (pass c buf st failed)).failed_groups ≡ 0
      → IsOrdered (some s) (table (flush_group insert (pass c buf st failed)).store)
  unfolding flush_group
  flush_group-IsOrdered none buf st failed s o h d ok =
      subst (IsOrdered (some s)) (sym (empty_table (table st) o)) tt
  flush_group-IsOrdered (some c) [] st failed s o h d ok =
      IsOrdered-later c s (table st) (ground arith) o
  flush_group-IsOrdered (some c) (t ∷ ts) st failed s o h d ok =
      elim (Bool-cases (insert c (t ∷ ts) st).0) [
        | inl y ↦ rw y (
            subst (IsOrdered (some s)) (sym (appends c (t ∷ ts) st y)) (
              IsOrdered-append c s (t ∷ ts) (table st) (ground arith)
                (IsOrdered-later c s (table st) (ground arith) o)))
        | inr n ↦ absurd (ground (arith, rw n at ok))
      ]

  -- A group that is ended was written, if no group failed in the end.
  flushed :
      (rows : List (ℕ × ℕ)) (p : Pass S) (s t : ℕ)
      → (flush_group insert (
          add_rows insert
            (push t (record (flush_group insert p) { current = some s; buf = [] }))
            rows)).failed_groups
        ≡ 0
      → (flush_group insert p).failed_groups ≡ 0
  flushed rows p s t ok =
      let q = push t (record (flush_group insert p) { current = some s; buf = [] }) in
      omega (arith, ok, add_rows-failed rows q, flush_group-failed (add_rows insert q rows))

  seen-push :
      (c : Option ℕ) (s t n : ℕ) (buf others rest : List ℕ)
      → is_current c s ≡ true
      → (if is_current c n then buf ++ t ∷ [] else others) ++ rest
        ≡ (if is_current c n then buf else others) ++ (if s == n then t ∷ rest else rest)
  seen-push none s t n buf others rest h = absurd (ground arith)
  seen-push (some c) s t n buf others rest h = elim (Bool-cases (s == n)) [
    | inl y ↦ rw (y, same_as c s n true h y) (append_assoc buf (t ∷ []) rest)
    | inr d ↦ rw (d, same_as c s n false h d)
  ]

  seen-fresh :
      (c : Option ℕ) (s : ℕ) (buf : List ℕ) (t : Table)
      → IsOrdered c t
      → AtLeast c s
      → is_current c s ≡ false
      → (if is_current c s then buf else neighbours t s) ≡ []
  unfolding neighbours
  seen-fresh none s buf t o h d = ap (λ l. neighbours l s) (empty_table t o)
  seen-fresh (some c) s buf t o h d =
      rw d (neighbours-below s t (IsOrdered-later c s t (ground arith) o))

  seen-next :
      (p : Pass S) (n s t : ℕ) (rest : List ℕ)
      → IsOrdered p.current (table p.store)
      → AtLeast p.current s
      → is_current p.current s ≡ false
      → (flush_group insert p).failed_groups ≡ 0
      → seen (push t (record (flush_group insert p) { current = some s; buf = [] })) n ++ rest
        ≡ seen p n ++ (if s == n then t ∷ rest else rest)
  seen-next p n s t rest o h d ok = elim (Bool-cases (s == n)) [
    | inl y ↦ rw y (
        ap (λ l. l ++ t ∷ rest)
          (sym (
            subst (λ m. seen p m ≡ []) (==→≡ s n y)
              (seen-fresh p.current s p.buf (table p.store) o h d))))
    | inr e ↦
        rw e (ap (λ l. l ++ rest) (flush_group-seen p.current p.buf p.store p.failed_groups n o ok))
  ]

  add_rows-seen :
      (rows : List (ℕ × ℕ)) (p : Pass S) (n : ℕ)
      → IsOrdered p.current (table p.store)
      → IsSortedFrom p.current rows
      → (flush_group insert (add_rows insert p rows)).failed_groups ≡ 0
      → neighbours (table (flush_group insert (add_rows insert p rows)).store) n
        ≡ seen p n ++ targets n rows
  unfolding add_rows add_row
  add_rows-seen [] p n o sorted ok =
      flush_group-seen p.current p.buf p.store p.failed_groups n o ok ∙ sym (append-nil (seen p n))
  add_rows-seen ((s, t) ∷ rows) p n o sorted ok = elim (Bool-cases (s == t)) [
    | inl loop ↦
        rw (loop, add_row)
          (add_rows-seen rows p n o (IsSortedFrom-weaken p.current s rows sorted.0 sorted.1)
            (rw (loop, add_row) at ok))
    | inr edge ↦ elim (Bool-cases (is_current p.current s)) [
      | inl same ↦
          rw (edge, same, add_row)
            (add_rows-seen rows (push t p) n o
                (IsSortedFrom-weaken p.current s rows sorted.0 sorted.1)
                (rw (edge, same, add_row) at ok)
              ∙ seen-push p.current s t n p.buf (neighbours (table p.store) n) (targets n rows)
                  same)
      | inr other ↦
          let ended = flushed rows p s t (rw (edge, other, add_row) at ok) in
          rw (edge, other, add_row)
            (add_rows-seen rows
                (push t (record (flush_group insert p) { current = some s; buf = [] })) n
                (flush_group-IsOrdered p.current p.buf p.store p.failed_groups s o sorted.0 other
                  ended)
                sorted.1 (rw (edge, other, add_row) at ok)
              ∙ seen-next p n s t (targets n rows) o sorted.0 other ended)
    ]
  ]

-- For edges in the order of their sources, an empty table, and a database whose `INSERT` adds a row at
-- the end if it succeeds: if every group was written, the row of a node holds the targets of its edges,
-- in order, without self-loops, and nothing else.
pub group_rows-targets :
    {S : Type 0} (insert : ℕ → List ℕ → S → Bool × S) (table : S → Table)
    → ((src : ℕ) (ts : List ℕ) (s : S)
        → (insert src ts s).0 ≡ true
        → table (insert src ts s).1 ≡ table s ++ (src, ts) ∷ [])
    → (s : S) (rows : List (ℕ × ℕ)) (n : ℕ) → table s ≡ []
    → IsSortedFrom none rows
    → (group_rows insert s rows).failed_groups ≡ 0
    → neighbours (table (group_rows insert s rows).store) n ≡ targets n rows
unfolding group_rows neighbours
group_rows-targets insert table appends s rows n cleared sorted ok =
    add_rows-seen insert table appends rows (start s) n (subst (IsOrdered none) (sym cleared) tt)
      sorted ok
    ∙ ap (λ t. neighbours t n ++ targets n rows) cleared
