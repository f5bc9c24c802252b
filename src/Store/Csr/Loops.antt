-- ===== src/Store/Csr/Loops.antt =====
-- What the grouping loop leaves of the database.
use code_scope.Prelude.{
  ℕ, Bool, Option, none, some, List, [], ◌∷◌, ◌==◌, ◌≡◌, refl, ◌∙◌, inl, inr, Bool-cases,
}
use code_scope.Store.Csr.{
  Pass, start, write_group, flush_group, is_current, add_row, add_rows, group_rows,
}

-- What no `INSERT` of a group changes, the loop does not change.
module _ {S : Type 0} {X : Type 0} (insert : ℕ → List ℕ → S → Bool × S) (view : S → X)
    (keeps : (src : ℕ) (ts : List ℕ) (s : S) → view (insert src ts s).1 ≡ view s) where
  write_group_keeps :
      (p : Pass S) (src : ℕ) (ts : List ℕ) → view (write_group insert p src ts).store ≡ view p.store
  write_group_keeps p src [] = refl
  write_group_keeps p src (t ∷ ts) = elim (Bool-cases (insert src (t ∷ ts) p.store).0) [
    | inl y ↦ rw y (keeps src (t ∷ ts) p.store)
    | inr n ↦ rw n (keeps src (t ∷ ts) p.store)
  ]

  flush_group_from :
      (c : Option ℕ) (p : Pass S) → p.current ≡ c → view (flush_group insert p).store ≡ view p.store
  unfolding flush_group
  flush_group_from none p e = rw (e, flush_group) refl
  flush_group_from (some src) p e = rw (e, flush_group) (write_group_keeps p src p.buf)

  flush_group_keeps : (p : Pass S) → view (flush_group insert p).store ≡ view p.store
  flush_group_keeps p = flush_group_from p.current p refl

  add_row_keeps : (p : Pass S) (r : ℕ × ℕ) → view (add_row insert p r).store ≡ view p.store
  unfolding add_row
  add_row_keeps p (src, tgt) = elim (Bool-cases (src == tgt)) [
    | inl y ↦ rw (y, add_row) refl
    | inr n ↦ elim (Bool-cases (is_current p.current src)) [
      | inl y ↦ rw (n, y, add_row) refl
      | inr m ↦ rw (n, m, add_row) (flush_group_keeps p)
    ]
  ]

  add_rows_keeps :
      (rows : List (ℕ × ℕ)) (p : Pass S) → view (add_rows insert p rows).store ≡ view p.store
  unfolding add_rows
  add_rows_keeps [] p = refl
  add_rows_keeps (r ∷ rows) p = add_rows_keeps rows (add_row insert p r) ∙ add_row_keeps p r

  pub group_rows_keeps :
      (rows : List (ℕ × ℕ)) (s : S) → view (group_rows insert s rows).store ≡ view s
  unfolding group_rows
  group_rows_keeps rows s =
      flush_group_keeps (add_rows insert (start s) rows) ∙ add_rows_keeps rows (start s)
