-- ===== src/Store/Csr.antt =====
-- `GraphStore::buildCSR` of engine/src/store/store_graph_csr.cpp, for the rows of one project. SQLite is
-- a parameter: what its calls return and what they make of its state `S`. Node ids are below 2^63, so
-- that none is negative as an `int64_t`.
use code_scope.Prelude.{
  ℕ, suc, ◌+◌, Bool, true, false, not, Option, none, some, List, [], ◌∷◌, ◌++◌, ltb, ◌==◌,
  if◌then◌else◌,
}
pub mod Loops
pub mod Grouped
pub mod Sqlite
pub mod Atomic
pub mod Published

-- The rows of `adjacency`, or of `adjacency_rev`: a node and its neighbours.
abbrev pub Table : Type 0
Table = List (ℕ × List ℕ)

-- The variables of the loop, with the state of the database; `current` is `none` while `current_src`
-- is -1.
pub record Pass (S : Type 0) : Type 0 where
  pub current : Option ℕ
  pub buf : List ℕ
  pub store : S
  pub failed_groups : ℕ

abbrev pub is_current : Option ℕ → ℕ → Bool
is_current none src = false
is_current (some c) src = c == src

module _ {S : Type 0} where
  abbrev pub start : S → Pass S
  start s = record { current = none; buf = []; store = s; failed_groups = 0 }

  abbrev pub push : ℕ → Pass S → Pass S
  push t p = record p { buf = p.buf ++ t ∷ [] }

module _ {S : Type 0} (insert : ℕ → List ℕ → S → Bool × S) where
  -- A group is written, or counted as failed.
  abbrev pub write_group : Pass S → ℕ → List ℕ → Pass S
  write_group p src [] = p
  write_group p src (t ∷ ts) =
      if (insert src (t ∷ ts) p.store).0
      then record p { store = (insert src (t ∷ ts) p.store).1 }
      else record p { store = (insert src (t ∷ ts) p.store).1; failed_groups = suc p.failed_groups }

  unfoldable pub flush_group : Pass S → Pass S
  flush_group p = elim p.current [ none ↦ p | some src ↦ write_group p src p.buf ]

  -- One round of the loop; a self-loop is skipped.
  unfoldable pub add_row : Pass S → ℕ × ℕ → Pass S
  unfolding flush_group
  add_row p (src, tgt) =
      if src == tgt
      then p
      else if is_current p.current src
      then push tgt p
      else push tgt (record (flush_group p) { current = some src; buf = [] })

  unfoldable pub add_rows : Pass S → List (ℕ × ℕ) → Pass S
  unfolding add_row
  add_rows p [] = p
  add_rows p (r ∷ rows) = add_rows (add_row p r) rows

  unfoldable pub group_rows : S → List (ℕ × ℕ) → Pass S
  unfolding add_rows
  group_rows s rows = flush_group (add_rows (start s) rows)

-- The same loop over targets and their sources, for `adjacency_rev`.
unfoldable pub group_reverse :
    {S : Type 0} → (ℕ → List ℕ → S → Bool × S) → S → List (ℕ × ℕ) → Pass S
unfolding group_rows
group_reverse insert s rows = group_rows insert s rows

-- The calls of SQLite: `SAVEPOINT`, `ROLLBACK TO`, `RELEASE`, the two `DELETE`s, the `INSERT`s of one
-- group, each with whether it succeeds, and whether the statements of a pass can be prepared.
pub record Database (S : Type 0) : Type 0 where
  pub savepoint : S → Bool × S
  pub rollback : S → Bool × S
  pub release : S → Bool × S
  pub delete_forward : S → Bool × S
  pub delete_reverse : S → Bool × S
  pub select_prepared : S → Bool
  pub insert_prepared : S → Bool
  pub reverse_select_prepared : S → Bool
  pub reverse_insert_prepared : S → Bool
  pub insert_forward : ℕ → List ℕ → S → Bool × S
  pub insert_reverse : ℕ → List ℕ → S → Bool × S

module _ {S : Type 0} (db : Database S) where
  -- `ROLLBACK TO` and `RELEASE` after a failure; neither result is looked at.
  unfoldable pub undo : S → S
  undo s = (db.release (db.rollback s).1).1

  unfoldable pub publish : ℕ → S → Bool × S
  unfolding undo
  publish failed s =
      if ltb 0 failed
      then (false, undo s)
      else if (db.release s).0
      then (true, (db.release s).1)
      else (false, undo (db.release s).1)

  -- The pass for `adjacency_rev`; the result of the `DELETE` is not looked at.
  unfoldable pub build_reverse : List (ℕ × ℕ) → ℕ → S → Bool × S
  unfolding group_reverse publish undo
  build_reverse reversed failed s =
      let cleared = (db.delete_reverse s).1 in
      let p = group_reverse db.insert_reverse cleared reversed in
      if not (db.reverse_select_prepared cleared)
      then (false, undo cleared)
      else if not (db.reverse_insert_prepared cleared)
      then (false, undo cleared)
      else publish (failed + p.failed_groups) p.store

  -- The pass for `adjacency`; the result of the `DELETE` is not looked at.
  unfoldable pub build_forward : List (ℕ × ℕ) → List (ℕ × ℕ) → S → Bool × S
  unfolding group_rows build_reverse undo
  build_forward edges reversed s =
      let cleared = (db.delete_forward s).1 in
      let p = group_rows db.insert_forward cleared edges in
      if not (db.select_prepared cleared)
      then (false, undo cleared)
      else if not (db.insert_prepared cleared)
      then (false, undo cleared)
      else build_reverse reversed p.failed_groups p.store

  -- The result and the state afterwards, for the rows of the two queries.
  unfoldable pub build_csr : List (ℕ × ℕ) → List (ℕ × ℕ) → S → Bool × S
  unfolding build_forward
  build_csr edges reversed s =
      if not (db.savepoint s).0
      then (false, (db.savepoint s).1)
      else build_forward edges reversed (db.savepoint s).1

-- `getCalleeIds`: the neighbours in the row of a node.
unfoldable pub neighbours : Table → ℕ → List ℕ
neighbours [] n = []
neighbours ((m, ts) ∷ table) n = if m == n then ts else neighbours table n
