-- ===== src/Store/Tests.antt =====
-- The grouping of a few edges, and a small database in memory.
use code_scope.Prelude.{
  ℕ, Bool, true, false, none, List, [], ◌∷◌, ◌++◌, ◌==◌, not, arith, ◌≡◌, refl, false≢true,
  Bool-cases, inl, inr, if◌then◌else◌,
}
use code_scope.Store.Csr.{Table, group_rows, neighbours, Database, build_csr}
use code_scope.Store.Csr.Sqlite.{Tables}
use code_scope.Store.Csr.Grouped.{IsSortedFrom, targets, group_rows-targets}

abbrev edges : List (ℕ × ℕ)
edges = (1, 2) ∷ (1, 1) ∷ (1, 3) ∷ (4, 2) ∷ []

abbrev reversed : List (ℕ × ℕ)
reversed = (1, 1) ∷ (2, 1) ∷ (2, 4) ∷ (3, 1) ∷ []

edges-IsSortedFrom : IsSortedFrom none edges
edges-IsSortedFrom = (tt, (ground arith, (ground arith, (ground arith, tt))))

-- The tables now, and at each open savepoint.
abbrev Memory : Type 0
Memory = Tables × List Tables

module _ (accepts : ℕ → Bool) where
  abbrev append_row : ℕ → List ℕ → Table → Bool × Table
  append_row src ts t = if accepts src then (true, t ++ (src, ts) ∷ []) else (false, t)

  abbrev roll_back : Memory → Bool × Memory
  roll_back (t, []) = (false, (t, []))
  roll_back (t, u ∷ us) = (true, (u, u ∷ us))

  abbrev close : Memory → Bool × Memory
  close (t, []) = (false, (t, []))
  close (t, u ∷ us) = (true, (t, us))

  abbrev insert_front : ℕ → List ℕ → Memory → Bool × Memory
  insert_front src ts m = (
    (append_row src ts m.0.forward).0,
    (record (m.0) { forward = (append_row src ts m.0.forward).1 }, m.1),
  )

  abbrev insert_back : ℕ → List ℕ → Memory → Bool × Memory
  insert_back src ts m = (
    (append_row src ts m.0.reverse).0,
    (record (m.0) { reverse = (append_row src ts m.0.reverse).1 }, m.1),
  )

  abbrev memory : Database Memory
  memory = record {
    savepoint = λ m. (true, (m.0, m.0 ∷ m.1));
    rollback = roll_back;
    release = close;
    delete_forward = λ m. (true, (record (m.0) { forward = [] }, m.1));
    delete_reverse = λ m. (true, (record (m.0) { reverse = [] }, m.1));
    select_prepared = λ m. true;
    insert_prepared = λ m. true;
    reverse_select_prepared = λ m. true;
    reverse_insert_prepared = λ m. true;
    insert_forward = insert_front;
    insert_reverse = insert_back;
  }

  abbrev now : Memory → Tables
  now m = m.0

  abbrev saved : Memory → List Tables
  saved m = m.1

  append_row_added :
      (src : ℕ) (ts : List ℕ) (t : Table)
      → (append_row src ts t).0 ≡ true
      → (append_row src ts t).1 ≡ t ++ (src, ts) ∷ []
  append_row_added src ts t h = elim (Bool-cases (accepts src)) [
    | inl y ↦ rw y refl
    | inr n ↦ absurd (false≢true (rw n at h))
  ]

abbrev any_node : ℕ → Bool
any_node src = true

-- The group of node 4 cannot be written.
abbrev not_four : ℕ → Bool
not_four src = not (src == 4)

abbrev old_memory : Memory
old_memory = (record { forward = (7, 8 ∷ []) ∷ []; reverse = (8, 7 ∷ []) ∷ [] }, [])

abbrev empty_memory : Memory
empty_memory = (record { forward = []; reverse = [] }, [])

edges_written : (group_rows (insert_front any_node) empty_memory edges).failed_groups ≡ 0
unfolding group_rows
edges_written = refl

group_rows-targets_example :
    neighbours (group_rows (insert_front any_node) empty_memory edges).store.0.forward 1
    ≡ targets 1 edges
group_rows-targets_example =
    group_rows-targets (insert_front any_node) (λ m. m.0.forward)
      (λ src ts m h. append_row_added any_node src ts m.0.forward h) empty_memory edges 1 refl
      edges-IsSortedFrom edges_written

four_fails : (build_csr (memory not_four) edges reversed old_memory).0 ≡ false
unfolding build_csr
four_fails = refl
