-- ===== src/Store/Csr/Sqlite.antt =====
-- What `buildCSR` relies on of SQLite, as its documentation of savepoints states it.
use code_scope.Prelude.{ℕ, true, false, List, [], ◌∷◌, ◌++◌, ◌≡◌}
use code_scope.Store.Csr.{Table, Database}

-- The two tables, for the rows of the project.
pub record Tables : Type 0 where
  pub forward : Table
  pub reverse : Table

-- `tables` is what a state holds, and `saved` what it held at each open savepoint, the innermost first.
module _ {S : Type 0} (db : Database S) (tables : S → Tables) (saved : S → List Tables) where
  -- A savepoint remembers the tables; going back to it brings them back and leaves it open; releasing
  -- it closes it, and a release or a savepoint that fails changes nothing. The other calls leave the
  -- savepoints.
  pub record IsTransactional : Type 0 where
    pub savepoint_opens :
        (s : S) → (db.savepoint s).0 ≡ true → saved (db.savepoint s).1 ≡ tables s ∷ saved s
    pub savepoint_fails :
        (s : S) → (db.savepoint s).0 ≡ false → tables (db.savepoint s).1 ≡ tables s
    pub rollback_restores :
        (s : S) (t : Tables) (ts : List Tables) → saved s ≡ t ∷ ts → tables (db.rollback s).1 ≡ t
    pub release_keeps : (s : S) → tables (db.release s).1 ≡ tables s
    pub release_closes :
        (s : S) (t : Tables) (ts : List Tables)
        → saved s ≡ t ∷ ts
        → (db.release s).0 ≡ true
        → saved (db.release s).1 ≡ ts
    pub release_fails : (s : S) → (db.release s).0 ≡ false → saved (db.release s).1 ≡ saved s
    pub delete_forward_saved : (s : S) → saved (db.delete_forward s).1 ≡ saved s
    pub delete_reverse_saved : (s : S) → saved (db.delete_reverse s).1 ≡ saved s
    pub insert_forward_saved :
        (src : ℕ) (ts : List ℕ) (s : S) → saved (db.insert_forward src ts s).1 ≡ saved s
    pub insert_reverse_saved :
        (src : ℕ) (ts : List ℕ) (s : S) → saved (db.insert_reverse src ts s).1 ≡ saved s

module _ {S : Type 0} (db : Database S) (tables : S → Tables) where
  -- A `DELETE` that succeeds empties its table, an `INSERT` that succeeds adds its row, and neither
  -- changes the other table.
  pub record IsStoring : Type 0 where
    pub forward_cleared :
        (s : S) → (db.delete_forward s).0 ≡ true → (tables (db.delete_forward s).1).forward ≡ []
    pub reverse_cleared :
        (s : S) → (db.delete_reverse s).0 ≡ true → (tables (db.delete_reverse s).1).reverse ≡ []
    pub forward_kept : (s : S) → (tables (db.delete_reverse s).1).forward ≡ (tables s).forward
    pub forward_row :
        (src : ℕ) (ts : List ℕ) (s : S)
        → (db.insert_forward src ts s).0 ≡ true
        → (tables (db.insert_forward src ts s).1).forward ≡ (tables s).forward ++ (src, ts) ∷ []
    pub reverse_row :
        (src : ℕ) (ts : List ℕ) (s : S)
        → (db.insert_reverse src ts s).0 ≡ true
        → (tables (db.insert_reverse src ts s).1).reverse ≡ (tables s).reverse ++ (src, ts) ∷ []
    pub forward_row_kept :
        (src : ℕ) (ts : List ℕ) (s : S)
        → (tables (db.insert_reverse src ts s).1).forward ≡ (tables s).forward
