-- ===== src/Store/Csr/Atomic.antt =====
-- `buildCSR` where it returns false.
use code_scope.Prelude.{Bool, true, false, List, ◌≡◌}
use code_scope.Store.Csr.{Database}
use code_scope.Store.Csr.Sqlite.{Tables, IsTransactional}

module _ {S : Type 0} (db : Database S) (tables : S → Tables) (saved : S → List Tables)
    (sql : IsTransactional db tables saved) where
  -- A result that is false comes with the tables of the savepoint, and one that is true with the
  -- savepoint closed.
  abbrev IsAtomic : Tables → List Tables → Bool × S → Type 0
  IsAtomic t ts (done, s) = (done ≡ false → tables s ≡ t) × (done ≡ true → saved s ≡ ts)
