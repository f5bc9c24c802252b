-- ===== src/Store/Csr/Published.antt =====
-- `buildCSR` where it returns true.
use code_scope.Prelude.{ℕ, List, ◌≡◌}
use code_scope.Store.Csr.{neighbours}
use code_scope.Store.Csr.Grouped.{targets}
use code_scope.Store.Csr.Sqlite.{Tables}

-- The rows of both tables hold the neighbours of every node, without self-loops.
abbrev pub IsAdjacency : List (ℕ × ℕ) → List (ℕ × ℕ) → Tables → Type 0
IsAdjacency edges reversed t =
    ((n : ℕ) → neighbours t.forward n ≡ targets n edges)
    × ((n : ℕ) → neighbours t.reverse n ≡ targets n reversed)
