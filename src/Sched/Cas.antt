-- ===== src/Sched/Cas.antt =====
-- `grab_cores` and `return_cores`: the compare-and-swap loop over `available_cores`, one atomic
-- access at a time. Other workers run between two accesses of the loop.
use code_scope.Prelude.{ℕ, ◌+◌, ◌-◌, ◌%◌, ◌^◌, Bool, Option, none, some, ◌==◌, if◌then◌else◌, min}

-- Where one call of `grab_cores` stands.
pub data Pc : Type 0 where
  loading : Pc
  swapping : ℕ → Pc
  returned : ℕ → Pc

-- The call's entry: static mode (no shared state) and a request for nothing return 0 at once.
unfoldable pub enter_grab : Option ℕ → ℕ → Pc
enter_grab none max_want = returned 0
enter_grab (some pool) max_want = if max_want == 0 then returned 0 else loading

-- One atomic access of the loop: the load, or the swap, which may fail spuriously (`weak` is false
-- in such a round). The new pool and the new position.
unfoldable pub grab_step : ℕ → Bool → ℕ → Pc → ℕ × Pc
grab_step max_want weak pool loading = (pool, if pool == 0 then returned 0 else swapping pool)
grab_step max_want weak pool (swapping avail) =
    let take = min max_want avail in
    if pool == avail
    then (if weak then (avail - take, returned take) else (pool, loading))
    else (pool, loading)
grab_step max_want weak pool (returned taken) = (pool, returned taken)

-- `fetch_add` on a `uint32_t`; no effect in static mode or for a count of 0.
unfoldable pub return_cores : Option ℕ → ℕ → Option ℕ
return_cores none count = none
return_cores (some pool) count = if count == 0 then some pool else some ((pool + count) % 2 ^ 32)
