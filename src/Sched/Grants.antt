-- ===== src/Sched/Grants.antt =====
-- What a call of `grab_cores` returns.
use code_scope.Prelude.{
  ℕ, zero, suc, ◌-◌, ◌≤◌, ◌<◌, ◌≡◌, Bool, true, false, Option, none, some, List, [], ◌∷◌, All,
  arith, min,
}
use code_scope.Sched.Cas.{Pc, loading, swapping, returned, enter_grab, grab_step, return_cores}
use code_scope.Sched.Schedule.{
  Worker, Action, start, access, finish, give_back, act, World, act_at, run,
}

-- A call between its swap's load and the swap saw a pool that was not empty, and a call that ended
-- has at most what it asked for.
abbrev pub IsModest : Option (ℕ × Pc) → Type 0
IsModest none = Unit
IsModest (some (want, loading)) = 0 < want
IsModest (some (want, swapping avail)) = (0 < want) × (0 < avail)
IsModest (some (want, returned taken)) = taken ≤ want

abbrev pub HasModestCall : Worker → Type 0
HasModestCall w = IsModest w.call

act-HasModestCall :
    (a : Action) (pool : ℕ) (w : Worker) → HasModestCall w → HasModestCall (act a pool w).1
unfolding act enter_grab grab_step return_cores
act-HasModestCall (start want) pool w h = ground arith
act-HasModestCall (access weak) pool w h = ground arith
act-HasModestCall finish pool w h = ground arith
act-HasModestCall (give_back n) pool w h = ground arith

act_at-HasModestCall :
    (i : ℕ) (a : Action) (pool : ℕ) (ws : List Worker)
    → All HasModestCall ws
    → All HasModestCall (act_at i a pool ws).1
unfolding act_at
act_at-HasModestCall i a pool [] h = h
act_at-HasModestCall zero a pool (w ∷ ws) h = (act-HasModestCall a pool w h.0, h.1)
act_at-HasModestCall (suc i) a pool (w ∷ ws) h = (h.0, act_at-HasModestCall i a pool ws h.1)

-- Whatever the schedule, no call of `grab_cores` returns more cores than it asked for, and none
-- goes to its swap after it has read an empty pool.
pub run-HasModestCall :
    (steps : List (ℕ × Action)) (s : World)
    → All HasModestCall s.workers
    → All HasModestCall (run steps s).workers
unfolding run
run-HasModestCall [] s h = h
run-HasModestCall ((i, a) ∷ rest) s h =
    let (p, ws) = act_at i a s.pool s.workers in
    run-HasModestCall rest (record { pool = p; workers = ws })
      (act_at-HasModestCall i a s.pool s.workers h)

-- One round of the loop that no other worker interrupts.
abbrev round : ℕ → Bool → ℕ → ℕ × Pc
round want weak pool = let (p, pc) = grab_step want weak pool loading in grab_step want weak p pc

abbrev again : ℕ × Pc → (ℕ → ℕ × Pc) → ℕ × Pc
again (p, loading) go = go p
again (p, swapping avail) go = go p
again (p, returned taken) go = (p, returned taken)

-- A whole call that runs alone, after so many swaps that fail spuriously.
pub grab_alone : ℕ → ℕ → ℕ → ℕ × Pc
grab_alone zero want pool = round want true pool
grab_alone (suc n) want pool = again (round want false pool) (λ p. grab_alone n want p)

-- A call for at least one core that runs alone takes the smaller of what it asked for and what is
-- there, after any number of spurious failures.
pub grab_alone_lem :
    (failures want pool : ℕ)
    → 0 < want
    → grab_alone failures want pool ≡ (pool - min want pool, returned (min want pool))
unfolding grab_alone grab_step
grab_alone_lem zero want pool h = ground arith
grab_alone_lem (suc n) want pool h = ground (arith, grab_alone_lem n want pool)
