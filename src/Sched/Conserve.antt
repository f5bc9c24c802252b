-- ===== src/Sched/Conserve.antt =====
-- The cores of the pool, of the workers and of the calls in progress, under any schedule.
use code_scope.Prelude.{
  ℕ, zero, suc, ◌+◌, ◌^◌, ◌<◌, ◌≡◌, refl, Option, none, some, List, [], ◌∷◌, arith,
}
use code_scope.Sched.Cas.{Pc, loading, swapping, returned, enter_grab, grab_step, return_cores}
use code_scope.Sched.Schedule.{
  Worker, Action, start, access, finish, give_back, act, World, act_at, run,
}

-- Cores that a call has taken from the pool and not yet handed to its worker.
abbrev pub in_flight : Option (ℕ × Pc) → ℕ
in_flight none = 0
in_flight (some (want, loading)) = 0
in_flight (some (want, swapping avail)) = 0
in_flight (some (want, returned taken)) = taken

abbrev pub owned : Worker → ℕ
owned w = w.held + in_flight w.call

abbrev pub owned_by : List Worker → ℕ
owned_by [] = 0
owned_by (w ∷ ws) = owned w + owned_by ws

unfoldable pub total : World → ℕ
total s = s.pool + owned_by s.workers

act-conserves :
    (a : Action) (pool : ℕ) (w : Worker)
    → pool + owned w < 2 ^ 32
    → (act a pool w).0 + owned (act a pool w).1 ≡ pool + owned w
unfolding act enter_grab grab_step return_cores
act-conserves (start want) pool w h = ground arith
act-conserves (access weak) pool w h = ground arith
act-conserves finish pool w h = ground arith
act-conserves (give_back n) pool w h = ground arith

act_at-conserves :
    (i : ℕ) (a : Action) (pool : ℕ) (ws : List Worker)
    → pool + owned_by ws < 2 ^ 32
    → (act_at i a pool ws).0 + owned_by (act_at i a pool ws).1 ≡ pool + owned_by ws
unfolding act_at
act_at-conserves i a pool [] h = refl
act_at-conserves zero a pool (w ∷ ws) h = omega (arith, act-conserves a pool w (omega arith))
act_at-conserves (suc i) a pool (w ∷ ws) h =
    omega (arith, act_at-conserves i a pool ws (omega arith))

-- Whatever the schedule of the workers, with swaps that fail spuriously or because another worker
-- came between, the cores in the pool and those that the workers own add up to what they were at
-- the start, if that total fits a `uint32_t`.
pub total-run :
    (steps : List (ℕ × Action)) (s : World) → total s < 2 ^ 32 → total (run steps s) ≡ total s
unfolding run total
total-run [] s h = refl
total-run ((i, a) ∷ rest) s h =
    let kept = act_at-conserves i a s.pool s.workers h in
    let (p, ws) = act_at i a s.pool s.workers in
    omega (arith, kept, total-run rest (record { pool = p; workers = ws }) (omega (arith, kept)))
