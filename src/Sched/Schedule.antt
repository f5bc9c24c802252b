-- ===== src/Sched/Schedule.antt =====
-- Worker processes over one pool: each performs one atomic access at a time, in any order.
use code_scope.Prelude.{
  ℕ, zero, suc, ◌+◌, ◌-◌, Bool, Option, none, some, List, [], ◌∷◌, leb, if◌then◌else◌,
}
use code_scope.Sched.Cas.{Pc, loading, swapping, returned, enter_grab, grab_step, return_cores}

-- A worker process: the cores it holds, and its call of `grab_cores` in progress with its request.
pub record Worker : Type 0 where
  pub held : ℕ
  pub call : Option (ℕ × Pc)

pub data Action : Type 0 where
  start : ℕ → Action
  access : Bool → Action
  finish : Action
  give_back : ℕ → Action

-- The step of a call in progress: the loop goes on, or its result is handed to the worker.
abbrev resume : Bool → ℕ → Worker → ℕ × Pc → ℕ × Worker
resume weak pool w (want, pc) =
    let (pool', pc') = grab_step want weak pool pc in (pool', record w { call = some (want, pc') })

abbrev collect : ℕ → Worker → ℕ × Pc → ℕ × Worker
collect pool w (want, loading) = (pool, w)
collect pool w (want, swapping avail) = (pool, w)
collect pool w (want, returned taken) = (pool, record { held = w.held + taken; call = none })

abbrev pool_of : ℕ → Option ℕ → ℕ
pool_of old none = old
pool_of old (some p) = p

-- An action that the worker's position does not allow changes nothing. A worker returns only
-- cores that it holds, as the comment on `grab_cores` requires.
unfoldable pub act : Action → ℕ → Worker → ℕ × Worker
act (start want) pool w = elim w.call [
  | none ↦ (pool, record w { call = some (want, enter_grab (some pool) want) })
  | some c ↦ (pool, w)
]
act (access weak) pool w = elim w.call [ none ↦ (pool, w) | some c ↦ resume weak pool w c ]
act finish pool w = elim w.call [ none ↦ (pool, w) | some c ↦ collect pool w c ]
act (give_back n) pool w =
    if leb n w.held
    then (pool_of pool (return_cores (some pool) n), record w { held = w.held - n })
    else (pool, w)

pub record World : Type 0 where
  pub pool : ℕ
  pub workers : List Worker

-- The worker at index `i` acts.
unfoldable pub act_at : ℕ → Action → ℕ → List Worker → ℕ × List Worker
act_at i a pool [] = (pool, [])
act_at zero a pool (w ∷ ws) = let (p, w') = act a pool w in (p, w' ∷ ws)
act_at (suc i) a pool (w ∷ ws) = let (p, rest) = act_at i a pool ws in (p, w ∷ rest)

-- A schedule names, for each step, the worker and its action.
unfoldable pub run : List (ℕ × Action) → World → World
run [] s = s
run ((i, a) ∷ rest) s =
    let (p, ws) = act_at i a s.pool s.workers in run rest (record { pool = p; workers = ws })
