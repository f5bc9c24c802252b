-- ===== src/Sched/Tests.antt =====
-- Two workers and a pool of three cores.
use code_scope.Prelude.{ℕ, ◌≡◌, refl, true, none, List, [], ◌∷◌, All, arith}
use code_scope.Sched.Cas.{enter_grab, grab_step, return_cores, returned}
use code_scope.Sched.Schedule.{
  Worker, Action, start, access, finish, give_back, act, World, act_at, run,
}
use code_scope.Sched.Conserve.{total, total-run}
use code_scope.Sched.Grants.{HasModestCall, run-HasModestCall, grab_alone, grab_alone_lem}

abbrev idle : Worker
idle = record { held = 0; call = none }

abbrev pool_of_three : World
pool_of_three = record { pool = 3; workers = idle ∷ idle ∷ [] }

-- Both load the same value; the second worker's swap comes first, so the first one loads again.
abbrev race : List (ℕ × Action)
race =
    (0, start 2)
    ∷ (1, start 2)
    ∷ (0, access true)
    ∷ (1, access true)
    ∷ (1, access true)
    ∷ (0, access true)
    ∷ (0, access true)
    ∷ (0, access true)
    ∷ (0, finish)
    ∷ (1, finish)
    ∷ (1, give_back 1)
    ∷ []

race_ends : run race pool_of_three ≡ record {
  pool = 1;
  workers = record { held = 1; call = none } ∷ record { held = 1; call = none } ∷ [];
}
unfolding run act_at act enter_grab grab_step return_cores
race_ends = refl

total-run_example : total (run race pool_of_three) ≡ total pool_of_three
total-run_example = total-run race pool_of_three (unfold total in omega arith)

run-HasModestCall_example : All HasModestCall (run race pool_of_three).workers
run-HasModestCall_example = run-HasModestCall race pool_of_three (tt, (tt, tt))

grab_alone_example : grab_alone 4 2 3 ≡ (1, returned 2)
grab_alone_example = grab_alone_lem 4 2 3 (omega arith)
