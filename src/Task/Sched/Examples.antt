-- ===== src/Task/Sched/Examples.antt =====
-- A family: task 1 waits for its child 2, which has the child 3.
use tnix.Common.{
  ℕ, zero, suc, ◌<◌, ◌≡◌, ◌≢◌, refl, List, [], ◌∷◌, false, Option, none, some, if◌then◌else◌, ◌==◌,
  arith,
}
use tnix.Task.Sched.{State, is_free, Chan, Task, Tasks, sys_exit, sys_fork, sys_wait, reaps}
use tnix.Task.Sched.Fork.{FirstFree, sys_fork_lem}
use tnix.Task.Sched.Family.{sys_wait-sys_exit, sys_exit_wakes}

abbrev member : State → Option Chan → ℕ → ℕ → List ℕ → Task
member s c pid parent childs = record {
  state = s;
  chan = c;
  pid = pid;
  parent = parent;
  childs = childs;
  exit_code = 0;
}

abbrev family : Tasks
family i =
    if i == 0
    then member State.sleep (some (Chan.childs_of 0)) 1 0 (1 ∷ [])
    else if i == 1
    then member State.sleep (some (Chan.childs_of 1)) 2 0 (4 ∷ 2 ∷ [])
    else if i == 2
    then member State.run none 3 1 (3 ∷ [])
    else if i == 3
    then member State.ready none 4 2 []
    else if i == 4
    then member State.ready none 5 1 []
    else member State.free none 0 0 []

sys_wait-sys_exit_example :
    (ts' : Tasks) × (sys_wait 1 (sys_exit 2 7 family) ≡ reaps 3 7 ts')
    × ((ts' 2).state ≡ State.free)
    × ((ts' 1).childs ≡ 4 ∷ [])
sys_wait-sys_exit_example =
    sys_wait-sys_exit family 1 2 7 (4 ∷ []) [] (omega arith) refl refl (omega arith) (omega arith)
      (refl, tt)

sys_exit_wakes_example : (sys_exit 2 7 family 1).state ≡ State.ready
sys_exit_wakes_example =
    sys_exit_wakes family 1 2 7 (omega arith) (omega arith) refl (omega arith)
      (record { asleep = refl; on = refl })

exit_adopts : (sys_exit 2 7 family 0).childs ≡ 1 ∷ 3 ∷ []
unfolding sys_exit
exit_adopts = refl

fork_run : (ts : Tasks) × (sys_fork 9 2 family ≡ some (9, ts)) × ((ts 2).childs ≡ 3 ∷ 5 ∷ [])
unfolding sys_fork
fork_run = (_, refl, refl)

family-FirstFree : FirstFree family 0 5
family-FirstFree = record { behind = omega arith; free = refl; before = λ j l u. taken j u }
  where
    taken : (j : ℕ) → j < 5 → is_free (family j).state ≡ false
    taken zero u = refl
    taken (suc zero) u = refl
    taken (suc (suc zero)) u = refl
    taken (suc (suc (suc zero))) u = refl
    taken (suc (suc (suc (suc zero)))) u = refl
    taken (suc (suc (suc (suc (suc j))))) u = absurd (omega arith)

sys_fork_lem_example :
    (ts' : Tasks) × (sys_fork 9 2 family ≡ some (9, ts'))
    × ((ts' 5).state ≡ State.ready)
    × ((ts' 5).pid ≡ 9)
    × ((ts' 5).parent ≡ 2)
    × ((ts' 5).childs ≡ [])
    × ((ts' 2).childs ≡ 3 ∷ 5 ∷ [])
    × ((ts' 2).state ≡ State.run)
    × ((j : ℕ) → j ≢ 5 → j ≢ 2 → ts' j ≡ family j)
sys_fork_lem_example = sys_fork_lem 9 2 family 5 family-FirstFree (omega arith) (omega arith)
