-- ===== src/Task/SleepLock/Examples.antt =====
-- Two tasks at a sleep lock.
use tnix.Common.{ℕ, ◌≡◌, ◌≢◌, List, false, none, arith}
use tnix.Task.Sched.{State, Tasks}
use tnix.Task.Sched.Wake.{Sleeps}
use tnix.Task.SleepLock.{outside, chan, SleepLock, Step, Reach}
use tnix.Task.SleepLock.Exclusion.{IsHeldOnce, Reach-IsHeldOnce}
use tnix.Task.SleepLock.Lost.{start, held, Reach-held, wakeup_lost}

abbrev tasks : Tasks
tasks i = record {
  state = State.run;
  chan = none;
  pid = i;
  parent = 0;
  childs = List.[];
  exit_code = 0;
}

start-IsHeldOnce : IsHeldOnce (start tasks)
start-IsHeldOnce = record {
  held = λ i b. absurd (cc);
  one = λ i j b c. absurd (cc);
  owns = λ i e. absurd (cc);
  owned = λ i e. absurd (cc);
}

Reach-IsHeldOnce_example : IsHeldOnce (held tasks 4 5 (omega arith))
Reach-IsHeldOnce_example = Reach-IsHeldOnce start-IsHeldOnce (Reach-held tasks 4 5 (omega arith))

wakeup_lost_example :
    (s : SleepLock) × Reach (start tasks) s
    × (s.locked ≡ false)
    × Sleeps chan (s.tasks 4)
    × ((t : SleepLock) → Step s 4 t → ⊥)
    × ((i : ℕ) → i ≢ 4 → s.phase i ≡ outside)
wakeup_lost_example = wakeup_lost tasks 4 5 (omega arith)
