-- ===== src/Task/SleepLock.antt =====
-- kernel/util/sleeplock.c, with the tasks that sleep for the lock. A task's steps are those that other
-- tasks can see; between two of them any other task may make its own.
use tnix.Common.{ℕ, ◌≡◌, Bool, true, false, ◌&&◌, Option, none, some, if◌then◌else◌, ◌==◌}
use tnix.Util.Spin.{update, is_hart}
use tnix.Task.Sched.{State, Chan, Task, Tasks, sleep_begin, sleep_end, wakeup}
pub mod Exclusion
pub mod Lost
mod Examples

-- Where a task stands with the lock: outside; about to exchange `locked`; past an exchange that found it
-- set, but before `sleep`; asleep; past the exchange that took it, but before `lock->task = mytask()`; in
-- the critical section; past `lock->task = NULL`; past the release, but before `wakeup`.
pub data Phase : Type 0 where
  outside trying failed asleep taken inside leaving waking : Phase

pub record SleepLock : Type 0 where
  pub locked : Bool
  pub task : Option ℕ
  pub phase : ℕ → Phase
  pub tasks : Tasks

-- The lock's address.
abbrev pub chan : Chan
chan = Chan.address 0

unfoldable pub sleep_holding : SleepLock → ℕ → Bool
sleep_holding s i = s.locked && is_hart i s.task

-- `sleep_get`, up to its loop; `none` is the panic.
unfoldable pub get_begin : SleepLock → ℕ → Option SleepLock
unfolding sleep_holding
get_begin s i =
    if sleep_holding s i then none else some (record s { phase = update s.phase i trying })

-- One `__sync_lock_test_and_set`.
unfoldable pub get_try : SleepLock → ℕ → SleepLock
get_try s i = record s {
  locked = true;
  phase = update s.phase i (if s.locked then failed else taken);
}

-- The call of `sleep`, and the return from it.
unfoldable pub get_sleep : SleepLock → ℕ → SleepLock
unfolding sleep_begin
get_sleep s i = record s {
  phase = update s.phase i asleep;
  tasks = update s.tasks i (sleep_begin chan (s.tasks i));
}

unfoldable pub get_resume : SleepLock → ℕ → SleepLock
unfolding sleep_end
get_resume s i = record s {
  phase = update s.phase i trying;
  tasks = update s.tasks i (record (sleep_end (s.tasks i)) { state = State.run });
}

unfoldable pub get_own : SleepLock → ℕ → SleepLock
get_own s i = record s { task = some i; phase = update s.phase i inside }

-- `sleep_put`, up to the barrier; `none` is the panic.
unfoldable pub put_begin : SleepLock → ℕ → Option SleepLock
unfolding sleep_holding
put_begin s i =
    if sleep_holding s i
    then some (record s { task = none; phase = update s.phase i leaving })
    else none

unfoldable pub put_release : SleepLock → ℕ → SleepLock
put_release s i = record s { locked = false; phase = update s.phase i waking }

unfoldable pub put_wakeup : SleepLock → ℕ → SleepLock
unfolding wakeup
put_wakeup s i = record s { phase = update s.phase i outside; tasks = wakeup i chan s.tasks }

-- A step of task `i`. A sleeper goes on once it is ready and scheduled.
pub data Step (s : SleepLock) (i : ℕ) : SleepLock → Type 0 where
  begin : {t : SleepLock} → s.phase i ≡ outside → get_begin s i ≡ some t → Step s i t
  try : s.phase i ≡ trying → Step s i (get_try s i)
  doze : s.phase i ≡ failed → Step s i (get_sleep s i)
  resume : s.phase i ≡ asleep → (s.tasks i).state ≡ State.ready → Step s i (get_resume s i)
  own : s.phase i ≡ taken → Step s i (get_own s i)
  put : {t : SleepLock} → s.phase i ≡ inside → put_begin s i ≡ some t → Step s i t
  release : s.phase i ≡ leaving → Step s i (put_release s i)
  wake : s.phase i ≡ waking → Step s i (put_wakeup s i)

pub data Reach (s : SleepLock) : SleepLock → Type 0 where
  here : Reach s s
  next : {t u : SleepLock} → Reach s t → (i : ℕ) → Step t i u → Reach s u
