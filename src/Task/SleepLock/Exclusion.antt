-- ===== src/Task/SleepLock/Exclusion.antt =====
-- At most one task holds a sleep lock.
use tnix.Common.{ℕ, ◌≡◌, ◌≢◌, subst, refl, ap, Bool, true, false, none, some, arith}
use tnix.Util.Spin.{update}
use tnix.Task.Sched.{Tasks}
use tnix.Task.SleepLock.{
  Phase, outside, trying, failed, asleep, taken, inside, leaving, waking, SleepLock, get_begin,
  get_try, get_sleep, get_resume, get_own, put_begin, put_release, put_wakeup, Step, begin, try,
  doze, resume, own, put, release, wake, Reach, here, next,
}

-- From the exchange that takes the lock to the store that releases it.
abbrev pub holds : Phase → Bool
holds outside = false
holds trying = false
holds failed = false
holds asleep = false
holds taken = true
holds inside = true
holds leaving = true
holds waking = false

pub record IsHeldOnce (s : SleepLock) : Type 0 where
  pub held : (i : ℕ) → holds (s.phase i) ≡ true → s.locked ≡ true
  pub one : (i j : ℕ) → holds (s.phase i) ≡ true → holds (s.phase j) ≡ true → i ≡ j
  pub owns : (i : ℕ) → s.phase i ≡ inside → s.task ≡ some i
  pub owned : (i : ℕ) → s.task ≡ some i → s.phase i ≡ inside

module _ {s : SleepLock} (v : IsHeldOnce s) (i : ℕ) where
  -- A step from one phase outside the lock to another.
  aside-IsHeldOnce :
      (q : Phase) (w : Tasks)
      → holds (s.phase i) ≡ false
      → holds q ≡ false
      → IsHeldOnce (record s { phase = update s.phase i q; tasks = w })
  aside-IsHeldOnce q w p z = record {
    held = λ j b. ground (arith, v.held j);
    one = λ j k b c. ground (arith, v.one j k);
    owns = λ j x. ground (arith, v.owns j, outside_inside q z);
    owned = λ j x. ground (arith, v.owned j);
  }
    where
      outside_inside : (q : Phase) → holds q ≡ false → q ≢ inside
      outside_inside q z e = cc (z, ap holds e)

  try-IsHeldOnce : s.phase i ≡ trying → IsHeldOnce (get_try s i)
  unfolding get_try
  try-IsHeldOnce p = record {
    held = λ j b. refl;
    one = λ j k b c. ground (arith, v.held j, v.held k, v.one j k);
    owns = λ j e. ground (arith, v.owns j);
    owned = λ j e. ground (arith, v.owned j);
  }

  own-IsHeldOnce : s.phase i ≡ taken → IsHeldOnce (get_own s i)
  unfolding get_own
  own-IsHeldOnce p = record {
    held = λ j b. ground (arith, v.held j, v.held i);
    one = λ j k b c. ground (arith, v.one j k, v.one i k, v.one j i);
    owns = λ j e. ground (arith, v.owns j, v.one i j);
    owned = λ j e. ground (arith, v.owned j);
  }

  put-IsHeldOnce :
      s.phase i ≡ inside → IsHeldOnce (record s { task = none; phase = update s.phase i leaving })
  put-IsHeldOnce p = record {
    held = λ j b. ground (arith, v.held j, v.held i);
    one = λ j k b c. ground (arith, v.one j k, v.one i k, v.one j i);
    owns = λ j e. ground (arith, v.owns j, v.one i j);
    owned = λ j e. ground (arith, v.owned j);
  }

  release-IsHeldOnce : s.phase i ≡ leaving → IsHeldOnce (put_release s i)
  unfolding put_release
  release-IsHeldOnce p = record {
    held = λ j b. ground (arith, v.held j, v.held i, v.one i j);
    one = λ j k b c. ground (arith, v.one j k);
    owns = λ j e. ground (arith, v.owns j);
    owned = λ j e. ground (arith, v.owned j);
  }

begin-eq :
    (s : SleepLock) (i : ℕ) {t : SleepLock}
    → get_begin s i ≡ some t
    → record s { phase = update s.phase i trying } ≡ t
unfolding get_begin
begin-eq s i e = ground arith

put-eq :
    (s : SleepLock) (i : ℕ) {t : SleepLock}
    → put_begin s i ≡ some t
    → record s { task = none; phase = update s.phase i leaving } ≡ t
unfolding put_begin
put-eq s i e = ground arith

Step-IsHeldOnce : {s : SleepLock} (i : ℕ) {t : SleepLock} → Step s i t → IsHeldOnce s → IsHeldOnce t
unfolding get_sleep get_resume put_wakeup
Step-IsHeldOnce {s} i (begin p e) v =
    subst IsHeldOnce (begin-eq s i e) (aside-IsHeldOnce v i trying s.tasks (ap holds p) refl)
Step-IsHeldOnce i (try p) v = try-IsHeldOnce v i p
Step-IsHeldOnce {s} i (doze p) v =
    aside-IsHeldOnce v i asleep (get_sleep s i).tasks (ap holds p) refl
Step-IsHeldOnce {s} i (resume p r) v =
    aside-IsHeldOnce v i trying (get_resume s i).tasks (ap holds p) refl
Step-IsHeldOnce i (own p) v = own-IsHeldOnce v i p
Step-IsHeldOnce {s} i (put p e) v = subst IsHeldOnce (put-eq s i e) (put-IsHeldOnce v i p)
Step-IsHeldOnce i (release p) v = release-IsHeldOnce v i p
Step-IsHeldOnce {s} i (wake p) v =
    aside-IsHeldOnce v i outside (put_wakeup s i).tasks (ap holds p) refl

-- The sleep lock's invariant holds in every state that the tasks reach, in any order of their
-- steps, sleeps and wake-ups, from a state where it holds. It says that a task between taking the
-- lock and releasing it has the lock set, that there is at most one such task, and that the lock
-- names exactly the task in the critical section.
pub Reach-IsHeldOnce : {s t : SleepLock} → IsHeldOnce s → Reach s t → IsHeldOnce t
Reach-IsHeldOnce v here = v
Reach-IsHeldOnce v (next r i st) = Step-IsHeldOnce i st (Reach-IsHeldOnce v r)
