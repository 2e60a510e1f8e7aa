-- ===== src/Task/SleepLock/Lost.antt =====
-- A wake-up that is lost: `sleep_get` finds the lock taken, and calls `sleep` with no lock held.
use tnix.Common.{ℕ, ◌≡◌, ◌≢◌, refl, sym, ◌∙◌, true, false, none, some, arith, eq→==, ne→not_==}
use tnix.Util.Spin.{update}
use tnix.Task.Sched.{Tasks}
use tnix.Task.Sched.Wake.{Sleeps}
use tnix.Task.SleepLock.{
  Phase, outside, trying, failed, asleep, taken, inside, leaving, waking, chan, SleepLock,
  get_begin, get_try, get_sleep, get_own, put_begin, put_release, put_wakeup, Step, begin, try,
  doze, resume, own, put, release, wake, Reach, here, next,
}

-- All tasks run, and the lock is free.
abbrev pub start : Tasks → SleepLock
start ts = record { locked = false; task = none; phase = λ i. outside; tasks = ts }

-- A task that sleeps makes no step of its own.
pub asleep_stays :
    (s : SleepLock) (i : ℕ)
    → s.phase i ≡ asleep
    → Sleeps chan (s.tasks i)
    → (t : SleepLock) → Step s i t
    → ⊥
asleep_stays s i p z t (begin e g) = absurd (cc)
asleep_stays s i p z t (try e) = absurd (cc)
asleep_stays s i p z t (doze e) = absurd (cc)
asleep_stays s i p z t (resume e r) = absurd (cc (z.asleep))
asleep_stays s i p z t (own e) = absurd (cc)
asleep_stays s i p z t (put e g) = absurd (cc)
asleep_stays s i p z t (release e) = absurd (cc)
asleep_stays s i p z t (wake e) = absurd (cc)

update_self : (f : ℕ → Phase) (i : ℕ) (p : Phase) → update f i p i ≡ p
update_self f i p = ground arith

update_other : (f : ℕ → Phase) (i j : ℕ) (p : Phase) → j ≢ i → update f i p j ≡ f j
update_other f i j p h = ground arith

module _ (ts : Tasks) (a b : ℕ) (ne : a ≢ b) where
  -- `b` has the lock; `a` finds it taken; `b` gives it back and wakes nobody; `a` falls asleep.
  abbrev pub held : SleepLock
  held = record {
    locked = true;
    task = some b;
    phase = update (update (update (λ i. outside) b trying) b taken) b inside;
    tasks = ts;
  }

  abbrev refused : SleepLock
  refused = record held { phase = update (update held.phase a trying) a failed }

  abbrev given : SleepLock
  given = record refused {
    locked = false;
    task = none;
    phase = update (update (update refused.phase b leaving) b waking) b outside;
    tasks = (put_wakeup (record refused { phase = update refused.phase b waking }) b).tasks;
  }

  pub lost : SleepLock
  lost = get_sleep given a

  pub Reach-held : Reach (start ts) held
  unfolding get_begin get_try get_own
  Reach-held =
      next (next (next here b (begin refl refl)) b (try (update_self (λ i. outside) b trying))) b
        (own (update_self (update (λ i. outside) b trying) b taken))

  held_a : held.phase a ≡ outside
  held_a = ground arith

  begin_a : get_begin held a ≡ some (record held { phase = update held.phase a trying })
  unfolding get_begin
  begin_a = rw (ne→not_== a b ne) refl

  Reach-refused : Reach (start ts) refused
  unfolding get_try
  Reach-refused =
      next (next Reach-held a (begin held_a begin_a)) a (try (update_self held.phase a trying))

  refused_b : refused.phase b ≡ inside
  refused_b =
      update_other (update held.phase a trying) a b failed (λ e. ne (sym e))
      ∙ update_other held.phase a b trying (λ e. ne (sym e))
      ∙ update_self (update (update (λ i. outside) b trying) b taken) b inside

  put_b :
      put_begin refused b
      ≡ some (record refused { task = none; phase = update refused.phase b leaving })
  unfolding put_begin
  put_b = rw (eq→== b b refl) refl

  Reach-given : Reach (start ts) given
  unfolding put_release put_wakeup
  Reach-given =
      next
        (next (next Reach-refused b (put refused_b put_b)) b
          (release (update_self refused.phase b leaving)))
        b (wake (update_self (update refused.phase b leaving) b waking))

  given_a : given.phase a ≡ failed
  given_a =
      update_other (update (update refused.phase b leaving) b waking) b a outside ne
      ∙ update_other (update refused.phase b leaving) b a waking ne
      ∙ update_other refused.phase b a leaving ne
      ∙ update_self (update held.phase a trying) a failed

  lost_step : Step given a lost
  unfolding lost
  lost_step = doze given_a

  lost_free : lost.locked ≡ false
  unfolding lost get_sleep
  lost_free = refl

  lost_phase : lost.phase a ≡ asleep
  unfolding lost get_sleep
  lost_phase = update_self given.phase a asleep

  lost-Sleeps : Sleeps chan (lost.tasks a)
  unfolding lost get_sleep
  lost-Sleeps = record { asleep = ground arith; on = ground arith }

  lost_others : (i : ℕ) → i ≢ a → lost.phase i ≡ outside
  unfolding lost get_sleep
  lost_others i h = ground arith

  -- With two different tasks, all tasks outside the lock and the lock free, a state is reached in
  -- which the lock is free, all tasks but the first are outside, and the first sleeps for the lock
  -- and has no step of its own.
  pub wakeup_lost :
      (s : SleepLock) × Reach (start ts) s
      × (s.locked ≡ false)
      × Sleeps chan (s.tasks a)
      × ((t : SleepLock) → Step s a t → ⊥)
      × ((i : ℕ) → i ≢ a → s.phase i ≡ outside)
  wakeup_lost = (
    lost,
    next Reach-given a lost_step,
    lost_free,
    lost-Sleeps,
    asleep_stays lost a lost_phase lost-Sleeps,
    lost_others,
  )
