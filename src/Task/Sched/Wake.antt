-- ===== src/Task/Sched/Wake.antt =====
-- Who is woken, and by whom.
use tnix.Common.{
  ℕ, ◌<◌, ◌≡◌, ◌≢◌, refl, ap, true, ◌&&◌, not, Option, none, some, ◌==◌, ltb, arith, lt→ltb, eq→==,
  ne→not_==, ==→eq, Bool-cases, inl, inr,
}
use tnix.Task.Sched.{nproc, State, is_sleep, Chan, same_chan, waits_for, Task, Tasks, wake, wakeup}

pub same_chan_self : (c : Chan) → same_chan c c ≡ true
same_chan_self (Chan.childs_of i) = eq→== i i refl
same_chan_self (Chan.address i) = eq→== i i refl

pub same_chan-eq : (c d : Chan) → same_chan c d ≡ true → c ≡ d
same_chan-eq (Chan.childs_of i) (Chan.childs_of j) h = ap Chan.childs_of (==→eq i j h)
same_chan-eq (Chan.address i) (Chan.address j) h = ap Chan.address (==→eq i j h)
same_chan-eq (Chan.childs_of i) (Chan.address j) h = absurd (cc)
same_chan-eq (Chan.address i) (Chan.childs_of j) h = absurd (cc)

-- A task sleeps on `c`.
pub record Sleeps (c : Chan) (t : Task) : Type 0 where
  pub asleep : t.state ≡ State.sleep
  pub on : t.chan ≡ some c

pub is_sleep-eq : (s : State) → is_sleep s ≡ true → s ≡ State.sleep
is_sleep-eq State.free h = absurd (cc)
is_sleep-eq State.init h = absurd (cc)
is_sleep-eq State.ready h = absurd (cc)
is_sleep-eq State.run h = absurd (cc)
is_sleep-eq State.sleep h = refl
is_sleep-eq State.exit h = absurd (cc)

waits_for-eq : (o : Option Chan) (c : Chan) → waits_for o c ≡ true → o ≡ some c
waits_for-eq none c h = absurd (cc)
waits_for-eq (some d) c h = ap some (same_chan-eq d c h)

-- `sleep` and `wakeup` agree on what a sleeper is.
pub wake-Sleeps : (c : Chan) (t : Task) → Sleeps c t → wake c t ≡ record t { state = State.ready }
unfolding wake
wake-Sleeps c t s = rw (s.asleep, s.on, same_chan_self c) refl

pub wake_others : (c : Chan) (t : Task) → (Sleeps c t → ⊥) → wake c t ≡ t
unfolding wake
wake_others c t h = elim (Bool-cases (is_sleep t.state && waits_for t.chan c)) [
  | inl e ↦ absurd (
      h (record {
        asleep = is_sleep-eq t.state (and_left e);
        on = waits_for-eq t.chan c (and_right e);
      }))
  | inr e ↦ rw e refl
]
  where
    and_left : (is_sleep t.state && waits_for t.chan c) ≡ true → is_sleep t.state ≡ true
    and_left e = ground arith

    and_right : (is_sleep t.state && waits_for t.chan c) ≡ true → waits_for t.chan c ≡ true
    and_right e = ground arith

pub wakeup-Sleeps :
    (me : ℕ) (c : Chan) (ts : Tasks) (i : ℕ)
    → i < nproc
    → i ≢ me
    → Sleeps c (ts i)
    → wakeup me c ts i ≡ record (ts i) { state = State.ready }
unfolding wakeup
wakeup-Sleeps me c ts i h ne s = rw (lt→ltb i nproc h, ne→not_== i me ne) (wake-Sleeps c (ts i) s)

pub wakeup_others :
    (me : ℕ) (c : Chan) (ts : Tasks) (i : ℕ) → (Sleeps c (ts i) → ⊥) → wakeup me c ts i ≡ ts i
unfolding wakeup
wakeup_others me c ts i h = elim (Bool-cases (ltb i nproc && not (i == me))) [
  | inl e ↦ rw e (wake_others c (ts i) h)
  | inr e ↦ rw e refl
]
