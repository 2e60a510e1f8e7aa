-- ===== src/Util/Spin.antt =====
-- kernel/util/spinlock.c with `push_intr` and `pop_intr` of kernel/task/cpu.h. `Cpu` holds what
-- these touch of a hart; `intr_on` is the interrupt enable bit of its `sstatus`.
use tnix.Common.{
  ℕ, zero, suc, ◌+◌, ◌-◌, ◌%◌, ◌≡◌, Bool, true, false, ◌&&◌, not, Option, none, some, if◌then◌else◌,
  ◌==◌,
}
pub mod Nesting
pub mod Exclusion
mod Examples

pub record Cpu : Type 0 where
  pub intr_on : Bool
  pub raw_intr : Bool
  pub spinlevel : ℕ

-- `spinlevel` is a `u8`.
unfoldable pub push_intr : Cpu → Cpu
push_intr c = record {
  intr_on = false;
  raw_intr = if c.spinlevel == 0 then c.intr_on else c.raw_intr;
  spinlevel = (c.spinlevel + 1) % 256;
}

unfoldable pub pop_intr : Cpu → Cpu
pop_intr c =
    let level = (c.spinlevel + 255) % 256 in
    record c { spinlevel = level; intr_on = if level == 0 && c.raw_intr then true else c.intr_on }

-- Where a hart stands with the lock: outside; spinning on `__sync_lock_test_and_set`; past it, but
-- before `lock->cpu = mycpu()`; in the critical section; past `lock->cpu = NULL`, but before
-- `__sync_lock_release`.
pub data Phase : Type 0 where
  idle spinning taken inside leaving : Phase

-- The lock, and for each hart its phase and interrupt state.
pub record Sys : Type 0 where
  pub locked : Bool
  pub cpu : Option ℕ
  pub phase : ℕ → Phase
  pub harts : ℕ → Cpu

abbrev pub is_hart : ℕ → Option ℕ → Bool
is_hart i none = false
is_hart i (some j) = i == j

pub spin_holding : Sys → ℕ → Bool
spin_holding s i = s.locked && is_hart i s.cpu

abbrev pub update {ℓ} : {A : Type ℓ} → (ℕ → A) → ℕ → A → ℕ → A
update f i x j = if j == i then x else f j

-- `spin_get`, up to its loop; `none` is the panic.
pub get_begin : Sys → ℕ → Option Sys
unfolding spin_holding
get_begin s i =
    if spin_holding s i
    then none
    else some (record s {
      phase = update s.phase i spinning;
      harts = update s.harts i (push_intr (s.harts i));
    })

-- One `__sync_lock_test_and_set`: the loop ends if the old value was false.
pub get_try : Sys → ℕ → Sys
get_try s i = record s {
  locked = true;
  phase = if s.locked then s.phase else update s.phase i taken;
}

pub get_own : Sys → ℕ → Sys
get_own s i = record s { cpu = some i; phase = update s.phase i inside }

-- `spin_put`, up to the barrier; `none` is the panic.
pub put_begin : Sys → ℕ → Option Sys
unfolding spin_holding
put_begin s i =
    if spin_holding s i
    then some (record s { cpu = none; phase = update s.phase i leaving })
    else none

pub put_release : Sys → ℕ → Sys
put_release s i = record s {
  locked = false;
  phase = update s.phase i idle;
  harts = update s.harts i (pop_intr (s.harts i));
}

-- The harts' steps in any order.
pub data Step (s : Sys) : Sys → Type 0 where
  begin : (i : ℕ) {t : Sys} → s.phase i ≡ idle → get_begin s i ≡ some t → Step s t
  try : (i : ℕ) → s.phase i ≡ spinning → Step s (get_try s i)
  own : (i : ℕ) → s.phase i ≡ taken → Step s (get_own s i)
  put : (i : ℕ) {t : Sys} → s.phase i ≡ inside → put_begin s i ≡ some t → Step s t
  release : (i : ℕ) → s.phase i ≡ leaving → Step s (put_release s i)

pub data Reach (s : Sys) : Sys → Type 0 where
  here : Reach s s
  next : {t u : Sys} → Reach s t → Step t u → Reach s u
