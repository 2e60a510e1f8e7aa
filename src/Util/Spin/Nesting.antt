-- ===== src/Util/Spin/Nesting.antt =====
-- Nested critical sections of one hart.
use tnix.Common.{ℕ, ◌+◌, ◌-◌, ◌<◌, ◌≡◌, Bool, true, false, List, [], ◌∷◌, arith}
use tnix.Util.Spin.{Cpu, push_intr, pop_intr}

pub data Op : Type 0 where
  push pop : Op

pub run : List Op → Cpu → Cpu
run [] c = c
run (push ∷ ops) c = run ops (push_intr c)
run (pop ∷ ops) c = run ops (pop_intr c)

-- `ops`, begun at depth `n`, never pops at depth 0, stays below depth 256 and ends at depth `m`.
abbrev pub Nested : ℕ → List Op → ℕ → Type 0
Nested n [] m = n ≡ m
Nested n (push ∷ ops) m = (n < 255) × Nested (n + 1) ops m
Nested n (pop ∷ ops) m = (0 < n) × Nested (n - 1) ops m

-- A hart at depth `n` whose interrupts were in state `b` outside: off inside, as they were outside.
pub record At (b : Bool) (n : ℕ) (c : Cpu) : Type 0 where
  pub level : c.spinlevel ≡ n
  pub outside : n ≡ 0 → c.intr_on ≡ b
  pub off : 0 < n → c.intr_on ≡ false
  pub saved : 0 < n → c.raw_intr ≡ b

push-At : {b : Bool} {n : ℕ} {c : Cpu} → n < 255 → At b n c → At b (n + 1) (push_intr c)
unfolding push_intr
push-At h a = ground arith

pop-At : {b : Bool} {n : ℕ} {c : Cpu} → 0 < n → n < 256 → At b n c → At b (n - 1) (pop_intr c)
unfolding pop_intr
pop-At {b = true} h k a = ground arith
pop-At {b = false} h k a = ground arith

-- However critical sections nest or overlap, without an exit too many and to a depth below 256:
-- interrupts are off from the first entry to the last exit, and then as they were before.
pub run-At :
    (ops : List Op) (b : Bool) (n m : ℕ) (c : Cpu)
    → n < 256
    → At b n c
    → Nested n ops m
    → At b m (run ops c)
unfolding run
run-At [] b n m c k a e = ground arith
run-At (push ∷ ops) b n m c k a (h, r) =
    run-At ops b (n + 1) m (push_intr c) (omega arith) (push-At h a) r
run-At (pop ∷ ops) b n m c k a (h, r) =
    run-At ops b (n - 1) m (pop_intr c) (omega arith) (pop-At h k a) r
