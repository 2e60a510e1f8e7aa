-- ===== src/Util/Spin/Examples.antt =====
-- Two harts at a lock, and nested sections of one hart.
use tnix.Common.{refl, true, false, List, [], ◌∷◌, none, arith}
use tnix.Util.Spin.{
  Cpu, push_intr, idle, spinning, Sys, update, get_begin, get_try, get_own, Step, begin, try, own,
  Reach, here, next,
}
use tnix.Util.Spin.Nesting.{Op, push, pop, At}
use tnix.Util.Spin.Exclusion.{IsExclusive, Reach-IsExclusive}

abbrev fresh : Cpu
fresh = record { intr_on = true; raw_intr = false; spinlevel = 0 }

-- Two locks taken, the first one released first.
abbrev crossed : List Op
crossed = push ∷ push ∷ pop ∷ pop ∷ []

fresh-At : At true 0 fresh
fresh-At = ground arith

abbrev start : Sys
start = record { locked = false; cpu = none; phase = λ _. idle; harts = λ _. fresh }

start-IsExclusive : IsExclusive start
start-IsExclusive = record {
  held = λ i b. cc;
  one = λ i j b c. cc;
  owns = λ i p. cc;
  owned = λ i p. cc;
  level_out = λ i p. refl;
  level_in = λ i p. absurd (p refl);
  off = λ i p. absurd (p refl);
}

-- Hart 0 begins, and takes the lock.
abbrev begun : Sys
begun = record start {
  phase = update start.phase 0 spinning;
  harts = update start.harts 0 (push_intr fresh);
}

start-begun : Step start begun
unfolding get_begin
start-begun = begin 0 refl refl

abbrev entered : Sys
entered = get_own (get_try begun 0) 0

start-entered : Reach start entered
unfolding get_try
start-entered = next (next (next here start-begun) (try 0 refl)) (own 0 refl)

Reach-IsExclusive_example : IsExclusive entered
Reach-IsExclusive_example = Reach-IsExclusive start-IsExclusive start-entered
