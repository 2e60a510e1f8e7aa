-- ===== src/Util/Str/Examples.antt =====
-- Runs of the byte functions, and the theorems at small memories.
use tnix.Common.{◌+◌, ◌≡◌, refl, arith, if◌then◌else◌, ltb}
use tnix.Util.Str.{Memory, memcpy, copy_down}
use tnix.Util.Str.Term.{Terminated, Prefix}

-- Address `a` holds `a + 1` up to 3, and 0 from there on.
abbrev ramp : Memory
ramp a = if ltb a 3 then a + 1 else 0

-- Three bytes are moved up by one, over themselves.
memcpy-ramp : memcpy ramp 1 0 3 3 ≡ 3
unfolding memcpy copy_down
memcpy-ramp = refl

ramp-Terminated : Terminated ramp 0 3
ramp-Terminated = record { nul = refl; body = λ j h. ground arith }

ramp-Prefix : Prefix ramp 0 3 5
ramp-Prefix = record { short = omega arith; nul = λ _. refl; body = λ j h. ground arith }
