-- ===== src/Dev/Console/Examples.antt =====
-- Keys and reads at small consoles.
use tnix.Common.{
  get_or, ℕ, ◌≡◌, refl, false, some, List, [], ◌∷◌, ◌++◌, arith, take, drop, replicate,
}
use tnix.Dev.Console.{
  Con, Reading, console_read, console_copies, do_console_irq, backspace, ends_escape,
}
use tnix.Dev.Console.Line.{IsValid, line}
use tnix.Dev.Console.Keys.{Unending, rubout-eq_backspace}
use tnix.Dev.Console.Read.{copied, console_read_refines}

-- "ab" waits; nothing else.
abbrev typed : Con
typed = record {
  r = 0;
  w = 2;
  buf = 97 ∷ 98 ∷ replicate 126 0;
  tb = replicate 8 0;
  tflag = false;
  i = 0;
  out = [];
}

typed-IsValid : IsValid typed
typed-IsValid = record {
  r_in = omega arith;
  w_in = omega arith;
  storage = refl;
  escape = refl;
  i_in = omega arith;
  idle = λ _. refl;
}

-- "xyz" and a line end wait, the last two behind the wrap.
abbrev wrapped : Con
wrapped = record typed { r = 126; w = 2; buf = 122 ∷ 10 ∷ replicate 124 0 ++ 120 ∷ 121 ∷ [] }

wrapped-IsValid : IsValid wrapped
wrapped-IsValid = record {
  r_in = omega arith;
  w_in = omega arith;
  storage = refl;
  escape = refl;
  i_in = omega arith;
  idle = λ _. refl;
}

-- A line end in the last byte of the array.
abbrev at_end : Con
at_end = record typed { r = 126; w = 0; buf = replicate 126 0 ++ 120 ∷ 10 ∷ [] }

at_end-IsValid : IsValid at_end
at_end-IsValid = record {
  r_in = omega arith;
  w_in = omega arith;
  storage = refl;
  escape = refl;
  i_in = omega arith;
  idle = λ _. refl;
}

rubout-eq_backspace_example :
    (d : Con) × (do_console_irq 127 typed ≡ some (d, false)) × (line d ≡ line (backspace typed))
rubout-eq_backspace_example = rubout-eq_backspace typed typed-IsValid refl

-- Escape and eight digits.
abbrev digits : List ℕ
digits = replicate 8 b'1'

digits-Unending : Unending digits
unfolding ends_escape
digits-Unending = ground arith

console_read_refines_example :
    (c' : Con) × (console_read wrapped 3 ≡ Reading.returns 3 (console_copies wrapped 3) c')
    × ((u : ℕ → ℕ) (a : ℕ)
        → copied wrapped.buf (console_copies wrapped 3) u a
          ≡ get_or (take 3 (line wrapped)) a (u a))
    × (line c' ≡ drop 3 (line wrapped))
    × IsValid c'
console_read_refines_example =
    console_read_refines wrapped 3 wrapped-IsValid (omega arith) (λ _. omega arith)
