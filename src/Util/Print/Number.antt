-- ===== src/Util/Print/Number.antt =====
-- `printuint` and `printint`.
use tnix.Common.{
  ℕ, ◌+◌, ◌-◌, ◌%◌, ◌^◌, ◌≤◌, ◌<◌, ◌≡◌, ◌≢◌, refl, List, [], ◌∷◌, ◌++◌, some, arith, if◌then◌else◌,
  length, get_elem?, ne→not_==,
}
use native.Mathlib.Nat.{pow-suc}
use tnix.Util.Print.{
  VarPara, fetch_para, put_number, printuint, printint, sign, negate, positive, is_negative,
}
use tnix.Util.Print.Digits.{IsBase, Spells, put_number_lem}

pub ten-IsBase : IsBase 10
ten-IsBase = record {
  small = omega arith;
  mod_lt = λ n. omega arith;
  split = λ n. omega arith;
  fewer = λ n k h. omega (arith, pow-suc 10 k);
}

pub sixteen-IsBase : IsBase 16
sixteen-IsBase = record {
  small = omega arith;
  mod_lt = λ n. omega arith;
  split = λ n. omega arith;
  fewer = λ n k h. omega (arith, pow-suc 16 k);
}

-- A base in which 64 bits have at most 20 digits.
pub record Fits (ns : ℕ) : Type 0 where
  pub base : IsBase ns
  pub room : 2 ^ 64 ≤ ns ^ 20

pub ten-Fits : Fits 10
ten-Fits = record { base = ten-IsBase; room = omega arith }

pub sixteen-Fits : Fits 16
sixteen-Fits = record { base = sixteen-IsBase; room = omega arith }

-- In base 10 or 16, for a next parameter that is not 0: `printuint` takes it, stays inside its
-- buffer, and puts at most 20 characters, each one of the digits 0 to 9 and A to F, which spell
-- the number without a leading zero.
pub printuint_lem :
    (ns num : ℕ) (vp : VarPara)
    → Fits ns
    → get_elem? vp.args vp.i ≡ some num
    → num < 2 ^ 64
    → num ≢ 0
    → (cs : List ℕ) × (printuint ns vp ≡ some (cs, record vp { i = (vp.i + 1) % 256 }))
      × Spells ns num cs
      × (length cs ≤ 20)
unfolding printuint fetch_para
printuint_lem ns num vp f g h ne =
    let (cs, run, sp, len) = put_number_lem f.base 20 num (omega (arith, f.room)) (omega arith) in
    (cs, rw (g, ne→not_== num 0 ne, run, printuint) refl, sp, len)

-- a
pub printint_lem :
    (ns num : ℕ) (vp : VarPara)
    → Fits ns
    → get_elem? vp.args vp.i ≡ some num
    → num < 2 ^ 64
    → num ≢ 0
    → num ≢ 2 ^ 63
    → (cs : List ℕ) × (printint ns vp ≡ some (sign num ++ cs, record vp { i = (vp.i + 1) % 256 }))
      × Spells ns (if is_negative num then 2 ^ 64 - num else num) cs
      × (length cs ≤ 20)
unfolding printint fetch_para
printint_lem ns num vp f g h ne least =
    let n = if is_negative num then 2 ^ 64 - num else num in
    let (cs, run, sp, len) =
      put_number_lem f.base 20 n (omega (arith, f.room, magnitude)) (omega arith) in
    (cs, rw (g, ne→not_== num 0 ne, same, run, printint) refl, sp, len)
  where
    magnitude : (if is_negative num then 2 ^ 64 - num else num) < 2 ^ 64
    magnitude = ground arith

    same :
        positive (if is_negative num then negate num else num)
        ≡ (if is_negative num then 2 ^ 64 - num else num)
    same = ground arith

-- a
pub printint_least :
    (ns : ℕ) (vp : VarPara)
    → get_elem? vp.args vp.i ≡ some (2 ^ 63)
    → printint ns vp ≡ some (b'-' ∷ [], record vp { i = (vp.i + 1) % 256 })
unfolding printint fetch_para put_number
printint_least ns vp g = rw (g, printint) refl
