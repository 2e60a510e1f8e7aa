-- ===== src/Common/Bits.antt =====
-- The bits of a word, from the lowest: `w & (1 << k)`, `w | (1 << k)` and `w & ~(1 << k)`.
use Prim.Native.Nat.{ℕ, zero, suc, ◌+◌, ◌-◌, ◌*◌, ◌/◌, ◌%◌, ◌^◌, ◌≤◌, ◌<◌}
use mathlib.Core.Path.{◌≡◌, ap, ◌∙◌}
use mathlib.Core.Logic.{◌≢◌, inl, inr}
use mathlib.Core.Bool.{Bool, true, false}
use native.Mathlib.Nat.{pow-suc}
use native.Mathlib.Omega.{arith}
use tnix.Common.Tests.{◌==◌, if◌then◌else◌, Bool-cases}

unfoldable pub test_bit : ℕ → ℕ → Bool
test_bit w zero = w % 2 == 1
test_bit w (suc k) = test_bit (w / 2) k

unfoldable pub set_bit : ℕ → ℕ → ℕ
set_bit w zero = w / 2 * 2 + 1
set_bit w (suc k) = set_bit (w / 2) k * 2 + w % 2

unfoldable pub clear_bit : ℕ → ℕ → ℕ
clear_bit w zero = w / 2 * 2
clear_bit w (suc k) = clear_bit (w / 2) k * 2 + w % 2

halve : (a b : ℕ) → b < 2 → (a * 2 + b) / 2 ≡ a
halve a b h = omega arith

pub test-set : (w k j : ℕ) → test_bit (set_bit w k) j ≡ (if j == k then true else test_bit w j)
unfolding test_bit set_bit
test-set w zero zero = ground arith
test-set w zero (suc j) = ground (arith, ap (λ x. test_bit x j) (halve (w / 2) 1 (omega arith)))
test-set w (suc k) zero = ground arith
test-set w (suc k) (suc j) =
    ap (λ x. test_bit x j) (halve (set_bit (w / 2) k) (w % 2) (omega arith))
    ∙ test-set (w / 2) k j
    ∙ ground arith

pub test-clear : (w k j : ℕ) → test_bit (clear_bit w k) j ≡ (if j == k then false else test_bit w j)
unfolding test_bit clear_bit
test-clear w zero zero = ground arith
test-clear w zero (suc j) = ground (arith, ap (λ x. test_bit x j) (halve (w / 2) 0 (omega arith)))
test-clear w (suc k) zero = ground arith
test-clear w (suc k) (suc j) =
    ap (λ x. test_bit x j) (halve (clear_bit (w / 2) k) (w % 2) (omega arith))
    ∙ test-clear (w / 2) k j
    ∙ ground arith

-- A bit that was clear, set and cleared.
pub clear-set : (w k : ℕ) → test_bit w k ≡ false → clear_bit (set_bit w k) k ≡ w
unfolding test_bit set_bit clear_bit
clear-set w zero h = ground arith
clear-set w (suc k) h = omega (
  arith,
  clear-set (w / 2) k h,
  ap (λ x. clear_bit x k) (halve (set_bit (w / 2) k) (w % 2) (omega arith)),
)

-- A word of `n` bits that is not all ones has a clear bit.
pub some_clear : (n w : ℕ) → w < 2 ^ n → w ≢ 2 ^ n - 1 → (k : ℕ) × (k < n) × (test_bit w k ≡ false)
unfolding test_bit
some_clear zero w h ne = absurd (ne (omega arith))
some_clear (suc n) w h ne = elim (Bool-cases (w % 2 == 1)) [
  | inl e ↦
      let (k, lt, c) =
        some_clear n (w / 2) (omega (arith, pow-suc 2 n)) (λ f. ne (ground (arith, pow-suc 2 n))) in
      (suc k, omega arith, c)
  | inr e ↦ (0, omega arith, e)
]

pub pow-pos : (n : ℕ) → 0 < 2 ^ n
pow-pos zero = omega arith
pow-pos (suc n) = omega (arith, pow-suc 2 n, pow-pos n)

-- And a word of all ones has none.
pub test_ones : (n k : ℕ) → k < n → test_bit (2 ^ n - 1) k ≡ true
unfolding test_bit
test_ones zero k h = absurd (omega arith)
test_ones (suc n) zero h = ground (arith, pow-suc 2 n, pow-pos n)
test_ones (suc n) (suc k) h =
    ap (λ x. test_bit x k) (omega (arith, pow-suc 2 n, pow-pos n)) ∙ test_ones n k (omega arith)

pub set_bit-lt : (n w k : ℕ) → w < 2 ^ n → k < n → set_bit w k < 2 ^ n
unfolding set_bit
set_bit-lt zero w k h l = absurd (omega arith)
set_bit-lt (suc n) w zero h l = omega (arith, pow-suc 2 n)
set_bit-lt (suc n) w (suc k) h l =
    omega (arith, pow-suc 2 n, set_bit-lt n (w / 2) k (omega (arith, pow-suc 2 n)) (omega arith))

pub clear_bit-le : (w k : ℕ) → clear_bit w k ≤ w
unfolding clear_bit
clear_bit-le w zero = omega arith
clear_bit-le w (suc k) = omega (arith, clear_bit-le (w / 2) k)

-- Bit `t` is the first clear bit at or behind `from`.
pub record FirstClear (bit : ℕ → Bool) (from t : ℕ) : Type 0 where
  pub behind : from ≤ t
  pub clear : bit t ≡ false
  pub before : (n : ℕ) → from ≤ n → n < t → bit n ≡ true
