-- ===== src/Fs/Bitmap/Bits.antt =====
-- What setting and clearing a bit of a map does to the bits of the map.
use tnix.Common.{
  ℕ, ◌+◌, ◌/◌, ◌%◌, ◌≡◌, ap, ◌∙◌, fun_ext, true, false, arith, ◌==◌, if◌then◌else◌, Bool-cases, inl,
  inr, ==→eq, test-set, test-clear, clear-set, set_bit-lt, clear_bit-le,
}
use tnix.Fs.Blocks.{bit_cnt_per_block, Block, Disk, update, bit_of, set_bit_of, clear_bit_of}
use tnix.Fs.Bitmap.Scan.{IsBytes, map_bit}

pub bit-set :
    (b : Block) (t n : ℕ) → bit_of (set_bit_of b t) n ≡ (if n == t then true else bit_of b n)
unfolding bit_of set_bit_of
bit-set b t n = ground (arith, test-set (b (t / 8)) (t % 8) (n % 8))

pub bit-clear :
    (b : Block) (t n : ℕ) → bit_of (clear_bit_of b t) n ≡ (if n == t then false else bit_of b n)
unfolding bit_of clear_bit_of
bit-clear b t n = ground (arith, test-clear (b (t / 8)) (t % 8) (n % 8))

pub clear-set_of : (b : Block) (t : ℕ) → bit_of b t ≡ false → clear_bit_of (set_bit_of b t) t ≡ b
unfolding bit_of set_bit_of clear_bit_of
clear-set_of b t h = fun_ext λ p. ground (arith, clear-set (b (t / 8)) (t % 8) h)

pub set-IsBytes : (b : Block) (t : ℕ) → IsBytes b → IsBytes (set_bit_of b t)
unfolding set_bit_of
set-IsBytes b t v p = ground (arith, v p, set_bit-lt 8 (b (t / 8)) (t % 8) (v (t / 8)))

pub clear-IsBytes : (b : Block) (t : ℕ) → IsBytes b → IsBytes (clear_bit_of b t)
unfolding clear_bit_of
clear-IsBytes b t v p = ground (arith, v p, v (t / 8), clear_bit-le (b (t / 8)) (t % 8))

-- The disk with bit `t` of the map set, and with it cleared.
abbrev pub marked : Disk → ℕ → ℕ → Disk
marked d start t =
    update d (start + t / bit_cnt_per_block)
      (set_bit_of (d (start + t / bit_cnt_per_block)) (t % bit_cnt_per_block))

abbrev pub unmarked : Disk → ℕ → ℕ → Disk
unmarked d start t =
    update d (start + t / bit_cnt_per_block)
      (clear_bit_of (d (start + t / bit_cnt_per_block)) (t % bit_cnt_per_block))

pub map_bit-marked :
    (d : Disk) (start t n : ℕ)
    → map_bit (marked d start t) start n ≡ (if n == t then true else map_bit d start n)
map_bit-marked d start t n =
    elim (Bool-cases (start + n / bit_cnt_per_block == start + t / bit_cnt_per_block)) [
      | inl e ↦ rw e (
          bit-set (d (start + t / bit_cnt_per_block)) (t % bit_cnt_per_block)
            (n % bit_cnt_per_block)
          ∙ ground (arith, ap (λ x. bit_of (d x) (n % bit_cnt_per_block)) (==→eq _ _ e)))
      | inr e ↦ rw e (ground arith)
    ]

pub map_bit-unmarked :
    (d : Disk) (start t n : ℕ)
    → map_bit (unmarked d start t) start n ≡ (if n == t then false else map_bit d start n)
map_bit-unmarked d start t n =
    elim (Bool-cases (start + n / bit_cnt_per_block == start + t / bit_cnt_per_block)) [
      | inl e ↦ rw e (
          bit-clear (d (start + t / bit_cnt_per_block)) (t % bit_cnt_per_block)
            (n % bit_cnt_per_block)
          ∙ ground (arith, ap (λ x. bit_of (d x) (n % bit_cnt_per_block)) (==→eq _ _ e)))
      | inr e ↦ rw e (ground arith)
    ]

pub unmarked-marked :
    (d : Disk) (start t : ℕ) → map_bit d start t ≡ false → unmarked (marked d start t) start t ≡ d
unmarked-marked d start t h = fun_ext λ q. same q
  where
    same : (q : ℕ) → unmarked (marked d start t) start t q ≡ d q
    same q =
        ground (arith, clear-set_of (d (start + t / bit_cnt_per_block)) (t % bit_cnt_per_block) h)
