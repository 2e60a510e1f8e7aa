-- ===== src/Fs/Inode/Index.antt =====
-- An entry that is put in an index block is read again, and the others stay.
use tnix.Common.{
  ℕ, ◌+◌, ◌*◌, ◌/◌, ◌%◌, ◌^◌, ◌<◌, ◌≡◌, ◌≢◌, refl, ap, sym, ◌∙◌, arith, eq→==, ne→not_==, u32_mod,
}
use tnix.Fs.Blocks.{Block}
use tnix.Fs.File.{u32_of}
use tnix.Fs.Inode.{put_u32}

put_u32_at :
    (b : Block) (k v r p q : ℕ)
    → r < 4
    → p ≡ 4 * k + r
    → q ≡ 2 ^ (8 * r)
    → put_u32 b k v p ≡ v / q % 2 ^ 8
unfolding put_u32
put_u32_at b k v r p q h e f =
    rw (eq→== (p / 4) k (omega arith))
      (ap (λ t. v / t % 2 ^ 8) (ap (λ s. 2 ^ (8 * s)) place ∙ sym f))
  where
    place : p % 4 ≡ r
    place = omega arith

put_u32_off : (b : Block) (k v j r p : ℕ) → r < 4 → j ≢ k → p ≡ 4 * j + r → put_u32 b k v p ≡ b p
unfolding put_u32
put_u32_off b k v j r p h ne e = rw (ne→not_== (p / 4) k (omega arith)) refl

pub u32_of-put_u32 : (b : Block) (k v : ℕ) → v < u32_mod → u32_of (put_u32 b k v) k ≡ v
unfolding u32_of
u32_of-put_u32 b k v h = omega (
  arith,
  put_u32_at b k v 0 (4 * k) 1 (omega arith) (omega arith) refl,
  put_u32_at b k v 1 (4 * k + 1) 256 (omega arith) refl refl,
  put_u32_at b k v 2 (4 * k + 2) 65536 (omega arith) refl refl,
  put_u32_at b k v 3 (4 * k + 3) 16777216 (omega arith) refl refl,
)

pub u32_of-put_u32_other : (b : Block) (k v j : ℕ) → j ≢ k → u32_of (put_u32 b k v) j ≡ u32_of b j
unfolding u32_of
u32_of-put_u32_other b k v j ne = omega (
  arith,
  put_u32_off b k v j 0 (4 * j) (omega arith) ne (omega arith),
  put_u32_off b k v j 1 (4 * j + 1) (omega arith) ne refl,
  put_u32_off b k v j 2 (4 * j + 2) (omega arith) ne refl,
  put_u32_off b k v j 3 (4 * j + 3) (omega arith) ne refl,
)
