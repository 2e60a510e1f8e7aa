-- ===== src/Fs/Bitmap/Free.antt =====
-- `bfree` gives a block back.
use tnix.Common.{
  FirstClear, ℕ, ◌+◌, ◌*◌, ◌/◌, ◌%◌, ◌<◌, ◌≡◌, refl, ap, ◌∙◌, none, some, arith, if◌then◌else◌,
  sub32, eq→==,
}
use tnix.Fs.Blocks.{
  bit_cnt_per_block, Disk, Superblock, update, bit_of, clear_bit_of, read_nth_bmap,
}
use tnix.Fs.Bitmap.{balloc, bfree}
use tnix.Fs.Bitmap.Scan.{IsBytes, map_bit}
use tnix.Fs.Bitmap.Bits.{marked, unmarked, map_bit-marked, unmarked-marked}
use tnix.Fs.Bitmap.Alloc.{IsLaidOut, bmap_cnt, bmap_blocks, balloc_lem}

-- On a file system that is laid out properly, `bfree` of a block that the map counts panics where
-- the block is free, and otherwise leaves the disk with the bit of the block cleared.
pub bfree_lem :
    (sb : Superblock) (d : Disk) (t : ℕ)
    → IsLaidOut sb
    → t < bit_cnt_per_block * bmap_cnt sb
    → bfree sb (sb.blocks + t) d
      ≡ (if map_bit d sb.bmap t then some (unmarked d sb.bmap t) else none)
unfolding bfree
bfree_lem sb d t v h =
    rw
      (
        ap (λ k. read_nth_bmap sb (k / bit_cnt_per_block)) same
            ∙ bmap_blocks v (t / bit_cnt_per_block) (omega arith),
        bfree,
      )
      (ap (λ k. if bit_of (d at) k then some (update d at (clear_bit_of (d at) k)) else none)
        (ap (λ k. k % bit_cnt_per_block) same))
  where
    at : ℕ
    at = sb.bmap + t / bit_cnt_per_block

    same : sub32 (sb.blocks + t) sb.blocks ≡ t
    same = omega (arith, v.addressable)

-- On a file system that is laid out properly and has its first free block at `t`, the block that
-- `balloc` hands out is `t`; on the disk that `balloc` leaves `bfree` of it restores the disk, and
-- on the disk before it panics.
pub bfree-balloc :
    (sb : Superblock) (d : Disk) (t : ℕ)
    → IsLaidOut sb
    → ((n : ℕ) → IsBytes (d n))
    → FirstClear (map_bit d sb.bmap) 0 t
    → t < bit_cnt_per_block * bmap_cnt sb
    → (d' : Disk) × (balloc sb d ≡ some (sb.blocks + t, d'))
      × (bfree sb (sb.blocks + t) d' ≡ some d)
      × (bfree sb (sb.blocks + t) d ≡ none)
bfree-balloc sb d t v bytes f h = (
  marked d sb.bmap t,
  balloc_lem sb d t v bytes f h,
  bfree_lem sb (marked d sb.bmap t) t v h
      ∙ simp (map_bit-marked d sb.bmap t t, eq→== t t refl)
          (ap some (unmarked-marked d sb.bmap t f.clear)),
  bfree_lem sb d t v h ∙ rw f.clear,
)
