-- ===== src/Fs/Bitmap/Alloc.antt =====
-- `balloc` takes the first free block.
use tnix.Common.{
  FirstClear, ℕ, ◌+◌, ◌-◌, ◌*◌, ◌/◌, ◌%◌, ◌≤◌, ◌<◌, ◌≡◌, ◌≢◌, ap, ap₂, ◌∙◌, true, Option, none,
  some, arith, ◌==◌, if◌then◌else◌, lt→not_leb, sub32, u32_mod, ne→not_==,
}
use tnix.Fs.Blocks.{
  bit_cnt_per_block, Disk, Superblock, update, set_bit_of, read_nth_imap, read_nth_bmap,
}
use tnix.Fs.Bitmap.{find_block, mark, balloc}
use tnix.Fs.Bitmap.Scan.{IsBytes, map_bit, find_block_lem, find_block-none}
use tnix.Fs.Bitmap.Bits.{marked, map_bit-marked}

-- The layout of a superblock: inode map, inodes, block map, blocks, each before the next, and every
-- number of a block that the map counts is a `u32`.
pub record IsLaidOut (sb : Superblock) : Type 0 where
  pub inodes_behind : sb.imap ≤ sb.inodes
  pub bmap_behind : sb.inodes ≤ sb.bmap
  pub blocks_behind : sb.bmap ≤ sb.blocks
  pub addressable : bit_cnt_per_block * (sb.blocks - sb.bmap) + sb.blocks < u32_mod

abbrev pub bmap_cnt : Superblock → ℕ
bmap_cnt sb = sb.blocks - sb.bmap

module _ {sb : Superblock} (v : IsLaidOut sb) where
  pub bmap_blocks : (i : ℕ) → i < bmap_cnt sb → read_nth_bmap sb i ≡ some (sb.bmap + i)
  unfolding read_nth_bmap
  bmap_blocks i h =
      rw (lt→not_leb (sub32 sb.blocks sb.bmap) i (omega arith)) (ap some (omega arith))

  pub imap_blocks : (i : ℕ) → i < sb.inodes - sb.imap → read_nth_imap sb i ≡ some (sb.imap + i)
  unfolding read_nth_imap
  imap_blocks i h =
      rw (lt→not_leb (sub32 sb.inodes sb.imap) i (omega arith)) (ap some (omega arith))

  pub bmap_cnt-eq : sub32 sb.blocks sb.bmap ≡ bmap_cnt sb
  bmap_cnt-eq = omega arith

  pub imap_cnt-eq : sub32 sb.inodes sb.imap ≡ sb.inodes - sb.imap
  imap_cnt-eq = omega arith

-- `mark` at the place where the search stops sets bit `t` of the map.
pub mark-eq_marked :
    (nth : ℕ → Option ℕ) (d : Disk) (start t : ℕ)
    → nth (t / bit_cnt_per_block) ≡ some (start + t / bit_cnt_per_block)
    → mark nth d (t / bit_cnt_per_block, t % bit_cnt_per_block / 64, t % 64) ≡ marked d start t
unfolding mark
mark-eq_marked nth d start t e =
    rw (e, mark)
      (ap
        (λ k.
          update d (start + t / bit_cnt_per_block)
            (set_bit_of (d (start + t / bit_cnt_per_block)) k))
        (omega arith))

-- With block `t` of the data area the first that the map shows free, `balloc` returns its number and
-- sets its bit on the disk, and nothing else changes.
pub balloc_lem :
    (sb : Superblock) (d : Disk) (t : ℕ)
    → IsLaidOut sb
    → ((n : ℕ) → IsBytes (d n))
    → FirstClear (map_bit d sb.bmap) 0 t
    → t < bit_cnt_per_block * bmap_cnt sb
    → balloc sb d ≡ some (sb.blocks + t, marked d sb.bmap t)
unfolding balloc
balloc_lem sb d t v bytes f h =
    rw
      (
        ap (find_block (read_nth_bmap sb) d 0) (bmap_cnt-eq v)
            ∙ find_block_lem (read_nth_bmap sb) d sb.bmap (bmap_cnt sb) (bmap_blocks v) bytes 0
                (bmap_cnt sb) t (omega arith)
                (record {
                  behind = omega arith;
                  clear = f.clear;
                  before = λ m l u. f.before m (omega arith) u;
                })
                (omega arith),
        balloc,
      )
      (ap₂ (λ x y. some (x, y)) (omega (arith, v.addressable))
        (mark-eq_marked (read_nth_bmap sb) d sb.bmap t
          (bmap_blocks v (t / bit_cnt_per_block) (omega arith))))

-- On a file system that is laid out properly and has every block in use, `balloc` panics.
pub balloc-full :
    (sb : Superblock) (d : Disk)
    → IsLaidOut sb
    → ((n : ℕ) → IsBytes (d n))
    → ((t : ℕ) → t < bit_cnt_per_block * bmap_cnt sb → map_bit d sb.bmap t ≡ true)
    → balloc sb d ≡ none
unfolding balloc
balloc-full sb d v bytes h = rw (
  ap (find_block (read_nth_bmap sb) d 0) (bmap_cnt-eq v)
      ∙ find_block-none (read_nth_bmap sb) d sb.bmap (bmap_cnt sb) (bmap_blocks v) bytes 0
          (bmap_cnt sb) (omega arith) (λ t l u. h t (omega arith)),
  balloc,
)

-- On a file system that is laid out properly and has its first free block at `t`, `balloc` returns
-- the number of block `t`; afterwards block `t` is in use, every other is as before, and no block
-- of the disk has changed but the one that holds the bit.
pub balloc_refines :
    (sb : Superblock) (d : Disk) (t : ℕ)
    → IsLaidOut sb
    → ((n : ℕ) → IsBytes (d n))
    → FirstClear (map_bit d sb.bmap) 0 t
    → t < bit_cnt_per_block * bmap_cnt sb
    → (d' : Disk) × (balloc sb d ≡ some (sb.blocks + t, d'))
      × ((n : ℕ) → map_bit d' sb.bmap n ≡ (if n == t then true else map_bit d sb.bmap n))
      × ((q : ℕ) → q ≢ sb.bmap + t / bit_cnt_per_block → d' q ≡ d q)
balloc_refines sb d t v bytes f h = (
  marked d sb.bmap t,
  balloc_lem sb d t v bytes f h,
  map_bit-marked d sb.bmap t,
  λ q ne. rw (ne→not_== q (sb.bmap + t / bit_cnt_per_block) ne),
)
