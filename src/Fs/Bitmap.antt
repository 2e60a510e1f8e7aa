-- ===== src/Fs/Bitmap.antt =====
-- `balloc` and `bfree` of kernel/fs/fs.c, and `ialloc`, `iexist` and the map update of `ifree` of
-- kernel/fs/inode.c. The disk that a function returns has its `bwrite` made.
use tnix.Common.{
  ℕ, zero, suc, ◌+◌, ◌-◌, ◌*◌, ◌/◌, ◌%◌, ◌^◌, Bool, true, not, ◌&&◌, Option, none, some,
  if◌then◌else◌, ◌==◌, add32, sub32,
}
use tnix.Fs.Blocks.{
  bsize, bit_cnt_per_block, Block, Disk, Superblock, update, bit_of, set_bit_of, clear_bit_of,
  read_nth_imap, read_nth_bmap,
}
pub mod Scan
pub mod Bits
pub mod Alloc
pub mod Free
pub mod Inodes
pub mod Examples

-- Whether the `n` bytes from `p` on are all ones.
full_bytes : Block → ℕ → ℕ → Bool
full_bytes b p zero = true
full_bytes b p (suc n) = b p == 255 && full_bytes b (p + 1) n

-- `*section == 0xFFFFFFFFFFFFFFFF`
pub section_full : Block → ℕ → Bool
unfolding full_bytes
section_full b j = full_bytes b (8 * j) 8

-- The first of the `n` sections from `j` on that is not full.
first_section : Block → ℕ → ℕ → Option ℕ
first_section b j zero = none
first_section b j (suc n) =
    let later = first_section b (suc j) n in if section_full b j then later else some j

-- The first clear bit of section `j` among the `n` from `k` on.
first_bit : Block → ℕ → ℕ → ℕ → Option ℕ
first_bit b j k zero = none
first_bit b j k (suc n) =
    let later = first_bit b j (suc k) n in if bit_of b (64 * j + k) then later else some k

-- The search that `balloc` and `ialloc` make in one block: section and bit.
pub find_clear : Block → Option (ℕ × ℕ)
find_clear b = elim (first_section b 0 (bsize / 8)) [
  | none ↦ none
  | some j ↦ elim (first_bit b j 0 64) [ none ↦ none | some k ↦ some (j, k) ]
]

-- The block `i` of the map `nth`, with its section and bit, at which the loop over blocks stops;
-- `none` is a panic.
pub find_block : (ℕ → Option ℕ) → Disk → ℕ → ℕ → Option (ℕ × ℕ × ℕ)
find_block nth d i zero = none
find_block nth d i (suc n) =
    let later = find_block nth d (suc i) n in
    elim (nth i) [
      | none ↦ none
      | some blockno ↦ elim (find_clear (d blockno)) [ none ↦ later | some (j, k) ↦ some (i, j, k) ]
    ]

-- `*section |= 1UL << k` and `bwrite`, in block `i` of the map.
pub mark : (ℕ → Option ℕ) → Disk → ℕ × ℕ × ℕ → Disk
mark nth d (i, j, k) = elim (nth i) [
  | none ↦ d
  | some blockno ↦ update d blockno (set_bit_of (d blockno) (64 * j + k))
]

pub balloc : Superblock → Disk → Option (ℕ × Disk)
balloc sb d = elim (find_block (read_nth_bmap sb) d 0 (sub32 sb.blocks sb.bmap)) [
  | none ↦ none
  | some (i, j, k) ↦
      some
        (add32 (i * bit_cnt_per_block + j * 64 + k) sb.blocks, mark (read_nth_bmap sb) d (i, j, k))
]

pub bfree : Superblock → ℕ → Disk → Option Disk
bfree sb blockno d =
    let i = sub32 blockno sb.blocks / bit_cnt_per_block in
    let k = sub32 blockno sb.blocks % bit_cnt_per_block in
    elim (read_nth_bmap sb i) [
      | none ↦ none
      | some map_block ↦
          if bit_of (d map_block) k
          then some (update d map_block (clear_bit_of (d map_block) k))
          else none
    ]

-- `j * sizeof(u64)` where `balloc` has `j * 64`.
pub ialloc : Superblock → Disk → Option (ℕ × Disk)
ialloc sb d = elim (find_block (read_nth_imap sb) d 0 (sub32 sb.inodes sb.imap)) [
  | none ↦ none
  | some (i, j, k) ↦
      some ((i * bit_cnt_per_block + j * 8 + k) % 2 ^ 32, mark (read_nth_imap sb) d (i, j, k))
]

pub iexist : Superblock → ℕ → Disk → Bool
iexist sb inum d = bit_of (d (add32 sb.imap (inum / bit_cnt_per_block))) (inum % bit_cnt_per_block)

-- The end of `ifree`, from `imap_blockno_of_inode` on.
pub imap_clear : Superblock → ℕ → Disk → Option Disk
imap_clear sb inum d =
    elim (read_nth_imap sb (sub32 (add32 sb.imap (inum / bit_cnt_per_block)) sb.imap)) [
      | none ↦ none
      | some map_block ↦
          some (update d map_block (clear_bit_of (d map_block) (inum % bit_cnt_per_block)))
    ]
