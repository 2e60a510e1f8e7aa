-- ===== src/Fs/Inode.antt =====
-- The blocks of a file: `iblock_cnt` of kernel/fs/inode.h, `data_block_get` and `data_block_alloc` of
-- kernel/fs/inode.c. Of an inode they use `fsize` and `iblock`; a block is given by its number, where the code returns
-- its buffer.
use tnix.Common.{
  ℕ, zero, suc, ◌+◌, ◌-◌, ◌*◌, ◌/◌, ◌%◌, ◌^◌, List, Option, none, some, if◌then◌else◌, ◌==◌, ltb,
  leb, length, get_elem?, set, sub32,
}
use tnix.Fs.Blocks.{bsize, Block, Disk, Superblock, update}
use tnix.Fs.Bitmap.{balloc}
use tnix.Fs.File.{ndirect, idx_cnt, File, u32_of}
pub mod Index
pub mod Grow
pub mod Tail
mod Examples

abbrev pub nindirect : ℕ
nindirect = 3

-- `NDIRECT + NINDIRECT * sizeof(u32)`
abbrev pub file_max_data_blocknum : ℕ
file_max_data_blocknum = ndirect + nindirect * 4

-- `u32` arithmetic, as `fsize` is one.
unfoldable pub iblock_cnt : File → ℕ
iblock_cnt f = sub32 (f.fsize / bsize) (if f.fsize % bsize == 0 then 0 else 1)

-- The store of a `u32` at index `k` of a block, lowest byte first.
unfoldable pub put_u32 : Block → ℕ → ℕ → Block
put_u32 b k v p = if p / 4 == k then v / 2 ^ (8 * (p % 4)) % 2 ^ 8 else b p

-- `none` is a read outside `iblock`.
unfoldable pub data_block_get : File → Disk → ℕ → Option ℕ
unfolding u32_of
data_block_get f d i =
    if ltb i ndirect
    then get_elem? f.iblock i
    else elim (get_elem? f.iblock (ndirect + (i - ndirect) / idx_cnt)) [
      | none ↦ none
      | some b ↦ some (u32_of (d b) ((i - ndirect) % idx_cnt))
    ]

-- `panics` is a panic of this function or of `balloc`; `outside` an access behind `iblock`.
pub data Grown : Type 0 where
  panics : Grown
  outside : Grown
  gives : ℕ → File → Disk → Grown

-- `iblock[i] = blockno`
abbrev pub put_iblock : File → ℕ → ℕ → File
put_iblock f i blockno = record f { iblock = set f.iblock i blockno }

-- The index block is new, or already there.
abbrev pub add_index : Superblock → File → Disk → ℕ → ℕ → Grown
add_index sb f d c blockno =
    if c % idx_cnt == 0
    then elim (balloc sb d) [
      | none ↦ panics
      | some (iblockno, d') ↦
          if ltb (ndirect + c / idx_cnt) (length f.iblock)
          then gives blockno (put_iblock f (ndirect + c / idx_cnt) iblockno)
              (update d' iblockno (put_u32 (d' iblockno) 0 blockno))
          else outside
    ]
    else elim (get_elem? f.iblock (ndirect + c / idx_cnt)) [
      | none ↦ outside
      | some b ↦ gives blockno f (update d b (put_u32 (d b) (c % idx_cnt) blockno))
    ]

-- `data_block_alloc` once `curn` is `n`.
unfoldable pub alloc_at : Superblock → File → Disk → ℕ → Grown
alloc_at sb f d n = if n == file_max_data_blocknum then panics else elim (balloc sb d) [
  | none ↦ panics
  | some (blockno, d') ↦
      if ltb n ndirect
      then gives blockno (put_iblock f n blockno) d'
      else add_index sb f d' (n - ndirect) blockno
]

unfoldable pub data_block_alloc : Superblock → File → Disk → Grown
unfolding iblock_cnt alloc_at
data_block_alloc sb f d = alloc_at sb f d (iblock_cnt f)
