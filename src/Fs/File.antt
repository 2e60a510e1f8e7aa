-- ===== src/Fs/File.antt =====
-- `blockno_of_data` and `fread` of kernel/fs/file.c, over the blocks of a disk. The user's buffer is
-- the list of the bytes stored in it.
use tnix.Common.{
  ℕ, zero, suc, ◌+◌, ◌-◌, ◌*◌, ◌/◌, ◌%◌, ◌^◌, min, List, [], ◌∷◌, ◌++◌, Option, none, some,
  if◌then◌else◌, ◌==◌, leb, ltb, ◌&&◌, get_elem?, tabulate, sub32,
}
use tnix.Fs.Blocks.{bsize, Block, Disk}
pub mod Read
mod Examples

abbrev pub ndirect : ℕ
ndirect = 12

abbrev pub idx_cnt : ℕ
idx_cnt = bsize / 4

-- What reading takes from `struct file` and its inode: `off`, `fsize` and the 15 entries of `iblock`.
pub record File : Type 0 where
  pub off : ℕ
  pub fsize : ℕ
  pub iblock : List ℕ

-- Entry `k` of an index block, lowest byte first.
unfoldable pub u32_of : Block → ℕ → ℕ
u32_of b k = b (4 * k) + 2 ^ 8 * b (4 * k + 1) + 2 ^ 16 * b (4 * k + 2) + 2 ^ 24 * b (4 * k + 3)

-- `none` is an access outside `iblock` or outside the index block.
unfoldable pub blockno_of_data : File → Disk → ℕ → Option ℕ
unfolding u32_of
blockno_of_data f d off =
    let i = (off - bsize * ndirect) / idx_cnt in
    let q = off / bsize - ndirect in
    if ltb off (bsize * ndirect)
    then get_elem? f.iblock (off / bsize)
    else elim (get_elem? f.iblock (i + ndirect)) [
      | none ↦ none
      | some b ↦
          if leb (i * idx_cnt) q && ltb (q - i * idx_cnt) idx_cnt
          then some (u32_of (d b) (q - i * idx_cnt))
          else none
    ]

-- The loop of `fread`: `out` holds the `done_bytes` copied. At least one byte is copied a round.
unfoldable pub fread_loop :
    ℕ → File → Disk → (pcur pend_bytes : ℕ) → (out : List ℕ) → Option (List ℕ)
fread_loop zero f d pcur pend_bytes out = none
fread_loop (suc fuel) f d pcur pend_bytes out =
    let len = min (bsize - pcur % bsize) pend_bytes in
    if pend_bytes == 0 then some out else elim (blockno_of_data f d pcur) [
      | none ↦ none
      | some b ↦
          fread_loop fuel f d (pcur + len) (pend_bytes - len)
            (out ++ tabulate len (λ k. d b (pcur % bsize + k)))
    ]

-- `fread` once `pend_bytes` is `n`: the bytes, their number and the file.
unfoldable pub fread_of : File → Disk → ℕ → Option (List ℕ × ℕ × File)
unfolding fread_loop blockno_of_data
fread_of f d n = elim (fread_loop (suc n) f d f.off n []) [
  | none ↦ none
  | some out ↦ some (out, n, record f { off = f.off + n })
]

unfoldable pub fread : File → Disk → ℕ → Option (List ℕ × ℕ × File)
unfolding fread_of
fread f d bytes = fread_of f d (min bytes (sub32 f.fsize f.off))
