-- ===== src/Fs/Inode/Tail.antt =====
-- `data_block_alloc` on a file whose last block is not full.
use tnix.Common.{
  FirstClear, ℕ, suc, ◌+◌, ◌*◌, ◌/◌, ◌%◌, ◌<◌, ◌≡◌, ◌≢◌, refl, ap, ◌∙◌, some, arith, length,
  get_elem?, get_elem?-outside, sub32, ne→not_==, lt→ltb, u32_mod,
}
use tnix.Fs.Blocks.{bsize, bit_cnt_per_block, Disk, Superblock}
use tnix.Fs.Bitmap.Scan.{IsBytes, map_bit}
use tnix.Fs.Bitmap.Alloc.{IsLaidOut, bmap_cnt, balloc_refines}
use tnix.Fs.File.{ndirect, File}
use tnix.Fs.Inode.{
  file_max_data_blocknum, iblock_cnt, data_block_get, put_iblock, gives, outside, alloc_at,
  data_block_alloc,
}
use tnix.Fs.Inode.Grow.{get_direct, get_elem?-set_self, get_elem?-set_ne}

-- One less than the number of full blocks, in `u32`.
iblock_cnt-tail :
    (f : File) (q r : ℕ)
    → f.fsize ≡ bsize * q + r
    → r ≢ 0
    → r < bsize
    → f.fsize < u32_mod
    → iblock_cnt f ≡ sub32 q 1
unfolding iblock_cnt
iblock_cnt-tail f q r e z h small =
    rw (ne→not_== (f.fsize % bsize) 0 (omega (arith, e))) (ap (λ k. sub32 k 1) quotient)
  where
    quotient : f.fsize / bsize ≡ q
    quotient = omega (arith, e)

module _ (sb : Superblock) (f : File) (d : Disk) (t : ℕ) (v : IsLaidOut sb)
    (bytes : (m : ℕ) → IsBytes (d m)) (first : FirstClear (map_bit d sb.bmap) 0 t)
    (below : t < bit_cnt_per_block * bmap_cnt sb) (size : length f.iblock ≡ 15) where
  -- On a file system that is laid out properly and has its first free block at `t`, for a file of
  -- `q + 1` full blocks and part of another, `q` below 12, and 15 block entries:
  -- `data_block_alloc` puts block `t` in place of block `q` of the file and leaves the other
  -- entries.
  pub data_block_alloc-replaces :
      (q r : ℕ)
      → f.fsize ≡ bsize * suc q + r
      → r ≢ 0
      → r < bsize
      → q < ndirect
      → (f' : File) × (d' : Disk) × (data_block_alloc sb f d ≡ gives (sb.blocks + t) f' d')
        × (data_block_get f' d' q ≡ some (sb.blocks + t))
        × ((j : ℕ) → j ≢ q → get_elem? f'.iblock j ≡ get_elem? f.iblock j)
  unfolding data_block_alloc alloc_at
  data_block_alloc-replaces q r e z h direct =
      let (d', run, _, _) = balloc_refines sb d t v bytes first below in
      let cnt : iblock_cnt f ≡ q =
        iblock_cnt-tail f (suc q) r e z h (omega (arith, e)) ∙ omega arith in
      (
        put_iblock f q (sb.blocks + t),
        d',
        ap (alloc_at sb f d) cnt
            ∙ rw (ne→not_== q file_max_data_blocknum (omega arith), run, lt→ltb q ndirect direct)
                refl,
        get_direct (put_iblock f q (sb.blocks + t)) d' q direct
            ∙ get_elem?-set_self f.iblock q (sb.blocks + t) (omega (arith, size)),
        λ j ne. get_elem?-set_ne f.iblock q j (sb.blocks + t) ne,
      )

  pub data_block_alloc-outside : f.fsize ≢ 0 → f.fsize < bsize → data_block_alloc sb f d ≡ outside
  unfolding data_block_alloc alloc_at
  data_block_alloc-outside z h =
      let (d', run, _, _) = balloc_refines sb d t v bytes first below in
      let cnt : iblock_cnt f ≡ 4294967295 =
        iblock_cnt-tail f 0 f.fsize (omega arith) z h (omega arith) ∙ refl in
      ap (alloc_at sb f d) cnt
      ∙ rw (run, get_elem?-outside f.iblock 16777227 (omega (arith, size))) refl
