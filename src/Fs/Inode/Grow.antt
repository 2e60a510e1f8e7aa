-- ===== src/Fs/Inode/Grow.antt =====
-- `data_block_alloc` on a file of whole blocks: the new block is the file's last, and the others stay.
use tnix.Common.{
  FirstClear, ℕ, zero, suc, ◌+◌, ◌-◌, ◌*◌, ◌/◌, ◌%◌, ◌≤◌, ◌<◌, ◌≡◌, ◌≢◌, refl, ap, sym, ◌∙◌, List,
  [], ◌∷◌, some, arith, length, get_elem?, set, eq→==, ne→not_==, lt→ltb, le→not_ltb, inl, inr, ◌⊎◌,
}
use tnix.Fs.Blocks.{bsize, bit_cnt_per_block, Disk, Superblock, update}
use tnix.Fs.Bitmap.Scan.{IsBytes, map_bit}
use tnix.Fs.Bitmap.Alloc.{IsLaidOut, bmap_cnt, balloc_refines}
use tnix.Fs.File.{ndirect, idx_cnt, File, u32_of}
use tnix.Fs.Inode.{
  file_max_data_blocknum, iblock_cnt, put_u32, data_block_get, put_iblock, gives, alloc_at,
  data_block_alloc,
}
use tnix.Fs.Inode.Index.{u32_of-put_u32, u32_of-put_u32_other}

pub iblock_cnt_lem : (f : File) (n : ℕ) → f.fsize ≡ bsize * n → n < 4194304 → iblock_cnt f ≡ n
unfolding iblock_cnt
iblock_cnt_lem f n e h = rw (eq→== (f.fsize % bsize) 0 (omega (arith, e))) (omega (arith, e))

pub get_elem?-set_self : (xs : List ℕ) (i v : ℕ) → i < length xs → get_elem? (set xs i v) i ≡ some v
get_elem?-set_self [] i v h = absurd (omega arith)
get_elem?-set_self (x ∷ xs) zero v h = refl
get_elem?-set_self (x ∷ xs) (suc i) v h = get_elem?-set_self xs i v (omega arith)

pub get_elem?-set_ne : (xs : List ℕ) (i j v : ℕ) → j ≢ i → get_elem? (set xs i v) j ≡ get_elem? xs j
get_elem?-set_ne [] i j v h = refl
get_elem?-set_ne (x ∷ xs) zero zero v h = absurd (h refl)
get_elem?-set_ne (x ∷ xs) zero (suc j) v h = refl
get_elem?-set_ne (x ∷ xs) (suc i) zero v h = refl
get_elem?-set_ne (x ∷ xs) (suc i) (suc j) v h = get_elem?-set_ne xs i j v (λ e. h (ap suc e))

lt_or_le : (a b : ℕ) → (a < b) ⊎ (b ≤ a)
lt_or_le a b = omega arith

pub get_direct :
    (f : File) (d : Disk) (i : ℕ) → i < ndirect → data_block_get f d i ≡ get_elem? f.iblock i
unfolding data_block_get
get_direct f d i h = rw (lt→ltb i ndirect h) refl

pub get_indirect :
    (f : File) (d : Disk) (i ib : ℕ)
    → ndirect ≤ i
    → i < ndirect + idx_cnt
    → get_elem? f.iblock ndirect ≡ some ib
    → data_block_get f d i ≡ some (u32_of (d ib) (i - ndirect))
unfolding data_block_get
get_indirect f d i ib h below e =
    rw (le→not_ltb i ndirect h, first, e) (ap (λ t. some (u32_of (d ib) t)) (omega arith))
  where
    first : ndirect + (i - ndirect) / idx_cnt ≡ ndirect
    first = omega arith

-- Block `n` of the file is `blockno`, and those before it are what they were.
pub record Appended (n blockno : ℕ) (f f' : File) (d d' : Disk) : Type 0 where
  pub last : data_block_get f' d' n ≡ some blockno
  pub before : (j : ℕ) → j < n → data_block_get f' d' j ≡ data_block_get f d j

module _ (sb : Superblock) (f : File) (d : Disk) (n t : ℕ) where
  -- On a file system that is laid out properly and has its first free block at `t`, for a file of
  -- `n` full blocks, `n` below 12, and 15 block entries: `data_block_alloc` returns block `t`,
  -- which is then block `n` of the file, and the blocks before it are what they were.
  pub data_block_alloc-direct :
      IsLaidOut sb
      → ((m : ℕ) → IsBytes (d m))
      → FirstClear (map_bit d sb.bmap) 0 t
      → t < bit_cnt_per_block * bmap_cnt sb
      → length f.iblock ≡ 15
      → f.fsize ≡ bsize * n
      → n < ndirect
      → (f' : File) × (d' : Disk) × (data_block_alloc sb f d ≡ gives (sb.blocks + t) f' d')
        × Appended n (sb.blocks + t) f f' d d'
  unfolding data_block_alloc alloc_at
  data_block_alloc-direct v bytes first below size e h =
      let (d', run, _, _) = balloc_refines sb d t v bytes first below in
      let cnt : iblock_cnt f ≡ n = iblock_cnt_lem f n e (omega arith) in
      (
        put_iblock f n (sb.blocks + t),
        d',
        ap (alloc_at sb f d) cnt
            ∙ rw (ne→not_== n file_max_data_blocknum (omega arith), run, lt→ltb n ndirect h) refl,
        record {
          last =
              get_direct (put_iblock f n (sb.blocks + t)) d' n h
              ∙ get_elem?-set_self f.iblock n (sb.blocks + t) (omega (arith, size));
          before = λ j p.
              get_direct (put_iblock f n (sb.blocks + t)) d' j (omega arith)
              ∙ get_elem?-set_ne f.iblock n j (sb.blocks + t) (omega arith)
              ∙ sym (get_direct f d j (omega arith));
        },
      )

  -- On a file system that is laid out properly and has its first free block at `t`, for a file of
  -- `n` full blocks, `n` above 12 and below 24, whose first index block lies in the data area:
  -- `data_block_alloc` returns block `t`, which is then block `n` of the file, and the blocks
  -- before it are what they were.
  pub data_block_alloc-indirect :
      (ib : ℕ)
      → IsLaidOut sb
      → ((m : ℕ) → IsBytes (d m))
      → FirstClear (map_bit d sb.bmap) 0 t
      → t < bit_cnt_per_block * bmap_cnt sb
      → get_elem? f.iblock ndirect ≡ some ib
      → sb.blocks ≤ ib
      → f.fsize ≡ bsize * n
      → ndirect < n
      → n < file_max_data_blocknum
      → (d' : Disk) × (data_block_alloc sb f d ≡ gives (sb.blocks + t) f d')
        × Appended n (sb.blocks + t) f f d d'
  unfolding data_block_alloc alloc_at
  data_block_alloc-indirect ib v bytes first below index behind e h top =
      let (d1, run, _, kept) = balloc_refines sb d t v bytes first below in
      let cnt : iblock_cnt f ≡ n = iblock_cnt_lem f n e (omega arith) in
      let same : d1 ib ≡ d ib = kept ib (omega (arith, v.blocks_behind)) in
      let d' : Disk = update d1 ib (put_u32 (d1 ib) (n - ndirect) (sb.blocks + t)) in
      let here : (k : ℕ)
          → u32_of (d' ib) k ≡ u32_of (put_u32 (d1 ib) (n - ndirect) (sb.blocks + t)) k =
        λ k. rw (eq→== ib ib refl) refl in
      (
        d',
        ap (alloc_at sb f d) cnt
            ∙ rw
                (
                  ne→not_== n file_max_data_blocknum (omega arith),
                  run,
                  le→not_ltb n ndirect (omega arith),
                  ne→not_== ((n - ndirect) % idx_cnt) 0 (omega arith),
                  entry,
                  index,
                  offset,
                )
                refl,
        record {
          last =
              get_indirect f d' n ib (omega arith) (omega arith) index
              ∙ ap some (
                  here (n - ndirect)
                  ∙ u32_of-put_u32 (d1 ib) (n - ndirect) (sb.blocks + t)
                      (omega (arith, v.addressable)));
          before = λ j p. elim (lt_or_le j ndirect) [
            | inl l ↦ get_direct f d' j l ∙ sym (get_direct f d j l)
            | inr l ↦
                get_indirect f d' j ib l (omega arith) index
                ∙ ap some (
                    here (j - ndirect)
                    ∙ u32_of-put_u32_other (d1 ib) (n - ndirect) (sb.blocks + t) (j - ndirect)
                        (omega arith)
                    ∙ ap (λ b. u32_of b (j - ndirect)) same)
                ∙ sym (get_indirect f d j ib l (omega arith) index)
          ];
        },
      )
    where
      entry : ndirect + (n - ndirect) / idx_cnt ≡ ndirect
      entry = omega arith

      offset : (n - ndirect) % idx_cnt ≡ n - ndirect
      offset = omega arith
