-- ===== src/Fs/Bitmap/Inodes.antt =====
-- The inode map: `ialloc`, `iexist` and the map update of `ifree`.
use tnix.Common.{
  FirstClear, ℕ, ◌+◌, ◌-◌, ◌*◌, ◌/◌, ◌%◌, ◌≤◌, ◌<◌, ◌≡◌, refl, ap, ◌∙◌, true, false, some, arith,
  add32, sub32, u32_mod, eq→==,
}
use tnix.Fs.Blocks.{bit_cnt_per_block, Disk, Superblock, bit_of, read_nth_imap}
use tnix.Fs.Bitmap.{find_block, ialloc, iexist, imap_clear}
use tnix.Fs.Bitmap.Scan.{IsBytes, map_bit, find_block_lem}
use tnix.Fs.Bitmap.Bits.{marked, unmarked, map_bit-marked, unmarked-marked}
use tnix.Fs.Bitmap.Alloc.{IsLaidOut, imap_blocks, imap_cnt-eq, mark-eq_marked}

abbrev pub imap_cnt : Superblock → ℕ
imap_cnt sb = sb.inodes - sb.imap

-- What `ialloc` computes from the place of the first clear bit.
abbrev pub ialloc_number : ℕ → ℕ
ialloc_number t =
    (t / bit_cnt_per_block * bit_cnt_per_block + t % bit_cnt_per_block / 64 * 8 + t % 64) % u32_mod

module _ {sb : Superblock} {d : Disk} {t : ℕ} (v : IsLaidOut sb) (bytes : (n : ℕ) → IsBytes (d n))
    (f : FirstClear (map_bit d sb.imap) 0 t) (h : t < bit_cnt_per_block * imap_cnt sb) where
  ialloc_lem : ialloc sb d ≡ some (ialloc_number t, marked d sb.imap t)
  unfolding ialloc
  ialloc_lem =
      rw
        (
          ap (find_block (read_nth_imap sb) d 0) (imap_cnt-eq v)
              ∙ find_block_lem (read_nth_imap sb) d sb.imap (imap_cnt sb) (imap_blocks v) bytes 0
                  (imap_cnt sb) t (omega arith)
                  (record {
                    behind = omega arith;
                    clear = f.clear;
                    before = λ m l u. f.before m (omega arith) u;
                  })
                  (omega arith),
          ialloc,
        )
        (ap (λ y. some (ialloc_number t, y))
          (mark-eq_marked (read_nth_imap sb) d sb.imap t
            (imap_blocks v (t / bit_cnt_per_block) (omega arith))))

iexist-eq_map_bit :
    (sb : Superblock) (d : Disk) (n : ℕ)
    → IsLaidOut sb
    → n < bit_cnt_per_block * imap_cnt sb
    → iexist sb n d ≡ map_bit d sb.imap n
unfolding iexist
iexist-eq_map_bit sb d n v h =
    ap (λ q. bit_of (d q) (n % bit_cnt_per_block)) (omega (arith, v.addressable))

imap_clear_lem :
    (sb : Superblock) (d : Disk) (n : ℕ)
    → IsLaidOut sb
    → n < bit_cnt_per_block * imap_cnt sb
    → imap_clear sb n d ≡ some (unmarked d sb.imap n)
unfolding imap_clear
imap_clear_lem sb d n v h =
    rw (ap (read_nth_imap sb) nth ∙ imap_blocks v (n / bit_cnt_per_block) (omega arith), imap_clear)
  where
    nth : sub32 (add32 sb.imap (n / bit_cnt_per_block)) sb.imap ≡ n / bit_cnt_per_block
    nth = omega (arith, v.addressable)

-- On a file system that is laid out properly, with the first free inode among the first 64 of a
-- map block, `ialloc` and the map update of `ifree` fit together: the number that `ialloc` returns
-- is that inode's, which did not exist, exists afterwards, and once freed leaves the disk as it
-- was.
pub ifree-ialloc :
    (sb : Superblock) (d : Disk) (t : ℕ)
    → IsLaidOut sb
    → ((n : ℕ) → IsBytes (d n))
    → FirstClear (map_bit d sb.imap) 0 t
    → t < bit_cnt_per_block * imap_cnt sb
    → t < u32_mod
    → t % bit_cnt_per_block < 64
    → (d' : Disk) × (ialloc sb d ≡ some (t, d'))
      × (iexist sb t d ≡ false)
      × (iexist sb t d' ≡ true)
      × (imap_clear sb t d' ≡ some d)
ifree-ialloc sb d t v bytes f h u low = (
  marked d sb.imap t,
  ialloc_lem v bytes f h ∙ ap (λ n. some (n, marked d sb.imap t)) (omega arith),
  iexist-eq_map_bit sb d t v h ∙ f.clear,
  iexist-eq_map_bit sb (marked d sb.imap t) t v h
      ∙ map_bit-marked d sb.imap t t
      ∙ rw (eq→== t t refl),
  imap_clear_lem sb (marked d sb.imap t) t v h ∙ ap some (unmarked-marked d sb.imap t f.clear),
)

-- On a file system that is laid out properly, with the first free inode `t` not among the first 64
-- of its map block, `ialloc` sets the bit of `t`, but returns the smaller number of another inode,
-- which exists already.
pub ialloc_gives_used :
    (sb : Superblock) (d : Disk) (t : ℕ)
    → IsLaidOut sb
    → ((n : ℕ) → IsBytes (d n))
    → FirstClear (map_bit d sb.imap) 0 t
    → t < bit_cnt_per_block * imap_cnt sb
    → t < u32_mod
    → 64 ≤ t % bit_cnt_per_block
    → (r : ℕ) × (ialloc sb d ≡ some (r, marked d sb.imap t)) × (r < t) × (iexist sb r d ≡ true)
ialloc_gives_used sb d t v bytes f h u high = (
  ialloc_number t,
  ialloc_lem v bytes f h,
  omega arith,
  iexist-eq_map_bit sb d (ialloc_number t) v (omega arith)
      ∙ f.before (ialloc_number t) (omega arith) (omega arith),
)
