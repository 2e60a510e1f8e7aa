-- ===== src/Fs/Bitmap/Examples.antt =====
-- Runs of the map functions, and the theorems at a small file system.
use tnix.Common.{
  FirstClear, ℕ, ◌*◌, ◌/◌, ◌%◌, ◌<◌, ◌≡◌, ◌≢◌, refl, true, false, none, some, arith, ◌==◌,
  if◌then◌else◌, ltb, test_bit, test_ones, lt→ltb, ap, ap₂, ◌∙◌,
}
use tnix.Fs.Blocks.{Disk, Superblock, bit_of, read_nth_imap, read_nth_bmap}
use tnix.Fs.Bitmap.{
  balloc, bfree, ialloc, iexist, imap_clear, find_block, find_clear, first_section, first_bit,
  section_full, mark,
}
use tnix.Fs.Bitmap.Scan.{IsBytes, map_bit}
use tnix.Fs.Bitmap.Bits.{marked}
use tnix.Fs.Bitmap.Alloc.{IsLaidOut, balloc_refines}
use tnix.Fs.Bitmap.Free.{bfree-balloc}
use tnix.Fs.Bitmap.Inodes.{ifree-ialloc}

-- One block for each map.
abbrev pub sb : Superblock
sb = record {
  dev = 0;
  imap = 2;
  inodes = 3;
  bmap = 10;
  blocks = 11;
  max_inum = 8191;
  max_blockno = 8202;
}

pub sb-IsLaidOut : IsLaidOut sb
sb-IsLaidOut = omega arith

-- The first nine bytes of each map are full: 72 bits.
abbrev pub disk : Disk
disk q p = if ltb p 9 then 255 else 0

pub disk-IsBytes : (q : ℕ) → IsBytes (disk q)
disk-IsBytes q p = ground arith

-- The first byte is full.
abbrev young : Disk
young q p = if ltb p 1 then 255 else 0

young-IsBytes : (q : ℕ) → IsBytes (young q)
young-IsBytes q p = ground arith

abbrev full : Disk
full q p = 255

full-IsBytes : (q : ℕ) → IsBytes (full q)
full-IsBytes q p = omega arith

-- A disk whose maps begin with `n` full bytes.
FirstClear-bytes :
    (n : ℕ) (d : Disk) (start : ℕ)
    → n < 1024
    → d start n ≡ 0
    → ((p : ℕ) → p < n → d start p ≡ 255)
    → FirstClear (map_bit d start) 0 (8 * n)
unfolding bit_of
FirstClear-bytes n d start h z ones = record {
  behind = omega arith;
  clear = at_n ∙ test_zero;
  before = λ m l u. used m u;
}
  where
    test_zero : test_bit 0 0 ≡ false
    test_zero = unfold test_bit in refl

    at_n : map_bit d start (8 * n) ≡ test_bit 0 0
    at_n = ap₂ (λ x y. test_bit x y) (ap₂ d (omega arith) (omega arith) ∙ z) (omega arith)

    used : (m : ℕ) → m < 8 * n → map_bit d start m ≡ true
    used m u =
        ap (λ x. test_bit x (m % 8192 % 8))
          (ap (λ q. d q (m % 8192 / 8)) (omega arith) ∙ ones (m % 8192 / 8) (omega arith))
        ∙ test_ones 8 (m % 8192 % 8) (omega arith)

pub disk-FirstClear : (start : ℕ) → FirstClear (map_bit disk start) 0 72
disk-FirstClear start = FirstClear-bytes 9 disk start (omega arith) refl (λ p h. rw (lt→ltb p 9 h))

young-FirstClear : (start : ℕ) → FirstClear (map_bit young start) 0 8
young-FirstClear start =
    FirstClear-bytes 1 young start (omega arith) refl (λ p h. rw (lt→ltb p 1 h))

balloc-disk : (n : ℕ) → n ≡ 83 → balloc sb disk ≡ some (n, marked disk 10 72)
unfolding balloc read_nth_bmap find_block find_clear first_section first_bit section_full mark
    bit_of test_bit
balloc-disk n e = rw e

ialloc-disk : (n : ℕ) → n ≡ 16 → ialloc sb disk ≡ some (n, marked disk 2 72)
unfolding ialloc read_nth_imap find_block find_clear first_section first_bit section_full mark
    bit_of test_bit
ialloc-disk n e = rw e

balloc_refines_example :
    (d' : Disk) × (balloc sb disk ≡ some (83, d'))
    × ((n : ℕ) → map_bit d' 10 n ≡ (if n == 72 then true else map_bit disk 10 n))
    × ((q : ℕ) → q ≢ 10 → d' q ≡ disk q)
balloc_refines_example =
    balloc_refines sb disk 72 sb-IsLaidOut disk-IsBytes (disk-FirstClear 10) (omega arith)

bfree-balloc_example :
    (d' : Disk) × (balloc sb disk ≡ some (83, d'))
    × (bfree sb 83 d' ≡ some disk)
    × (bfree sb 83 disk ≡ none)
bfree-balloc_example =
    bfree-balloc sb disk 72 sb-IsLaidOut disk-IsBytes (disk-FirstClear 10) (omega arith)

-- Inodes 0 to 7 exist.
ifree-ialloc_example :
    (d' : Disk) × (ialloc sb young ≡ some (8, d'))
    × (iexist sb 8 young ≡ false)
    × (iexist sb 8 d' ≡ true)
    × (imap_clear sb 8 d' ≡ some young)
ifree-ialloc_example =
    ifree-ialloc sb young 8 sb-IsLaidOut young-IsBytes (young-FirstClear 2) (omega arith)
      (omega arith) (omega arith)
