-- ===== src/Fs/Blocks.antt =====
-- The blocks of a device as the file system sees them through `bread` and `bwrite`: a block number
-- gives the 1024 bytes of its buffer. A `u64` of a block is its eight bytes, lowest first, as on the
-- hart. `superblock` and the reads of map blocks are those of kernel/fs/fs.h and fs.c.
use tnix.Common.{
  ℕ, ◌*◌, ◌/◌, ◌%◌, Bool, Option, none, some, if◌then◌else◌, ◌==◌, leb, add32, sub32, test_bit,
  set_bit, clear_bit,
}

abbrev pub bsize : ℕ
bsize = 1024

abbrev pub bit_cnt_per_block : ℕ
bit_cnt_per_block = bsize * 8

abbrev pub Block : Type 0
Block = ℕ → ℕ

abbrev pub Disk : Type 0
Disk = ℕ → Block

pub record Superblock : Type 0 where
  pub dev : ℕ
  pub imap : ℕ
  pub inodes : ℕ
  pub bmap : ℕ
  pub blocks : ℕ
  pub max_inum : ℕ
  pub max_blockno : ℕ

abbrev pub update {ℓ} : {A : Type ℓ} → (ℕ → A) → ℕ → A → ℕ → A
update f i x j = if j == i then x else f j

-- Bit `n` of a block: bit `n % 8` of byte `n / 8`, and bit `n % 64` of the `u64` at `n / 64`.
unfoldable pub bit_of : Block → ℕ → Bool
bit_of b n = test_bit (b (n / 8)) (n % 8)

unfoldable pub set_bit_of : Block → ℕ → Block
set_bit_of b n = update b (n / 8) (set_bit (b (n / 8)) (n % 8))

unfoldable pub clear_bit_of : Block → ℕ → Block
clear_bit_of b n = update b (n / 8) (clear_bit (b (n / 8)) (n % 8))

-- The block number of the `n`th block of a map, `none` for the panic.
unfoldable pub read_nth_imap : Superblock → ℕ → Option ℕ
read_nth_imap sb n = if leb (sub32 sb.inodes sb.imap) n then none else some (add32 n sb.imap)

unfoldable pub read_nth_bmap : Superblock → ℕ → Option ℕ
read_nth_bmap sb n = if leb (sub32 sb.blocks sb.bmap) n then none else some (add32 n sb.bmap)
