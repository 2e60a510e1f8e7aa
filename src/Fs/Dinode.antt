-- ===== src/Fs/Dinode.antt =====
-- `iread` and `iupdate` of kernel/fs/inode.c, on the disk of Fs/Blocks. A `struct dinode` is the list of its bytes:
-- type, device, link count, size and 15 block numbers of four bytes each.
use tnix.Common.{
  ℕ, ◌+◌, ◌-◌, ◌*◌, ◌/◌, ◌%◌, List, ◌&&◌, if◌then◌else◌, leb, ltb, get_or, tabulate, add32,
}
use tnix.Fs.Blocks.{bsize, Disk, Superblock, update}
pub mod Stored
mod Examples

abbrev pub dinode_size : ℕ
dinode_size = 76

abbrev pub dinode_cnt_per_block : ℕ
dinode_cnt_per_block = bsize / dinode_size

abbrev pub blockno_of_inode : Superblock → ℕ → ℕ
blockno_of_inode sb inum = add32 sb.inodes (inum / dinode_cnt_per_block)

abbrev pub offset_of_inode : ℕ → ℕ
offset_of_inode inum = inum % dinode_cnt_per_block

unfoldable pub iread : Superblock → ℕ → Disk → List ℕ
iread sb inum d =
    tabulate dinode_size
      (λ p. d (blockno_of_inode sb inum) (dinode_size * offset_of_inode inum + p))

unfoldable pub iupdate : Superblock → ℕ → List ℕ → Disk → Disk
iupdate sb inum di d =
    let start = dinode_size * offset_of_inode inum in
    update d (blockno_of_inode sb inum) (λ q.
      if leb start q && ltb q (start + dinode_size)
      then get_or di (q - start) 0
      else d (blockno_of_inode sb inum) q)
