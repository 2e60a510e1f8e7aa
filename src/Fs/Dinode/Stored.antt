-- ===== src/Fs/Dinode/Stored.antt =====
-- What `iupdate` stores, `iread` gives back.
use tnix.Common.{
  ℕ, ◌+◌, ◌*◌, ◌/◌, ◌≤◌, ◌<◌, ◌≡◌, ◌≢◌, refl, ap, sym, ◌∙◌, List, arith, ◌==◌, ◌⊎◌, inl, inr,
  Bool-cases, ==→eq, length, get_or, tabulate, tabulate-ext, tabulate-get_or, eq→==, lt→ltb, le→leb,
  lt→not_leb, u32_mod,
}
use tnix.Fs.Blocks.{Disk, Superblock}
use tnix.Fs.Dinode.{
  dinode_size, dinode_cnt_per_block, blockno_of_inode, offset_of_inode, iread, iupdate,
}

module _ (sb : Superblock) (inum : ℕ) (di : List ℕ) (d : Disk) where
  stored :
      (p : ℕ)
      → p < dinode_size
      → iupdate sb inum di d (blockno_of_inode sb inum) (dinode_size * offset_of_inode inum + p)
        ≡ get_or di p 0
  unfolding iupdate
  stored p h =
      rw
        (
          eq→== (blockno_of_inode sb inum) (blockno_of_inode sb inum) refl,
          le→leb (dinode_size * offset_of_inode inum) (dinode_size * offset_of_inode inum + p)
              (omega arith),
          lt→ltb (dinode_size * offset_of_inode inum + p)
              (dinode_size * offset_of_inode inum + dinode_size) (omega arith),
        )
        (ap (λ k. get_or di k 0) (omega arith))

  iread-stored : length di ≡ dinode_size → iread sb inum (iupdate sb inum di d) ≡ di
  unfolding iread
  iread-stored size =
      tabulate-ext dinode_size _ (λ p. get_or di p 0) (λ p h. stored p h)
      ∙ ap (λ n. tabulate n (λ p. get_or di p 0)) (sym size)
      ∙ tabulate-get_or di 0

  other_byte :
      (b q : ℕ)
      → (b ≡ blockno_of_inode sb inum
          → q < dinode_size * offset_of_inode inum
            ⊎ dinode_size * offset_of_inode inum + dinode_size ≤ q)
      → iupdate sb inum di d b q ≡ d b q
  unfolding iupdate
  other_byte b q h = elim (Bool-cases (b == blockno_of_inode sb inum)) [
    | inr e ↦ rw e refl
    | inl e ↦ elim (h (==→eq b (blockno_of_inode sb inum) e)) [
      | inl l ↦
          rw (e, lt→not_leb (dinode_size * offset_of_inode inum) q l)
            (ap (λ n. d n q) (sym (==→eq b (blockno_of_inode sb inum) e)))
      | inr l ↦ ground (arith, ==→eq b (blockno_of_inode sb inum) e, l)
    ]
  ]

-- Two inodes whose bytes lie in the same block lie apart.
apart :
    (sb : Superblock) (i j p : ℕ)
    → sb.inodes + i / dinode_cnt_per_block < u32_mod
    → sb.inodes + j / dinode_cnt_per_block < u32_mod
    → i ≢ j
    → p < dinode_size
    → blockno_of_inode sb j ≡ blockno_of_inode sb i
    → dinode_size * offset_of_inode j + p < dinode_size * offset_of_inode i
      ⊎ dinode_size * offset_of_inode i + dinode_size ≤ dinode_size * offset_of_inode j + p
apart sb i j p h k ne l e = omega arith

-- For an inode whose block number is a `u32`, and the 76 bytes of a `struct dinode`: `iread`
-- behind `iupdate` gives them back, and gives for every other inode, with such a block number too,
-- what it gave before.
pub iread-iupdate :
    (sb : Superblock) (inum : ℕ) (di : List ℕ) (d : Disk)
    → length di ≡ dinode_size
    → sb.inodes + inum / dinode_cnt_per_block < u32_mod
    → (iread sb inum (iupdate sb inum di d) ≡ di)
      × ((j : ℕ)
          → sb.inodes + j / dinode_cnt_per_block < u32_mod
          → j ≢ inum
          → iread sb j (iupdate sb inum di d) ≡ iread sb j d)
unfolding iread
iread-iupdate sb inum di d size small = (
  iread-stored sb inum di d size,
  λ j k ne.
      tabulate-ext dinode_size
        (λ p. iupdate sb inum di d (blockno_of_inode sb j) (dinode_size * offset_of_inode j + p))
        (λ p. d (blockno_of_inode sb j) (dinode_size * offset_of_inode j + p))
        (λ p l.
          other_byte sb inum di d (blockno_of_inode sb j) (dinode_size * offset_of_inode j + p)
            (apart sb inum j p small k (λ e. ne (sym e)) l)),
)
