-- ===== src/Fs/File/Examples.antt =====
-- A file of two blocks, read across their border, and one that has an index block.
use tnix.Common.{◌+◌, ◌≡◌, refl, [], ◌∷◌, some, arith, tabulate}
use tnix.Fs.Blocks.{Disk}
use tnix.Fs.File.{File, fread}
use tnix.Fs.File.Read.{byte, fread_lem}

-- Blocks 20 and 21, 1030 bytes, read up to byte 1020.
abbrev two : File
two = record {
  off = 1020;
  fsize = 1030;
  iblock = 20 ∷ 21 ∷ 0 ∷ 0 ∷ 0 ∷ 0 ∷ 0 ∷ 0 ∷ 0 ∷ 0 ∷ 0 ∷ 0 ∷ 0 ∷ 0 ∷ 0 ∷ [];
}

-- Every byte is the number of its block.
abbrev disk : Disk
disk q p = q

fread_lem_example :
    fread two disk 8
    ≡ some (tabulate 8 (λ k. byte two disk (1020 + k)), 8, record two { off = 1028 })
fread_lem_example = fread_lem two disk refl 8 (omega arith) (omega arith)

blocks_read :
    tabulate 8 (λ k. byte two disk (1020 + k)) ≡ 20 ∷ 20 ∷ 20 ∷ 20 ∷ 21 ∷ 21 ∷ 21 ∷ 21 ∷ []
blocks_read = refl
