-- ===== src/Fs/Inode/Examples.antt =====
-- Files that the theorems are applied to, on the small file system of the maps.
use tnix.Common.{ℕ, ◌≡◌, ◌≢◌, ◌++◌, refl, arith, [], ◌∷◌, some, get_elem?, replicate}
use tnix.Fs.Blocks.{Disk}
use tnix.Fs.Bitmap.Examples.{sb, sb-IsLaidOut, disk, disk-IsBytes, disk-FirstClear}
use tnix.Fs.File.{File}
use tnix.Fs.Inode.{data_block_get, data_block_alloc, gives}
use tnix.Fs.Inode.Grow.{Appended, data_block_alloc-direct, data_block_alloc-indirect}
use tnix.Fs.Inode.Tail.{data_block_alloc-replaces}

-- Three full blocks; fourteen, with their index block; two and a half; and half a block.
abbrev three_blocks : File
three_blocks = record { off = 0; fsize = 3072; iblock = 20 ∷ 21 ∷ 22 ∷ replicate 12 0 }

abbrev fourteen_blocks : File
fourteen_blocks = record { off = 0; fsize = 14336; iblock = replicate 12 20 ++ (30 ∷ 0 ∷ 0 ∷ []) }

abbrev two_and_a_half : File
two_and_a_half = record { off = 0; fsize = 2560; iblock = 20 ∷ 21 ∷ 22 ∷ replicate 12 0 }

abbrev half_block : File
half_block = record { off = 0; fsize = 512; iblock = 20 ∷ replicate 14 0 }

data_block_alloc-direct_example :
    (f' : File) × (d' : Disk) × (data_block_alloc sb three_blocks disk ≡ gives 83 f' d')
    × Appended 3 83 three_blocks f' disk d'
data_block_alloc-direct_example =
    data_block_alloc-direct sb three_blocks disk 3 72 sb-IsLaidOut disk-IsBytes (disk-FirstClear 10)
      (omega arith) refl refl (omega arith)

data_block_alloc-indirect_example :
    (d' : Disk) × (data_block_alloc sb fourteen_blocks disk ≡ gives 83 fourteen_blocks d')
    × Appended 14 83 fourteen_blocks fourteen_blocks disk d'
data_block_alloc-indirect_example =
    data_block_alloc-indirect sb fourteen_blocks disk 14 72 30 sb-IsLaidOut disk-IsBytes
      (disk-FirstClear 10) (omega arith) refl (omega arith) refl (omega arith) (omega arith)

data_block_alloc-replaces_example :
    (f' : File) × (d' : Disk) × (data_block_alloc sb two_and_a_half disk ≡ gives 83 f' d')
    × (data_block_get f' d' 1 ≡ some 83)
    × ((j : ℕ) → j ≢ 1 → get_elem? f'.iblock j ≡ get_elem? two_and_a_half.iblock j)
data_block_alloc-replaces_example =
    data_block_alloc-replaces sb two_and_a_half disk 72 sb-IsLaidOut disk-IsBytes
      (disk-FirstClear 10) (omega arith) refl 1 512 refl (omega arith) (omega arith) (omega arith)
