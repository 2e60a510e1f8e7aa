-- ===== src/Fs/Dinode/Examples.antt =====
-- An inode that is stored on a disk.
use tnix.Common.{ℕ, ◌+◌, ◌/◌, ◌<◌, ◌≡◌, ◌≢◌, refl, arith, List, replicate, u32_mod}
use tnix.Fs.Bitmap.Examples.{sb, disk}
use tnix.Fs.Dinode.{dinode_cnt_per_block, iread, iupdate}
use tnix.Fs.Dinode.Stored.{iread-iupdate}

abbrev sevens : List ℕ
sevens = replicate 76 7

iread-iupdate_example :
    (iread sb 14 (iupdate sb 14 sevens disk) ≡ sevens)
    × ((j : ℕ)
        → sb.inodes + j / dinode_cnt_per_block < u32_mod
        → j ≢ 14
        → iread sb j (iupdate sb 14 sevens disk) ≡ iread sb j disk)
iread-iupdate_example = iread-iupdate sb 14 sevens disk refl (omega arith)
