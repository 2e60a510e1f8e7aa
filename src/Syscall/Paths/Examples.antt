-- ===== src/Syscall/Paths/Examples.antt =====
-- Runs on a root directory with `bin`, which has the file `sh`; the working directory is `bin`.
use tnix.Common.{
  ℕ, zero, suc, ◌≤◌, ◌<◌, ◌≡◌, ◌≢◌, refl, List, [], ◌∷◌, none, some, arith, if◌then◌else◌, ◌==◌,
  replicate, length, add32,
}
use tnix.Fs.Names.{parse_path, filled, dentry_name_equal, path_split, dlength}
use tnix.Fs.Names.Equal.{IsString}
use tnix.Fs.Dir.{Dentry, DirBlock, find_block, missing, inode, dentry_find}
use tnix.Fs.Dir.Lookup.{used, IsBlock}
use tnix.Fs.Dir.Fill.{IsFull}
use tnix.Fs.Dir.Change.{IsBlank}
use tnix.Fs.Dir.Walk.{IsStep, AreSteps, join}
use tnix.Syscall.Paths.{
  regular, directory, unuse, Inode, Files, returns, find, dot, dotdot, sys_mknod, sys_mkdir,
  sys_link, sys_unlink,
}
use tnix.Fs.Dir.Counts.{Nets}
use tnix.Fs.Dir.{dentry_find_refs}
use tnix.Syscall.Paths.Refs.{Balanced, calls_balanced}
use tnix.Syscall.Paths.Follow.{AreFull}
use tnix.Syscall.Paths.Rooted.{rooted}
use tnix.Syscall.Paths.Link.{find-sys_link}
use tnix.Syscall.Paths.Made.{find-sys_mkdir}
use tnix.Syscall.Paths.Root.{sys_mkdir_misplaces}

abbrev bin : List ℕ
bin = b'b' ∷ b'i' ∷ b'n' ∷ []

abbrev sh : List ℕ
sh = b's' ∷ b'h' ∷ []

abbrev ls : List ℕ
ls = b'l' ∷ b's' ∷ []

abbrev unused : Dentry
unused = record { inum = 0; name = replicate 28 0 }

abbrev root_block : DirBlock
root_block = record {
  cnt = 1;
  entries = record { inum = 5; name = filled bin } ∷ replicate 30 unused;
}

abbrev bin_block : DirBlock
bin_block = record {
  cnt = 1;
  entries = record { inum = 4; name = filled sh } ∷ replicate 30 unused;
}

abbrev blank : DirBlock
blank = record { cnt = 0; entries = replicate 31 unused }

abbrev inode_at : ℕ → Inode
inode_at i =
    if i == 0
    then record { ftype = directory; nlink = 2; dev = 0; blocks = root_block ∷ [] }
    else if i == 5
    then record { ftype = directory; nlink = 2; dev = 0; blocks = bin_block ∷ [] }
    else if i == 4
    then record { ftype = regular; nlink = 1; dev = 0; blocks = [] }
    else record { ftype = unuse; nlink = 0; dev = 0; blocks = [] }

abbrev young : Files
young = record { inodes = inode_at; refs = λ i. if i == 5 then 1 else 0; cwd = 5 }

three_bytes : (a b c : ℕ) → a ≢ 0 → b ≢ 0 → c ≢ 0 → IsString (a ∷ b ∷ c ∷ [])
three_bytes a b c p q r zero h = p
three_bytes a b c p q r (suc zero) h = q
three_bytes a b c p q r (suc (suc zero)) h = r
three_bytes a b c p q r (suc (suc (suc i))) h = absurd (omega arith)

two_bytes : (a b : ℕ) → a ≢ 0 → b ≢ 0 → IsString (a ∷ b ∷ [])
two_bytes a b p q zero h = p
two_bytes a b p q (suc zero) h = q
two_bytes a b p q (suc (suc i)) h = absurd (omega arith)

bin-IsFull : IsFull bin
bin-IsFull = record {
  fits = record {
    short = omega arith;
    whole = three_bytes b'b' b'i' b'n' (omega arith) (omega arith) (omega arith);
  };
  nonempty = omega arith;
}

ls-IsFull : IsFull ls
ls-IsFull = record {
  fits = record { short = omega arith; whole = two_bytes b'l' b's' (omega arith) (omega arith) };
  nonempty = omega arith;
}

bin-IsStep : IsStep bin
bin-IsStep = record { part = omega arith; nonempty = omega arith; short = omega arith }

ls-IsStep : IsStep ls
ls-IsStep = record { part = omega arith; nonempty = omega arith; short = omega arith }

bin_block-IsBlock : IsBlock bin_block
unfolding used
bin_block-IsBlock = record { arrays = omega arith; size = refl; counted = refl }

blank-IsBlank : IsBlank blank
unfolding used
blank-IsBlank = record { arrays = omega arith; size = refl; unused = refl }

bin_lacks : find_block (bin_block ∷ []) ls ≡ none
unfolding find_block dentry_name_equal
bin_lacks = refl

root_lacks : find_block (root_block ∷ []) ls ≡ none
unfolding find_block dentry_name_equal
root_lacks = refl

bin-full : AreFull (bin ∷ [])
bin-full = (bin-IsFull, tt)

short_ls : length (rooted (bin ∷ ls ∷ [])) < 128
unfolding join
short_ls = omega arith

find-bin : find (rooted (bin ∷ [])) young ≡ inode 5
unfolding find join dentry_find dentry_name_equal parse_path
find-bin = refl

find-sh : find (b'/' ∷ b'b' ∷ b'i' ∷ b'n' ∷ b'/' ∷ b's' ∷ b'h' ∷ []) young ≡ inode 4
unfolding find dentry_find dentry_name_equal parse_path
find-sh = refl

find-ls : find (b'/' ∷ b'b' ∷ b'i' ∷ b'n' ∷ b'/' ∷ b'l' ∷ b's' ∷ []) young ≡ missing
unfolding find dentry_find dentry_name_equal parse_path
find-ls = refl

parent_ls :
    find (path_split (b'/' ∷ b'b' ∷ b'i' ∷ b'n' ∷ b'/' ∷ b'l' ∷ b's' ∷ [])).0 young ≡ inode 5
unfolding find path_split dentry_find dentry_name_equal parse_path
parent_ls = refl

room_ls : length (path_split (b'/' ∷ b'b' ∷ b'i' ∷ b'n' ∷ b'/' ∷ b'l' ∷ b's' ∷ [])).1 ≤ dlength
unfolding path_split
room_ls = omega arith

find-sys_link_example :
    (s' : Files) × (sys_link blank
        (some (b'/' ∷ b'b' ∷ b'i' ∷ b'n' ∷ b'/' ∷ b's' ∷ b'h' ∷ []))
        (some (rooted (bin ∷ ls ∷ [])))
        young
      ≡ returns 0 s')
    × (find (rooted (bin ∷ ls ∷ [])) s' ≡ inode 4)
    × ((s'.inodes 4).nlink ≡ add32 (young.inodes 4).nlink 1)
    × ((ks : List (List ℕ)) (k : ℕ)
        → AreSteps ks
        → AreFull ks
        → find (rooted ks) young ≡ inode k
        → find (rooted ks) s' ≡ inode k)
find-sys_link_example =
    find-sys_link blank (b'/' ∷ b'b' ∷ b'i' ∷ b'n' ∷ b'/' ∷ b's' ∷ b'h' ∷ []) bin [] ls 4 5 young
      blank-IsBlank (bin-IsStep, tt) bin-full ls-IsStep ls-IsFull (omega arith) short_ls find-sh
      refl find-bin (bin_block-IsBlock, tt) bin_lacks

calls_balanced_example :
    Balanced young (sys_mknod (λ d. d == 1) blank 6 (some ls) 1 young)
    × Balanced young (sys_mkdir (λ d. d == 1) blank 6 (some ls) young)
    × Balanced young (sys_link blank (some ls) (some sh) young)
    × Balanced young (sys_unlink (some ls) young)
    × ((p : List ℕ)
        → Nets
            (find p young)
            young.refs
            (dentry_find_refs (λ i. (young.inodes i).blocks) young.cwd p young.refs))
calls_balanced_example =
    calls_balanced (λ d. d == 1) blank 6 1 (some ls) (some sh) young (λ j. ground arith) refl

find-sys_mkdir_example :
    (s' : Files) × (sys_mkdir (λ d. d == 1) blank 6 (some (rooted (bin ∷ ls ∷ []))) young
      ≡ returns 0 s')
    × (find (rooted (bin ∷ ls ∷ [])) s' ≡ inode 6)
    × (find (rooted (bin ∷ ls ∷ dot ∷ [])) s' ≡ inode 6)
    × (find (rooted (bin ∷ ls ∷ dotdot ∷ [])) s' ≡ inode 5)
    × ((ks : List (List ℕ)) (k : ℕ)
        → AreSteps ks
        → AreFull ks
        → find (rooted ks) young ≡ inode k
        → find (rooted ks) s' ≡ inode k)
find-sys_mkdir_example =
    find-sys_mkdir (λ d. d == 1) blank bin [] ls 6 5 young blank-IsBlank (bin-IsStep, tt) bin-full
      ls-IsStep ls-IsFull short_ls find-bin (bin_block-IsBlock, tt) bin_lacks refl (omega arith)

sys_mkdir_misplaces_example :
    (s' : Files) × (sys_mkdir (λ d. d == 1) blank 6 (some (rooted (ls ∷ []))) young ≡ returns 0 s')
    × (find (rooted (ls ∷ [])) s' ≡ missing)
    × (find_block (s'.inodes 5).blocks ls ≡ some 6)
sys_mkdir_misplaces_example =
    sys_mkdir_misplaces (λ d. d == 1) blank 6 ls young blank-IsBlank ls-IsStep ls-IsFull
      (bin_block-IsBlock, tt) bin_lacks root_lacks (omega arith) (omega arith) (omega arith)
