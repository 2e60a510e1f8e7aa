-- ===== src/Syscall/Paths/Root.antt =====
-- A path of one name from the root: `path_split` gives the empty path for its directory.
use tnix.Common.{
  ℕ, ◌<◌, ◌≡◌, ◌≢◌, refl, ap, sym, ◌∙◌, List, [], ◌∷◌, Bool, none, some, arith, length,
}
use tnix.Fs.Names.{path_split}
use tnix.Fs.Names.Path.{path_split-append}
use tnix.Fs.Dir.{DirBlock, find_block, missing, inode, rootinum}
use tnix.Fs.Dir.Lookup.{IsDir}
use tnix.Fs.Dir.Fill.{IsFull}
use tnix.Fs.Dir.Change.{IsBlank, find_block-dentry_add}
use tnix.Fs.Dir.Walk.{IsStep, join, follow, dentry_find-follow}
use tnix.Syscall.Paths.{directory, Inode, Files, returns, max_path_length, find, sys_mkdir}
use tnix.Syscall.Paths.Refs.{argstr_short}
use tnix.Syscall.Paths.Follow.{follow-none}
use tnix.Syscall.Paths.Create.{create_run, made, made_here, made_elsewhere}
use tnix.Syscall.Paths.Rooted.{rooted, find-rooted, dirs_of}

find_empty : (s : Files) → find [] s ≡ inode s.cwd
unfolding find join follow
find_empty s = (dentry_find-follow (dirs_of s) s.cwd [] tt).1

rooted_one : (n : List ℕ) → rooted (n ∷ []) ≡ b'/' ∷ n
unfolding join
rooted_one n = refl

split_one : (n : List ℕ) → IsStep n → path_split (rooted (n ∷ [])) ≡ ([], n)
split_one n st = ap path_split (rooted_one n) ∙ (path_split-append [] n st.part).0

missing_one :
    (s : Files) (n : List ℕ)
    → IsStep n
    → find_block (dirs_of s rootinum) n ≡ none
    → find (rooted (n ∷ [])) s ≡ missing
missing_one s n st e = find-rooted s (n ∷ []) (st, tt) ∙ follow-none (dirs_of s) rootinum n e

-- For a path of one name of 1 to 27 bytes without NUL or `/` behind the root, which neither the
-- root nor the working directory has, with a working directory that fulfils its invariant and is
-- neither the root nor the new inode, nor the new inode the root, and a new block of 31 unused
-- entries at hand: `sys_mkdir` returns 0, the path is still not found, and the working directory
-- has the name.
pub sys_mkdir_misplaces :
    (valid : ℕ → Bool) (fresh : DirBlock) (new : ℕ) (n : List ℕ) (s : Files)
    → IsBlank fresh
    → IsStep n
    → IsFull n
    → IsDir (s.inodes s.cwd).blocks
    → find_block (s.inodes s.cwd).blocks n ≡ none
    → find_block (s.inodes rootinum).blocks n ≡ none
    → s.cwd ≢ rootinum
    → s.cwd ≢ new
    → rootinum ≢ new
    → (s' : Files) × (sys_mkdir valid fresh new (some (rooted (n ∷ []))) s ≡ returns 0 s')
      × (find (rooted (n ∷ [])) s' ≡ missing)
      × (find_block (s'.inodes s.cwd).blocks n ≡ some new)
unfolding sys_mkdir
sys_mkdir_misplaces valid fresh new n s b st full v e r ne nn rn = (
  made fresh new s.cwd n s,
  rw (argstr_short (rooted (n ∷ [])) short) (
      create_run valid fresh new 0 s.cwd (rooted (n ∷ [])) [] n directory s (missing_one s n st r)
        (split_one n st) (omega (arith, full.fits.short)) (find_empty s)),
  missing_one (made fresh new s.cwd n s) n st (
      ap (λ (d : Inode). find_block d.blocks n)
        (made_elsewhere fresh new s.cwd n s rootinum (λ q. ne (sym q)) rn)
      ∙ r),
  ap (λ bs. find_block bs n) (made_here fresh new s.cwd n s nn)
      ∙ (find_block-dentry_add new n full fresh b (dirs_of s s.cwd) v e).0,
)
  where
    short : length (rooted (n ∷ [])) < max_path_length
    short = omega (arith, ap length (rooted_one n), st.short)
