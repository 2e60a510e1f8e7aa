-- ===== src/Fs/Dir/Examples.antt =====
-- A directory of one block, with two entries in use and an unused one before them.
use tnix.Common.{
  ℕ, zero, suc, ◌≡◌, ◌≢◌, refl, List, [], ◌∷◌, none, some, arith, if◌then◌else◌, ◌==◌, replicate,
}
use tnix.Fs.Names.{parse_path, filled, dentry_name_equal}
use tnix.Fs.Names.Equal.{IsString}
use tnix.Fs.Dir.{Dentry, DirBlock, find_block, dentry_add, dentry_del, done, inode, dentry_find}
use tnix.Fs.Dir.Lookup.{used, IsBlock, IsDir}
use tnix.Fs.Dir.Fill.{IsFull}
use tnix.Fs.Dir.Change.{IsBlank, find_block-dentry_add}
use tnix.Fs.Dir.Clear.{named}
use tnix.Fs.Dir.Delete.{find_block-dentry_del}
use tnix.Fs.Dir.Walk.{join, follow, AreSteps, dentry_find-follow}

abbrev bin : List ℕ
bin = b'b' ∷ b'i' ∷ b'n' ∷ []

abbrev sh : List ℕ
sh = b's' ∷ b'h' ∷ []

three_bytes : (a b c : ℕ) → a ≢ 0 → b ≢ 0 → c ≢ 0 → IsString (a ∷ b ∷ c ∷ [])
three_bytes a b c p q r zero h = p
three_bytes a b c p q r (suc zero) h = q
three_bytes a b c p q r (suc (suc zero)) h = r
three_bytes a b c p q r (suc (suc (suc i))) h = absurd (omega arith)

bin-IsFull : IsFull bin
bin-IsFull = record {
  fits = record {
    short = omega arith;
    whole = three_bytes b'b' b'i' b'n' (omega arith) (omega arith) (omega arith);
  };
  nonempty = omega arith;
}

abbrev unused : ℕ → Dentry
unused i = record { inum = i; name = replicate 28 0 }

abbrev entry : ℕ → List ℕ → Dentry
entry i name = record { inum = i; name = filled name }

abbrev block : DirBlock
block = record { cnt = 2; entries = unused 9 ∷ entry 4 sh ∷ entry 5 bin ∷ replicate 28 (unused 0) }

abbrev lone : DirBlock
lone = record { cnt = 1; entries = entry 4 sh ∷ replicate 30 (unused 0) }

abbrev blank : DirBlock
blank = record { cnt = 0; entries = replicate 31 (unused 0) }

block-IsBlock : IsBlock block
unfolding used
block-IsBlock = record { arrays = omega arith; size = refl; counted = refl }

lone-IsBlock : IsBlock lone
unfolding used
lone-IsBlock = record { arrays = omega arith; size = refl; counted = refl }

blank-IsBlank : IsBlank blank
unfolding used
blank-IsBlank = record { arrays = omega arith; size = refl; unused = refl }

lone_lacks : find_block (lone ∷ []) bin ≡ none
unfolding find_block dentry_name_equal
lone_lacks = refl

find_block-dentry_add_example :
    (find_block (dentry_add 7 bin blank (lone ∷ [])) bin ≡ some 7)
    × ((o : List ℕ)
        → IsFull o
        → o ≢ bin
        → find_block (dentry_add 7 bin blank (lone ∷ [])) o ≡ find_block (lone ∷ []) o)
    × IsDir (dentry_add 7 bin blank (lone ∷ []))
find_block-dentry_add_example =
    find_block-dentry_add 7 bin bin-IsFull blank blank-IsBlank (lone ∷ []) (lone-IsBlock, tt)
      lone_lacks

named_once : named bin block.entries ≡ 1
unfolding named dentry_name_equal
named_once = refl

find_block-dentry_del_example :
    (bs : List DirBlock) × (dentry_del bin (lone ∷ block ∷ []) ≡ done bs)
    × (find_block bs bin ≡ none)
    × ((o : List ℕ) → IsFull o → o ≢ bin → find_block bs o ≡ find_block (lone ∷ block ∷ []) o)
    × IsDir bs
find_block-dentry_del_example =
    find_block-dentry_del bin bin-IsFull (lone ∷ []) block [] (lone-IsBlock, tt)
      (lone-IsBlock, (block-IsBlock, tt)) tt lone_lacks named_once empty (omega arith)
  where
    empty : find_block [] bin ≡ none
    empty = unfold find_block in refl

-- The root holds `bin`, and `bin` is inode 5.
abbrev dirs : ℕ → List DirBlock
dirs i = if i == 0 then block ∷ [] else lone ∷ []

bin-sh-AreSteps : AreSteps (bin ∷ sh ∷ [])
bin-sh-AreSteps = (
  record { part = omega arith; nonempty = omega arith; short = omega arith },
  (record { part = omega arith; nonempty = omega arith; short = omega arith }, tt),
)

dentry_find-follow_example :
    (dentry_find dirs 5 (b'/' ∷ join (bin ∷ sh ∷ [])) ≡ follow dirs 0 (bin ∷ sh ∷ []))
    × (dentry_find dirs 5 (join (bin ∷ sh ∷ [])) ≡ follow dirs 5 (bin ∷ sh ∷ []))
dentry_find-follow_example = dentry_find-follow dirs 5 (bin ∷ sh ∷ []) bin-sh-AreSteps

find_run : dentry_find dirs 5 (b'/' ∷ b'b' ∷ b'i' ∷ b'n' ∷ b'/' ∷ b's' ∷ b'h' ∷ []) ≡ inode 4
unfolding dentry_find dentry_name_equal parse_path
find_run = refl
