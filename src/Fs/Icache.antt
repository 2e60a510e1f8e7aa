-- ===== src/Fs/Icache.antt =====
-- `iget`, `iput` and `iref` of kernel/fs/inode.c and inode.h: the table of inodes in use. `sb` is the address of the
-- superblock, 0 where the entry has never been used. `iget` drops the lock of the table between its two loops, so they
-- are functions of their own; `iread`, which follows, fills `di` of the entry and is not a part of this table.
use tnix.Common.{
  ℕ, zero, suc, ◌+◌, ◌%◌, List, [], ◌∷◌, Bool, true, false, ◌&&◌, Option, none, some, if◌then◌else◌,
  ◌==◌, add32, sub32,
}
pub mod Copies
pub mod Race
mod Examples

pub record Cached : Type 0 where
  pub sb : ℕ
  pub inum : ℕ
  pub refc : ℕ

abbrev pub is_of : ℕ → ℕ → Cached → Bool
is_of sb inum c = c.sb == sb && c.inum == inum

-- An entry is put before what the rest of the table gave.
abbrev pub past : Cached → Option (ℕ × List Cached) → Option (ℕ × List Cached)
past c none = none
past c (some (i, cs)) = some (suc i, c ∷ cs)

abbrev pub referenced : Cached → Cached
referenced c = record c { refc = add32 c.refc 1 }

-- The first loop: an entry of the inode gets a reference.
unfoldable pub iget_hit : ℕ → ℕ → List Cached → Option (ℕ × List Cached)
iget_hit sb inum [] = none
iget_hit sb inum (c ∷ cs) =
    let later = iget_hit sb inum cs in
    if is_of sb inum c then some (0, referenced c ∷ cs) else past c later

-- The second loop: an entry with no reference is taken for the inode.
unfoldable pub iget_claim : ℕ → ℕ → List Cached → Option (ℕ × List Cached)
iget_claim sb inum [] = none
iget_claim sb inum (c ∷ cs) =
    let later = iget_claim sb inum cs in
    if c.refc == 0 then some (0, record { sb = sb; inum = inum; refc = 1 } ∷ cs) else past c later

pub data Got : Type 0 where
  null : Got
  panics : Got
  entry : ℕ → List Cached → Got

abbrev pub got : Option (ℕ × List Cached) → Got
got none = panics
got (some (i, cs)) = entry i cs

-- `iget` where nobody else comes between its loops; `exists` is what `iexist` says.
unfoldable pub iget : Bool → ℕ → ℕ → List Cached → Got
unfolding iget_hit iget_claim
iget exists sb inum cs = elim (iget_hit sb inum cs) [
  | some r ↦ got (some r)
  | none ↦ if exists then got (iget_claim sb inum cs) else null
]

-- `iref` and `iput` of entry `i`.
unfoldable pub iref : ℕ → List Cached → List Cached
iref i [] = []
iref zero (c ∷ cs) = referenced c ∷ cs
iref (suc i) (c ∷ cs) = c ∷ iref i cs

unfoldable pub iput : ℕ → List Cached → List Cached
iput i [] = []
iput zero (c ∷ cs) = record c { refc = sub32 c.refc 1 } ∷ cs
iput (suc i) (c ∷ cs) = c ∷ iput i cs
