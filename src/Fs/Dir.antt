-- ===== src/Fs/Dir.antt =====
-- The entries of a directory: the loops of `dentry_find`, `dentry_add` and `dentry_del` of
-- kernel/fs/dir.c over its blocks. A block of a directory is its count and its 31 entries; a directory is
-- the list of its `iblock_cnt` blocks. What `data_block_alloc` returns for a new block is an argument.
use tnix.Common.{
  add32, sub32, ℕ, zero, suc, ◌+◌, ◌-◌, List, [], ◌∷◌, ◌++◌, Bool, true, false, not, Option, none,
  some, if◌then◌else◌, ◌==◌, ltb, length, get_or, drop, replicate,
}
use tnix.Util.Spin.{update}
use tnix.Fs.Names.{
  dlength, dentry_name_set, dentry_name_equal, parse_path, Parsed, finished, overruns, part,
}
pub mod Lookup
pub mod Fill
pub mod Change
pub mod Clear
pub mod Delete
pub mod Walk
pub mod Counts
mod Examples

abbrev pub max_cnt : ℕ
max_cnt = 31

pub record Dentry : Type 0 where
  pub inum : ℕ
  pub name : List ℕ

pub record DirBlock : Type 0 where
  pub cnt : ℕ
  pub entries : List Dentry

-- `*dt->name != '\0'`
abbrev pub in_use : Dentry → Bool
in_use e = not (get_or e.name 0 0 == 0)

-- The loop of `dentry_find` over the entries of a block: `k` of them in use have been seen.
unfoldable pub find_entry : List Dentry → ℕ → ℕ → List ℕ → Option ℕ
find_entry [] k cnt dname = none
find_entry (e ∷ es) k cnt dname = elim (ltb k cnt) [
  | true ↦ elim (dentry_name_equal e.name dname) [
    | true ↦ some e.inum
    | false ↦ find_entry es (if in_use e then k + 1 else k) cnt dname
  ]
  | false ↦ none
]

unfoldable pub find_block : List DirBlock → List ℕ → Option ℕ
unfolding find_entry
find_block [] dname = none
find_block (b ∷ bs) dname = elim (find_entry b.entries 0 b.cnt dname) [
  | some inum ↦ some inum
  | none ↦ find_block bs dname
]

-- `dentry_find` from inode `cur` on: not found, a write behind `dname`, or the inode. `dirs` gives the
-- blocks of a directory; an inode that an entry names is taken to exist, so that `iget` does not return NULL.
pub data Found : Type 0 where
  missing : Found
  breaks : Found
  inode : ℕ → Found
  out_of_fuel : Found

unfoldable pub walk : ℕ → (ℕ → List DirBlock) → ℕ → List ℕ → Found
unfolding find_block
walk zero dirs cur path = out_of_fuel
walk (suc fuel) dirs cur path = elim (parse_path path) [
  | finished ↦ inode cur
  | overruns ↦ breaks
  | part dname rest ↦ elim (find_block (dirs cur) dname) [
    | none ↦ missing
    | some inum ↦ walk fuel dirs inum rest
  ]
]

-- `iget` and `iput` of an inode's entry in the table, on its count.
abbrev pub get_ref : ℕ → (ℕ → ℕ) → ℕ → ℕ
get_ref i refs = update refs i (add32 (refs i) 1)

abbrev pub put_ref : ℕ → (ℕ → ℕ) → ℕ → ℕ
put_ref i refs = update refs i (sub32 (refs i) 1)

-- The same loop, for the counts of references.
unfoldable pub walk_refs : ℕ → (ℕ → List DirBlock) → ℕ → List ℕ → (ℕ → ℕ) → ℕ → ℕ
unfolding find_block
walk_refs zero dirs cur path refs = refs
walk_refs (suc fuel) dirs cur path refs = elim (parse_path path) [
  | finished ↦ refs
  | overruns ↦ refs
  | part dname rest ↦ elim (find_block (dirs cur) dname) [
    | none ↦ put_ref cur refs
    | some inum ↦ walk_refs fuel dirs inum rest (get_ref inum (put_ref cur refs))
  ]
]

abbrev pub rootinum : ℕ
rootinum = 0

-- Each round takes a byte of the path at least.
unfoldable pub dentry_find : (ℕ → List DirBlock) → ℕ → List ℕ → Found
unfolding walk
dentry_find dirs cwd [] = walk 1 dirs cwd []
dentry_find dirs cwd (c ∷ cs) =
    if c == b'/'
    then walk (suc (length cs)) dirs rootinum cs
    else walk (suc (length (c ∷ cs))) dirs cwd (c ∷ cs)

unfoldable pub dentry_find_refs : (ℕ → List DirBlock) → ℕ → List ℕ → (ℕ → ℕ) → ℕ → ℕ
unfolding walk_refs
dentry_find_refs dirs cwd [] refs = walk_refs 1 dirs cwd [] (get_ref cwd refs)
dentry_find_refs dirs cwd (c ∷ cs) refs =
    if c == b'/'
    then walk_refs (suc (length cs)) dirs rootinum cs (get_ref rootinum refs)
    else walk_refs (suc (length (c ∷ cs))) dirs cwd (c ∷ cs) (get_ref cwd refs)

-- The first entry that is not in use gets number and name.
unfoldable pub fill_entry : ℕ → List ℕ → List Dentry → Option (List Dentry)
fill_entry inum name [] = none
fill_entry inum name (e ∷ es) = elim (in_use e) [
  | true ↦ elim (fill_entry inum name es) [ none ↦ none | some es' ↦ some (e ∷ es') ]
  | false ↦ some (record { inum = inum; name = dentry_name_set e.name name } ∷ es)
]

unfoldable pub add_block : ℕ → List ℕ → List DirBlock → Option (List DirBlock)
unfolding fill_entry
add_block inum name [] = none
add_block inum name (b ∷ bs) =
    let later : Option (List DirBlock) = elim (add_block inum name bs) [
      | none ↦ none
      | some bs' ↦ some (b ∷ bs')
    ] in
    elim (b.cnt == max_cnt) [
      | true ↦ later
      | false ↦ elim (fill_entry inum name b.entries) [
        | none ↦ later
        | some es ↦ some (record { cnt = b.cnt + 1; entries = es } ∷ bs)
      ]
    ]

-- The first entry of a new block.
abbrev pub fill_first : ℕ → List ℕ → List Dentry → List Dentry
fill_first inum name [] = []
fill_first inum name (e ∷ es) = record { inum = inum; name = dentry_name_set e.name name } ∷ es

unfoldable pub dentry_add : ℕ → List ℕ → DirBlock → List DirBlock → List DirBlock
unfolding add_block
dentry_add inum name fresh bs = elim (add_block inum name bs) [
  | some bs' ↦ bs'
  | none ↦ bs ++ record { cnt = 1; entries = fill_first inum name fresh.entries } ∷ []
]

-- `*(u64*)(dt->name) = 0`
abbrev pub clear_name : List ℕ → List ℕ
clear_name name = replicate 8 0 ++ drop 8 name

-- The loop of `dentry_del` over the entries of a block.
unfoldable pub clear_entry : List Dentry → ℕ → ℕ → List ℕ → Option (List Dentry)
clear_entry [] k cnt name = none
clear_entry (e ∷ es) k cnt name = elim (ltb k cnt) [
  | true ↦ elim (dentry_name_equal e.name name) [
    | true ↦ some (record e { name = clear_name e.name } ∷ es)
    | false ↦ elim (clear_entry es (if in_use e then k + 1 else k) cnt name) [
      | none ↦ none
      | some es' ↦ some (e ∷ es')
    ]
  ]
  | false ↦ none
]

-- What `dentry_del` comes to: the blocks behind it, or the call of `idx_remove` for block `i`, made while the
-- block is held, which is not followed.
pub data Deleted : Type 0 where
  done : List DirBlock → Deleted
  removes : ℕ → Deleted

abbrev pub behind : DirBlock → Deleted → Deleted
behind b (done bs) = done (b ∷ bs)
behind b (removes i) = removes i

-- The loop over the blocks, from block `i` on. Where the count falls to 0, `idx_remove` is called.
unfoldable pub del_from : ℕ → List ℕ → List DirBlock → Deleted
unfolding clear_entry
del_from i name [] = done []
del_from i name (b ∷ bs) = elim (clear_entry b.entries 0 b.cnt name) [
  | none ↦ behind b (del_from (suc i) name bs)
  | some es ↦ elim (b.cnt - 1 == 0) [
    | true ↦ removes i
    | false ↦ done (record { cnt = b.cnt - 1; entries = es } ∷ bs)
  ]
]

unfoldable pub dentry_del : List ℕ → List DirBlock → Deleted
unfolding del_from
dentry_del name bs = del_from 0 name bs
