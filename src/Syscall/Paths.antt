-- ===== src/Syscall/Paths.antt =====
-- The system calls of kernel/syscall/sysfs.c that take a path, with `argstr` of kernel/syscall/syscall.c. An inode is its
-- number; `refs` is the count of references of each inode in the inode cache, which `iget` raises and `iput` lowers, and
-- `inodes` is what the cache and the disk have of it. A directory is its blocks, as in Fs/Dir. The number that `ialloc`
-- gives and the block that `data_block_alloc` gives for a directory that grows are arguments.
use tnix.Common.{
  ℕ, zero, suc, ◌+◌, ◌-◌, ◌%◌, List, [], ◌∷◌, Bool, true, false, not, ◌&&◌, ◌||◌, Option, none,
  some, if◌then◌else◌, ◌==◌, ltb, length, add32, sub32,
}
use tnix.Util.Spin.{update}
use tnix.Fs.Names.{dlength, path_split}
use tnix.Fs.Dir.{
  DirBlock, Found, missing, breaks, inode, out_of_fuel, dentry_find, dentry_add, dentry_del,
  Deleted, done, removes,
}
pub mod Refs
pub mod Follow
pub mod Rooted
pub mod Create
pub mod Made
pub mod Link
pub mod Root
mod Examples

abbrev pub max_path_length : ℕ
max_path_length = 128

pub data Ftype : Type 0 where
  unuse regular directory char : Ftype

abbrev pub is_regular : Ftype → Bool
is_regular regular = true
is_regular _ = false

abbrev pub is_directory : Ftype → Bool
is_directory directory = true
is_directory _ = false

pub record Inode : Type 0 where
  pub ftype : Ftype
  pub nlink : ℕ
  pub dev : ℕ
  pub blocks : List DirBlock

pub record Files : Type 0 where
  pub inodes : ℕ → Inode
  pub refs : ℕ → ℕ
  pub cwd : ℕ

-- A return of -1, a return of another number, or what does not return: a panic, a NULL that is followed, a write behind an
-- array, or a file that is no directory used as one.
pub data Call : Type 0 where
  fails : Files → Call
  returns : ℕ → Files → Call
  crashes : Call

abbrev pub iref : ℕ → Files → Files
iref i s = record s { refs = update s.refs i (add32 (s.refs i) 1) }

abbrev pub iput : ℕ → Files → Files
iput i s = record s { refs = update s.refs i (sub32 (s.refs i) 1) }

abbrev pub change : ℕ → (Inode → Inode) → Files → Files
change i f s = record s { inodes = update s.inodes i (f (s.inodes i)) }

-- `argstr`: a path that is too long gives false. `none` is a zero argument.
abbrev pub argstr : Option (List ℕ) → Option (List ℕ)
argstr none = none
argstr (some path) = if ltb max_path_length (length path + 1) then none else some path

-- `dentry_find` from the working directory.
unfoldable pub find : List ℕ → Files → Found
find path s = dentry_find (λ i. (s.inodes i).blocks) s.cwd path

-- What a call does with the inode that `dentry_find` gives, or with NULL. Its counts are what those of
-- `dentry_find_refs`, the gets and puts on the way, come to.
abbrev pub found : Found → Files → Call → (ℕ → Files → Call) → Call
found missing s absent present = absent
found breaks s absent present = crashes
found out_of_fuel s absent present = crashes
found (inode i) s absent present = present i (iref i s)

-- `dentry_add` to inode `i` of the name that `path_split` gave, which was copied into 28 bytes.
abbrev pub add_entry : DirBlock → ℕ → ℕ → List ℕ → Files → Files
add_entry fresh i inum name s =
    change i (λ (d : Inode). record d { blocks = dentry_add inum name fresh d.blocks }) s

abbrev pub dot : List ℕ
dot = b'.' ∷ []

abbrev pub dotdot : List ℕ
dotdot = b'.' ∷ b'.' ∷ []

-- The end of `create`: the new inode is put back and entered in its directory.
abbrev pub enter : DirBlock → ℕ → ℕ → List ℕ → Files → Call
enter fresh parent new name s =
    returns 0 (iput parent (add_entry fresh parent new name (iput new s)))

-- `create` from the new inode on. A device that is not valid, or another type, ends with `false`, which is 0.
abbrev pub create_in : (ℕ → Bool) → DirBlock → Ftype → ℕ → ℕ → ℕ → List ℕ → Files → Call
create_in valid fresh regular dev parent new name s =
    enter fresh parent new name (change new (λ (d : Inode). record d { ftype = regular }) s)
create_in valid fresh directory dev parent new name s = enter fresh parent new name (
    change parent (λ (d : Inode). record d { nlink = add32 d.nlink 1 })
      (add_entry fresh new parent dotdot (
        add_entry fresh new new dot
          (change new (λ (d : Inode). record d { ftype = directory }) s))))
create_in valid fresh char dev parent new name s =
    if valid dev
    then enter fresh parent new name
        (change new (λ (d : Inode). record d { ftype = char; dev = dev }) s)
    else returns 0 s
create_in valid fresh unuse dev parent new name s = returns 0 s

-- `valid` is the field of `devsw`, and `new` what `ialloc` gives.
unfoldable pub create : (ℕ → Bool) → DirBlock → ℕ → List ℕ → Ftype → ℕ → Files → Call
unfolding find
create valid fresh new path ftype dev s =
    found (find path s) s
      (let (parentpath, filename) = path_split path in
        if ltb dlength (length filename)
        then crashes
        else found (find parentpath s) s (fails s) (λ parent s1.
          create_in valid fresh ftype dev parent new filename
            (change new (λ (d : Inode). record d { nlink = 1 }) (iref new s1))))
      (λ i s1. fails (iput i s1))

-- A call with one path.
abbrev pub with_path : Option (List ℕ) → Files → (List ℕ → Call) → Call
with_path none s f = fails s
with_path (some path) s f = f path

unfoldable pub sys_mknod : (ℕ → Bool) → DirBlock → ℕ → Option (List ℕ) → ℕ → Files → Call
unfolding create
sys_mknod valid fresh new path dev s =
    with_path (argstr path) s (λ p. create valid fresh new p char dev s)

unfoldable pub sys_mkdir : (ℕ → Bool) → DirBlock → ℕ → Option (List ℕ) → Files → Call
unfolding create
sys_mkdir valid fresh new path s =
    with_path (argstr path) s (λ p. create valid fresh new p directory 0 s)

-- The end of `sys_link`, for inode `i` of the old path.
abbrev pub link_to : DirBlock → ℕ → List ℕ → Files → Call
link_to fresh i newpath s =
    let s1 = iput i (change i (λ (d : Inode). record d { nlink = add32 d.nlink 1 }) s) in
    let (ppath, name) = path_split newpath in
    if ltb dlength (length name)
    then crashes
    else found (find ppath s1) s1 crashes (λ p s2. returns 0 (iput p (add_entry fresh p i name s2)))

abbrev pub link_paths : DirBlock → List ℕ → List ℕ → Files → Call
link_paths fresh oldpath newpath s =
    found (find newpath s) s
      (found (find oldpath s) s (fails s) (λ i s1.
        if is_regular (s1.inodes i).ftype then link_to fresh i newpath s1 else fails (iput i s1)))
      (λ i s1. fails (iput i s1))

unfoldable pub sys_link : DirBlock → Option (List ℕ) → Option (List ℕ) → Files → Call
unfolding find
sys_link fresh oldpath newpath s =
    with_path (argstr oldpath) s (λ o. with_path (argstr newpath) s (λ n. link_paths fresh o n s))

-- `dentry_del` from inode `p`, which goes on with `next`.
abbrev pub del_entry : Deleted → ℕ → Files → (Files → Call) → Call
del_entry (done bs) p s next = next (change p (λ (d : Inode). record d { blocks = bs }) s)
del_entry (removes i) p s next = crashes

-- The entry of a path goes from its directory; `room` is the size of the array for the name.
abbrev pub remove_entry : ℕ → List ℕ → Files → (ℕ → Files → Call) → Call
remove_entry room path s next =
    let (ppath, name) = path_split path in
    if ltb room (length name)
    then crashes
    else found (find ppath s) s crashes (λ p s1.
      if is_directory (s1.inodes p).ftype
      then del_entry (dentry_del name (s1.inodes p).blocks) p s1 (next p)
      else crashes)

-- One link fewer; with the last one the inode is freed.
abbrev pub drop_link : Inode → Inode
drop_link d =
    if sub32 d.nlink 1 == 0
    then record { ftype = unuse; nlink = 0; dev = d.dev; blocks = [] }
    else record d { nlink = sub32 d.nlink 1 }

unfoldable pub sys_unlink : Option (List ℕ) → Files → Call
unfolding find
sys_unlink path s = with_path (argstr path) s (λ p. found (find p s) s (fails s) (λ i s1.
    if is_regular (s1.inodes i).ftype
    then remove_entry dlength p (iput i (change i drop_link s1)) (λ d s2. returns 0 (iput d s2))
    else fails (iput i s1)))

-- `*(u64*)b->data` of the directory's first block.
abbrev pub first_cnt : List DirBlock → ℕ
first_cnt [] = 0
first_cnt (b ∷ bs) = b.cnt

unfoldable pub sys_rmdir : Option (List ℕ) → Files → Call
unfolding find
sys_rmdir path s = with_path (argstr path) s (λ p. found (find p s) s (fails s) (λ c s1.
    if not (is_directory (s1.inodes c).ftype)
    then fails s1
    else if not (first_cnt (s1.inodes c).blocks == 2)
    then fails s1
    else remove_entry max_path_length p (iput c s1) (λ d s2.
      returns 0 (iput d (change d (λ (n : Inode). record n { nlink = sub32 n.nlink 1 }) s2)))))

unfoldable pub sys_chdir : Option (List ℕ) → Files → Call
unfolding find
sys_chdir path s =
    with_path (argstr path) s
      (λ p. found (find p s) s (fails s) (λ i s1. returns 0 (record (iput s1.cwd s1) { cwd = i })))
