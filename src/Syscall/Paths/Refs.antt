-- ===== src/Syscall/Paths/Refs.antt =====
-- The reference counts behind the system calls on paths.
use tnix.Common.{
  ℕ, ◌+◌, ◌≤◌, ◌<◌, ◌≡◌, ◌≢◌, refl, ap, sym, ◌∙◌, List, Bool, true, false, not, Option, none, some,
  arith, if◌then◌else◌, ◌==◌, ltb, length, add32, Bool-cases, le→not_ltb, ne→not_==, ==→eq, fun_ext,
  ap₂, inl, inr, ◌⊎◌,
}
use tnix.Fs.Names.{dlength, path_split}
use tnix.Fs.Dir.{
  DirBlock, Found, missing, breaks, inode, out_of_fuel, dentry_find, dentry_del, Deleted, done,
  removes, dentry_find_refs,
}
use tnix.Fs.Dir.Counts.{Nets, dentry_find_refs-Nets}
use tnix.Syscall.Paths.{
  Ftype, unuse, regular, directory, char, is_regular, is_directory, Inode, Files, Call, fails,
  returns, crashes, iref, iput, change, argstr, find, found, create_in, create, with_path,
  max_path_length, first_cnt, sys_rmdir, sys_mknod, sys_mkdir, link_to, link_paths, sys_link,
  del_entry, remove_entry, drop_link, sys_unlink,
}

-- Every count is a `u32`.
abbrev pub AreCounts : Files → Type 0
AreCounts s = (j : ℕ) → s.refs j < 4294967296

-- A call that returns leaves every count as it was.
abbrev pub Balanced : Files → Call → Type 0
Balanced s (fails s') = (j : ℕ) → s'.refs j ≡ s.refs j
Balanced s (returns r s') = (j : ℕ) → s'.refs j ≡ s.refs j
Balanced s crashes = Unit {0}

-- A count that goes up and down again.
iput-iref : (i : ℕ) (s : Files) → AreCounts s → (j : ℕ) → (iput i (iref i s)).refs j ≡ s.refs j
iput-iref i s h j = ground (arith, h i, h j)

iref-AreCounts : (i : ℕ) (s : Files) → AreCounts s → AreCounts (iref i s)
iref-AreCounts i s h j = ground (arith, h i, h j)

-- What `iput` makes of a count depends on the counts alone.
iput-eq :
    (i : ℕ) (s s' : Files)
    → ((j : ℕ) → s.refs j ≡ s'.refs j)
    → (j : ℕ) → (iput i s).refs j ≡ (iput i s').refs j
iput-eq i s s' e j = ground (arith, e i, e j)

-- What is done with a path that is found.
found-Balanced :
    (f : Found) (s s0 : Files) (absent : Call) (present : ℕ → Files → Call)
    → Balanced s0 absent
    → ((i : ℕ) → Balanced s0 (present i (iref i s)))
    → Balanced s0 (found f s absent present)
found-Balanced missing s s0 absent present a b = a
found-Balanced breaks s s0 absent present a b = tt
found-Balanced out_of_fuel s s0 absent present a b = tt
found-Balanced (inode i) s s0 absent present a b = b i

-- Two counts that go up and down again.
put_both :
    (parent new : ℕ) (s : Files)
    → AreCounts s
    → (j : ℕ) → (iput parent (iput new (iref new (iref parent s)))).refs j ≡ s.refs j
put_both parent new s h j =
    iput-eq parent (iput new (iref new (iref parent s))) (iref parent s)
      (iput-iref new (iref parent s) (iref-AreCounts parent s h)) j
    ∙ iput-iref parent s h j

-- Another device that is not valid, and `unuse`, are left out.
abbrev makes : (ℕ → Bool) → Ftype → ℕ → Bool
makes valid unuse dev = false
makes valid regular dev = true
makes valid directory dev = true
makes valid char dev = valid dev

create_in-Balanced :
    (valid : ℕ → Bool) (fresh : DirBlock) (ftype : Ftype) (dev parent new : ℕ) (name : List ℕ)
    (f : Inode → Inode) (s : Files)
    → AreCounts s
    → makes valid ftype dev ≡ true
    → Balanced s
        (create_in valid fresh ftype dev parent new name (change new f (iref new (iref parent s))))
create_in-Balanced valid fresh unuse dev parent new name f s h m = absurd (cc m)
create_in-Balanced valid fresh regular dev parent new name f s h m = put_both parent new s h
create_in-Balanced valid fresh directory dev parent new name f s h m = put_both parent new s h
create_in-Balanced valid fresh char dev parent new name f s h m = rw m (put_both parent new s h)

create-Balanced :
    (valid : ℕ → Bool) (fresh : DirBlock) (new : ℕ) (path : List ℕ) (ftype : Ftype) (dev : ℕ)
    (s : Files)
    → AreCounts s
    → makes valid ftype dev ≡ true
    → Balanced s (create valid fresh new path ftype dev s)
unfolding create
create-Balanced valid fresh new path ftype dev s h m =
    found-Balanced (find path s) s s _ _
      (elim (Bool-cases (ltb dlength (length (path_split path).1))) [
        | inl e ↦ rw e tt
        | inr e ↦ rw e (
            found-Balanced (find (path_split path).0 s) s s _ _ (λ j. refl)
              (λ parent.
                create_in-Balanced valid fresh ftype dev parent new (path_split path).1
                  (λ (d : Inode). record d { nlink = 1 }) s h m))
      ])
      (λ i. iput-iref i s h)

with_path-Balanced :
    (path : Option (List ℕ)) (s : Files) (f : List ℕ → Call)
    → ((p : List ℕ) → Balanced s (f p))
    → Balanced s (with_path path s f)
with_path-Balanced none s f h = λ j. refl
with_path-Balanced (some p) s f h = h p

-- An inode that is got, changed and put back leaves the counts, and so does what follows.
after : (s s1 : Files) (c : Call) → ((j : ℕ) → s1.refs j ≡ s.refs j) → Balanced s1 c → Balanced s c
after s s1 (fails s') e b = λ j. b j ∙ e j
after s s1 (returns r s') e b = λ j. b j ∙ e j
after s s1 crashes e b = tt

AreCounts-eq : (s s1 : Files) → ((j : ℕ) → s1.refs j ≡ s.refs j) → AreCounts s → AreCounts s1
AreCounts-eq s s1 e h j = omega (arith, e j, h j)

link_to-Balanced :
    (fresh : DirBlock) (i : ℕ) (newpath : List ℕ) (s : Files)
    → AreCounts s
    → Balanced s (link_to fresh i newpath (iref i s))
link_to-Balanced fresh i newpath s h =
    let s1 : Files =
      iput i (change i (λ (d : Inode). record d { nlink = add32 d.nlink 1 }) (iref i s)) in
    let e : ((j : ℕ) → s1.refs j ≡ s.refs j) = iput-iref i s h in
    elim (Bool-cases (ltb dlength (length (path_split newpath).1))) [
      | inl g ↦ rw g tt
      | inr g ↦ rw g (
          found-Balanced (find (path_split newpath).0 s1) s1 s _ _ tt
            (λ p j. iput-iref p s1 (AreCounts-eq s s1 e h) j ∙ e j))
    ]

link_paths-Balanced :
    (fresh : DirBlock) (oldpath newpath : List ℕ) (s : Files)
    → AreCounts s
    → Balanced s (link_paths fresh oldpath newpath s)
link_paths-Balanced fresh oldpath newpath s h =
    found-Balanced (find newpath s) s s _ _
      (found-Balanced (find oldpath s) s s _ _ (λ j. refl)
        (λ i. elim (Bool-cases (is_regular (s.inodes i).ftype)) [
          | inl r ↦ rw r (link_to-Balanced fresh i newpath s h)
          | inr r ↦ rw r (iput-iref i s h)
        ]))
      (λ i. iput-iref i s h)

-- The entry goes, and its directory is put back.
abbrev Puts : (ℕ → Files → Files) → Type 0
Puts next = (p : ℕ) (s : Files) (j : ℕ) → (next p s).refs j ≡ (iput p s).refs j

del_entry-Balanced :
    (d : Deleted) (p : ℕ) (s s1 : Files) (next : ℕ → Files → Files)
    → Puts next
    → ((j : ℕ) → (iput p s1).refs j ≡ s.refs j)
    → Balanced s (del_entry d p s1 (λ s2. returns 0 (next p s2)))
del_entry-Balanced (done bs) p s s1 next n e =
    λ j. n p (change p (λ (d : Inode). record d { blocks = bs }) s1) j ∙ e j
del_entry-Balanced (removes i) p s s1 next n e = tt

remove_entry-Balanced :
    (room : ℕ) (path : List ℕ) (s : Files) (next : ℕ → Files → Files)
    → Puts next
    → AreCounts s
    → Balanced s (remove_entry room path s (λ d s2. returns 0 (next d s2)))
remove_entry-Balanced room path s next n h =
    elim (Bool-cases (ltb room (length (path_split path).1))) [
      | inl g ↦ rw g tt
      | inr g ↦ rw g (
          found-Balanced (find (path_split path).0 s) s s _ _ tt (λ p.
            elim (Bool-cases (is_directory (s.inodes p).ftype)) [
              | inl r ↦ rw r (
                  del_entry-Balanced (dentry_del (path_split path).1 (s.inodes p).blocks) p s
                    (iref p s) next n (iput-iref p s h))
              | inr r ↦ rw r tt
            ]))
    ]

unlinked-Balanced :
    (i : ℕ) (path : List ℕ) (s : Files)
    → AreCounts s
    → Balanced s (
        remove_entry dlength path
          (iput i (change i drop_link (iref i s)))
          (λ d s2. returns 0 (iput d s2)))
unlinked-Balanced i path s h =
    let s1 : Files = iput i (change i drop_link (iref i s)) in
    let e : ((j : ℕ) → s1.refs j ≡ s.refs j) = iput-iref i s h in
    after s s1 (remove_entry dlength path s1 (λ d s2. returns 0 (iput d s2))) e
      (remove_entry-Balanced dlength path s1 iput (λ p s2 j. refl) (AreCounts-eq s s1 e h))

removed-Balanced :
    (c : ℕ) (path : List ℕ) (s : Files) (f : Inode → Inode)
    → AreCounts s
    → Balanced s (
        remove_entry max_path_length path
          (iput c (iref c s))
          (λ d s2. returns 0 (iput d (change d f s2))))
removed-Balanced c path s f h =
    let s1 : Files = iput c (iref c s) in
    after s s1 (remove_entry max_path_length path s1 (λ d s2. returns 0 (iput d (change d f s2))))
      (iput-iref c s h)
      (remove_entry-Balanced max_path_length path s1 (λ d s2. iput d (change d f s2))
        (λ p s2 j. refl) (AreCounts-eq s s1 (iput-iref c s h) h))

-- With a valid device, and counts that are `u32`: whatever their paths, `sys_mknod`, `sys_mkdir`,
-- `sys_link` and `sys_unlink`, where they return, with an error or without, leave the reference
-- count of every inode as it was. The gets and puts of `dentry_find`, whatever its path, leave the
-- counts as they were where nothing is found, and with one more for the inode that it gives.
pub calls_balanced :
    (valid : ℕ → Bool) (fresh : DirBlock) (new dev : ℕ) (path other : Option (List ℕ)) (s : Files)
    → AreCounts s
    → valid dev ≡ true
    → Balanced s (sys_mknod valid fresh new path dev s)
      × Balanced s (sys_mkdir valid fresh new path s)
      × Balanced s (sys_link fresh path other s)
      × Balanced s (sys_unlink path s)
      × ((p : List ℕ)
          → Nets (find p s) s.refs (dentry_find_refs (λ i. (s.inodes i).blocks) s.cwd p s.refs))
unfolding find sys_mknod sys_mkdir sys_link sys_unlink
calls_balanced valid fresh new dev path other s h v = (
  with_path-Balanced (argstr path) s _ (λ p. create-Balanced valid fresh new p char dev s h v),
  with_path-Balanced (argstr path) s _
      (λ p. create-Balanced valid fresh new p directory 0 s h refl),
  with_path-Balanced (argstr path) s _
      (λ o. with_path-Balanced (argstr other) s _ (λ n. link_paths-Balanced fresh o n s h)),
  with_path-Balanced (argstr path) s _ (λ p.
      found-Balanced (find p s) s s _ _ (λ j. refl)
        (λ i. elim (Bool-cases (is_regular (s.inodes i).ftype)) [
          | inl r ↦ rw r (unlinked-Balanced i p s h)
          | inr r ↦ rw r (iput-iref i s h)
        ])),
  λ p. dentry_find_refs-Nets (λ i. (s.inodes i).blocks) s.refs h s.cwd p,
)

pub argstr_short : (path : List ℕ) → length path < max_path_length → argstr (some path) ≡ some path
argstr_short path h = rw (le→not_ltb max_path_length (length path + 1) (omega arith)) refl

rmdir_stops :
    (b : Bool) (n : ℕ) (c d : Call)
    → (b ≡ false) ⊎ (n ≢ 2)
    → (if not b then c else if not (n == 2) then c else d) ≡ c
rmdir_stops b n c d (inl e) = rw e refl
rmdir_stops true n c d (inr ne) = rw (ne→not_== n 2 ne) refl
rmdir_stops false n c d (inr ne) = refl

-- For a path shorter than 128 bytes to an inode that is no directory, or whose first block does
-- not count two entries, and whose count is below the top of `u32`: `sys_rmdir` fails and leaves
-- one more reference to that inode; other counts and all inodes are as before.
pub sys_rmdir_leaks :
    (path : List ℕ) (c : ℕ) (s : Files)
    → length path < max_path_length
    → find path s ≡ inode c
    → s.refs c + 1 < 4294967296
    → (is_directory (s.inodes c).ftype ≡ false) ⊎ (first_cnt (s.inodes c).blocks ≢ 2)
    → (s' : Files) × (sys_rmdir (some path) s ≡ fails s')
      × (s'.refs c ≡ s.refs c + 1)
      × ((j : ℕ) → j ≢ c → s'.refs j ≡ s.refs j)
      × (s'.inodes ≡ s.inodes)
unfolding sys_rmdir
sys_rmdir_leaks path c s l f h why = (
  iref c s,
  rw (argstr_short path l, f)
      (rmdir_stops (is_directory (s.inodes c).ftype) (first_cnt (s.inodes c).blocks) _ _ why),
  ground (arith, h),
  λ j ne. ground arith,
  refl,
)

-- What `find` gives depends on the blocks and the working directory.
pub find-ext :
    (path : List ℕ) (s s' : Files)
    → ((j : ℕ) → (s'.inodes j).blocks ≡ (s.inodes j).blocks)
    → s'.cwd ≡ s.cwd
    → find path s' ≡ find path s
unfolding find
find-ext path s s' e c = ap₂ (λ dirs cwd. dentry_find dirs cwd path) (fun_ext e) c

-- A change that keeps the blocks of an inode.
pub change-blocks :
    (i : ℕ) (f : Inode → Inode) (s : Files)
    → (f (s.inodes i)).blocks ≡ (s.inodes i).blocks
    → (j : ℕ) → ((change i f s).inodes j).blocks ≡ (s.inodes j).blocks
change-blocks i f s e j = elim (Bool-cases (j == i)) [
  | inl h ↦ rw h (e ∙ ap (λ (k : ℕ). (s.inodes k).blocks) (sym (==→eq j i h)))
  | inr h ↦ rw h refl
]

pub change_at :
    (i : ℕ) (f : Inode → Inode) (s : Files) (j : ℕ)
    → ((change i f s).inodes j).blocks
      ≡ (if j == i then (f (s.inodes i)).blocks else (s.inodes j).blocks)
change_at i f s j = elim (Bool-cases (j == i)) [ inl h ↦ rw h refl | inr h ↦ rw h refl ]

-- For a path shorter than 128 bytes that is not found, its name at most 28 bytes, in a directory
-- that is found and is not the inode that `ialloc` gives, with a device that is not valid and
-- counts below the top of `u32`: `sys_mknod` returns 0, as it does on success, the path is still
-- not found, and directory and new inode keep one more reference.
pub sys_mknod_leaks :
    (valid : ℕ → Bool) (fresh : DirBlock) (new dev parent : ℕ) (path : List ℕ) (s : Files)
    → length path < max_path_length
    → find path s ≡ missing
    → length (path_split path).1 ≤ dlength
    → find (path_split path).0 s ≡ inode parent
    → valid dev ≡ false
    → parent ≢ new
    → s.refs parent + 1 < 4294967296
    → s.refs new + 1 < 4294967296
    → (s' : Files) × (sys_mknod valid fresh new (some path) dev s ≡ returns 0 s')
      × (s'.refs parent ≡ s.refs parent + 1)
      × (s'.refs new ≡ s.refs new + 1)
      × (find path s' ≡ missing)
unfolding sys_mknod create
sys_mknod_leaks valid fresh new dev parent path s l f g q v ne h k =
    let link : Inode → Inode = λ (d : Inode). record d { nlink = 1 } in
    (
      change new link (iref new (iref parent s)),
      rw (argstr_short path l, f, le→not_ltb dlength (length (path_split path).1) g, q, v) refl,
      ground (arith, h, k),
      ground (arith, h, k),
      find-ext path s (change new link (iref new (iref parent s))) (change-blocks new link s refl)
            refl
          ∙ f,
    )
