-- ===== src/Syscall/Paths/Create.antt =====
-- `create` of a directory.
use tnix.Common.{
  ℕ, ◌≤◌, ◌≡◌, ◌≢◌, refl, ap, sym, ◌∙◌, List, Bool, length, add32, le→not_ltb, eq→==, ne→not_==,
}
use tnix.Fs.Names.{dlength, path_split}
use tnix.Fs.Dir.{DirBlock, missing, inode, dentry_add}
use tnix.Syscall.Paths.{
  Ftype, directory, create_in, Inode, Files, iref, iput, change, find, add_entry, dot, dotdot,
  create,
}
use tnix.Syscall.Paths.Refs.{change-blocks, change_at}
use tnix.Syscall.Paths.Rooted.{dirs_of}

-- `create` where the path is missing and its directory is there.
pub create_run :
    (valid : ℕ → Bool) (fresh : DirBlock) (new dev parent : ℕ) (path parentpath name : List ℕ)
    (ftype : Ftype) (s : Files)
    → find path s ≡ missing
    → path_split path ≡ (parentpath, name)
    → length name ≤ dlength
    → find parentpath s ≡ inode parent
    → create valid fresh new path ftype dev s
      ≡ create_in valid fresh ftype dev parent new name
          (change new (λ (d : Inode). record d { nlink = 1 }) (iref new (iref parent s)))
unfolding create
create_run valid fresh new dev parent path parentpath name ftype s e p l f =
    rw (e, p, le→not_ltb dlength (length name) l, f) refl

change_self : (i : ℕ) (f : Inode → Inode) (s : Files) → (change i f s).inodes i ≡ f (s.inodes i)
change_self i f s = rw (eq→== i i refl) refl

change_other :
    (i : ℕ) (f : Inode → Inode) (s : Files) (j : ℕ) → j ≢ i → (change i f s).inodes j ≡ s.inodes j
change_other i f s j ne = rw (ne→not_== j i ne) refl

module _ (fresh : DirBlock) (new parent : ℕ) (n : List ℕ) (s : Files) where
  -- The new directory, from its inode to its two entries.
  abbrev started : Files
  started =
      change new (λ (d : Inode). record d { ftype = directory })
        (change new (λ (d : Inode). record d { nlink = 1 }) (iref new (iref parent s)))

  started-blocks : dirs_of started new ≡ dirs_of s new
  started-blocks =
      change-blocks new (λ (d : Inode). record d { ftype = directory })
        (change new (λ (d : Inode). record d { nlink = 1 }) (iref new (iref parent s))) refl new
      ∙ change-blocks new (λ (d : Inode). record d { nlink = 1 }) (iref new (iref parent s)) refl
          new

  abbrev dotted : Files
  dotted = add_entry fresh new new dot started

  abbrev filled_in : Files
  filled_in = add_entry fresh new parent dotdot dotted

  abbrev counted : Files
  counted = iput new (change parent (λ (d : Inode). record d { nlink = add32 d.nlink 1 }) filled_in)

  abbrev pub made : Files
  made = iput parent (add_entry fresh parent new n counted)

  pub others_kept : (c : ℕ) → c ≢ new → filled_in.inodes c ≡ s.inodes c
  others_kept c ne = rw (ne→not_== c new ne) refl

  pub made_here : parent ≢ new → dirs_of made parent ≡ dentry_add new n fresh (dirs_of s parent)
  made_here ne =
      change_at parent (λ (d : Inode). record d { blocks = dentry_add new n fresh d.blocks })
        counted parent
      ∙ rw (eq→== parent parent refl)
          (ap (λ (d : Inode). dentry_add new n fresh d.blocks) (others_kept parent ne))

  pub made_elsewhere : (c : ℕ) → c ≢ parent → c ≢ new → made.inodes c ≡ s.inodes c
  made_elsewhere c ne nn = rw (ne→not_== c parent ne) (others_kept c nn)

  -- The new directory has its two entries.
  pub made_new :
      parent ≢ new
      → dirs_of made new ≡ dentry_add parent dotdot fresh (dentry_add new dot fresh (dirs_of s new))
  made_new ne =
      ap (λ (d : Inode). d.blocks)
        (change_other parent (λ (d : Inode). record d { blocks = dentry_add new n fresh d.blocks })
            counted new (λ q. ne (sym q))
          ∙ change_other parent (λ (d : Inode). record d { nlink = add32 d.nlink 1 }) filled_in new
              (λ q. ne (sym q))
          ∙ change_self new
              (λ (d : Inode). record d { blocks = dentry_add parent dotdot fresh d.blocks }) dotted)
      ∙ ap (λ (d : Inode). dentry_add parent dotdot fresh d.blocks)
          (change_self new (λ (d : Inode). record d { blocks = dentry_add new dot fresh d.blocks })
            started)
      ∙ ap (λ bs. dentry_add parent dotdot fresh (dentry_add new dot fresh bs)) started-blocks
