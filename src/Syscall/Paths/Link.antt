-- ===== src/Syscall/Paths/Link.antt =====
-- A path that `sys_link` has made.
use tnix.Common.{
  ℕ, ◌<◌, ◌≡◌, refl, ap, ap₂, sym, ◌∙◌, List, [], ◌∷◌, ◌++◌, true, none, some, arith, if◌then◌else◌,
  ◌==◌, length, add32, Bool-cases, le→not_ltb, eq→==, ==→eq, inl, inr,
}
use tnix.Fs.Names.{dlength}
use tnix.Fs.Dir.{DirBlock, find_block, missing, inode, dentry_add}
use tnix.Fs.Dir.Lookup.{IsDir}
use tnix.Fs.Dir.Fill.{IsFull}
use tnix.Fs.Dir.Change.{IsBlank}
use tnix.Fs.Dir.Walk.{IsStep, AreSteps}
use tnix.Syscall.Paths.{
  Inode, Files, returns, iref, iput, change, max_path_length, find, add_entry, is_regular, sys_link,
}
use tnix.Syscall.Paths.Refs.{argstr_short, find-ext, change-blocks, change_at}
use tnix.Syscall.Paths.Follow.{AreFull, Keeps, dentry_add-Keeps}
use tnix.Syscall.Paths.Rooted.{rooted, dirs_of, split-rooted, paths_keep, path_found, path_missing}

module _ (fresh : DirBlock) (m : List ℕ) (ns : List (List ℕ)) (n : List ℕ) (i p : ℕ) (s : Files)
    (b : IsBlank fresh) (a : AreSteps (m ∷ ns)) (st : IsStep n) (full : IsFull n)
    (v : IsDir (s.inodes p).blocks) (at_parent : find (rooted (m ∷ ns)) s ≡ inode p)
    (new : find_block (s.inodes p).blocks n ≡ none) where
  abbrev raised : Files
  raised = iput i (change i (λ (d : Inode). record d { nlink = add32 d.nlink 1 }) (iref i s))

  abbrev linked : Files
  linked = iput p (add_entry fresh p i n (iref p raised))

  raised-blocks : (j : ℕ) → (raised.inodes j).blocks ≡ (s.inodes j).blocks
  raised-blocks = change-blocks i (λ (d : Inode). record d { nlink = add32 d.nlink 1 }) s refl

  find-raised : (path : List ℕ) → find path raised ≡ find path s
  find-raised path = find-ext path s raised raised-blocks refl

  missing_before : find (rooted (m ∷ ns ++ n ∷ [])) s ≡ missing
  missing_before = path_missing s (m ∷ ns) n p a st at_parent new

  linked-blocks :
      (c : ℕ)
      → dirs_of linked c ≡ (if c == p then dentry_add i n fresh (dirs_of s p) else dirs_of s c)
  linked-blocks c =
      change_at p (λ (d : Inode). record d { blocks = dentry_add i n fresh d.blocks })
        (iref p raised) c
      ∙ ap₂ (λ x y. if c == p then dentry_add i n fresh x else y) (raised-blocks p)
          (raised-blocks c)

  kept : Keeps (dirs_of s) (dirs_of linked) × (find_block (dirs_of linked p) n ≡ some i)
  kept = dentry_add-Keeps fresh p i n (dirs_of s) (dirs_of linked) full b v new linked-blocks

  path_made : AreFull (m ∷ ns) → find (rooted (m ∷ ns ++ n ∷ [])) linked ≡ inode i
  path_made f =
      path_found linked (m ∷ ns) n p i a st (paths_keep s linked (m ∷ ns) p kept.0 a f at_parent)
        kept.1

change-nlink :
    (p : ℕ) (f : Inode → Inode) (s : Files)
    → ((d : Inode) → (f d).nlink ≡ d.nlink)
    → (j : ℕ) → ((change p f s).inodes j).nlink ≡ (s.inodes j).nlink
change-nlink p f s e j = elim (Bool-cases (j == p)) [
  | inl h ↦ rw h (e (s.inodes p) ∙ ap (λ (k : ℕ). (s.inodes k).nlink) (sym (==→eq j p h)))
  | inr h ↦ rw h refl
]

raised_at :
    (i : ℕ) (s : Files)
    → ((change i (λ (d : Inode). record d { nlink = add32 d.nlink 1 }) s).inodes i).nlink
      ≡ add32 (s.inodes i).nlink 1
raised_at i s = rw (eq→== i i refl) refl

-- With a path to a regular inode, and a path of at least one name from the root to a directory
-- that fulfils its invariant and does not have the name `n`, all names of 1 to 27 bytes without
-- NUL or `/`, both arguments shorter than 128 bytes and a new block of 31 unused entries at hand:
-- `sys_link` returns 0, the new path leads to the inode, which has one link more, and every path
-- of such names from the root that led to an inode leads to it still.
pub find-sys_link :
    (fresh : DirBlock) (old m : List ℕ) (ns : List (List ℕ)) (n : List ℕ) (i p : ℕ) (s : Files)
    → IsBlank fresh
    → AreSteps (m ∷ ns)
    → AreFull (m ∷ ns)
    → IsStep n
    → IsFull n
    → length old < max_path_length
    → length (rooted (m ∷ ns ++ n ∷ [])) < max_path_length
    → find old s ≡ inode i
    → is_regular (s.inodes i).ftype ≡ true
    → find (rooted (m ∷ ns)) s ≡ inode p
    → IsDir (s.inodes p).blocks
    → find_block (s.inodes p).blocks n ≡ none
    → (s' : Files) × (sys_link fresh (some old) (some (rooted (m ∷ ns ++ n ∷ []))) s ≡ returns 0 s')
      × (find (rooted (m ∷ ns ++ n ∷ [])) s' ≡ inode i)
      × ((s'.inodes i).nlink ≡ add32 (s.inodes i).nlink 1)
      × ((ks : List (List ℕ)) (k : ℕ)
          → AreSteps ks
          → AreFull ks
          → find (rooted ks) s ≡ inode k
          → find (rooted ks) s' ≡ inode k)
unfolding sys_link
find-sys_link fresh old m ns n i p s b a f st full l l' e r q v new = (
  linked fresh m ns n i p s b a st full v q new,
  rw
      (
        argstr_short old l,
        argstr_short (rooted (m ∷ ns ++ n ∷ [])) l',
        missing_before fresh m ns n i p s b a st full v q new,
        e,
        r,
        split-rooted m ns n st,
        le→not_ltb dlength (length n) (omega (arith, full.fits.short)),
        find-raised fresh m ns n i p s b a st full v q new (rooted (m ∷ ns)) ∙ q,
      )
      refl,
  path_made fresh m ns n i p s b a st full v q new f,
  change-nlink p (λ (d : Inode). record d { blocks = dentry_add i n fresh d.blocks })
        (raised fresh m ns n i p s b a st full v q new) (λ d. refl) i
      ∙ raised_at i s,
  λ ks k.
      paths_keep s (linked fresh m ns n i p s b a st full v q new) ks k
        (kept fresh m ns n i p s b a st full v q new).0,
)
