-- ===== src/Syscall/Paths/Made.antt =====
-- A path that `sys_mkdir` has made.
use tnix.Common.{
  ℕ, zero, suc, ◌<◌, ◌≡◌, ◌≢◌, refl, ap, sym, ◌∙◌, List, [], ◌∷◌, ◌++◌, Bool, Option, none, some,
  arith, if◌then◌else◌, ◌==◌, get_or, length, Bool-cases, ==→eq, not_==→ne, inl, inr,
}
use tnix.Fs.Dir.{DirBlock, find_block, inode, dentry_add}
use tnix.Fs.Dir.Lookup.{IsDir}
use tnix.Fs.Dir.Fill.{IsFull}
use tnix.Fs.Dir.Change.{IsBlank, find_block-dentry_add}
use tnix.Fs.Dir.Walk.{IsStep, AreSteps}
use tnix.Syscall.Paths.{
  directory, Inode, Files, returns, max_path_length, find, dot, dotdot, sys_mkdir,
}
use tnix.Syscall.Paths.Refs.{argstr_short}
use tnix.Syscall.Paths.Follow.{AreFull, Keeps, dentry_add-Keeps}
use tnix.Syscall.Paths.Rooted.{
  rooted, dirs_of, split-rooted, AreSteps-append, paths_keep, path_found, path_missing,
}
use tnix.Syscall.Paths.Create.{create_run, made, made_here, made_elsewhere, made_new}

dot-IsFull : IsFull dot
dot-IsFull = record {
  fits = record { short = omega arith; whole = one_byte };
  nonempty = omega arith;
}
  where
    one_byte : (i : ℕ) → i < 1 → get_or dot i 0 ≢ 0
    one_byte zero h = omega arith
    one_byte (suc i) h = absurd (omega arith)

dotdot-IsFull : IsFull dotdot
dotdot-IsFull = record {
  fits = record { short = omega arith; whole = two_bytes };
  nonempty = omega arith;
}
  where
    two_bytes : (i : ℕ) → i < 2 → get_or dotdot i 0 ≢ 0
    two_bytes zero h = omega arith
    two_bytes (suc zero) h = omega arith
    two_bytes (suc (suc i)) h = absurd (omega arith)

dot-IsStep : IsStep dot
dot-IsStep = record { part = omega arith; nonempty = omega arith; short = omega arith }

dotdot-IsStep : IsStep dotdot
dotdot-IsStep = record { part = omega arith; nonempty = omega arith; short = omega arith }

find_nothing : (n : List ℕ) → find_block [] n ≡ none
find_nothing n = unfold find_block in refl

dots_differ : dot ≢ dotdot
dots_differ e = omega (arith, ap length e)

-- The two entries of a new directory.
two_entries :
    (fresh : DirBlock) (new parent : ℕ)
    → IsBlank fresh
    → (find_block (dentry_add parent dotdot fresh (dentry_add new dot fresh [])) dot ≡ some new)
      × (find_block (dentry_add parent dotdot fresh (dentry_add new dot fresh [])) dotdot
          ≡ some parent)
two_entries fresh new parent b =
    let (here, others, valid) =
      find_block-dentry_add new dot dot-IsFull fresh b [] tt (find_nothing dot) in
    let (here', others', valid') =
      find_block-dentry_add parent dotdot dotdot-IsFull fresh b (dentry_add new dot fresh []) valid
        (others dotdot dotdot-IsFull (λ q. dots_differ (sym q)) ∙ find_nothing dotdot) in
    (others' dot dot-IsFull dots_differ ∙ here, here')

module _ (fresh : DirBlock) (new p : ℕ) (n : List ℕ) (s : Files) (b : IsBlank fresh)
    (full : IsFull n) (v : IsDir (s.inodes p).blocks)
    (free : find_block (s.inodes p).blocks n ≡ none) (empty : (s.inodes new).blocks ≡ [])
    (ne : p ≢ new) where
  -- The directories without the new one.
  abbrev entered : ℕ → List DirBlock
  entered c = if c == p then dentry_add new n fresh (dirs_of s p) else dirs_of s c

  made-entered : (c : ℕ) → c ≢ new → dirs_of (made fresh new p n s) c ≡ entered c
  made-entered c nn = elim (Bool-cases (c == p)) [
    | inl t ↦
        ap (dirs_of (made fresh new p n s)) (==→eq c p t) ∙ made_here fresh new p n s ne ∙ rw t refl
    | inr t ↦
        ap (λ (d : Inode). d.blocks) (made_elsewhere fresh new p n s c (not_==→ne c p t) nn)
        ∙ rw t refl
  ]

  entered-Keeps : Keeps (dirs_of s) entered × (find_block (entered p) n ≡ some new)
  entered-Keeps = dentry_add-Keeps fresh p new n (dirs_of s) entered full b v free (λ c. refl)

  made-Keeps : Keeps (dirs_of s) (dirs_of (made fresh new p n s))
  made-Keeps c k o f h = elim (Bool-cases (c == new)) [
    | inr t ↦
        ap (λ bs. find_block bs o) (made-entered c (not_==→ne c new t)) ∙ entered-Keeps.0 c k o f h
    | inl t ↦ absurd (
        none_some (
          sym (find_nothing o)
          ∙ ap (λ bs. find_block bs o) (sym empty)
          ∙ ap (λ x. find_block (dirs_of s x) o) (sym (==→eq c new t))
          ∙ h))
  ]
    where
      none_some : ◌≢◌ {A = Option ℕ} none (some k)
      none_some q = absurd (cc q)

  made_entry : find_block (dirs_of (made fresh new p n s) p) n ≡ some new
  made_entry = ap (λ bs. find_block bs n) (made-entered p ne) ∙ entered-Keeps.1

  made_entries :
      (find_block (dirs_of (made fresh new p n s) new) dot ≡ some new)
      × (find_block (dirs_of (made fresh new p n s) new) dotdot ≡ some p)
  made_entries =
      let e : dirs_of (made fresh new p n s) new
          ≡ dentry_add p dotdot fresh (dentry_add new dot fresh []) =
        made_new fresh new p n s ne
        ∙ ap (λ bs. dentry_add p dotdot fresh (dentry_add new dot fresh bs)) empty in
      let (x, y) = two_entries fresh new p b in
      (ap (λ bs. find_block bs dot) e ∙ x, ap (λ bs. find_block bs dotdot) e ∙ y)

-- With a path of at least one name from the root to a directory that fulfils its invariant and
-- does not have the name `n`, all names of 1 to 27 bytes without NUL or `/`, the whole path
-- shorter than 128 bytes, a new inode without blocks that is not that directory, and a new block
-- of 31 unused entries at hand: `sys_mkdir` returns 0, the path leads to the new inode, its `.` to
-- the same and its `..` to the directory, and every path of such names from the root that led to
-- an inode leads to it still.
pub find-sys_mkdir :
    (valid : ℕ → Bool) (fresh : DirBlock) (m : List ℕ) (ns : List (List ℕ)) (n : List ℕ) (new p : ℕ)
    (s : Files)
    → IsBlank fresh
    → AreSteps (m ∷ ns)
    → AreFull (m ∷ ns)
    → IsStep n
    → IsFull n
    → length (rooted (m ∷ ns ++ n ∷ [])) < max_path_length
    → find (rooted (m ∷ ns)) s ≡ inode p
    → IsDir (s.inodes p).blocks
    → find_block (s.inodes p).blocks n ≡ none
    → (s.inodes new).blocks ≡ []
    → p ≢ new
    → (s' : Files) × (sys_mkdir valid fresh new (some (rooted (m ∷ ns ++ n ∷ []))) s ≡ returns 0 s')
      × (find (rooted (m ∷ ns ++ n ∷ [])) s' ≡ inode new)
      × (find (rooted (m ∷ (ns ++ n ∷ []) ++ dot ∷ [])) s' ≡ inode new)
      × (find (rooted (m ∷ (ns ++ n ∷ []) ++ dotdot ∷ [])) s' ≡ inode p)
      × ((ks : List (List ℕ)) (k : ℕ)
          → AreSteps ks
          → AreFull ks
          → find (rooted ks) s ≡ inode k
          → find (rooted ks) s' ≡ inode k)
unfolding sys_mkdir
find-sys_mkdir valid fresh m ns n new p s b a f st full l e v free empty ne =
    let s' : Files = made fresh new p n s in
    let keeps : Keeps (dirs_of s) (dirs_of s') =
      made-Keeps fresh new p n s b full v free empty ne in
    let here : find (rooted (m ∷ ns ++ n ∷ [])) s' ≡ inode new =
      path_found s' (m ∷ ns) n p new a st (paths_keep s s' (m ∷ ns) p keeps a f e)
        (made_entry fresh new p n s b full v free empty ne) in
    let (x, y) = made_entries fresh new p n s b full v free empty ne in
    let steps : AreSteps (m ∷ ns ++ n ∷ []) = AreSteps-append (m ∷ ns) n a st in
    (
      s',
      rw (argstr_short (rooted (m ∷ ns ++ n ∷ [])) l) (
          create_run valid fresh new 0 p (rooted (m ∷ ns ++ n ∷ [])) (rooted (m ∷ ns)) n directory s
            (path_missing s (m ∷ ns) n p a st e free) (split-rooted m ns n st)
            (omega (arith, full.fits.short)) e),
      here,
      path_found s' (m ∷ ns ++ n ∷ []) dot new new steps dot-IsStep here x,
      path_found s' (m ∷ ns ++ n ∷ []) dotdot new p steps dotdot-IsStep here y,
      λ ks k. paths_keep s s' ks k keeps,
    )
