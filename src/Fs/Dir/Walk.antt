-- ===== src/Fs/Dir/Walk.antt =====
-- `dentry_find` follows a path part by part.
use tnix.Common.{
  ℕ, zero, suc, ◌+◌, ◌<◌, ◌≡◌, ◌≢◌, refl, ap, ◌∙◌, List, [], ◌∷◌, ◌++◌, true, false, none, some,
  arith, get_or, length, length-append, le→leb, lt→ltb, ne→not_==, Option-cases, inl, inr,
}
use tnix.Fs.Names.{dlength, dentry_name_equal, parse_path, part, filled}
use tnix.Fs.Names.Path.{IsPart, parse_path-inner, parse_path-last}
use tnix.Fs.Dir.{
  Dentry, DirBlock, in_use, find_entry, find_block, Found, missing, inode, walk, rootinum,
  dentry_find,
}

-- A part of a path that `dname` has room for.
pub record IsStep (name : List ℕ) : Type 0 where
  pub part : IsPart name
  pub nonempty : length name ≢ 0
  pub short : length name < dlength

abbrev pub AreSteps : List (List ℕ) → Type 0
AreSteps [] = Unit {0}
AreSteps (n ∷ ns) = IsStep n × AreSteps ns

-- The path with these parts.
unfoldable pub join : List (List ℕ) → List ℕ
join [] = []
join (n ∷ []) = n
join (n ∷ m ∷ ns) = n ++ b'/' ∷ join (m ∷ ns)

-- From directory to directory, with each part as the array that `parse_path` fills.
unfoldable pub follow : (ℕ → List DirBlock) → ℕ → List (List ℕ) → Found
follow dirs cur [] = inode cur
follow dirs cur (n ∷ ns) = elim (find_block (dirs cur) (filled n)) [
  | none ↦ missing
  | some inum ↦ follow dirs inum ns
]

walk-part :
    (fuel : ℕ) (dirs : ℕ → List DirBlock) (cur : ℕ) (path n rest : List ℕ)
    → parse_path path ≡ part (filled n) rest
    → walk (suc fuel) dirs cur path ≡ elim (find_block (dirs cur) (filled n)) [
      | none ↦ missing
      | some inum ↦ walk fuel dirs inum rest
    ]
unfolding walk
walk-part fuel dirs cur path n rest e = rw (e, walk) refl

walk_end : (fuel : ℕ) (dirs : ℕ → List DirBlock) (cur : ℕ) → walk (suc fuel) dirs cur [] ≡ inode cur
unfolding walk parse_path
walk_end fuel dirs cur = refl

parse_last : (n : List ℕ) → IsStep n → parse_path n ≡ part (filled n) []
parse_last n s =
    parse_path-last n s.part s.nonempty
    ∙ rw (le→leb (length n + 1) dlength (omega (arith, s.short))) refl

parse_inner : (n rest : List ℕ) → IsStep n → parse_path (n ++ b'/' ∷ rest) ≡ part (filled n) rest
parse_inner n rest s =
    parse_path-inner n rest s.part ∙ rw (le→leb (length n) dlength (omega (arith, s.short))) refl

walk-follow :
    (fuel : ℕ) (dirs : ℕ → List DirBlock) (cur : ℕ) (ns : List (List ℕ))
    → AreSteps ns
    → length (join ns) < fuel
    → walk fuel dirs cur (join ns) ≡ follow dirs cur ns
unfolding join follow
walk-follow zero dirs cur ns s h = absurd (omega arith)
walk-follow (suc fuel) dirs cur [] s h = walk_end fuel dirs cur
walk-follow (suc fuel) dirs cur (n ∷ []) s h =
    walk-part fuel dirs cur n n [] (parse_last n s.0)
    ∙ elim (Option-cases (find_block (dirs cur) (filled n))) [
      | inl e ↦ rw (e, follow) refl
      | inr (i, e) ↦ rw (e, follow) (walk-follow fuel dirs i [] tt (omega (arith, s.0.nonempty)))
    ]
walk-follow (suc fuel) dirs cur (n ∷ m ∷ ns) s h =
    walk-part fuel dirs cur (n ++ b'/' ∷ join (m ∷ ns)) n (join (m ∷ ns))
      (parse_inner n (join (m ∷ ns)) s.0)
    ∙ elim (Option-cases (find_block (dirs cur) (filled n))) [
      | inl e ↦ rw (e, follow) refl
      | inr (i, e) ↦
          rw (e, follow)
            (walk-follow fuel dirs i (m ∷ ns) s.1
              (omega (arith, length-append n (b'/' ∷ join (m ∷ ns)))))
    ]

relative :
    (dirs : ℕ → List DirBlock) (cwd : ℕ) (path : List ℕ)
    → get_or path 0 0 ≢ b'/'
    → dentry_find dirs cwd path ≡ walk (suc (length path)) dirs cwd path
unfolding dentry_find
relative dirs cwd [] h = refl
relative dirs cwd (c ∷ cs) h = rw (ne→not_== c b'/' h) refl

join_start : (ns : List (List ℕ)) → AreSteps ns → get_or (join ns) 0 0 ≢ b'/'
unfolding join
join_start [] s = omega arith
join_start ([] ∷ ns) s = absurd (s.0.nonempty refl)
join_start ((c ∷ cs) ∷ []) s = s.0.part.0
join_start ((c ∷ cs) ∷ m ∷ ns) s = s.0.part.0

-- For a path of names, none empty, longer than 27 bytes or with a `/` in it, `dentry_find` ends
-- and comes to what following the names one by one comes to: from the root where the path begins
-- with a `/`, and from the working directory otherwise.
pub dentry_find-follow :
    (dirs : ℕ → List DirBlock) (cwd : ℕ) (ns : List (List ℕ))
    → AreSteps ns
    → (dentry_find dirs cwd (b'/' ∷ join ns) ≡ follow dirs rootinum ns)
      × (dentry_find dirs cwd (join ns) ≡ follow dirs cwd ns)
unfolding dentry_find
dentry_find-follow dirs cwd ns s = (
  walk-follow (suc (length (join ns))) dirs rootinum ns s (omega arith),
  relative dirs cwd (join ns) (join_start ns s)
      ∙ walk-follow (suc (length (join ns))) dirs cwd ns s (omega arith),
)

find_entry-stale :
    (e : Dentry) (es : List Dentry) (cnt : ℕ)
    → in_use e ≡ false
    → 0 < cnt
    → find_entry (e ∷ es) 0 cnt (filled []) ≡ some e.inum
unfolding find_entry dentry_name_equal
find_entry-stale e es cnt u h = rw (lt→ltb 0 cnt h, same, find_entry) refl
  where
    same : dentry_name_equal e.name (filled []) ≡ true
    same = ground arith

find_block-stale :
    (e : Dentry) (es : List Dentry) (cnt : ℕ) (bs : List DirBlock)
    → in_use e ≡ false
    → 0 < cnt
    → find_block (record { cnt = cnt; entries = e ∷ es } ∷ bs) (filled []) ≡ some e.inum
unfolding find_block
find_block-stale e es cnt bs u h = rw (find_entry-stale e es cnt u h, find_block) refl

-- If the first entry of the root directory is not in use, and its block has entries in use,
-- `dentry_find` of `//` comes to the inode whose number the unused entry still has.
pub dentry_find-stale :
    (dirs : ℕ → List DirBlock) (cwd : ℕ) (e : Dentry) (es : List Dentry) (cnt : ℕ)
    (bs : List DirBlock)
    → dirs rootinum ≡ record { cnt = cnt; entries = e ∷ es } ∷ bs
    → in_use e ≡ false
    → 0 < cnt
    → dentry_find dirs cwd (b'/' ∷ b'/' ∷ []) ≡ inode e.inum
unfolding dentry_find
dentry_find-stale dirs cwd e es cnt bs root u h =
    walk-part 1 dirs rootinum (b'/' ∷ []) [] [] (parse_path-inner [] [] tt)
    ∙ rw (ap (λ bs. find_block bs (filled [])) root ∙ find_block-stale e es cnt bs u h)
        (walk_end 0 dirs e.inum)
