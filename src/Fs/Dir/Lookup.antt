-- ===== src/Fs/Dir/Lookup.antt =====
-- What a directory says of a name, and that `dentry_find` says the same.
use tnix.Common.{
  ℕ, ◌+◌, ◌<◌, ◌≡◌, ◌≢◌, refl, sym, ◌∙◌, List, [], ◌∷◌, true, false, ◌&&◌, Option, none, some,
  arith, if◌then◌else◌, ltb, length, get_or, lt→ltb, Bool-cases, Option-cases, inl, inr,
}
use tnix.Fs.Names.{dlength, dentry_name_equal}
use tnix.Fs.Names.Equal.{equal_differs}
use tnix.Fs.Dir.{Dentry, DirBlock, in_use, max_cnt, find_entry, find_block}

-- How many entries are in use.
unfoldable pub used : List Dentry → ℕ
used [] = 0
used (e ∷ es) = (if in_use e then 1 else 0) + used es

-- The first entry that is in use and has the name.
unfoldable pub lookup : List Dentry → List ℕ → Option ℕ
lookup [] name = none
lookup (e ∷ es) name =
    if in_use e && dentry_name_equal e.name name then some e.inum else lookup es name

unfoldable pub lookup_dir : List DirBlock → List ℕ → Option ℕ
unfolding lookup
lookup_dir [] name = none
lookup_dir (b ∷ bs) name = elim (lookup b.entries name) [
  | some inum ↦ some inum
  | none ↦ lookup_dir bs name
]

-- Every name is an array of 28 bytes.
abbrev pub Arrays : List Dentry → Type 0
Arrays [] = Unit {0}
Arrays (e ∷ es) = (length e.name ≡ dlength) × Arrays es

-- A block has its size, and its count is right.
pub record IsBlock (b : DirBlock) : Type 0 where
  pub arrays : Arrays b.entries
  pub size : length b.entries ≡ max_cnt
  pub counted : b.cnt ≡ used b.entries

abbrev pub IsDir : List DirBlock → Type 0
IsDir [] = Unit {0}
IsDir (b ∷ bs) = IsBlock b × IsDir bs

-- An entry that is not in use has no name but the empty one.
pub unused_differs :
    (e : Dentry) (name : List ℕ)
    → get_or name 0 0 ≢ 0
    → in_use e ≡ false
    → dentry_name_equal e.name name ≡ false
unfolding dentry_name_equal
unused_differs e name h u = equal_differs 27 0 e.name name (λ x. h (sym x ∙ empty))
  where
    empty : get_or e.name 0 0 ≡ 0
    empty = ground arith

pub lookup-used : (es : List Dentry) (name : List ℕ) → used es ≡ 0 → lookup es name ≡ none
unfolding lookup used
lookup-used [] name h = refl
lookup-used (e ∷ es) name h = ground (arith, lookup-used es name)

pub find_entry-lookup :
    (es : List Dentry) (k cnt : ℕ) (name : List ℕ)
    → get_or name 0 0 ≢ 0
    → cnt ≡ k + used es
    → find_entry es k cnt name ≡ lookup es name
unfolding find_entry lookup used
find_entry-lookup [] k cnt name h e = refl
find_entry-lookup (x ∷ es) k cnt name h e = elim (Bool-cases (in_use x)) [
  | inl u ↦ elim (Bool-cases (dentry_name_equal x.name name)) [
    | inl q ↦ rw (lt→ltb k cnt (at_least u), q, u, find_entry) refl
    | inr q ↦
        rw (lt→ltb k cnt (at_least u), q, u, find_entry)
          (find_entry-lookup es (k + 1) cnt name h (e ∙ ground arith))
  ]
  | inr u ↦ elim (Bool-cases (ltb k cnt)) [
    | inl l ↦
        rw (l, unused_differs x name h u, u, find_entry)
          (find_entry-lookup es k cnt name h (e ∙ ground arith))
    | inr l ↦ rw (l, u, find_entry) (sym (lookup-used es name (ground arith)))
  ]
]
  where
    at_least : in_use x ≡ true → k < cnt
    at_least u = ground arith

-- On directories whose counts are right, the loops of `dentry_find` find what is there.
pub find_block-lookup_dir :
    (bs : List DirBlock) (name : List ℕ)
    → IsDir bs
    → get_or name 0 0 ≢ 0
    → find_block bs name ≡ lookup_dir bs name
unfolding find_block lookup_dir
find_block-lookup_dir [] name v h = refl
find_block-lookup_dir (b ∷ bs) name v h =
    let fe = find_entry-lookup b.entries 0 b.cnt name h (v.0.counted ∙ omega arith) in
    elim (Option-cases (lookup b.entries name)) [
      | inl n ↦ rw (fe ∙ n, n, find_block, lookup_dir) (find_block-lookup_dir bs name v.1 h)
      | inr (i, e) ↦ rw (fe ∙ e, e, find_block, lookup_dir) refl
    ]
