-- ===== src/Fs/Dir/Change.antt =====
-- What `dentry_add` and `dentry_del` do to what a directory says.
use tnix.Common.{
  ℕ, ◌+◌, ◌≡◌, ◌≢◌, refl, ap, sym, ◌∙◌, List, [], ◌∷◌, ◌++◌, Option, none, some, arith, ◌==◌,
  length, get_or, Bool-cases, Option-cases, inl, inr, ◌⊎◌, not_==→ne,
}
use tnix.Fs.Dir.{Dentry, DirBlock, max_cnt, find_block, fill_first, add_block, dentry_add}
use tnix.Fs.Dir.Lookup.{
  used, lookup, lookup_dir, Arrays, IsBlock, IsDir, lookup-used, find_block-lookup_dir,
}
use tnix.Fs.Dir.Fill.{IsFull, Filled, fill_entry-Filled, fill_first-Filled}

-- The same of a directory.
pub record Added (inum : ℕ) (name : List ℕ) (bs bs' : List DirBlock) : Type 0 where
  pub valid : IsDir bs'
  pub gives : lookup_dir bs' name ≡ some inum
  pub others : (o : List ℕ) → IsFull o → o ≢ name → lookup_dir bs' o ≡ lookup_dir bs o

module _ (inum : ℕ) (name : List ℕ) (n : IsFull name) where
  abbrev grown : DirBlock → List Dentry → DirBlock
  grown b es = record { cnt = b.cnt + 1; entries = es }

  grown-IsBlock :
      (b : DirBlock) (es : List Dentry)
      → IsBlock b
      → Filled inum name b.entries es
      → IsBlock (grown b es)
  grown-IsBlock b es v f = record {
    arrays = f.arrays;
    size = f.size ∙ v.size;
    counted = ap (λ k. k + 1) v.counted ∙ sym f.counted;
  }

  Added-here :
      (b : DirBlock) (bs : List DirBlock) (es : List Dentry)
      → IsDir (b ∷ bs)
      → Filled inum name b.entries es
      → Added inum name (b ∷ bs) (grown b es ∷ bs)
  unfolding lookup_dir
  Added-here b bs es v f = record {
    valid = (grown-IsBlock b es v.0 f, v.1);
    gives = rw (f.gives, lookup_dir) refl;
    others =
        λ o g ne. ap (λ r. elim r [ some i ↦ some i | none ↦ lookup_dir bs o ]) (f.others o g ne);
  }

  missed_block :
      (r q : Option ℕ)
      → elim r as (λ _. Option ℕ) [ some i ↦ some i | none ↦ q ] ≡ none
      → (r ≡ none) × (q ≡ none)
  missed_block none q h = (refl, h)
  missed_block (some i) q h = absurd (cc)

  Added-later :
      (b : DirBlock) (bs bs' : List DirBlock)
      → IsDir (b ∷ bs)
      → lookup_dir (b ∷ bs) name ≡ none
      → Added inum name bs bs'
      → Added inum name (b ∷ bs) (b ∷ bs')
  unfolding lookup_dir
  Added-later b bs bs' v missing a = record {
    valid = (v.0, a.valid);
    gives =
        rw ((missed_block (lookup b.entries name) (lookup_dir bs name) missing).0, lookup_dir)
          a.gives;
    others = λ o g ne.
        ap (λ r. elim (lookup b.entries o) [ some i ↦ some i | none ↦ r ]) (a.others o g ne);
  }

  add_block-Added :
      (bs : List DirBlock)
      → IsDir bs
      → lookup_dir bs name ≡ none
      → (add_block inum name bs ≡ none)
        ⊎ ((bs' : List DirBlock) × (add_block inum name bs ≡ some bs') × Added inum name bs bs')
  unfolding add_block lookup_dir
  add_block-Added [] v missing = inl refl
  add_block-Added (b ∷ bs) v missing =
      let (here_none, later_none) =
        missed_block (lookup b.entries name) (lookup_dir bs name) missing in
      elim (Bool-cases (b.cnt == max_cnt)) [
        | inl full ↦ elim (add_block-Added bs v.1 later_none) [
          | inl e ↦ inl (rw (full, e, add_block) refl)
          | inr (bs', e, a) ↦
              inr (b ∷ bs', rw (full, e, add_block) refl, Added-later b bs bs' v missing a)
        ]
        | inr room ↦
            let (es, e, f) =
              fill_entry-Filled inum name n b.entries v.0.arrays
                (λ q. not_==→ne b.cnt max_cnt room (v.0.counted ∙ q ∙ v.0.size)) here_none in
            inr (grown b es ∷ bs, rw (room, e, add_block) refl, Added-here b bs es v f)
      ]

-- A block at the end of a directory.
lookup_dir-append :
    (bs : List DirBlock) (x : DirBlock) (o : List ℕ)
    → lookup_dir (bs ++ x ∷ []) o
      ≡ elim (lookup_dir bs o) [ some i ↦ some i | none ↦ lookup x.entries o ]
unfolding lookup_dir
lookup_dir-append [] x o = elim (Option-cases (lookup x.entries o)) [
  | inl e ↦ rw (e, lookup_dir) refl
  | inr (i, e) ↦ rw (e, lookup_dir) refl
]
lookup_dir-append (b ∷ bs) x o = elim (Option-cases (lookup b.entries o)) [
  | inl e ↦ rw (e, lookup_dir) (lookup_dir-append bs x o)
  | inr (i, e) ↦ rw (e, lookup_dir) refl
]

IsDir-append : (bs : List DirBlock) (x : DirBlock) → IsDir bs → IsBlock x → IsDir (bs ++ x ∷ [])
IsDir-append [] x v w = (w, tt)
IsDir-append (b ∷ bs) x v w = (v.0, IsDir-append bs x v.1 w)

-- A block whose entries are all unused.
pub record IsBlank (b : DirBlock) : Type 0 where
  pub arrays : Arrays b.entries
  pub size : length b.entries ≡ max_cnt
  pub unused : used b.entries ≡ 0

module _ (inum : ℕ) (name : List ℕ) (n : IsFull name) (fresh : DirBlock)
    (blank : IsBlank fresh) where
  abbrev started : DirBlock
  started = record { cnt = 1; entries = fill_first inum name fresh.entries }

  started-Filled : Filled inum name fresh.entries started.entries
  started-Filled =
      fill_first-Filled inum name n fresh.entries blank.arrays blank.unused
        (omega (arith, blank.size))

  started-IsBlock : IsBlock started
  started-IsBlock = record {
    arrays = started-Filled.arrays;
    size = started-Filled.size ∙ blank.size;
    counted = omega (arith, started-Filled.counted, blank.unused);
  }

  Added-append :
      (bs : List DirBlock)
      → IsDir bs
      → lookup_dir bs name ≡ none
      → Added inum name bs (bs ++ started ∷ [])
  Added-append bs v missing = record {
    valid = IsDir-append bs started v started-IsBlock;
    gives = lookup_dir-append bs started name ∙ rw missing started-Filled.gives;
    others = λ o g ne.
        lookup_dir-append bs started o
        ∙ ap (or_else (lookup_dir bs o))
            (started-Filled.others o g ne ∙ lookup-used fresh.entries o blank.unused)
        ∙ same (lookup_dir bs o);
  }
    where
      or_else : Option ℕ → Option ℕ → Option ℕ
      or_else r q = elim r [ some i ↦ some i | none ↦ q ]

      same : (r : Option ℕ) → or_else r none ≡ r
      same none = refl
      same (some i) = refl

  -- a
  pub dentry_add-Added :
      (bs : List DirBlock)
      → IsDir bs
      → lookup_dir bs name ≡ none
      → Added inum name bs (dentry_add inum name fresh bs)
  unfolding dentry_add
  dentry_add-Added bs v missing = elim (add_block-Added inum name n bs v missing) [
    | inl e ↦ rw (e, dentry_add) (Added-append bs v missing)
    | inr (bs', e, a) ↦ rw (e, dentry_add) a
  ]

  -- `dentry_add` of a new name of 1 to 28 bytes without NUL to a directory that fulfils its
  -- invariant, with a new block of 31 unused entries at hand: the name is found from then on, with
  -- its inode, every other such name gives what it gave, and the invariant is kept.
  pub find_block-dentry_add :
      (bs : List DirBlock)
      → IsDir bs
      → find_block bs name ≡ none
      → (find_block (dentry_add inum name fresh bs) name ≡ some inum)
        × ((o : List ℕ)
            → IsFull o
            → o ≢ name
            → find_block (dentry_add inum name fresh bs) o ≡ find_block bs o)
        × IsDir (dentry_add inum name fresh bs)
  find_block-dentry_add bs v missing =
      let a = dentry_add-Added bs v (sym (find_block-lookup_dir bs name v (first n)) ∙ missing) in
      (
        find_block-lookup_dir (dentry_add inum name fresh bs) name a.valid (first n) ∙ a.gives,
        λ o g ne.
            find_block-lookup_dir (dentry_add inum name fresh bs) o a.valid (first g)
            ∙ a.others o g ne
            ∙ sym (find_block-lookup_dir bs o v (first g)),
        a.valid,
      )
    where
      first : {o : List ℕ} → IsFull o → get_or o 0 0 ≢ 0
      first g = g.fits.whole 0 (omega (arith, g.nonempty))
