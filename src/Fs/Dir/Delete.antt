-- ===== src/Fs/Dir/Delete.antt =====
-- What `dentry_del` does: a name goes.
use tnix.Common.{
  ℕ, suc, ◌+◌, ◌-◌, ◌<◌, ◌≡◌, ◌≢◌, refl, ap, sym, ◌∙◌, List, [], ◌∷◌, ◌++◌, none, some, arith,
  length, Option-cases, inl, inr, ne→not_==,
}
use tnix.Fs.Dir.{
  Dentry, DirBlock, find_block, clear_entry, del_from, dentry_del, Deleted, done, behind,
}
use tnix.Fs.Dir.Fill.{IsFull}
use tnix.Fs.Dir.Lookup.{lookup, lookup_dir, IsBlock, IsDir, find_block-lookup_dir}
use tnix.Fs.Dir.Clear.{
  named, lookup-named, first_byte, clear_entry-Cleared, clear_none, named_found,
}

lookup_dir-behind :
    (before after : List DirBlock) (o : List ℕ)
    → lookup_dir before o ≡ none
    → lookup_dir (before ++ after) o ≡ lookup_dir after o
unfolding lookup_dir
lookup_dir-behind [] after o h = refl
lookup_dir-behind (b ∷ before) after o h = elim (Option-cases (lookup b.entries o)) [
  | inl e ↦ rw (e, lookup_dir) (lookup_dir-behind before after o (sym (skip e) ∙ h))
  | inr (i, e) ↦ absurd (cc (h, hit i e))
]
  where
    skip : lookup b.entries o ≡ none → lookup_dir (b ∷ before) o ≡ lookup_dir before o
    skip e = rw (e, lookup_dir) refl

    hit : (i : ℕ) → lookup b.entries o ≡ some i → lookup_dir (b ∷ before) o ≡ some i
    hit i e = rw (e, lookup_dir) refl

lookup_dir-replace :
    (before after : List DirBlock) (x y : DirBlock) (o : List ℕ)
    → lookup x.entries o ≡ lookup y.entries o
    → lookup_dir (before ++ x ∷ after) o ≡ lookup_dir (before ++ y ∷ after) o
unfolding lookup_dir
lookup_dir-replace [] after x y o h =
    ap (λ r. elim r [ some i ↦ some i | none ↦ lookup_dir after o ]) h
lookup_dir-replace (b ∷ before) after x y o h =
    ap (λ r. elim (lookup b.entries o) [ some i ↦ some i | none ↦ r ])
      (lookup_dir-replace before after x y o h)

IsDir-replace :
    (before after : List DirBlock) (x y : DirBlock)
    → IsDir (before ++ x ∷ after)
    → IsBlock y
    → IsDir (before ++ y ∷ after)
IsDir-replace [] after x y v w = (w, v.1)
IsDir-replace (b ∷ before) after x y v w = (v.0, IsDir-replace before after x y v.1 w)

IsDir-at : (before after : List DirBlock) (x : DirBlock) → IsDir (before ++ x ∷ after) → IsBlock x
IsDir-at [] after x v = v.0
IsDir-at (b ∷ before) after x v = IsDir-at before after x v.1

-- Blocks that lack the name are passed over.
all_behind : List DirBlock → Deleted → Deleted
all_behind [] r = r
all_behind (b ∷ bs) r = behind b (all_behind bs r)

module _ (name : List ℕ) (n : IsFull name) where
  del_from-append :
      (before rest : List DirBlock) (i k : ℕ)
      → IsDir (before ++ rest)
      → lookup_dir before name ≡ none
      → k ≡ i + length before
      → del_from i name (before ++ rest) ≡ all_behind before (del_from k name rest)
  unfolding del_from all_behind lookup_dir
  del_from-append [] rest i k v h e = ap (λ j. del_from j name rest) (omega arith)
  del_from-append (b ∷ before) rest i k v h e = elim (Option-cases (lookup b.entries name)) [
    | inl q ↦
        rw (clear_none name n b.entries 0 b.cnt (v.0.counted ∙ omega arith) q, del_from)
          (ap (behind b) (del_from-append before rest (suc i) k v.1 (rest_none q) (omega arith)))
    | inr (j, q) ↦ absurd (cc (h, hit j q))
  ]
    where
      rest_none : lookup b.entries name ≡ none → lookup_dir before name ≡ none
      rest_none q = sym (rw (q, lookup_dir) refl) ∙ h

      hit : (j : ℕ) → lookup b.entries name ≡ some j → lookup_dir (b ∷ before) name ≡ some j
      hit j q = rw (q, lookup_dir) refl

  all_behind_done : (bs cs : List DirBlock) → all_behind bs (done cs) ≡ done (bs ++ cs)
  unfolding all_behind
  all_behind_done [] cs = refl
  all_behind_done (b ∷ bs) cs = ap (behind b) (all_behind_done bs cs)

  del_here-done :
      (b : DirBlock) (after : List DirBlock) (k : ℕ) (es : List Dentry)
      → clear_entry b.entries 0 b.cnt name ≡ some es
      → 1 < b.cnt
      → del_from k name (b ∷ after) ≡ done (record { cnt = b.cnt - 1; entries = es } ∷ after)
  unfolding del_from
  del_here-done b after k es run more =
      rw (run, ne→not_== (b.cnt - 1) 0 (omega arith), del_from) refl

  -- In a directory that fulfils its invariant, with one entry of the name, of 1 to 28 bytes
  -- without NUL, in a block that has others in use too: after `dentry_del` the name is not found,
  -- every other such name gives what it gave, and the invariant is kept.
  pub find_block-dentry_del :
      (before : List DirBlock) (b : DirBlock) (after : List DirBlock)
      → IsDir before
      → IsDir (before ++ b ∷ after)
      → IsDir after
      → find_block before name ≡ none
      → named name b.entries ≡ 1
      → find_block after name ≡ none
      → 1 < b.cnt
      → (bs : List DirBlock) × (dentry_del name (before ++ b ∷ after) ≡ done bs)
        × (find_block bs name ≡ none)
        × ((o : List ℕ)
            → IsFull o
            → o ≢ name
            → find_block bs o ≡ find_block (before ++ b ∷ after) o)
        × IsDir bs
  unfolding dentry_del lookup_dir
  find_block-dentry_del before b after w v u lacks once lacks_after more =
      let x = IsDir-at before after b v in
      let missing : lookup_dir before name ≡ none =
        sym (find_block-lookup_dir before name w (first_byte name n n)) ∙ lacks in
      let (es, run, f) =
        clear_entry-Cleared name n b.entries 0 b.cnt x.arrays (x.counted ∙ omega arith)
          (named_found b.entries name (omega (arith, once))) in
      let c : DirBlock = record { cnt = b.cnt - 1; entries = es } in
      let valid : IsDir (before ++ c ∷ after) = IsDir-replace before after b c v (record {
        arrays = f.arrays;
        size = f.size ∙ x.size;
        counted = omega (arith, f.counted, x.counted);
      }) in
      (
        before ++ c ∷ after,
        del_from-append before (b ∷ after) 0 (length before) v missing (omega arith)
            ∙ ap (all_behind before) (del_here-done b after (length before) es run more)
            ∙ all_behind_done before (c ∷ after),
        find_block-lookup_dir (before ++ c ∷ after) name valid (first_byte name n n)
            ∙ lookup_dir-behind before (c ∷ after) name missing
            ∙ gone c after (lookup-named es name (omega (arith, f.fewer, once)))
                (sym (find_block-lookup_dir after name u (first_byte name n n)) ∙ lacks_after),
        λ o g ne.
            find_block-lookup_dir (before ++ c ∷ after) o valid (first_byte name n g)
            ∙ lookup_dir-replace before after c b o (f.others o g ne)
            ∙ sym (find_block-lookup_dir (before ++ b ∷ after) o v (first_byte name n g)),
        valid,
      )
    where
      gone :
          (c : DirBlock) (after : List DirBlock)
          → lookup c.entries name ≡ none
          → lookup_dir after name ≡ none
          → lookup_dir (c ∷ after) name ≡ none
      gone c after p q = rw (p, lookup_dir) q
