-- ===== src/Fs/Dir/Counts.antt =====
-- The counts of references behind `dentry_find`: one more for the inode it gives, and no other change.
use tnix.Common.{
  ℕ, zero, suc, ◌<◌, ◌≡◌, refl, List, [], ◌∷◌, arith, ◌==◌, length, Bool-cases, Option-cases, inl,
  inr,
}
use tnix.Fs.Names.{Parsed, parse_path, finished, overruns, part}
use tnix.Fs.Dir.{
  DirBlock, find_block, Found, missing, breaks, inode, out_of_fuel, walk, get_ref, put_ref,
  walk_refs, rootinum, dentry_find, dentry_find_refs,
}

-- What the result of `dentry_find` says of the counts before and behind it.
abbrev pub Nets : Found → (ℕ → ℕ) → (ℕ → ℕ) → Type 0
Nets missing refs refs' = (j : ℕ) → refs' j ≡ refs j
Nets (inode i) refs refs' = (j : ℕ) → refs' j ≡ get_ref i refs j
Nets breaks refs refs' = Unit {0}
Nets out_of_fuel refs refs' = Unit {0}

-- The counts are those before, with one more for `cur`.
abbrev IsHeld : ℕ → (ℕ → ℕ) → (ℕ → ℕ) → Type 0
IsHeld cur refs refs' = (j : ℕ) → refs' j ≡ get_ref cur refs j

module _ (dirs : ℕ → List DirBlock) (refs : ℕ → ℕ) (counts : (j : ℕ) → refs j < 4294967296) where
  put_back :
      (cur : ℕ) (refs' : ℕ → ℕ) → IsHeld cur refs refs' → (j : ℕ) → put_ref cur refs' j ≡ refs j
  put_back cur refs' e j = ground (arith, e cur, e j, counts cur, counts j)

  moved :
      (cur next : ℕ) (refs' : ℕ → ℕ)
      → IsHeld cur refs refs'
      → IsHeld next refs (get_ref next (put_ref cur refs'))
  moved cur next refs' e j = ground (arith, put_back cur refs' e next, put_back cur refs' e j)

  walk_refs-Nets :
      (fuel cur : ℕ) (path : List ℕ) (refs' : ℕ → ℕ)
      → IsHeld cur refs refs'
      → Nets (walk fuel dirs cur path) refs (walk_refs fuel dirs cur path refs')
  unfolding walk walk_refs
  walk_refs-Nets zero cur path refs' e = tt
  walk_refs-Nets (suc fuel) cur path refs' e =
      parsed (parse_path path) refl (λ i rest r h. walk_refs-Nets fuel i rest r h)
    where
      parsed :
          (x : Parsed)
          → parse_path path ≡ x
          → ((i : ℕ) (rest : List ℕ) (r : ℕ → ℕ)
              → IsHeld i refs r
              → Nets (walk fuel dirs i rest) refs (walk_refs fuel dirs i rest r))
          → Nets (walk (suc fuel) dirs cur path) refs (walk_refs (suc fuel) dirs cur path refs')
      parsed finished q on = rw (q, walk, walk_refs) e
      parsed overruns q on = rw (q, walk, walk_refs) tt
      parsed (part dname rest) q on = elim (Option-cases (find_block (dirs cur) dname)) [
        | inl n ↦ rw (q, walk, walk_refs, n) (put_back cur refs' e)
        | inr (inum, n) ↦
            rw (q, walk, walk_refs, n)
              (on inum rest (get_ref inum (put_ref cur refs')) (moved cur inum refs' e))
      ]

  pub dentry_find_refs-Nets :
      (cwd : ℕ) (path : List ℕ)
      → Nets (dentry_find dirs cwd path) refs (dentry_find_refs dirs cwd path refs)
  unfolding dentry_find dentry_find_refs
  dentry_find_refs-Nets cwd [] = walk_refs-Nets 1 cwd [] (get_ref cwd refs) (λ j. refl)
  dentry_find_refs-Nets cwd (c ∷ cs) = elim (Bool-cases (c == b'/')) [
    | inl e ↦
        rw e (walk_refs-Nets (suc (length cs)) rootinum cs (get_ref rootinum refs) (λ j. refl))
    | inr e ↦
        rw e (walk_refs-Nets (suc (length (c ∷ cs))) cwd (c ∷ cs) (get_ref cwd refs) (λ j. refl))
  ]
