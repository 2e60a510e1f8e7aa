-- ===== src/Fs/Dir/Fill.antt =====
-- An unused entry that is filled, for `dentry_add`: what the entries of a block say.
use tnix.Common.{
  ℕ, suc, ◌+◌, ◌≡◌, ◌≢◌, refl, ap, sym, ◌∙◌, List, [], ◌∷◌, Bool, true, false, ◌&&◌, Option, none,
  some, arith, if◌then◌else◌, length, get_or, Bool-cases, inl, inr, ne→not_==,
}
use tnix.Fs.Names.{dlength, dentry_name_equal, dentry_name_set}
use tnix.Fs.Names.Equal.{
  IsName, dentry_name_equal-dentry_name_set, dentry_name_set-Holds, length-dentry_name_set,
}
use tnix.Fs.Dir.{Dentry, in_use, fill_entry, fill_first}
use tnix.Fs.Dir.Lookup.{used, lookup, Arrays}

-- A name that is not empty.
pub record IsFull (name : List ℕ) : Type 0 where
  pub fits : IsName name
  pub nonempty : length name ≢ 0

-- `es` become `es'`: the name stands for `inum`, every other one for what it did.
pub record Filled (inum : ℕ) (name : List ℕ) (es es' : List Dentry) : Type 0 where
  pub arrays : Arrays es'
  pub size : length es' ≡ length es
  pub counted : used es' ≡ used es + 1
  pub gives : lookup es' name ≡ some inum
  pub others : (o : List ℕ) → IsFull o → o ≢ name → lookup es' o ≡ lookup es o

missed_head :
    (c : Bool) (x : ℕ) (r : Option ℕ) → (if c then some x else r) ≡ none → (c ≡ false) × (r ≡ none)
missed_head true x r h = absurd (cc)
missed_head false x r h = (refl, h)

module _ (inum : ℕ) (name : List ℕ) (n : IsFull name) where
  abbrev entry : Dentry → Dentry
  entry e = record { inum = inum; name = dentry_name_set e.name name }

  entry_used : (e : Dentry) → length e.name ≡ dlength → in_use (entry e) ≡ true
  entry_used e l = rw (ne→not_== (get_or (dentry_name_set e.name name) 0 0) 0 first) refl
    where
      first : get_or (dentry_name_set e.name name) 0 0 ≢ 0
      first z = n.fits.whole 0 (omega (arith, n.nonempty)) (
          sym ((dentry_name_set-Holds e.name name l n.fits).bytes 0 (omega (arith, n.nonempty)))
          ∙ z)

  entry_self : (e : Dentry) → length e.name ≡ dlength → dentry_name_equal (entry e).name name ≡ true
  entry_self e l = (dentry_name_equal-dentry_name_set e.name name name l n.fits n.fits.whole).1 refl

  entry_other :
      (e : Dentry) (o : List ℕ)
      → length e.name ≡ dlength
      → IsFull o
      → o ≢ name
      → dentry_name_equal (entry e).name o ≡ false
  entry_other e o l f ne = elim (Bool-cases (dentry_name_equal (entry e).name o)) [
    | inl t ↦
        absurd
          (ne (sym ((dentry_name_equal-dentry_name_set e.name name o l n.fits f.fits.whole).0 t)))
    | inr t ↦ t
  ]

  -- An unused entry that is filled.
  Filled-here :
      (e : Dentry) (es : List Dentry)
      → Arrays (e ∷ es)
      → in_use e ≡ false
      → Filled inum name (e ∷ es) (entry e ∷ es)
  unfolding lookup used
  Filled-here e es a u = record {
    arrays = (length-dentry_name_set e.name name ∙ a.0, a.1);
    size = refl;
    counted = rw (entry_used e a.0, u) (omega arith);
    gives = rw (entry_used e a.0, entry_self e a.0) refl;
    others = λ o f ne. rw (entry_used e a.0, entry_other e o a.0 f ne, u) refl;
  }

  Filled-later :
      (e : Dentry) (es es' : List Dentry)
      → Arrays (e ∷ es)
      → lookup (e ∷ es) name ≡ none
      → in_use e ≡ true
      → Filled inum name es es'
      → Filled inum name (e ∷ es) (e ∷ es')
  unfolding lookup used
  Filled-later e es es' a missing u f = record {
    arrays = (a.0, f.arrays);
    size = ap suc f.size;
    counted = ground (arith, f.counted);
    gives =
        rw
          (missed_head (in_use e && dentry_name_equal e.name name) e.inum (lookup es name)
            missing).0
          f.gives;
    others = λ o g ne.
        ap (λ r. if in_use e && dentry_name_equal e.name o then some e.inum else r)
          (f.others o g ne);
  }

  filled_here :
      (e : Dentry) (es : List Dentry)
      → in_use e ≡ false
      → fill_entry inum name (e ∷ es) ≡ some (entry e ∷ es)
  unfolding fill_entry
  filled_here e es u = rw (u, fill_entry) refl

  filled_later :
      (e : Dentry) (es es' : List Dentry)
      → in_use e ≡ true
      → fill_entry inum name es ≡ some es'
      → fill_entry inum name (e ∷ es) ≡ some (e ∷ es')
  unfolding fill_entry
  filled_later e es es' u run = rw (u, run, fill_entry) refl

  pub fill_entry-Filled :
      (es : List Dentry)
      → Arrays es
      → used es ≢ length es
      → lookup es name ≡ none
      → (es' : List Dentry) × (fill_entry inum name es ≡ some es') × Filled inum name es es'
  unfolding fill_entry used lookup
  fill_entry-Filled [] a ne missing = absurd (ne refl)
  fill_entry-Filled (e ∷ es) a ne missing = elim (Bool-cases (in_use e)) [
    | inr u ↦ (entry e ∷ es, filled_here e es u, Filled-here e es a u)
    | inl u ↦
        let (es', run, f) =
          fill_entry-Filled es a.1 (λ q. ne (ground arith))
            (missed_head (in_use e && dentry_name_equal e.name name) e.inum (lookup es name)
              missing).1 in
        (e ∷ es', filled_later e es es' u run, Filled-later e es es' a missing u f)
  ]

  pub fill_first-Filled :
      (es : List Dentry)
      → Arrays es
      → used es ≡ 0
      → length es ≢ 0
      → Filled inum name es (fill_first inum name es)
  unfolding used
  fill_first-Filled [] a z ne = absurd (ne refl)
  fill_first-Filled (e ∷ es) a z ne = Filled-here e es a (ground arith)
