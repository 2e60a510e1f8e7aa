-- ===== src/Fs/Dir/Clear.antt =====
-- An entry that is cleared, for `dentry_del`: what the entries of a block say.
use tnix.Common.{
  ℕ, suc, ◌+◌, ◌<◌, ◌≡◌, ◌≢◌, refl, ap, sym, ◌∙◌, List, [], ◌∷◌, true, false, ◌&&◌, none, some,
  arith, if◌then◌else◌, ltb, length, length-append, length-drop, get_or, replicate, drop, lt→ltb,
  Bool-cases, inl, inr,
}
use tnix.Fs.Names.{dlength, dentry_name_equal}
use tnix.Fs.Dir.{Dentry, in_use, clear_name, clear_entry}
use tnix.Fs.Names.Equal.{equal_unique}
use tnix.Fs.Dir.Fill.{IsFull}
use tnix.Fs.Dir.Lookup.{used, lookup, Arrays, lookup-used, unused_differs}

-- How many entries in use have the name.
unfoldable pub named : List ℕ → List Dentry → ℕ
named name [] = 0
named name (e ∷ es) = (if in_use e && dentry_name_equal e.name name then 1 else 0) + named name es

pub lookup-named : (es : List Dentry) (name : List ℕ) → named name es ≡ 0 → lookup es name ≡ none
unfolding lookup named
lookup-named [] name h = refl
lookup-named (e ∷ es) name h = ground (arith, lookup-named es name)

-- The entries behind a removal: one fewer has the name, and every other name stands for what it did.
pub record Cleared (name : List ℕ) (es es' : List Dentry) : Type 0 where
  pub arrays : Arrays es'
  pub size : length es' ≡ length es
  pub counted : used es' + 1 ≡ used es
  pub fewer : named name es' + 1 ≡ named name es
  pub others : (o : List ℕ) → IsFull o → o ≢ name → lookup es' o ≡ lookup es o

module _ (name : List ℕ) (n : IsFull name) where
  abbrev cleared : Dentry → Dentry
  cleared e = record e { name = clear_name e.name }

  pub first_byte : {o : List ℕ} → IsFull o → get_or o 0 0 ≢ 0
  first_byte g = g.fits.whole 0 (omega (arith, g.nonempty))

  -- A search that meets the name meets an entry in use.
  found_used : (e : Dentry) → dentry_name_equal e.name name ≡ true → in_use e ≡ true
  found_used e q = elim (Bool-cases (in_use e)) [
    | inl u ↦ u
    | inr u ↦ absurd (cc (q, unused_differs e name (first_byte n) u))
  ]

  Cleared-here :
      (e : Dentry) (es : List Dentry)
      → Arrays (e ∷ es)
      → dentry_name_equal e.name name ≡ true
      → Cleared name (e ∷ es) (cleared e ∷ es)
  unfolding lookup used named
  Cleared-here e es a q = record {
    arrays = (array, a.1);
    size = refl;
    counted = rw (found_used e q) (omega arith);
    fewer = rw (found_used e q, q) (omega arith);
    others = λ o g ne. rw (found_used e q, not_other o g ne) refl;
  }
    where
      array : length (clear_name e.name) ≡ dlength
      array =
          omega (arith, length-append (replicate 8 0) (drop 8 e.name), length-drop 8 e.name, a.0)

      not_other : (o : List ℕ) → IsFull o → o ≢ name → dentry_name_equal e.name o ≡ false
      not_other o g ne = elim (Bool-cases (dentry_name_equal e.name o)) [
        | inl t ↦ absurd (ne (equal_unique e.name o name a.0 g.fits.whole n.fits.whole t q))
        | inr t ↦ t
      ]

  Cleared-later :
      (e : Dentry) (es es' : List Dentry)
      → Arrays (e ∷ es)
      → Cleared name es es'
      → Cleared name (e ∷ es) (e ∷ es')
  unfolding lookup used named
  Cleared-later e es es' a f = record {
    arrays = (a.0, f.arrays);
    size = ap suc f.size;
    counted = ground (arith, f.counted);
    fewer = ground (arith, f.fewer);
    others = λ o g ne.
        ap (λ r. if in_use e && dentry_name_equal e.name o then some e.inum else r)
          (f.others o g ne);
  }

  clear_here :
      (x : Dentry) (es : List Dentry) (k cnt : ℕ)
      → cnt ≡ k + used (x ∷ es)
      → dentry_name_equal x.name name ≡ true
      → clear_entry (x ∷ es) k cnt name ≡ some (cleared x ∷ es)
  unfolding clear_entry used
  clear_here x es k cnt e q =
      rw (lt→ltb k cnt (ground (arith, found_used x q)), q, clear_entry) refl

  missed :
      (x : Dentry) (es : List Dentry)
      → dentry_name_equal x.name name ≡ false
      → lookup es name ≡ none
      → lookup (x ∷ es) name ≡ none
  unfolding lookup
  missed x es q z = ground (arith, q, z)

  clear_later :
      (x : Dentry) (es es' : List Dentry) (k cnt : ℕ)
      → cnt ≡ k + used (x ∷ es)
      → dentry_name_equal x.name name ≡ false
      → lookup es name ≢ none
      → clear_entry es (if in_use x then k + 1 else k) cnt name ≡ some es'
      → clear_entry (x ∷ es) k cnt name ≡ some (x ∷ es')
  unfolding clear_entry used
  clear_later x es es' k cnt e q h run =
      rw (lt→ltb k cnt (more (λ z. h (lookup-used es name z))), q, run, clear_entry) refl
    where
      more : (used es ≡ 0 → ⊥) → k < cnt
      more ne = ground arith

  pub clear_entry-Cleared :
      (es : List Dentry) (k cnt : ℕ)
      → Arrays es
      → cnt ≡ k + used es
      → lookup es name ≢ none
      → (es' : List Dentry) × (clear_entry es k cnt name ≡ some es') × Cleared name es es'
  unfolding lookup used
  clear_entry-Cleared [] k cnt a e h = absurd (h refl)
  clear_entry-Cleared (x ∷ es) k cnt a e h = elim (Bool-cases (dentry_name_equal x.name name)) [
    | inl q ↦ (cleared x ∷ es, clear_here x es k cnt e q, Cleared-here x es a q)
    | inr q ↦
        let (es', run, f) =
          clear_entry-Cleared es (if in_use x then k + 1 else k) cnt a.1 (e ∙ ground arith)
            (λ z. h (missed x es q z)) in
        (
          x ∷ es',
          clear_later x es es' k cnt e q (λ z. h (missed x es q z)) run,
          Cleared-later x es es' a f,
        )
  ]

  pub clear_none :
      (es : List Dentry) (k cnt : ℕ)
      → cnt ≡ k + used es
      → lookup es name ≡ none
      → clear_entry es k cnt name ≡ none
  unfolding clear_entry lookup used
  clear_none [] k cnt e h = refl
  clear_none (x ∷ es) k cnt e h = elim (Bool-cases (ltb k cnt)) [
    | inr l ↦ rw (l, clear_entry) refl
    | inl l ↦ elim (Bool-cases (dentry_name_equal x.name name)) [
      | inl q ↦ absurd (cc (h, lookup_here x es q))
      | inr q ↦
          rw
            (
              l,
              q,
              clear_none es (if in_use x then k + 1 else k) cnt (e ∙ ground arith)
                  (ground (arith, q)),
              clear_entry,
            )
            refl
    ]
  ]
    where
      lookup_here :
          (x : Dentry) (es : List Dentry)
          → dentry_name_equal x.name name ≡ true
          → lookup (x ∷ es) name ≡ some x.inum
      lookup_here x es q = rw (found_used x q, q) refl

pub named_found : (es : List Dentry) (name : List ℕ) → named name es ≢ 0 → lookup es name ≢ none
unfolding lookup named
named_found [] name h z = h refl
named_found (e ∷ es) name h z = elim (Bool-cases (in_use e && dentry_name_equal e.name name)) [
  | inl t ↦ some_none (sym (head t) ∙ z)
  | inr t ↦ named_found es name (λ q. h (rw t (omega (arith, q)))) (sym (tail t) ∙ z)
]
  where
    some_none : some e.inum ≡ none → ⊥
    some_none p = cc

    head : (in_use e && dentry_name_equal e.name name) ≡ true → lookup (e ∷ es) name ≡ some e.inum
    head t = rw t refl

    tail :
        (in_use e && dentry_name_equal e.name name) ≡ false → lookup (e ∷ es) name ≡ lookup es name
    tail t = rw t refl
