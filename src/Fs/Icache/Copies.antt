-- ===== src/Fs/Icache/Copies.antt =====
-- How many entries an inode has in the table.
use tnix.Common.{
  zero, ap, add32, ==→eq, ℕ, suc, ◌+◌, max, ◌≤◌, ◌≡◌, ◌≢◌, refl, List, [], ◌∷◌, Bool, true, false,
  none, some, arith, if◌then◌else◌, ◌==◌, get_elem?, Bool-cases, inl, inr, ◌⊎◌, not_==→ne,
}
use tnix.Fs.Icache.{Cached, is_of, referenced, iget_hit, iget_claim, null, panics, entry, iget}

abbrev pub copies : ℕ → ℕ → List Cached → ℕ
copies s k [] = 0
copies s k (c ∷ cs) = (if is_of s k c then 1 else 0) + copies s k cs

-- Every entry is in use.
abbrev pub Full : List Cached → Type 0
Full [] = Unit {0}
Full (c ∷ cs) = (c.refc ≢ 0) × Full cs

-- What entry `i` was before `iget`: one of the inode, which has a reference more now; or, where the inode had
-- none, one with no reference, which has one now.
abbrev pub Before : ℕ → ℕ → ℕ → List Cached → Cached → Type 0
Before sb inum i cs found =
    (old : Cached) × (get_elem? cs i ≡ some old)
    × (((is_of sb inum old ≡ true) × (found.refc ≡ add32 old.refc 1))
        ⊎ ((copies sb inum cs ≡ 0) × (old.refc ≡ 0) × (found.refc ≡ 1)))

Before-later :
    (sb inum i : ℕ) (c : Cached) (cs : List Cached) (found : Cached)
    → is_of sb inum c ≡ false
    → Before sb inum i cs found
    → Before sb inum (suc i) (c ∷ cs) found
Before-later sb inum i c cs found e (old, at, inl same) = (old, at, inl same)
Before-later sb inum i c cs found e (old, at, inr (z, r, f)) =
    (old, at, inr (rw e (omega (arith, z)), r, f))

-- Every entry but `i` is as it was.
abbrev pub Kept : ℕ → List Cached → List Cached → Type 0
Kept i cs cs' = (j : ℕ) → j ≢ i → get_elem? cs' j ≡ get_elem? cs j

Kept-here : (c d : Cached) (cs : List Cached) → Kept 0 (c ∷ cs) (d ∷ cs)
Kept-here c d cs zero ne = absurd (ne refl)
Kept-here c d cs (suc j) ne = refl

Kept-later :
    (i : ℕ) (c : Cached) (cs cs' : List Cached) → Kept i cs cs' → Kept (suc i) (c ∷ cs) (c ∷ cs')
Kept-later i c cs cs' k zero ne = refl
Kept-later i c cs cs' k (suc j) ne = k j (λ q. ne (ap suc q))

-- What `iget` leaves: entry `i` is the inode's.
pub record Has (sb inum i : ℕ) (cs cs' : List Cached) : Type 0 where
  pub found : Cached
  pub at : get_elem? cs' i ≡ some found
  pub key : (found.sb ≡ sb) × (found.inum ≡ inum)
  pub before : Before sb inum i cs found
  pub kept : Kept i cs cs'
  pub total : copies sb inum cs' ≡ max 1 (copies sb inum cs)
  pub others : (s k : ℕ) → (s ≢ sb) ⊎ (k ≢ inum) → copies s k cs' ≤ copies s k cs

is_of_self : (sb inum r : ℕ) → is_of sb inum (record { sb = sb; inum = inum; refc = r }) ≡ true
is_of_self sb inum r = ground arith

is_of-key : (sb inum : ℕ) (c : Cached) → is_of sb inum c ≡ true → (c.sb ≡ sb) × (c.inum ≡ inum)
is_of-key sb inum c h = ground arith

module _ (sb inum : ℕ) where
  pub hit-Has :
      (cs : List Cached)
      → ((iget_hit sb inum cs ≡ none) × (copies sb inum cs ≡ 0))
        ⊎ ((i : ℕ) × (cs' : List Cached) × (iget_hit sb inum cs ≡ some (i, cs'))
            × (copies sb inum cs ≢ 0)
            × Has sb inum i cs cs')
  unfolding iget_hit
  hit-Has [] = inl (refl, refl)
  hit-Has (c ∷ cs) = elim (Bool-cases (is_of sb inum c)) [
    | inl e ↦ inr (
      0,
      referenced c ∷ cs,
      rw e refl,
      rw e (omega arith),
      record {
        found = referenced c;
        at = refl;
        key = is_of-key sb inum c e;
        before = (c, refl, inl (e, refl));
        kept = Kept-here c (referenced c) cs;
        total = rw e (omega arith);
        others = λ s k ne. omega arith;
      },
    )
    | inr e ↦ elim (hit-Has cs) [
      | inl (run, z) ↦ inl (rw (e, run) refl, rw e (omega (arith, z)))
      | inr (i, cs', run, some_copy, h) ↦ inr (
        suc i,
        c ∷ cs',
        rw (e, run) refl,
        rw e (omega (arith, some_copy)),
        record {
          found = h.found;
          at = h.at;
          key = h.key;
          before = Before-later sb inum i c cs h.found e h.before;
          kept = Kept-later i c cs cs' h.kept;
          total = rw e (omega (arith, h.total));
          others = λ s k ne. omega (arith, h.others s k ne);
        },
      )
    ]
  ]

  -- With no entry of the inode in the table, the second loop makes one, and panics if every entry is in use.
  pub claim-Has :
      (cs : List Cached)
      → copies sb inum cs ≡ 0
      → ((iget_claim sb inum cs ≡ none) × Full cs)
        ⊎ ((i : ℕ) × (cs' : List Cached) × (iget_claim sb inum cs ≡ some (i, cs'))
            × Has sb inum i cs cs')
  unfolding iget_claim
  claim-Has [] z = inl (refl, tt)
  claim-Has (c ∷ cs) z = elim (Bool-cases (c.refc == 0)) [
    | inl e ↦ inr (
      0,
      record { sb = sb; inum = inum; refc = 1 } ∷ cs,
      rw e refl,
      record {
        found = record { sb = sb; inum = inum; refc = 1 };
        at = refl;
        key = (refl, refl);
        before = (c, refl, inr (z, ==→eq c.refc 0 e, refl));
        kept = Kept-here c (record { sb = sb; inum = inum; refc = 1 }) cs;
        total = rw (is_of_self sb inum 1) (omega (arith, z));
        others = λ s k ne. elim ne [ inl p ↦ ground arith | inr p ↦ ground arith ];
      },
    )
    | inr e ↦ elim (claim-Has cs (omega (arith, z))) [
      | inl (run, full) ↦ inl (rw (e, run) refl, (not_==→ne c.refc 0 e, full))
      | inr (i, cs', run, h) ↦ inr (
        suc i,
        c ∷ cs',
        rw (e, run) refl,
        record {
          found = h.found;
          at = h.at;
          key = h.key;
          before = Before-later sb inum i c cs h.found (apart z) h.before;
          kept = Kept-later i c cs cs' h.kept;
          total = omega (arith, h.total, z);
          others = λ s k ne. omega (arith, h.others s k ne);
        },
      )
    ]
  ]
    where
      apart : copies sb inum (c ∷ cs) ≡ 0 → is_of sb inum c ≡ false
      apart z = elim (Bool-cases (is_of sb inum c)) [
        | inl t ↦ absurd (omega (arith, (rw t at z)))
        | inr t ↦ t
      ]

  -- `iget`, with nobody else between its loops, has three ends. It returns NULL only if the inode
  -- has no entry and does not exist, and panics only if it has none, exists, and every entry is in
  -- use. Otherwise it returns an entry of the inode: the inode then has one entry if it had none
  -- before and as many as before otherwise, and no other inode has more than before. The entry
  -- either was of the inode and has a reference more, or the inode had none, and the entry, which
  -- had no reference, has one; every other entry is as it was.
  pub iget-Has :
      (exists : Bool) (cs : List Cached)
      → ((iget exists sb inum cs ≡ null) × (exists ≡ false) × (copies sb inum cs ≡ 0))
        ⊎ ((iget exists sb inum cs ≡ panics) × (exists ≡ true) × (copies sb inum cs ≡ 0) × Full cs)
        ⊎ ((i : ℕ) × (cs' : List Cached) × (iget exists sb inum cs ≡ entry i cs')
            × Has sb inum i cs cs')
  unfolding iget
  iget-Has exists cs = elim (hit-Has cs) [
    | inr (i, cs', run, _, h) ↦ inr (inr (i, cs', rw (run, iget) refl, h))
    | inl (run, z) ↦ elim (Bool-cases exists) [
      | inr e ↦ inl (rw (run, iget, e) refl, e, z)
      | inl e ↦ elim (claim-Has cs z) [
        | inl (stop, full) ↦ inr (inl (rw (run, iget, e, stop) refl, e, z, full))
        | inr (i, cs', go, h) ↦ inr (inr (i, cs', rw (run, iget, e, go) refl, h))
      ]
    ]
  ]
