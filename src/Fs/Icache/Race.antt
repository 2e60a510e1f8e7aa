-- ===== src/Fs/Icache/Race.antt =====
-- Two calls of `iget` whose second loops both run after both first loops.
use tnix.Common.{
  ℕ, suc, ◌+◌, ◌≤◌, ◌≡◌, ◌≢◌, refl, List, [], ◌∷◌, none, some, arith, if◌then◌else◌, ◌==◌,
  Bool-cases, inl, inr, ne→not_==,
}
use tnix.Fs.Icache.{Cached, iget_hit, iget_claim}
use tnix.Fs.Icache.Copies.{copies, Full, claim-Has, hit-Has}

-- The number of entries with no reference.
abbrev pub free_cnt : List Cached → ℕ
free_cnt [] = 0
free_cnt (c ∷ cs) = (if c.refc == 0 then 1 else 0) + free_cnt cs

Full-free_cnt : (cs : List Cached) → Full cs → free_cnt cs ≡ 0
Full-free_cnt [] f = refl
Full-free_cnt (c ∷ cs) f = rw (ne→not_== c.refc 0 f.0) (omega (arith, Full-free_cnt cs f.1))

-- Two entries of one inode, made one after the other.
pub record Twice (sb inum : ℕ) (cs : List Cached) : Type 0 where
  pub first : ℕ
  pub between : List Cached
  pub second : ℕ
  pub after : List Cached
  pub claims : iget_claim sb inum cs ≡ some (first, between)
  pub claims_again : iget_claim sb inum between ≡ some (second, after)
  pub differ : first ≢ second
  pub double : copies sb inum after ≡ 2

module _ (sb inum : ℕ) where
  claim-Twice : (cs : List Cached) → copies sb inum cs ≡ 0 → 2 ≤ free_cnt cs → Twice sb inum cs
  unfolding iget_claim
  claim-Twice [] z h = absurd (omega arith)
  claim-Twice (c ∷ cs) z h = elim (Bool-cases (c.refc == 0)) [
    | inl e ↦ elim (claim-Has sb inum cs (omega (arith, z))) [
      | inl (stop, full) ↦ absurd (ground (arith, h, Full-free_cnt cs full))
      | inr (j, cs', run, has) ↦ record {
        first = 0;
        between = record { sb = sb; inum = inum; refc = 1 } ∷ cs;
        second = suc j;
        after = record { sb = sb; inum = inum; refc = 1 } ∷ cs';
        claims = rw e refl;
        claims_again = rw run refl;
        differ = omega arith;
        double = ground (arith, has.total, z);
      }
    ]
    | inr e ↦
        let t = claim-Twice cs (omega (arith, z)) (ground (arith, h, e)) in
        record {
          first = suc t.first;
          between = c ∷ t.between;
          second = suc t.second;
          after = c ∷ t.after;
          claims = rw (e, t.claims) refl;
          claims_again = rw (e, t.claims_again) refl;
          differ = omega (arith, t.differ);
          double = ground (arith, t.double, z);
        }
  ]

  -- If the first loop of `iget` finds no entry of the inode and two entries are free, two runs of
  -- the second loop, one after the other, make two different entries of the inode.
  pub iget-Twice :
      (cs : List Cached) → iget_hit sb inum cs ≡ none → 2 ≤ free_cnt cs → Twice sb inum cs
  iget-Twice cs h few = elim (hit-Has sb inum cs) [
    | inl (run, z) ↦ claim-Twice cs z few
    | inr (i, cs', run, _, _) ↦ absurd (cc (h, run))
  ]
