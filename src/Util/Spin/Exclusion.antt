-- ===== src/Util/Spin/Exclusion.antt =====
-- One lock and any number of harts: mutual exclusion, and interrupts off while it matters.
use tnix.Common.{
  ℕ, ◌≡◌, ◌≢◌, ◌↔◌, subst, refl, Bool, true, false, none, some, arith, Bool-cases, inl, inr,
}
use tnix.Util.Spin.{
  push_intr, pop_intr, Phase, idle, spinning, taken, inside, leaving, Sys, spin_holding, update,
  get_begin, get_try, get_own, put_begin, put_release, Step, begin, try, own, put, release, Reach,
  here, next,
}

-- From the exchange that takes the lock to the store that releases it.
abbrev pub busy : Phase → Bool
busy idle = false
busy spinning = false
busy taken = true
busy inside = true
busy leaving = true

-- Each hart takes this lock alone, so its depth is 0 or 1.
pub record IsExclusive (s : Sys) : Type 0 where
  pub held : (i : ℕ) → busy (s.phase i) ≡ true → s.locked ≡ true
  pub one : (i j : ℕ) → busy (s.phase i) ≡ true → busy (s.phase j) ≡ true → i ≡ j
  pub owns : (i : ℕ) → s.phase i ≡ inside → s.cpu ≡ some i
  pub owned : (i : ℕ) → s.cpu ≡ some i → s.phase i ≡ inside
  pub level_out : (i : ℕ) → s.phase i ≡ idle → (s.harts i).spinlevel ≡ 0
  pub level_in : (i : ℕ) → s.phase i ≢ idle → (s.harts i).spinlevel ≡ 1
  pub off : (i : ℕ) → s.phase i ≢ idle → (s.harts i).intr_on ≡ false

-- The states behind the two tests.
abbrev begun : Sys → ℕ → Sys
begun s i = record s {
  phase = update s.phase i spinning;
  harts = update s.harts i (push_intr (s.harts i));
}

abbrev put_begun : Sys → ℕ → Sys
put_begun s i = record s { cpu = none; phase = update s.phase i leaving }

begin-eq_begun : (s : Sys) (i : ℕ) {t : Sys} → get_begin s i ≡ some t → begun s i ≡ t
unfolding get_begin
begin-eq_begun s i e = ground arith

put-eq_put_begun : (s : Sys) (i : ℕ) {t : Sys} → put_begin s i ≡ some t → put_begun s i ≡ t
unfolding put_begin
put-eq_put_begun s i e = ground arith

module _ {s : Sys} (v : IsExclusive s) (i : ℕ) where
  try-IsExclusive : s.phase i ≡ spinning → IsExclusive (get_try s i)
  unfolding get_try
  try-IsExclusive p = record {
    held = λ j b. refl;
    one = λ j k b c. ground (arith, v.held j, v.held k, v.one j k);
    owns = λ j e. ground (arith, v.owns j);
    owned = λ j e. ground (arith, v.owned j);
    level_out = λ j e. ground (arith, v.level_out j);
    level_in = λ j e. ground (arith, v.level_in j);
    off = λ j e. ground (arith, v.off j);
  }

  own-IsExclusive : s.phase i ≡ taken → IsExclusive (get_own s i)
  unfolding get_own
  own-IsExclusive p = record {
    held = λ j b. ground (arith, v.held j, v.held i);
    one = λ j k b c. ground (arith, v.one j k, v.one i k, v.one j i);
    owns = λ j e. ground (arith, v.owns j, v.one i j);
    owned = λ j e. ground (arith, v.owned j);
    level_out = λ j e. ground (arith, v.level_out j);
    level_in = λ j e. ground (arith, v.level_in j, v.level_in i);
    off = λ j e. ground (arith, v.off j, v.off i);
  }

  begin-IsExclusive : s.phase i ≡ idle → IsExclusive (begun s i)
  unfolding push_intr
  begin-IsExclusive p = record {
    held = λ j b. ground (arith, v.held j);
    one = λ j k b c. ground (arith, v.one j k);
    owns = λ j e. ground (arith, v.owns j);
    owned = λ j e. ground (arith, v.owned j);
    level_out = λ j e. ground (arith, v.level_out j);
    level_in = λ j e. ground (arith, v.level_in j, v.level_out i);
    off = λ j e. ground (arith, v.off j);
  }

  put-IsExclusive : s.phase i ≡ inside → IsExclusive (put_begun s i)
  put-IsExclusive p = record {
    held = λ j b. ground (arith, v.held j, v.held i);
    one = λ j k b c. ground (arith, v.one j k, v.one i k, v.one j i);
    owns = λ j e. ground (arith, v.owns j, v.one i j);
    owned = λ j e. ground (arith, v.owned j);
    level_out = λ j e. ground (arith, v.level_out j);
    level_in = λ j e. ground (arith, v.level_in j, v.level_in i);
    off = λ j e. ground (arith, v.off j, v.off i);
  }

  release-IsExclusive : s.phase i ≡ leaving → IsExclusive (put_release s i)
  unfolding put_release pop_intr
  release-IsExclusive p = record {
    held = λ j b. ground (arith, v.held j, v.held i, v.one i j);
    one = λ j k b c. ground (arith, v.one j k);
    owns = λ j e. ground (arith, v.owns j);
    owned = λ j e. ground (arith, v.owned j);
    level_out = λ j e. ground (arith, v.level_out j, v.level_in i);
    level_in = λ j e. ground (arith, v.level_in j);
    off = λ j e. ground (arith, v.off j);
  }

Step-IsExclusive : {s t : Sys} → Step s t → IsExclusive s → IsExclusive t
Step-IsExclusive {s} (begin i p e) v =
    subst IsExclusive (begin-eq_begun s i e) (begin-IsExclusive v i p)
Step-IsExclusive (try i p) v = try-IsExclusive v i p
Step-IsExclusive (own i p) v = own-IsExclusive v i p
Step-IsExclusive {s} (put i p e) v =
    subst IsExclusive (put-eq_put_begun s i e) (put-IsExclusive v i p)
Step-IsExclusive (release i p) v = release-IsExclusive v i p

-- The lock's invariant holds in every state that the harts reach, in any order of their steps,
-- from a state where it holds. It says that at most one hart is between taking the lock and
-- releasing it, that the lock names exactly the hart in the critical section, and that a hart has
-- its interrupts off from its first step towards the lock to its release.
pub Reach-IsExclusive : {s t : Sys} → IsExclusive s → Reach s t → IsExclusive t
Reach-IsExclusive v here = v
Reach-IsExclusive v (next r st) = Step-IsExclusive st (Reach-IsExclusive v r)

module _ {s : Sys} (v : IsExclusive s) (i : ℕ) where
  holding-inside : spin_holding s i ≡ true → s.phase i ≡ inside
  unfolding spin_holding
  holding-inside h = ground (arith, v.owned i)

  inside-holding : s.phase i ≡ inside → spin_holding s i ≡ true
  unfolding spin_holding
  inside-holding p = ground (arith, v.owns i, v.held i)

  outside-holding : s.phase i ≢ inside → spin_holding s i ≡ false
  outside-holding q = elim (Bool-cases (spin_holding s i)) [
    | inl e ↦ absurd (q (holding-inside e))
    | inr e ↦ e
  ]

  -- Where the lock's invariant holds, `spin_get` panics exactly for a hart in its critical
  -- section, and `spin_put` exactly for one that is not.
  pub panics_iff_inside :
      ((get_begin s i ≡ none) ↔ (s.phase i ≡ inside))
      × ((put_begin s i ≡ none) ↔ (s.phase i ≢ inside))
  unfolding get_begin put_begin
  panics_iff_inside = (
    (λ e. holding-inside (ground arith), λ p. rw (inside-holding p)),
    (λ e p. absurd (cc (inside-holding p)), λ q. rw (outside-holding q)),
  )
