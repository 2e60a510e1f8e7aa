-- ===== src/Mem/Heap/Slot.antt =====
-- A slot that is taken leaves the tables.
use tnix.Common.{
  ℕ, suc, ◌+◌, ◌≤◌, ◌≡◌, refl, ◌∙◌, false, none, some, arith, Option-cases, Bool-cases, length,
  replicate, ◌==◌, inl, inr, ◌⊎◌, List, [], ◌∷◌,
}
use tnix.Mem.Pages.{Pages, npage}
use tnix.Mem.Pages.Pool.{IsPool}
use tnix.Mem.Slots.{
  SlotBlock, Outcome, panics, spins, returns, opened, first_unused, behind_block, alloc_slot,
}
use tnix.Mem.Vm.Table.{IsTable}
use tnix.Mem.Vm.Taken.{Takes, alloc_page-Takes}

Takes-none : (root : ℕ) (s : Pages) → IsTable root s → IsPool npage s → Takes root 0 s s
Takes-none root s v w = record { table = v; pool = w; entries = λ va. refl; few = omega arith }

pub Takes-more : (root m n : ℕ) (s s' : Pages) → m ≤ n → Takes root m s s' → Takes root n s s'
Takes-more root m n s s' h t = record {
  table = t.table;
  pool = t.pool;
  entries = t.entries;
  few = omega (arith, t.few);
}

pub Takes-both :
    (root m n : ℕ) (s s1 s2 : Pages)
    → Takes root m s s1
    → Takes root n s1 s2
    → Takes root (m + n) s s2
Takes-both root m n s s1 s2 t u = record {
  table = u.table;
  pool = u.pool;
  entries = λ va. u.entries va ∙ t.entries va;
  few = omega (arith, t.few, u.few);
}

-- What an outcome has taken.
abbrev pub Left : ℕ → ℕ → Pages → Outcome → Type 0
Left root n s panics = Unit {0}
Left root n s spins = Unit {0}
Left root n s (returns k i bs s') = Takes root n s s'

opened-Takes :
    (root per : ℕ) (b : SlotBlock) (s : Pages)
    → IsTable root s
    → IsPool npage s
    → (opened per b s ≡ none)
      ⊎ ((b' : SlotBlock) × (s' : Pages) × (opened per b s ≡ some (b', s')) × Takes root 1 s s')
unfolding opened
opened-Takes root per b s v w = elim (Bool-cases (b.refc == 0)) [
  | inr e ↦
      inr (b, s, rw (e, opened) refl, Takes-more root 0 1 s s (omega arith) (Takes-none root s v w))
  | inl e ↦ elim (alloc_page-Takes root s v w) [
    | inl (stop, z) ↦ inl (rw (e, opened, stop) refl)
    | inr (p, s', run, f, l, t) ↦
        inr (record b { slot = p; inuse = replicate per false }, s', rw (e, opened, run) refl, t)
  ]
]

behind-Left :
    (root n : ℕ) (b : SlotBlock) (s : Pages) (o : Outcome)
    → Left root n s o
    → Left root n s (behind_block b o)
behind-Left root n b s panics h = tt
behind-Left root n b s spins h = tt
behind-Left root n b s (returns k i bs s') h = h

after-Left :
    (root n : ℕ) (s s1 : Pages) (o : Outcome)
    → Takes root 1 s s1
    → Left root n s1 o
    → Left root (suc n) s o
after-Left root n s s1 panics t h = tt
after-Left root n s s1 spins t h = tt
after-Left root n s s1 (returns k i bs s') t h =
    Takes-more root (1 + n) (suc n) s s' (omega arith) (Takes-both root 1 n s s1 s' t h)

pub alloc_slot-Left :
    (root per : ℕ) (bs : List SlotBlock) (s : Pages)
    → IsTable root s
    → IsPool npage s
    → Left root (length bs) s (alloc_slot per bs s)
unfolding alloc_slot
alloc_slot-Left root per [] s v w = tt
alloc_slot-Left root per (b ∷ bs) s v w = elim (opened-Takes root per b s v w) [
  | inl stop ↦ rw (stop, alloc_slot) tt
  | inr (b', s', run, t) ↦ elim (Bool-cases (b'.refc == per)) [
    | inl e ↦
        rw (run, alloc_slot, e)
          (after-Left root (length bs) s s' (behind_block b' (alloc_slot per bs s')) t (
            behind-Left root (length bs) b' s' (alloc_slot per bs s')
              (alloc_slot-Left root per bs s' t.table t.pool)))
    | inr e ↦ elim (Option-cases (first_unused b'.inuse)) [
      | inl z ↦ rw (run, alloc_slot, e, z) tt
      | inr (i, z) ↦
          rw (run, alloc_slot, e, z) (Takes-more root 1 (suc (length bs)) s s' (omega arith) t)
    ]
  ]
]
