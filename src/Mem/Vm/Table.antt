-- ===== src/Mem/Vm/Table.antt =====
-- The tables on the path of an address, and what holds of them.
use tnix.Common.{
  ℕ, zero, suc, ◌+◌, ◌-◌, ◌*◌, ◌/◌, ◌%◌, ◌^◌, ◌≤◌, ◌<◌, ◌≡◌, ◌≢◌, refl, ap, ap₂, ◌∙◌, Bool, true,
  false, ◌&&◌, Option, none, some, arith, if◌then◌else◌, ◌==◌, inl, inr, ◌⊎◌, eq→==,
}
use tnix.Util.Str.{Memory}
use tnix.Mem.Pages.{Pages, npage, paddr}
use tnix.Mem.Words.{word, put_word, word-put_word}
use tnix.Mem.Vm.{va_level, u64_mod, is_valid, is_leaf, pte_of, table_of}

-- The index of an address in the table at depth `k`, the root's depth being 0.
abbrev pub idx : ℕ → ℕ → ℕ
idx k va = va_level va (2 - k)

pub idx_small : (k va : ℕ) → idx k va < 512
idx_small k va = mod_lt (va / 4096 / 2 ^ (9 * (2 - k)))
  where
    mod_lt : (x : ℕ) → x % 512 < 512
    mod_lt x = omega arith

-- The table below entry `i` of table `t`.
abbrev pub child : Memory → ℕ → ℕ → Option ℕ
child m t i = if is_valid (word m (t + 8 * i)) then some (table_of (word m (t + 8 * i))) else none

-- The table at depth `k` on the path of `va`.
abbrev pub below : Memory → Option ℕ → ℕ → Option ℕ
below m none i = none
below m (some t) i = child m t i

unfoldable pub table_at : Memory → ℕ → ℕ → ℕ → Option ℕ
table_at m root zero va = some root
table_at m root (suc k) va = below m (table_at m root k va) (idx k va)

-- Two addresses have the same indices above depth `k`.
unfoldable pub same : ℕ → ℕ → ℕ → Bool
same zero va va' = true
same (suc k) va va' = same k va va' && (idx k va == idx k va')

pub same_none : (va va' : ℕ) → same 0 va va' ≡ true
unfolding same
same_none va va' = refl

pub same_split :
    (k va va' : ℕ) → same (suc k) va va' ≡ true → (same k va va' ≡ true) × (idx k va ≡ idx k va')
unfolding same
same_split k va va' h = ground arith

pub same_join :
    (k va va' : ℕ) → same k va va' ≡ true → idx k va ≡ idx k va' → same (suc k) va va' ≡ true
unfolding same
same_join k va va' h e = rw (h, eq→== (idx k va) (idx k va') e) refl

pub same_at :
    (m : Memory) (root k va va' : ℕ)
    → same k va va' ≡ true
    → table_at m root k va ≡ table_at m root k va'
unfolding table_at
same_at m root zero va va' h = refl
same_at m root (suc k) va va' h =
    let (p, q) = same_split k va va' h in ap₂ (below m) (same_at m root k va va' p) q

pub at_next :
    (m : Memory) (root k va t : ℕ)
    → table_at m root k va ≡ some t
    → table_at m root (suc k) va ≡ child m t (idx k va)
unfolding table_at
at_next m root k va t e = rw (e, table_at) refl

pub at_none :
    (m : Memory) (root k va : ℕ) → table_at m root k va ≡ none → table_at m root (suc k) va ≡ none
unfolding table_at
at_none m root k va e = rw (e, table_at) refl

-- A table is a page in use; tables on different paths are different pages; and above the last depth an entry
-- that is valid is no leaf.
pub record IsTable (root : ℕ) (s : Pages) : Type 0 where
  pub own :
      (k va t : ℕ)
      → k ≤ 2
      → table_at s.memory root k va ≡ some t
      → (p : ℕ) × (p < npage) × (s.inuse p ≡ true) × (t ≡ paddr p)
  pub inj :
      (k k' va va' t : ℕ)
      → k ≤ 2
      → k' ≤ 2
      → table_at s.memory root k va ≡ some t
      → table_at s.memory root k' va' ≡ some t
      → (k ≡ k') × (same k va va' ≡ true)
  pub plain :
      (k va t : ℕ)
      → k < 2
      → table_at s.memory root k va ≡ some t
      → is_valid (word s.memory (t + 8 * idx k va)) ≡ true
      → is_leaf (word s.memory (t + 8 * idx k va)) ≡ false

-- The entry of an address in its last table, 0 without one.
unfoldable pub entry : Memory → ℕ → ℕ → ℕ
unfolding table_at
entry m root va = elim (table_at m root 2 va) [ none ↦ 0 | some t ↦ word m (t + 8 * idx 2 va) ]

-- A pointer to a table gives the table.
pub table_of-pte_of :
    (p : ℕ)
    → p < npage
    → (table_of (pte_of (paddr p) 0) ≡ paddr p)
      × (is_valid (pte_of (paddr p) 0) ≡ true)
      × (is_leaf (pte_of (paddr p) 0) ≡ false)
table_of-pte_of p h = (
  omega arith,
  eq→== (pte_of (paddr p) 0 % 2) 1 (omega arith),
  rw (eq→== (pte_of (paddr p) 0 / 2 % 8) 0 (omega arith)) refl,
)

-- Entries of different pages, and of different indices, lie apart.
pub entries_apart :
    (p q i j : ℕ)
    → i < 512
    → j < 512
    → (p ≢ q) ⊎ (i ≢ j)
    → (paddr p + 8 * i + 8 ≤ paddr q + 8 * j) ⊎ (paddr q + 8 * j + 8 ≤ paddr p + 8 * i)
entries_apart p q i j h k (inl ne) = omega arith
entries_apart p q i j h k (inr ne) = omega arith

-- The table below an entry that is written.
pub child_written :
    (m : Memory) (a v t i : ℕ)
    → t + 8 * i ≡ a
    → v < u64_mod
    → child (put_word m a v) t i ≡ (if is_valid v then some (table_of v) else none)
child_written m a v t i e h =
    ap (λ w. if is_valid w then some (table_of w) else none)
      (ap (λ b. word (put_word m a v) b) e ∙ word-put_word m a v h)

pub child_eq :
    (m m' : Memory) (t i : ℕ)
    → word m' (t + 8 * i) ≡ word m (t + 8 * i)
    → child m' t i ≡ child m t i
child_eq m m' t i e = ap (λ w. if is_valid w then some (table_of w) else none) e
