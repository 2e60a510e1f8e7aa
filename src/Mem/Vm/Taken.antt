-- ===== src/Mem/Vm/Taken.antt =====
-- A page that is taken from the pool leaves the tables.
use tnix.Common.{
  ℕ, zero, suc, ◌+◌, ◌*◌, ◌≤◌, ◌<◌, ◌≡◌, ◌≢◌, refl, subst, ap, sym, ◌∙◌, true, false, none, some,
  arith, Option-cases, length, inl, inr, ◌⊎◌,
}
use tnix.Mem.Pages.{Pages, pgsize, npage, paddr, alloc_page}
use tnix.Mem.Pages.Pool.{IsPool, Allocated, alloc_page-Allocated}
use tnix.Mem.Words.{word, word-ext}
use tnix.Mem.Vm.{is_valid, is_leaf}
use tnix.Mem.Vm.Table.{idx, idx_small, table_at, at_next, at_none, child_eq, IsTable, entry}
use tnix.Mem.Vm.Descend.{Counted, alloc_page-Counted}

module _ (root : ℕ) (s s1 : Pages) (v : IsTable root s) (p : ℕ) (a : Allocated npage p s s1) where
  away :
      (q t j i : ℕ)
      → j < 512
      → i < 8
      → t ≡ paddr q
      → q ≢ p
      → (t + 8 * j + i < paddr p) ⊎ (paddr p + pgsize ≤ t + 8 * j + i)
  away q t j i l m e ne = omega arith

  differs : (q : ℕ) → s.inuse q ≡ true → q ≢ p
  differs q used e = cc (used, a.was_free, e)

  word_kept :
      (k va t : ℕ)
      → k ≤ 2
      → table_at s.memory root k va ≡ some t
      → word s1.memory (t + 8 * idx k va) ≡ word s.memory (t + 8 * idx k va)
  word_kept k va t le f =
      let (q, _, used, at_q) = v.own k va t le f in
      word-ext s1.memory s.memory (t + 8 * idx k va) (λ i l.
        a.kept (t + 8 * idx k va + i)
          (away q t (idx k va) i (idx_small k va) l at_q (differs q used)))

  table_kept : (k va : ℕ) → k ≤ 2 → table_at s1.memory root k va ≡ table_at s.memory root k va
  unfolding table_at
  table_kept zero va le = refl
  table_kept (suc k) va le = elim (Option-cases (table_at s.memory root k va)) [
    | inl z ↦
        at_none s1.memory root k va (table_kept k va (omega arith) ∙ z)
        ∙ sym (at_none s.memory root k va z)
    | inr (t, f) ↦
        at_next s1.memory root k va t (table_kept k va (omega arith) ∙ f)
        ∙ child_eq s.memory s1.memory t (idx k va) (word_kept k va t (omega arith) f)
        ∙ sym (at_next s.memory root k va t f)
  ]

  Allocated-IsTable : IsTable root s1
  Allocated-IsTable = record {
    own = λ k va t le f.
        let (q, below, used, at_q) = v.own k va t le (sym (table_kept k va le) ∙ f) in
        (q, below, a.others q (differs q used) ∙ used, at_q);
    inj = λ k k' va va' t le le' f f'.
        v.inj k k' va va' t le le' (sym (table_kept k va le) ∙ f)
          (sym (table_kept k' va' le') ∙ f');
    plain = λ k va t l f x.
        let g : table_at s.memory root k va ≡ some t = sym (table_kept k va (omega arith)) ∙ f in
        let w = word_kept k va t (omega arith) g in
        ap is_leaf w ∙ v.plain k va t l g (sym (ap is_valid w) ∙ x);
  }

  Allocated-entry : (va : ℕ) → entry s1.memory root va ≡ entry s.memory root va
  unfolding entry
  Allocated-entry va = elim (Option-cases (table_at s.memory root 2 va)) [
    | inl z ↦ rw (table_kept 2 va (omega arith) ∙ z, z, entry) refl
    | inr (t, f) ↦
        rw (table_kept 2 va (omega arith) ∙ f, f, entry) (word_kept 2 va t (omega arith) f)
  ]

-- Pages were taken from the pool, `n` at most, and the tables are as before.
pub record Takes (root n : ℕ) (s s' : Pages) : Type 0 where
  pub table : IsTable root s'
  pub pool : IsPool npage s'
  pub entries : (va : ℕ) → entry s'.memory root va ≡ entry s.memory root va
  pub few : length s.free ≤ length s'.free + n

pub alloc_page-Takes :
    (root : ℕ) (s : Pages)
    → IsTable root s
    → IsPool npage s
    → ((alloc_page s ≡ none) × (length s.free ≡ 0))
      ⊎ ((p : ℕ) × (s' : Pages) × (alloc_page s ≡ some (p, s'))
          × (s.inuse p ≡ false)
          × (p < npage)
          × Takes root 1 s s')
alloc_page-Takes root s v w = elim (alloc_page-Allocated npage s w) [
  | inl (stop, full) ↦ inl (stop, subst (Counted (length s.free)) stop (alloc_page-Counted s))
  | inr (p, s', run, a) ↦ inr (
    p,
    s',
    run,
    a.was_free,
    a.below,
    record {
      table = Allocated-IsTable root s s' v p a;
      pool = a.pool;
      entries = Allocated-entry root s s' v p a;
      few = omega (arith, subst (Counted (length s.free)) run (alloc_page-Counted s));
    },
  )
]
