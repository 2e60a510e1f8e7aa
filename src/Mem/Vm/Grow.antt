-- ===== src/Mem/Vm/Grow.antt =====
-- A store to one entry: what stays of the tables, with a leaf or a new table put there.
use tnix.Common.{
  ℕ, zero, suc, ◌+◌, ◌*◌, ◌≤◌, ◌≡◌, ◌≢◌, refl, ap, sym, ◌∙◌, false, none, some, arith,
  if◌then◌else◌, ◌==◌, Bool-cases, Option-cases, inl, inr, ◌⊎◌, ==→eq, not_==→ne,
}
use tnix.Util.Str.{Memory}
use tnix.Mem.Pages.{Pages}
use tnix.Mem.Words.{word}
use tnix.Mem.Vm.{is_valid, is_leaf}
use tnix.Mem.Vm.Table.{
  idx, table_at, same, same_split, same_join, same_at, at_next, at_none, IsTable, entry, child_eq,
}

pub ne_or_eq : (a b : ℕ) → (a ≡ b) ⊎ (a ≢ b)
ne_or_eq a b = elim (Bool-cases (a == b)) [
  | inl e ↦ inl (==→eq a b e)
  | inr e ↦ inr (not_==→ne a b e)
]

-- Every entry of the tables but that of `va` at depth `k` is what it was.
abbrev pub Agrees : Memory → ℕ → ℕ → ℕ → ℕ → Memory → Type 0
Agrees m root k va t m' =
    (k' va' t' : ℕ)
    → k' ≤ 2
    → table_at m root k' va' ≡ some t'
    → (t' ≢ t) ⊎ (idx k' va' ≢ idx k va)
    → word m' (t' + 8 * idx k' va') ≡ word m (t' + 8 * idx k' va')

module _ (root : ℕ) (s : Pages) (v : IsTable root s) (k va t : ℕ) (h : k ≤ 2)
    (e : table_at s.memory root k va ≡ some t) where
  module _ (m' : Memory) (a : Agrees s.memory root k va t m') where
    pub kept : (j va' : ℕ) → j ≤ k → table_at m' root j va' ≡ table_at s.memory root j va'
    unfolding table_at
    kept zero va' l = refl
    kept (suc j) va' l = elim (Option-cases (table_at s.memory root j va')) [
      | inl n ↦
          at_none m' root j va' (kept j va' (omega arith) ∙ n) ∙ sym (at_none s.memory root j va' n)
      | inr (t', f) ↦
          at_next m' root j va' t' (kept j va' (omega arith) ∙ f)
          ∙ child_eq s.memory m' t' (idx j va')
              (a j va' t' (omega arith) f (inl (λ q. absurd (different t' f q))))
          ∙ sym (at_next s.memory root j va' t' f)
    ]
      where
        different : (t' : ℕ) → table_at s.memory root j va' ≡ some t' → t' ≡ t → ⊥
        different t' f q = omega (arith, (v.inj j k va' va t (omega arith) h (f ∙ ap some q) e).0)

    -- On the path of another address everything is what it was.
    kept_word :
        (j va' t' : ℕ)
        → j ≤ 2
        → same (suc k) va va' ≡ false
        → table_at s.memory root j va' ≡ some t'
        → word m' (t' + 8 * idx j va') ≡ word s.memory (t' + 8 * idx j va')
    kept_word j va' t' l n f = elim (ne_or_eq t' t) [
      | inr ne ↦ a j va' t' l f (inl ne)
      | inl q ↦
          let (same_depth, same_path) = v.inj k j va va' t h l e (f ∙ ap some q) in
          a j va' t' l f (
            inr (λ i.
              cc (n, same_join k va va' same_path (sym i ∙ ap (λ x. idx x va') (sym same_depth)))))
    ]

    pub kept_other :
        (j va' : ℕ)
        → j ≤ 2
        → same (suc k) va va' ≡ false
        → table_at m' root j va' ≡ table_at s.memory root j va'
    unfolding table_at
    kept_other zero va' l n = refl
    kept_other (suc j) va' l n = elim (Option-cases (table_at s.memory root j va')) [
      | inl z ↦
          at_none m' root j va' (kept_other j va' (omega arith) n ∙ z)
          ∙ sym (at_none s.memory root j va' z)
      | inr (t', f) ↦
          at_next m' root j va' t' (kept_other j va' (omega arith) n ∙ f)
          ∙ child_eq s.memory m' t' (idx j va') (kept_word j va' t' (omega arith) n f)
          ∙ sym (at_next s.memory root j va' t' f)
    ]

    pub entry_other :
        (va' : ℕ) → same (suc k) va va' ≡ false → entry m' root va' ≡ entry s.memory root va'
    unfolding entry
    entry_other va' n = elim (Option-cases (table_at s.memory root 2 va')) [
      | inl z ↦ rw (kept_other 2 va' (omega arith) n ∙ z, z, entry) refl
      | inr (t', f) ↦
          rw (kept_other 2 va' (omega arith) n ∙ f, f, entry) (kept_word 2 va' t' (omega arith) n f)
    ]

pub entry_at :
    (m : Memory) (root va t : ℕ)
    → table_at m root 2 va ≡ some t
    → entry m root va ≡ word m (t + 8 * idx 2 va)
unfolding entry
entry_at m root va t e = rw (e, entry) refl

pub entry-none : (m : Memory) (root va : ℕ) → table_at m root 2 va ≡ none → entry m root va ≡ 0
unfolding entry
entry-none m root va e = rw (e, entry) refl

-- A leaf that is put in a last table, by a store that leaves the pages in use.
module _ (root : ℕ) (s : Pages) (v : IsTable root s) (va t : ℕ)
    (e : table_at s.memory root 2 va ≡ some t) (m' : Memory)
    (a : Agrees s.memory root 2 va t m') where
  leaf_kept : (j va' : ℕ) → j ≤ 2 → table_at m' root j va' ≡ table_at s.memory root j va'
  leaf_kept j va' l = kept root s v 2 va t (omega arith) e m' a j va' l

  pub leaf-IsTable : IsTable root (record s { memory = m' })
  leaf-IsTable = record {
    own = λ k va' t' l f. v.own k va' t' l (sym (leaf_kept k va' l) ∙ f);
    inj = λ k k' va' va'' t' l l' f f'.
        v.inj k k' va' va'' t' l l' (sym (leaf_kept k va' l) ∙ f) (sym (leaf_kept k' va'' l') ∙ f');
    plain = λ k va' t' l f x.
        let g : table_at s.memory root k va' ≡ some t' = sym (leaf_kept k va' (omega arith)) ∙ f in
        let w = a k va' t' (omega arith) g (
          inl (λ q.
            omega (arith, (v.inj k 2 va' va t (omega arith) (omega arith) (g ∙ ap some q) e).0))) in
        ap is_leaf w ∙ v.plain k va' t' l g (sym (ap is_valid w) ∙ x);
  }

  pub leaf_entry :
      (va' : ℕ)
      → entry m' root va'
        ≡ (if same 3 va va' then word m' (t + 8 * idx 2 va) else entry s.memory root va')
  leaf_entry va' = elim (Bool-cases (same 3 va va')) [
    | inr n ↦ rw n (entry_other root s v 2 va t (omega arith) e m' a va' n)
    | inl y ↦
        let (p, i) = same_split 2 va va' y in
        rw y (
          entry_at m' root va' t
            (leaf_kept 2 va' (omega arith) ∙ sym (same_at s.memory root 2 va va' p) ∙ e)
          ∙ ap (λ x. word m' (t + 8 * x)) (sym i))
  ]
