-- ===== src/Mem/Vm/Fresh.antt =====
-- A new, empty table that is put into an entry which had none.
use tnix.Common.{
  ℕ, zero, suc, ◌+◌, ◌*◌, ◌≤◌, ◌<◌, ◌≡◌, ◌≢◌, refl, ap, ap₂, sym, ◌∙◌, true, false, none, some,
  arith, if◌then◌else◌, Bool-cases, inl, inr, ◌⊎◌,
}
use tnix.Mem.Pages.{Pages, npage, paddr}
use tnix.Mem.Words.{word}
use tnix.Mem.Vm.{is_valid, is_leaf, table_of, pte_of}
use tnix.Mem.Vm.Table.{
  idx, idx_small, child, table_at, same, same_split, same_join, same_at, at_next, at_none, IsTable,
  entry, table_of-pte_of,
}
use tnix.Mem.Vm.Grow.{Agrees, kept, kept_other, entry_other, entry_at, entry-none, ne_or_eq}

same_both : (k a b c : ℕ) → same k a b ≡ true → same k a c ≡ true → same k b c ≡ true
unfolding same
same_both zero a b c h g = refl
same_both (suc k) a b c h g =
    let (p, i) = same_split k a b h in
    let (q, j) = same_split k a c g in same_join k b c (same_both k a b c p q) (sym i ∙ j)

paddr-inj : (p q : ℕ) → paddr p ≡ paddr q → p ≡ q
paddr-inj p q h = omega arith

-- The store of the pointer to page `p`, which has been cleared.
pub record Linked (root : ℕ) (s : Pages) (k va t p : ℕ) (s' : Pages) : Type 0 where
  pub agrees : Agrees s.memory root k va t s'.memory
  pub page : p < npage
  pub was_free : s.inuse p ≡ false
  pub now_used : s'.inuse p ≡ true
  pub others : (q : ℕ) → q ≢ p → s'.inuse q ≡ s.inuse q
  pub pointer : word s'.memory (t + 8 * idx k va) ≡ pte_of (paddr p) 0
  pub empty : (i : ℕ) → i < 512 → word s'.memory (paddr p + 8 * i) ≡ 0

module _ (root : ℕ) (s : Pages) (v : IsTable root s) (k va t : ℕ) (h : k < 2) (le : k ≤ 2)
    (e : table_at s.memory root k va ≡ some t) (missing : table_at s.memory root (suc k) va ≡ none)
    (p : ℕ) (s' : Pages) (l : Linked root s k va t p s') where
  zero_child : (i : ℕ) → i < 512 → child s'.memory (paddr p) i ≡ none
  zero_child i q = ap (λ w. if is_valid w then some (table_of w) else none) (l.empty i q)

  made :
      (va' : ℕ) → same (suc k) va va' ≡ true → table_at s'.memory root (suc k) va' ≡ some (paddr p)
  made va' y =
      let (q, i) = same_split k va va' y in
      let (addr, ok, _) = table_of-pte_of p l.page in
      at_next s'.memory root k va' t (
        kept root s v k va t le e s'.memory l.agrees k va' (omega arith)
        ∙ sym (same_at s.memory root k va va' q)
        ∙ e)
      ∙ ap (child s'.memory t) (sym i)
      ∙ ap (λ w. if is_valid w then some (table_of w) else none) l.pointer
      ∙ rw ok (ap some addr)

  under : (va' : ℕ) → same (suc k) va va' ≡ true → table_at s'.memory root (suc (suc k)) va' ≡ none
  under va' y =
      at_next s'.memory root (suc k) va' (paddr p) (made va' y)
      ∙ zero_child (idx (suc k) va') (idx_small (suc k) va')

  was_none : (va' : ℕ) → same (suc k) va va' ≡ true → table_at s.memory root (suc k) va' ≡ none
  was_none va' y = sym (same_at s.memory root (suc k) va va' y) ∙ missing

  -- A table is the new one or an old one.
  origin :
      (k' va' t' : ℕ)
      → k' ≤ 2
      → table_at s'.memory root k' va' ≡ some t'
      → ((same (suc k) va va' ≡ true) × (k' ≡ suc k) × (t' ≡ paddr p))
        ⊎ (table_at s.memory root k' va' ≡ some t')
  origin k' va' t' b f = elim (Bool-cases (same (suc k) va va')) [
    | inr n ↦ inr (sym (kept_other root s v k va t le e s'.memory l.agrees k' va' b n) ∙ f)
    | inl y ↦ elim (depths k' b) [
      | inl c ↦ inr (sym (kept root s v k va t le e s'.memory l.agrees k' va' c) ∙ f)
      | inr (inl c) ↦
          inl (y, c, some_inj (sym f ∙ ap (λ x. table_at s'.memory root x va') c ∙ made va' y))
      | inr (inr c) ↦ absurd (cc (sym f ∙ ap (λ x. table_at s'.memory root x va') c ∙ under va' y))
    ]
  ]
    where
      depths : (k' : ℕ) → k' ≤ 2 → (k' ≤ k) ⊎ (k' ≡ suc k) ⊎ (k' ≡ suc (suc k))
      depths k' b = omega arith

      some_inj : {a b : ℕ} → some a ≡ some b → a ≡ b
      some_inj q = cc (q)

  old_differs : (k' va' : ℕ) → k' ≤ 2 → table_at s.memory root k' va' ≡ some (paddr p) → ⊥
  old_differs k' va' b f =
      let (q, _, used, same_page) = v.own k' va' (paddr p) b f in
      cc (l.was_free, used, paddr-inj p q same_page)

  pub linked-IsTable : IsTable root s'
  linked-IsTable = record {
    own = λ k' va' t' b f. elim (origin k' va' t' b f) [
      | inl (y, c, q) ↦ (p, l.page, l.now_used, q)
      | inr g ↦
          let (q, small, used, at_q) = v.own k' va' t' b g in
          (q, small, l.others q (λ x. cc (l.was_free, used, x)) ∙ used, at_q)
    ];
    inj = λ k' k'' va' va'' t' b b' f f'. elim (origin k' va' t' b f) [
      | inl (y, c, q) ↦ elim (origin k'' va'' t' b' f') [
        | inl (y', c', q') ↦
            (c ∙ sym c', ap (λ x. same x va' va'') c ∙ same_both (suc k) va va' va'' y y')
        | inr g ↦ absurd (old_differs k'' va'' b' (g ∙ ap some q))
      ]
      | inr g ↦ elim (origin k'' va'' t' b' f') [
        | inl (y', c', q') ↦ absurd (old_differs k' va' b (g ∙ ap some q'))
        | inr g' ↦ v.inj k' k'' va' va'' t' b b' g g'
      ]
    ];
    plain = λ k' va' t' b f x. elim (origin k' va' t' (omega arith) f) [
      | inl (y, c, q) ↦ absurd (
          cc (
            x,
            ap (λ a. is_valid (word s'.memory (a + 8 * idx k' va'))) q,
            ap is_valid (l.empty (idx k' va') (idx_small k' va')),
          ))
      | inr g ↦ elim (ne_or_eq t' t) [
        | inr ne ↦ old k' va' t' b g (inl ne) x
        | inl q ↦ elim (ne_or_eq (idx k' va') (idx k va)) [
          | inr ne ↦ old k' va' t' b g (inr ne) x
          | inl i ↦
              ap₂ (λ a j. is_leaf (word s'.memory (a + 8 * j))) q i
              ∙ ap is_leaf l.pointer
              ∙ (table_of-pte_of p l.page).2
        ]
      ]
    ];
  }
    where
      old :
          (k' va' t' : ℕ)
          → k' < 2
          → table_at s.memory root k' va' ≡ some t'
          → (t' ≢ t) ⊎ (idx k' va' ≢ idx k va)
          → is_valid (word s'.memory (t' + 8 * idx k' va')) ≡ true
          → is_leaf (word s'.memory (t' + 8 * idx k' va')) ≡ false
      old k' va' t' b g ne x =
          let w = l.agrees k' va' t' (omega arith) g ne in
          ap is_leaf w ∙ v.plain k' va' t' b g (sym (ap is_valid w) ∙ x)

  pub linked_entry : (va' : ℕ) → entry s'.memory root va' ≡ entry s.memory root va'
  linked_entry va' = elim (Bool-cases (same (suc k) va va')) [
    | inr n ↦ entry_other root s v k va t le e s'.memory l.agrees va' n
    | inl y ↦ elim (upper k h) [
      | inl z ↦
          entry-none s'.memory root va'
            (ap (λ x. table_at s'.memory root (suc (suc x)) va') (sym z) ∙ under va' y)
          ∙ sym (
              entry-none s.memory root va' (
                at_none s.memory root 1 va'
                  (ap (λ x. table_at s.memory root (suc x) va') (sym z) ∙ was_none va' y)))
      | inr o ↦
          entry_at s'.memory root va' (paddr p)
            (ap (λ x. table_at s'.memory root (suc x) va') (sym o) ∙ made va' y)
          ∙ l.empty (idx 2 va') (idx_small 2 va')
          ∙ sym (
              entry-none s.memory root va'
                (ap (λ x. table_at s.memory root (suc x) va') (sym o) ∙ was_none va' y))
    ]
  ]
    where
      upper : (k : ℕ) → k < 2 → (k ≡ 0) ⊎ (k ≡ 1)
      upper k h = omega arith

  pub linked_at : table_at s'.memory root (suc k) va ≡ some (paddr p)
  unfolding same
  linked_at = made va (same_refl (suc k) va)
    where
      same_refl : (k va : ℕ) → same k va va ≡ true
      same_refl zero va = refl
      same_refl (suc k) va = same_join k va va (same_refl k va) refl
