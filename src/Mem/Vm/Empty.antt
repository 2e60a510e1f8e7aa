-- ===== src/Mem/Vm/Empty.antt =====
-- A page of zeros is a table, as a new root is.
use tnix.Common.{ℕ, zero, suc, ◌+◌, ◌*◌, ◌<◌, ◌≡◌, refl, ap, ◌∙◌, true, none, some, arith}
use tnix.Mem.Pages.{Pages, pgsize, npage, paddr}
use tnix.Mem.Words.{word, word_zero}
use tnix.Mem.Vm.{is_leaf}
use tnix.Mem.Vm.Table.{idx, idx_small, table_at, at_next, at_none, IsTable, same, same_none}

module _ (p : ℕ) (s : Pages) (z : (i : ℕ) → i < pgsize → s.memory (paddr p + i) ≡ 0) where
  word_empty : (va : ℕ) → word s.memory (paddr p + 8 * idx 0 va) ≡ 0
  word_empty va =
      word_zero s.memory (paddr p + 8 * idx 0 va)
        (λ i l. ap s.memory (omega arith) ∙ z (8 * idx 0 va + i) (omega (arith, idx_small 0 va)))

  none_above : (k va : ℕ) → table_at s.memory (paddr p) (suc k) va ≡ none
  none_above zero va = at_next s.memory (paddr p) 0 va (paddr p) root ∙ rw (word_empty va) refl
    where
      root : table_at s.memory (paddr p) 0 va ≡ some (paddr p)
      root = unfold table_at in refl
  none_above (suc k) va = at_none s.memory (paddr p) (suc k) va (none_above k va)

  root_only : (k va t : ℕ) → table_at s.memory (paddr p) k va ≡ some t → (k ≡ 0) × (t ≡ paddr p)
  unfolding table_at
  root_only zero va t e = (refl, cc e)
  root_only (suc k) va t e = cc (e, none_above k va)

  pub empty-IsTable : p < npage → s.inuse p ≡ true → IsTable (paddr p) s
  empty-IsTable l u = record {
    own = λ k va t le f. let (e, q) = root_only k va t f in (p, l, u, q);
    inj = λ k k' va va' t le le' f f'.
        at_root k k' va va' (root_only k va t f).0 (root_only k' va' t f').0;
    plain = λ k va t h f x. let (e, q) = root_only k va t f in ap is_leaf (zero_word k va t e q);
  }
    where
      at_root : (k k' va va' : ℕ) → k ≡ 0 → k' ≡ 0 → (k ≡ k') × (same k va va' ≡ true)
      at_root zero zero va va' e f = (refl, same_none va va')
      at_root (suc k) k' va va' e f = absurd (omega arith)
      at_root zero (suc k') va va' e f = absurd (omega arith)

      zero_word : (k va t : ℕ) → k ≡ 0 → t ≡ paddr p → word s.memory (t + 8 * idx k va) ≡ 0
      zero_word zero va t e q = ap (λ x. word s.memory (x + 8 * idx 0 va)) q ∙ word_empty va
      zero_word (suc k) va t e q = absurd (omega arith)
