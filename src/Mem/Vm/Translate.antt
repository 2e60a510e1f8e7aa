-- ===== src/Mem/Vm/Translate.antt =====
-- `va_to_pa` in terms of the entry of an address, and `va_to_pa` behind `svmmap`.
use tnix.Common.{
  ℕ, suc, ◌+◌, ◌*◌, ◌/◌, ◌%◌, ◌^◌, ◌≤◌, ◌<◌, ◌≡◌, refl, ap, sym, ◌∙◌, Bool, true, false, not, ◌&&◌,
  Option, none, some, arith, if◌then◌else◌, ◌==◌, Bool-cases, inl, inr, ◌⊎◌, eq→==, le→not_ltb,
  lt→ltb, lt→not_leb, le→leb,
}
use tnix.Util.Str.{Memory}
use tnix.Mem.Pages.{Pages, pgsize}
use tnix.Mem.Words.{word}
use tnix.Mem.Vm.{
  Space, is_valid, is_leaf, va_top, phy_top, pte_of, pte_at, table_of, get_pte_from, get_pte,
  address_at, va_to_pa, svmmap,
}
use tnix.Mem.Vm.Table.{table_at, at_next, at_none, IsTable, entry}
use tnix.Mem.Vm.Grow.{entry_at, entry-none}
use tnix.Mem.Vm.Descend.{IsSpace, free_cnt}
use tnix.Mem.Vm.Map.{root_at, mapped, svmmap-IsSpace}

-- What an entry gives for an address: 0 if it is no leaf.
abbrev pub address_of : ℕ → ℕ → ℕ
address_of e va = if is_valid e && is_leaf e then e / 1024 % 2 ^ 44 * 4096 + va % pgsize else 0

step :
    (l t va : ℕ) (m : Memory)
    → is_valid (word m (pte_at t va (suc l))) ≡ true
    → is_leaf (word m (pte_at t va (suc l))) ≡ false
    → get_pte_from (suc l) t va m ≡ get_pte_from l (table_of (word m (pte_at t va (suc l)))) va m
unfolding get_pte_from
step l t va m y n = rw (y, get_pte_from, n) refl

stop :
    (l t va : ℕ) (m : Memory)
    → is_valid (word m (pte_at t va (suc l))) ≡ false
    → get_pte_from (suc l) t va m ≡ none
unfolding get_pte_from
stop l t va m n = rw (n, get_pte_from) refl

abbrev answer : Memory → ℕ → Option ℕ → ℕ
answer m va o = (address_at m va o).0

answer-va_to_pa :
    (root va : ℕ) (m : Memory) → (va_to_pa root va m).0 ≡ answer m va (get_pte_from 2 root va m)
unfolding va_to_pa get_pte
answer-va_to_pa root va m = refl

abbrev first : ℕ × ℕ → ℕ
first (a, b) = a

answer_last :
    (t va : ℕ) (m : Memory)
    → answer m va (get_pte_from 0 t va m) ≡ address_of (word m (pte_at t va 0)) va
unfolding get_pte_from
answer_last t va m =
    by_tests (is_valid (word m (pte_at t va 0))) (is_leaf (word m (pte_at t va 0))) refl
  where
    by_tests :
        (b c : Bool)
        → is_leaf (word m (pte_at t va 0)) ≡ c
        → answer m va (if b && c then some (pte_at t va 0) else none)
          ≡ (if b && c then word m (pte_at t va 0) / 1024 % 2 ^ 44 * 4096 + va % pgsize else 0)
    by_tests false c e = refl
    by_tests true false e = refl
    by_tests true true e =
        ap
          (λ c. first (
            if c
            then (word m (pte_at t va 0) / 1024 % 2 ^ 44 * 4096 + va % pgsize, pte_at t va 0)
            else (0, 0)))
          e

module _ (root : ℕ) (s : Pages) (v : IsTable root s) (va : ℕ) where
  -- Without a last table there is no address.
  cut_off :
      (get : Option ℕ)
      → get ≡ none
      → table_at s.memory root 2 va ≡ none
      → answer s.memory va get ≡ address_of (entry s.memory root va) va
  cut_off get g n = rw (g, entry-none s.memory root va n) refl

  lower :
      (t : ℕ)
      → table_at s.memory root 1 va ≡ some t
      → answer s.memory va (get_pte_from 1 t va s.memory) ≡ address_of (entry s.memory root va) va
  lower t f = elim (Bool-cases (is_valid (word s.memory (pte_at t va 1)))) [
    | inr n ↦
        cut_off (get_pte_from 1 t va s.memory) (stop 0 t va s.memory n)
          (at_next s.memory root 1 va t f ∙ rw n refl)
    | inl y ↦
        ap (answer s.memory va) (step 0 t va s.memory y (v.plain 1 va t (omega arith) f y))
        ∙ answer_last (table_of (word s.memory (pte_at t va 1))) va s.memory
        ∙ ap (λ e. address_of e va)
            (sym (
              entry_at s.memory root va (table_of (word s.memory (pte_at t va 1)))
                (at_next s.memory root 1 va t f ∙ rw y refl)))
  ]

  pub va_to_pa-entry : (va_to_pa root va s.memory).0 ≡ address_of (entry s.memory root va) va
  va_to_pa-entry =
      answer-va_to_pa root va s.memory
      ∙ elim (Bool-cases (is_valid (word s.memory (pte_at root va 2)))) [
        | inr n ↦ cut_off (get_pte_from 2 root va s.memory) (stop 1 root va s.memory n) (
            at_none s.memory root 1 va
              (at_next s.memory root 0 va root (root_at s.memory root va) ∙ rw n refl))
        | inl y ↦
            ap (answer s.memory va) (
              step 1 root va s.memory y
                (v.plain 0 va root (omega arith) (root_at s.memory root va) y))
            ∙ lower (table_of (word s.memory (pte_at root va 2)))
                (at_next s.memory root 0 va root (root_at s.memory root va) ∙ rw y refl)
      ]

pte_address :
    (pa attr va : ℕ)
    → pa % pgsize ≡ 0
    → pa < phy_top
    → attr < 1024
    → is_leaf attr ≡ true
    → address_of (pte_of pa attr) va ≡ pa + va % pgsize
pte_address pa attr va a h small leaf =
    rw (eq→== (pte_of pa attr % 2) 1 odd, same_leaf) (omega arith)
  where
    odd : pte_of pa attr % 2 ≡ 1
    odd = omega arith

    bits : pte_of pa attr / 2 % 8 ≡ attr / 2 % 8
    bits = omega arith

    same_leaf : is_leaf (pte_of pa attr) ≡ true
    same_leaf = ap (λ x. not (x == 0)) bits ∙ leaf

-- On tables that fulfil the invariant, over a pool of pages that does: `svmmap` of `n` pages, with
-- two free pages for each of them at least, from aligned addresses inside the bounds and with
-- attributes below bit 10 that make a leaf, returns and keeps the invariant; then `va_to_pa` takes
-- each address of the area to its place behind `pa`, and every other one below `VA_TOP` to where
-- it took it before.
pub va_to_pa-svmmap :
    (ut : Bool) (root va pa n attr : ℕ) (s : Space)
    → IsSpace root s
    → va % pgsize ≡ 0
    → pa % pgsize ≡ 0
    → va + pgsize * n ≤ va_top
    → pa + pgsize * n ≤ phy_top
    → attr < 1024
    → is_leaf attr ≡ true
    → 2 * n ≤ free_cnt s
    → (s' : Space) × (svmmap root va pa (pgsize * n) attr ut s ≡ some s')
      × IsSpace root s'
      × ((i : ℕ) → i < pgsize * n → (va_to_pa root (va + i) s'.pages.memory).0 ≡ pa + i)
      × ((va' : ℕ)
          → va' < va_top
          → (va' < va) ⊎ (va + pgsize * n ≤ va')
          → (va_to_pa root va' s'.pages.memory).0 ≡ (va_to_pa root va' s.pages.memory).0)
va_to_pa-svmmap ut root va pa n attr s v a b h k small leaf room =
    let (s', run, v', e) = svmmap-IsSpace ut root va pa n attr s v a b h k room in
    (
      s',
      run,
      v',
      λ i l.
          va_to_pa-entry root s'.pages v'.table (va + i)
          ∙ ap (λ w. address_of w (va + i))
              (e (va + i) (omega arith) ∙ inside i l (entry s.pages.memory root (va + i)))
          ∙ pte_address (pa + pgsize * (i / pgsize)) attr (va + i) (omega arith) (omega arith) small
              leaf
          ∙ omega arith,
      λ va' h' o.
          va_to_pa-entry root s'.pages v'.table va'
          ∙ ap (λ w. address_of w va') (e va' h' ∙ beyond va' o (entry s.pages.memory root va'))
          ∙ sym (va_to_pa-entry root s.pages v.table va'),
    )
  where
    inside :
        (i : ℕ)
        → i < pgsize * n
        → (old : ℕ) → mapped n va pa attr old (va + i) ≡ pte_of (pa + pgsize * (i / pgsize)) attr
    inside i l old =
        rw
          (
            le→leb (va / pgsize) ((va + i) / pgsize) (omega arith),
            lt→ltb ((va + i) / pgsize) (va / pgsize + n) (omega arith),
          )
          (ap (λ x. pte_of x attr) (omega arith))

    beyond :
        (va' : ℕ)
        → (va' < va) ⊎ (va + pgsize * n ≤ va')
        → (old : ℕ) → mapped n va pa attr old va' ≡ old
    beyond va' (inl l) old = rw (lt→not_leb (va / pgsize) (va' / pgsize) (omega arith)) refl
    beyond va' (inr l) old =
        rw
          (
            le→leb (va / pgsize) (va' / pgsize) (omega arith),
            le→not_ltb (va' / pgsize) (va / pgsize + n) (omega arith),
          )
          refl
