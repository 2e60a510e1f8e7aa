-- ===== src/Mem/Vm/Unmap.antt =====
-- `vmunmap`: no address of the area goes anywhere, and every other one where it went.
use tnix.Common.{
  ℕ, zero, suc, ◌+◌, ◌*◌, ◌/◌, ◌%◌, ◌≤◌, ◌<◌, ◌≡◌, refl, subst, ap, sym, ◌∙◌, true, ◌&&◌, none,
  some, arith, if◌then◌else◌, ◌==◌, ltb, leb, Bool-cases, inl, inr, ◌⊎◌, eq→==, le→not_ltb, lt→ltb,
  lt→not_leb, le→leb,
}
use tnix.Util.Str.{Memory}
use tnix.Mem.Pages.{Pages, pgsize, align_up}
use tnix.Mem.Words.{word, put_word, word-put_word}
use tnix.Mem.Vm.{
  is_valid, va_top, u64_mod, pte_at, table_of, va_to_pa, unmap_from, unmap_pages, rounds, vmunmap,
}
use tnix.Mem.Vm.Table.{table_at, same, same_split, same_at, at_next, at_none, IsTable, entry}
use tnix.Mem.Vm.Grow.{leaf-IsTable, leaf_entry, entry_at, entry-none}
use tnix.Mem.Vm.Descend.{put_word-Agrees}
use tnix.Mem.Vm.Map.{root_at, same-page}
use tnix.Mem.Vm.Translate.{address_of, va_to_pa-entry}

-- The memory without the mapping of the page of `va`.
record Unmapped (root va : ℕ) (s : Pages) (m' : Memory) : Type 0 where
  table : IsTable root (record s { memory = m' })
  gone :
      (va' : ℕ)
      → address_of (entry m' root va') va'
        ≡ (if same 3 va va' then 0 else address_of (entry s.memory root va') va')

module _ (root va : ℕ) (s : Pages) (v : IsTable root s) where
  -- Nothing to do where the address goes nowhere.
  nothing :
      ((va' : ℕ) → same 3 va va' ≡ true → address_of (entry s.memory root va') va' ≡ 0)
      → Unmapped root va s s.memory
  nothing h = record {
    table = v;
    gone = λ va'. elim (Bool-cases (same 3 va va')) [ inl y ↦ rw y (h va' y) | inr n ↦ rw n refl ];
  }

  cut : (m : Memory) → m ≡ s.memory → table_at s.memory root 2 va ≡ none → Unmapped root va s m
  cut m e n = subst (Unmapped root va s) (sym e) (
      nothing (λ va' y.
        ap (λ w. address_of w va')
          (entry-none s.memory root va'
            (sym (same_at s.memory root 2 va va' (same_split 2 va va' y).0) ∙ n))))

  at_last :
      (t : ℕ)
      → table_at s.memory root 2 va ≡ some t
      → Unmapped root va s (unmap_from 0 t va s.memory)
  unfolding unmap_from
  at_last t f = elim (Bool-cases (is_valid (word s.memory (pte_at t va 0)))) [
    | inr n ↦ rw n (
        nothing (λ va' y.
          let (p, i) = same_split 2 va va' y in
          ap (λ w. address_of w va')
            (entry_at s.memory root va' t (sym (same_at s.memory root 2 va va' p) ∙ f)
              ∙ ap (λ x. word s.memory (t + 8 * x)) (sym i))
          ∙ rw n refl))
    | inl y ↦
        let a = put_word-Agrees root s v 2 va t 0 (omega arith) f in
        rw y (record {
          table = leaf-IsTable root s v va t f (put_word s.memory (pte_at t va 0) 0) a;
          gone = λ va'.
              ap (λ w. address_of w va')
                (leaf_entry root s v va t f (put_word s.memory (pte_at t va 0) 0) a va')
              ∙ elim (Bool-cases (same 3 va va')) [
                | inl q ↦ rw q (
                    ap (λ w. address_of w va')
                      (word-put_word s.memory (pte_at t va 0) 0 (omega arith)))
                | inr q ↦ rw q refl
              ];
        })
  ]

  unmap_from-Unmapped : Unmapped root va s (unmap_from 2 root va s.memory)
  unfolding unmap_from
  unmap_from-Unmapped = elim (Bool-cases (is_valid (word s.memory (pte_at root va 2)))) [
    | inr n ↦ cut (unmap_from 2 root va s.memory) (rw (n, unmap_from) refl) (
        at_none s.memory root 1 va
          (at_next s.memory root 0 va root (root_at s.memory root va) ∙ rw n refl))
    | inl y ↦
        let t1 = table_of (word s.memory (pte_at root va 2)) in
        let f1 : table_at s.memory root 1 va ≡ some t1 =
          at_next s.memory root 0 va root (root_at s.memory root va) ∙ rw y refl in
        elim (Bool-cases (is_valid (word s.memory (pte_at t1 va 1)))) [
          | inr n ↦
              cut (unmap_from 2 root va s.memory) (rw (y, unmap_from, n) refl)
                (at_next s.memory root 1 va t1 f1 ∙ rw n refl)
          | inl z ↦ subst (Unmapped root va s) (sym (through t1 y z)) (
              at_last (table_of (word s.memory (pte_at t1 va 1)))
                (at_next s.memory root 1 va t1 f1 ∙ rw z refl))
        ]
  ]
    where
      through :
          (t1 : ℕ)
          → is_valid (word s.memory (pte_at root va 2)) ≡ true
          → is_valid (word s.memory (pte_at (table_of (word s.memory (pte_at root va 2))) va 1))
            ≡ true
          → unmap_from 2 root va s.memory
            ≡ unmap_from 0
                (table_of
                  (word s.memory (pte_at (table_of (word s.memory (pte_at root va 2))) va 1)))
                va
                s.memory
      through t1 y z = rw (y, unmap_from, z) refl

-- What is left behind the unmapping of `n` pages.
abbrev left_of : ℕ → ℕ → ℕ → ℕ → ℕ
left_of n va va' old =
    if leb (va / pgsize) (va' / pgsize) && ltb (va' / pgsize) (va / pgsize + n) then 0 else old

left_of-suc :
    (n x y z old : ℕ)
    → z ≡ x + 1
    → (if leb z y && ltb y (z + n) then 0 else if x == y then 0 else old)
      ≡ (if leb x y && ltb y (x + suc n) then 0 else old)
left_of-suc n x y z old e = ground (arith, e)

left_of-zero : (x y old : ℕ) → old ≡ (if leb x y && ltb y (x + 0) then 0 else old)
left_of-zero x y old = ground arith

unmap_pages-gone :
    (n root va : ℕ) (s : Pages)
    → IsTable root s
    → va + pgsize * n ≤ va_top
    → IsTable root (record s { memory = unmap_pages root n va s.memory })
      × ((va' : ℕ)
          → va' < va_top
          → address_of (entry (unmap_pages root n va s.memory) root va') va'
            ≡ left_of n va va' (address_of (entry s.memory root va') va'))
unfolding unmap_pages
unmap_pages-gone zero root va s v h = (
  v,
  λ va' l. left_of-zero (va / pgsize) (va' / pgsize) (address_of (entry s.memory root va') va'),
)
unmap_pages-gone (suc n) root va s v h =
    let u = unmap_from-Unmapped root va s v in
    let s1 : Pages = record s { memory = unmap_from 2 root va s.memory } in
    let (v2, g) = unmap_pages-gone n root (va + pgsize) s1 u.table (omega arith) in
    (
      v2,
      λ va' l.
          g va' l
          ∙ ap (left_of n (va + pgsize) va') (
              u.gone va'
              ∙ ap (λ c. if c then 0 else address_of (entry s.memory root va') va')
                  (same-page va va' (omega arith) l))
          ∙ left_of-suc n (va / pgsize) (va' / pgsize) ((va + pgsize) / pgsize)
              (address_of (entry s.memory root va') va') (omega arith),
    )

-- On tables that fulfil their invariant, `vmunmap` of `n` pages from an aligned address inside the
-- bounds returns and keeps the invariant; then `va_to_pa` gives 0 for each address of the area,
-- and for every other one below `VA_TOP` what it gave before.
pub va_to_pa-vmunmap :
    (root va n : ℕ) (s : Pages)
    → IsTable root s
    → va % pgsize ≡ 0
    → va + pgsize * n ≤ va_top
    → (m' : Memory) × (vmunmap root va (pgsize * n) s.memory ≡ some m')
      × IsTable root (record s { memory = m' })
      × ((i : ℕ) → i < pgsize * n → (va_to_pa root (va + i) m').0 ≡ 0)
      × ((va' : ℕ)
          → va' < va_top
          → (va' < va) ⊎ (va + pgsize * n ≤ va')
          → (va_to_pa root va' m').0 ≡ (va_to_pa root va' s.memory).0)
unfolding vmunmap
va_to_pa-vmunmap root va n s v a h =
    let (v', g) = unmap_pages-gone n root va s v h in
    let m' : Memory = unmap_pages root n va s.memory in
    (
      m',
      rw (eq→== (va % pgsize) 0 a, le→not_ltb va_top ((va + pgsize * n) % u64_mod) (omega arith))
          (ap (λ k. some (unmap_pages root k va s.memory)) count),
      v',
      λ i l.
          va_to_pa-entry root (record s { memory = m' }) v' (va + i)
          ∙ g (va + i) (omega arith)
          ∙ rw
              (
                le→leb (va / pgsize) ((va + i) / pgsize) (omega arith),
                lt→ltb ((va + i) / pgsize) (va / pgsize + n) (omega arith),
              )
              refl,
      λ va' l o.
          va_to_pa-entry root (record s { memory = m' }) v' va'
          ∙ g va' l
          ∙ beyond va' o (address_of (entry s.memory root va') va')
          ∙ sym (va_to_pa-entry root s v va'),
    )
  where
    count : rounds va (align_up ((va + pgsize * n) % u64_mod) pgsize) pgsize ≡ n
    count = omega arith

    beyond :
        (va' : ℕ) → (va' < va) ⊎ (va + pgsize * n ≤ va') → (old : ℕ) → left_of n va va' old ≡ old
    beyond va' (inl l) old = rw (lt→not_leb (va / pgsize) (va' / pgsize) (omega arith)) refl
    beyond va' (inr l) old =
        rw
          (
            le→leb (va / pgsize) (va' / pgsize) (omega arith),
            le→not_ltb (va' / pgsize) (va / pgsize + n) (omega arith),
          )
          refl
