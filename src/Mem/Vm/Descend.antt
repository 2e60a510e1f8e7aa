-- ===== src/Mem/Vm/Descend.antt =====
-- `new_table` and `next_table` on the path of an address.
use tnix.Common.{
  ℕ, suc, ◌+◌, ◌*◌, ◌≤◌, ◌<◌, ◌≡◌, ◌≢◌, refl, subst, length, ap, ◌∙◌, Bool, true, Option, none,
  some, arith, if◌then◌else◌, Bool-cases, inl, inr, ◌⊎◌, List, [], ◌∷◌, ◌++◌,
}
use tnix.Util.Str.{Memory}
use tnix.Mem.Pages.{Pages, pgsize, npage, paddr, alloc_page}
use tnix.Mem.Pages.Pool.{IsPool, Allocated, alloc_page-Allocated}
use tnix.Mem.Words.{word, put_word, word-put_word, word-put_word_other, word-ext, word_zero}
use tnix.Mem.Vm.{Space, is_valid, table_of, pte_of, new_table, next_table}
use tnix.Mem.Vm.Table.{idx, idx_small, table_at, at_next, IsTable, entry, table_of-pte_of}
use tnix.Mem.Vm.Grow.{Agrees}
use tnix.Mem.Vm.Fresh.{Linked, linked-IsTable, linked_entry, linked_at}

-- A space between two calls.
pub record IsSpace (root : ℕ) (s : Space) : Type 0 where
  pub table : IsTable root s.pages
  pub pool : IsPool npage s.pages

-- How many pages are free, and what `alloc_page` does to their number.
abbrev pub free_cnt : Space → ℕ
free_cnt s = length s.pages.free

abbrev pub Counted : ℕ → Option (ℕ × Pages) → Type 0
Counted n none = n ≡ 0
Counted n (some (p, s)) = n ≡ suc (length s.free)

pub alloc_page-Counted : (s : Pages) → Counted (length s.free) (alloc_page s)
unfolding alloc_page
alloc_page-Counted s = by_list s.inuse s.free s.memory
  where
    by_list :
        (inuse : ℕ → Bool) (free : List ℕ) (m : Memory)
        → Counted (length free) (alloc_page (record { inuse = inuse; free = free; memory = m }))
    by_list inuse [] m = refl
    by_list inuse (p ∷ rest) m = refl

IsPool-memory : (n : ℕ) (s : Pages) (m : Memory) → IsPool n s → IsPool n (record s { memory = m })
IsPool-memory n s m v = record { listed = v.listed; within = v.within }

-- A store to an entry of a table leaves the other entries.
stored_other :
    (root : ℕ) (s : Pages) (v : IsTable root s) (k va t e : ℕ) (m : Memory)
    → k ≤ 2
    → table_at s.memory root k va ≡ some t
    → (k' va' t' : ℕ) → k' ≤ 2
    → table_at s.memory root k' va' ≡ some t'
    → (t' ≢ t) ⊎ (idx k' va' ≢ idx k va)
    → word (put_word m (t + 8 * idx k va) e) (t' + 8 * idx k' va') ≡ word m (t' + 8 * idx k' va')
stored_other root s v k va t e m le f k' va' t' le' f' ne =
    let (p, _, _, at_p) = v.own k va t le f in
    let (q, _, _, at_q) = v.own k' va' t' le' f' in
    word-put_word_other m (t + 8 * idx k va) e (t' + 8 * idx k' va')
      (apart p q (idx k va) (idx k' va') (idx_small k va) (idx_small k' va') at_p at_q ne)
  where
    apart :
        (p q i j : ℕ)
        → i < 512
        → j < 512
        → t ≡ paddr p
        → t' ≡ paddr q
        → (t' ≢ t) ⊎ (j ≢ i)
        → (t + 8 * i + 8 ≤ t' + 8 * j) ⊎ (t' + 8 * j + 8 ≤ t + 8 * i)
    apart p q i j a b g h (inl x) = omega arith
    apart p q i j a b g h (inr x) = omega arith

pub put_word-Agrees :
    (root : ℕ) (s : Pages) (v : IsTable root s) (k va t e : ℕ)
    → k ≤ 2
    → table_at s.memory root k va ≡ some t
    → Agrees s.memory root k va t (put_word s.memory (t + 8 * idx k va) e)
put_word-Agrees root s v k va t e le f = stored_other root s v k va t e s.memory le f

module _ (root : ℕ) (s : Space) (v : IsSpace root s) (k va t : ℕ) (le : k ≤ 2)
    (f : table_at s.pages.memory root k va ≡ some t) where
  linked :
      (p : ℕ) (s1 : Pages)
      → Allocated npage p s.pages s1
      → Linked root s.pages k va t p
          (record s1 { memory = put_word s1.memory (t + 8 * idx k va) (pte_of (paddr p) 0) })
  linked p s1 a = record {
    agrees = λ k' va' t' le' f' ne.
        let (q, _, used, at_q) = v.table.own k' va' t' le' f' in
        stored_other root s.pages v.table k va t (pte_of (paddr p) 0) s1.memory le f k' va' t' le'
          f' ne
        ∙ word-ext s1.memory s.pages.memory (t' + 8 * idx k' va') (λ i l.
          a.kept (t' + 8 * idx k' va' + i)
            (away q t' (idx k' va') i (idx_small k' va') l at_q (differs q used)));
    page = a.below;
    was_free = a.was_free;
    now_used = a.now_used;
    others = a.others;
    pointer =
        word-put_word s1.memory (t + 8 * idx k va) (pte_of (paddr p) 0) (omega (arith, a.below));
    empty = λ i l.
        let (q, _, used, at_q) = v.table.own k va t le f in
        word-put_word_other s1.memory (t + 8 * idx k va) (pte_of (paddr p) 0) (paddr p + 8 * i)
          (page_apart q (idx k va) i (idx_small k va) l at_q (differs q used))
        ∙ zeros i l;
  }
    where
      differs : (q : ℕ) → s.pages.inuse q ≡ true → q ≢ p
      differs q used e = cc (used, a.was_free, e)

      away :
          (q t' j i : ℕ)
          → j < 512
          → i < 8
          → t' ≡ paddr q
          → q ≢ p
          → (t' + 8 * j + i < paddr p) ⊎ (paddr p + pgsize ≤ t' + 8 * j + i)
      away q t' j i l m e ne = omega arith

      page_apart :
          (q j i : ℕ)
          → j < 512
          → i < 512
          → t ≡ paddr q
          → q ≢ p
          → (t + 8 * j + 8 ≤ paddr p + 8 * i) ⊎ (paddr p + 8 * i + 8 ≤ t + 8 * j)
      page_apart q j i l m e ne = omega arith

      zeros : (i : ℕ) → i < 512 → word s1.memory (paddr p + 8 * i) ≡ 0
      zeros i l =
          word_zero s1.memory (paddr p + 8 * i)
            (λ j m. ap s1.memory (omega arith) ∙ a.zeroed (8 * i + j) (omega arith))

-- The table below is there, or it is made, or no page is left.
pub next_table-IsSpace :
    (ut : Bool) (root : ℕ) (s : Space) (k va t : ℕ)
    → IsSpace root s
    → k < 2
    → table_at s.pages.memory root k va ≡ some t
    → ((next_table ut (t + 8 * idx k va) s ≡ none) × (free_cnt s ≡ 0))
      ⊎ ((t' : ℕ) × (s' : Space) × (next_table ut (t + 8 * idx k va) s ≡ some (t', s'))
          × IsSpace root s'
          × (table_at s'.pages.memory root (suc k) va ≡ some t')
          × (free_cnt s ≤ suc (free_cnt s'))
          × ((va' : ℕ) → entry s'.pages.memory root va' ≡ entry s.pages.memory root va'))
unfolding next_table new_table
next_table-IsSpace ut root s k va t v h f =
    elim (Bool-cases (is_valid (word s.pages.memory (t + 8 * idx k va)))) [
      | inl y ↦ inr (
        table_of (word s.pages.memory (t + 8 * idx k va)),
        s,
        rw (y, next_table) refl,
        v,
        at_next s.pages.memory root k va t f ∙ rw y refl,
        omega arith,
        λ va'. refl,
      )
      | inr n ↦ elim (alloc_page-Allocated npage s.pages v.pool) [
        | inl (stop, full) ↦ inl (
          rw (n, next_table, stop) refl,
          subst (Counted (free_cnt s)) stop (alloc_page-Counted s.pages),
        )
        | inr (p, s1, run, a) ↦
            let le : k ≤ 2 = omega arith in
            let l = linked root s v k va t le f p s1 a in
            let gone : table_at s.pages.memory root (suc k) va ≡ none =
              at_next s.pages.memory root k va t f ∙ rw n refl in
            inr (
              paddr p,
              record {
                pages = record s1 {
                  memory = put_word s1.memory (t + 8 * idx k va) (pte_of (paddr p) 0);
                };
                page_head = if ut then s.page_head ++ (p ∷ []) else s.page_head;
              },
              rw (n, next_table, run)
                  (ap
                    (λ x. some (
                      x,
                      record {
                        pages = record s1 {
                          memory = put_word s1.memory (t + 8 * idx k va) (pte_of (paddr p) 0);
                        };
                        page_head = if ut then s.page_head ++ (p ∷ []) else s.page_head;
                      },
                    ))
                    (ap table_of l.pointer ∙ (table_of-pte_of p a.below).0)),
              record {
                table =
                    linked-IsTable root s.pages v.table k va t h le f gone p
                      (record s1 {
                        memory = put_word s1.memory (t + 8 * idx k va) (pte_of (paddr p) 0);
                      })
                      l;
                pool =
                    IsPool-memory npage s1
                      (put_word s1.memory (t + 8 * idx k va) (pte_of (paddr p) 0)) a.pool;
              },
              linked_at root s.pages v.table k va t h le f gone p
                  (record s1 {
                    memory = put_word s1.memory (t + 8 * idx k va) (pte_of (paddr p) 0);
                  })
                  l,
              omega (arith, subst (Counted (free_cnt s)) run (alloc_page-Counted s.pages)),
              linked_entry root s.pages v.table k va t h le f gone p
                  (record s1 {
                    memory = put_word s1.memory (t + 8 * idx k va) (pte_of (paddr p) 0);
                  })
                  l,
            )
      ]
    ]
