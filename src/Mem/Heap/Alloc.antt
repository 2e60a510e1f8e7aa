-- ===== src/Mem/Heap/Alloc.antt =====
-- What `sys_alloc` gives.
use tnix.Common.{
  ℕ, ◌+◌, ◌*◌, ◌%◌, ◌≤◌, ◌<◌, ◌≡◌, ◌≢◌, refl, ap, subst, sym, ◌∙◌, Bool, true, false, some, arith,
  length, inl, inr, ◌⊎◌, List, [], ◌∷◌, ◌++◌, ne→not_==,
}
use tnix.Mem.Pages.{Pages, pgsize, npage, paddr}
use tnix.Mem.Pages.Pool.{IsPool}
use tnix.Mem.Slots.{SlotBlock, returns, alloc_slot}
use tnix.Mem.Slots.Count.{Blocks, total}
use tnix.Mem.Slots.Laws.{alloc_slot-Given}
use tnix.Mem.Vm.{Space, va_top, va_to_pa}
use tnix.Mem.Vm.Table.{IsTable}
use tnix.Mem.Vm.Descend.{IsSpace, free_cnt}
use tnix.Mem.Vm.Taken.{Takes, alloc_page-Takes}
use tnix.Mem.Vm.Translate.{va_to_pa-svmmap, va_to_pa-entry, address_of}
use tnix.Mem.Heap.{
  MmStruct, heap, vma_cnt, ustack, alloc_page_for_task, task_vmmap, heap_attr, sys_alloc,
}
use tnix.Mem.Heap.Slot.{Left, Takes-both, alloc_slot-Left}

-- The memory of a task between two calls.
pub record IsMm (root : ℕ) (m : MmStruct) : Type 0 where
  pub space : IsSpace root m.space
  pub slots : Blocks vma_cnt m.slots
  pub aligned : m.next_heap % pgsize ≡ 0

-- Tables that translate the same.
same_address :
    (root n va : ℕ) (s s' : Pages)
    → IsTable root s
    → Takes root n s s'
    → (va_to_pa root va s'.memory).0 ≡ (va_to_pa root va s.memory).0
same_address root n va s s' v t =
    va_to_pa-entry root s' t.table va
    ∙ ap (λ w. address_of w va) (t.entries va)
    ∙ sym (va_to_pa-entry root s v va)

-- The slot for an area, where there is one.
slot_found :
    (root : ℕ) (bs : List SlotBlock) (s : Pages)
    → IsTable root s
    → IsPool npage s
    → Blocks vma_cnt bs
    → total bs < vma_cnt * length bs
    → 0 < length s.free
    → (k i : ℕ) × (bs' : List SlotBlock) × (s' : Pages) × (alloc_slot vma_cnt bs s
        ≡ returns k i bs' s')
      × Blocks vma_cnt bs'
      × Takes root (length bs) s s'
slot_found root bs s v w b room few =
    elim (alloc_slot-Given vma_cnt npage (omega arith) (omega arith) bs s b w) [
      | inl (run, inl full) ↦ elim (alloc_page-Takes root s v w) [
        | inl (stop, z) ↦ absurd (omega arith)
        | inr (p, s', got, free, l, t) ↦ absurd (true_false (sym (full p l) ∙ free))
      ]
      | inl (run, inr full) ↦ absurd (omega arith)
      | inr (k, i, bs', s', run, g) ↦ (
        k,
        i,
        bs',
        s',
        run,
        g.blocks,
        subst (Left root (length bs) s) run (alloc_slot-Left root vma_cnt bs s v w),
      )
    ]
  where
    true_false : ◌≢◌ {A = Bool} true false
    true_false e = absurd (cc e)

-- The area is mapped to page `p`, which `sys_alloc` has taken.
pub record Gets (root : ℕ) (m m' : MmStruct) (p : ℕ) : Type 0 where
  pub was_free : m.space.pages.inuse p ≡ false
  pub valid : IsMm root m'
  pub moved : m'.next_heap ≡ m.next_heap + pgsize
  pub mapped :
      (i : ℕ) → i < pgsize → (va_to_pa root (m.next_heap + i) m'.space.pages.memory).0 ≡ paddr p + i
  pub others :
      (va : ℕ)
      → va < va_top
      → (va < m.next_heap) ⊎ (m.next_heap + pgsize ≤ va)
      → (va_to_pa root va m'.space.pages.memory).0 ≡ (va_to_pa root va m.space.pages.memory).0

-- For a task whose tables, page pool and slots fulfil their invariants, with an aligned end of the
-- heap that is not `USTACK` and leaves a page below `VA_TOP`, a chunk free in its slots, and three
-- free pages and one more for each block of them: `sys_alloc` returns the end of the heap, moves
-- it by a page, keeps the invariants and maps the page there to one that was not in use; every
-- other address below `VA_TOP` is translated as before.
pub sys_alloc-Gets :
    (root : ℕ) (m : MmStruct)
    → IsMm root m
    → m.next_heap ≢ ustack
    → m.next_heap + pgsize ≤ va_top
    → total m.slots < vma_cnt * length m.slots
    → 3 + length m.slots ≤ free_cnt m.space
    → (p : ℕ) × (m' : MmStruct) × (sys_alloc root m ≡ some (m.next_heap, m')) × Gets root m m' p
unfolding sys_alloc
sys_alloc-Gets root m v ne top room free =
    elim (alloc_page-Takes root m.space.pages v.space.table v.space.pool) [
      | inl (stop, z) ↦ absurd (omega arith)
      | inr (p, s1, run1, was, below, t1) ↦
          let (k, i, bs, s2, run2, b2, t2) =
            slot_found root m.slots s1 t1.table t1.pool v.slots room (omega (arith, t1.few)) in
          let t : Takes root (1 + length m.slots) m.space.pages s2 =
            Takes-both root 1 (length m.slots) m.space.pages s1 s2 t1 t2 in
          let s : Space = record { pages = s2; page_head = m.space.page_head ++ (p ∷ []) } in
          let (s', run3, v', here, there) =
            va_to_pa-svmmap true root m.next_heap (paddr p) 1 heap_attr s
              (record { table = t.table; pool = t.pool }) v.aligned (omega arith) (omega arith)
              (omega arith) (omega arith) refl (omega (arith, t.few)) in
          let m' : MmStruct = record {
            space = s';
            vmas =
                m.vmas
                ++ (record {
                  va = m.next_heap;
                  pa = paddr p;
                  size = pgsize;
                  attr = heap_attr;
                  vma_type = heap;
                  block = k;
                  chunk = i;
                }
                    ∷ []);
            next_heap = m.next_heap + pgsize;
            slots = bs;
          } in
          (
            p,
            m',
            rw (ne→not_== m.next_heap ustack ne, alloc_page_for_task, run1, task_vmmap, run2, run3)
                refl,
            record {
              was_free = was;
              valid = record { space = v'; slots = b2; aligned = omega (arith, v.aligned) };
              moved = refl;
              mapped = λ j l. here j (omega arith);
              others = λ va l o.
                  there va l (elim o [ inl a ↦ inl a | inr a ↦ inr (omega arith) ])
                  ∙ same_address root (1 + length m.slots) va m.space.pages s2 v.space.table t;
            },
          )
    ]
