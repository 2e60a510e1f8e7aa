-- ===== src/Mem/Heap/Examples.antt =====
-- A task with an empty table at page 0, seven free pages, and no slot for an area in use.
use tnix.Common.{ℕ, ◌≡◌, refl, [], ◌∷◌, not, ◌&&◌, some, arith, ltb}
use tnix.Mem.Pages.{Pages, paddr}
use tnix.Mem.Slots.{SlotBlock}
use tnix.Mem.Slots.Count.{Blocks}
use tnix.Mem.Vm.Empty.{empty-IsTable}
use tnix.Mem.Heap.{MmStruct, vma_cnt, heap, sys_alloc, sys_free}
use tnix.Mem.Heap.Alloc.{IsMm, Gets, sys_alloc-Gets}

abbrev young_pages : Pages
young_pages = record {
  inuse = λ p. not (ltb 0 p && ltb p 8);
  free = 1 ∷ 2 ∷ 3 ∷ 4 ∷ 5 ∷ 6 ∷ 7 ∷ [];
  memory = λ a. 0;
}

abbrev closed : SlotBlock
closed = record { refc = 0; slot = 0; inuse = [] }

abbrev young : MmStruct
young = record {
  space = record { pages = young_pages; page_head = [] };
  vmas = [];
  next_heap = 65536;
  slots = closed ∷ closed ∷ closed ∷ [];
}

closed-Blocks : Blocks vma_cnt young.slots
closed-Blocks = (
  record { counted = λ z. absurd (z refl); size = λ z. absurd (z refl) },
  (
    record { counted = λ z. absurd (z refl); size = λ z. absurd (z refl) },
    (record { counted = λ z. absurd (z refl); size = λ z. absurd (z refl) }, tt),
  ),
)

young-IsMm : IsMm (paddr 0) young
young-IsMm = record {
  space = record {
    table = empty-IsTable 0 young_pages (λ i l. refl) (omega arith) refl;
    pool = record { listed = λ p h. ground arith; within = λ p h. ground arith };
  };
  slots = closed-Blocks;
  aligned = refl;
}

sys_alloc-Gets_example :
    (p : ℕ) × (m' : MmStruct) × (sys_alloc (paddr 0) young ≡ some (65536, m'))
    × Gets (paddr 0) young m' p
sys_alloc-Gets_example =
    sys_alloc-Gets (paddr 0) young young-IsMm (omega arith) (omega arith) (omega arith)
      (omega arith)

-- An area at a user address, freed by that address, stays.
abbrev grown : MmStruct
grown = record young {
  vmas =
      record {
        va = 65536;
        pa = paddr 1;
        size = 4096;
        attr = 22;
        vma_type = heap;
        block = 0;
        chunk = 0;
      }
      ∷ [];
}

free_run : sys_free 65536 grown ≡ some grown
unfolding sys_free
free_run = refl
