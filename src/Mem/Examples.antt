-- ===== src/Mem/Examples.antt =====
-- Pages and slots that the theorems are applied to.
use tnix.Common.{
  ◌||◌, ℕ, ◌*◌, ◌<◌, ◌≡◌, refl, List, [], ◌∷◌, true, false, none, some, arith, ◌==◌, length, ◌⊎◌,
}
use tnix.Mem.Pages.{Pages, alloc_page}
use tnix.Mem.Pages.Pool.{IsPool, Allocated, alloc_page-Allocated}
use tnix.Mem.Slots.{SlotBlock, alloc_slot, free_slot, panics, returns}
use tnix.Mem.Slots.Count.{Blocks, total}
use tnix.Mem.Slots.Laws.{Given, alloc_slot-Given}
use tnix.Mem.Slots.Free.{Paged, Returned, free_slot-Returned}

-- Three pages, of which the third is free.
abbrev three_pages : Pages
three_pages = record { inuse = λ p. p == 0 || p == 1; free = 2 ∷ []; memory = λ a. 7 }

three_pages-IsPool : IsPool 3 three_pages
three_pages-IsPool = record { listed = λ p h. ground arith; within = λ p h. ground arith }

alloc_page-Allocated_example :
    ((alloc_page three_pages ≡ none) × ((p : ℕ) → p < 3 → three_pages.inuse p ≡ true))
    ⊎ ((p : ℕ) × (s' : Pages) × (alloc_page three_pages ≡ some (p, s'))
        × Allocated 3 p three_pages s')
alloc_page-Allocated_example = alloc_page-Allocated 3 three_pages three_pages-IsPool

-- A full block, one with a chunk in use, and one with no page.
abbrev three_blocks : List SlotBlock
three_blocks =
    record { refc = 2; slot = 1; inuse = true ∷ true ∷ [] }
    ∷ record { refc = 1; slot = 0; inuse = false ∷ true ∷ [] }
    ∷ record { refc = 0; slot = 0; inuse = [] }
    ∷ []

three_blocks-Blocks : Blocks 2 three_blocks
three_blocks-Blocks = (
  record { counted = λ z. refl; size = λ z. refl },
  (
    record { counted = λ z. refl; size = λ z. refl },
    (record { counted = λ z. absurd (z refl); size = λ z. absurd (z refl) }, tt),
  ),
)

alloc_slot-Given_example :
    ((alloc_slot 2 three_blocks three_pages ≡ panics)
      × (((p : ℕ) → p < 3 → three_pages.inuse p ≡ true)
          ⊎ (total three_blocks ≡ 2 * length three_blocks)))
    ⊎ ((k i : ℕ) × (bs' : List SlotBlock) × (s' : Pages) × (alloc_slot 2 three_blocks three_pages
          ≡ returns k i bs' s')
        × Given 2 3 k i three_blocks bs' s')
alloc_slot-Given_example =
    alloc_slot-Given 2 3 (omega arith) (omega arith) three_blocks three_pages three_blocks-Blocks
      three_pages-IsPool

three_blocks-Paged : Paged 3 three_blocks three_pages
three_blocks-Paged = (
  λ z. (omega arith, refl, (λ z q. absurd (omega (arith, q)), (λ z. absurd (z refl), tt))),
  (λ z. (omega arith, refl, (λ z. absurd (z refl), tt)), (λ z. absurd (z refl), tt)),
)

free_slot-Returned_example :
    (bs' : List SlotBlock) × (s' : Pages) × (free_slot 1 1 three_blocks three_pages
      ≡ some (bs', s'))
    × Returned 2 3 1 1 three_blocks bs' three_pages s'
free_slot-Returned_example =
    free_slot-Returned 2 3 (omega arith) 1 1 three_blocks three_pages three_blocks-Blocks
      three_pages-IsPool three_blocks-Paged refl
