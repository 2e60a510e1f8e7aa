-- ===== src/Mem/Heap.antt =====
-- The memory of a task: `alloc_page_for_task` of kernel/mem/alloc.c, `task_vmmap` of kernel/mem/vm.c, and `sys_alloc` and
-- `sys_free` of kernel/syscall/sysmem.c, on the tables of Mem/Vm and the slots of Mem/Slots. An area keeps the block and the
-- chunk of its slot.
use tnix.Common.{
  ℕ, zero, suc, ◌+◌, ◌-◌, ◌/◌, ◌%◌, List, [], ◌∷◌, ◌++◌, Bool, true, false, not, ◌&&◌, Option, none,
  some, if◌then◌else◌, ◌==◌,
}
use tnix.Mem.Pages.{Pages, pgsize, paddr, alloc_page}
use tnix.Mem.Slots.{SlotBlock, Outcome, panics, spins, returns, alloc_slot, free_slot}
use tnix.Mem.Vm.{Space, va_top, svmmap}
pub mod Slot
pub mod Alloc
mod Examples

pub data VmaType : Type 0 where
  stack heap text data_area : VmaType

pub record Vma : Type 0 where
  pub va : ℕ
  pub pa : ℕ
  pub size : ℕ
  pub attr : ℕ
  pub vma_type : VmaType
  pub block : ℕ
  pub chunk : ℕ

-- `mm_struct` with the task's tables, and the blocks of the slots for areas.
pub record MmStruct : Type 0 where
  pub space : Space
  pub vmas : List Vma
  pub next_heap : ℕ
  pub slots : List SlotBlock

-- A chunk of an area has 64 bytes.
abbrev pub vma_cnt : ℕ
vma_cnt = pgsize / 64

abbrev pub trampoline : ℕ
trampoline = va_top - pgsize

abbrev pub trapframe : ℕ
trapframe = trampoline - pgsize

abbrev pub ustack : ℕ
ustack = trapframe - pgsize

unfoldable pub alloc_page_for_task : Space → Option (ℕ × Space)
unfolding alloc_page
alloc_page_for_task s = elim (alloc_page s.pages) [
  | none ↦ none
  | some (p, pages) ↦ some (p, record { pages = pages; page_head = s.page_head ++ (p ∷ []) })
]

-- The area, with the slot that `alloc_vma_slot` gave; `none` is a panic.
abbrev pub map_area : ℕ → (va pa size attr : ℕ) → VmaType → MmStruct → Outcome → Option MmStruct
map_area root va pa size attr t m panics = none
map_area root va pa size attr t m spins = none
map_area root va pa size attr t m (returns k i bs pages) =
    elim (svmmap root va pa size attr true (record m.space { pages = pages })) [
      | none ↦ none
      | some s ↦ some (record m {
        space = s;
        slots = bs;
        vmas =
            m.vmas
            ++ (record {
              va = va;
              pa = pa;
              size = size;
              attr = attr;
              vma_type = t;
              block = k;
              chunk = i;
            }
                ∷ []);
      })
    ]

unfoldable pub task_vmmap : ℕ → (va pa size attr : ℕ) → VmaType → MmStruct → Option MmStruct
unfolding alloc_slot
task_vmmap root va pa size attr t m =
    map_area root va pa size attr t m (alloc_slot vma_cnt m.slots m.space.pages)

-- `PTE_U | PTE_W | PTE_R`
abbrev pub heap_attr : ℕ
heap_attr = 22

-- `sys_alloc` for the task with the table `root`: the address, or 0.
unfoldable pub sys_alloc : ℕ → MmStruct → Option (ℕ × MmStruct)
unfolding alloc_page_for_task task_vmmap
sys_alloc root m =
    if m.next_heap == ustack then some (0, m) else elim (alloc_page_for_task m.space) [
      | none ↦ none
      | some (p, s) ↦
          elim (task_vmmap root m.next_heap (paddr p) pgsize heap_attr heap
            (record m { space = s })) [
              | none ↦ none
              | some m' ↦ some (m.next_heap, record m' { next_heap = m'.next_heap + pgsize })
            ]
    ]

abbrev pub is_heap : VmaType → Bool
is_heap heap = true
is_heap _ = false

-- The loop of `sys_free`: the areas that stay, and the slots and pages behind it.
unfoldable pub free_vmas :
    ℕ → List Vma → List SlotBlock → Pages → Option (List Vma × List SlotBlock × Pages)
unfolding free_slot
free_vmas a [] bs s = some ([], bs, s)
free_vmas a (v ∷ vs) bs s = elim (is_heap v.vma_type && v.pa == a) [
  | true ↦ elim (free_slot v.block v.chunk bs s) [
    | none ↦ none
    | some (bs', s') ↦ free_vmas a vs bs' s'
  ]
  | false ↦ elim (free_vmas a vs bs s) [
    | none ↦ none
    | some (rest, bs', s') ↦ some (v ∷ rest, bs', s')
  ]
]

-- `sys_free`, which returns -1 whatever it does.
unfoldable pub sys_free : ℕ → MmStruct → Option MmStruct
unfolding free_vmas
sys_free a m =
    if a == 0
    then some m
    else if not (a % pgsize == 0)
    then some m
    else elim (free_vmas a m.vmas m.slots m.space.pages) [
      | none ↦ none
      | some (vs, bs, pages) ↦
          some (record m { vmas = vs; slots = bs; space = record m.space { pages = pages } })
    ]
