-- ===== src/Mem/Vm/Examples.antt =====
-- An empty root table at page 0, with pages 1 and 2 free and every other page in use.
use tnix.Common.{
  ℕ, ◌+◌, ◌*◌, ◌≤◌, ◌<◌, ◌≡◌, refl, ◌-◌, ◌≢◌, if◌then◌else◌, false, [], ◌∷◌, true, not, ◌||◌, some,
  arith, ◌==◌, ◌⊎◌,
}
use tnix.Util.Str.{Memory}
use tnix.Mem.Pages.{Pages, pgsize, paddr}
use tnix.Mem.Vm.{Space, va_top, svmmap, vmunmap, va_to_pa}
use tnix.Mem.Vm.Table.{IsTable}
use tnix.Mem.Vm.Descend.{IsSpace}
use tnix.Mem.Vm.Empty.{empty-IsTable}
use tnix.Mem.Vm.{is_user_writable, copied, killed, copy_to_user}
use tnix.Mem.Vm.Copy.{copy_to_user_lem}
use tnix.Util.Str.Copy.{within}
use tnix.Mem.Words.{word}
use tnix.Mem.Vm.Translate.{va_to_pa-svmmap}
use tnix.Mem.Vm.Unmap.{va_to_pa-vmunmap}

abbrev blank : Memory
blank a = 0

abbrev young : Pages
young = record { inuse = λ p. not (p == 1 || p == 2); free = 1 ∷ 2 ∷ []; memory = blank }

abbrev space : Space
space = record { pages = young; page_head = [] }

young-IsTable : IsTable (paddr 0) young
young-IsTable = empty-IsTable 0 young (λ i l. refl) (omega arith) refl

space-IsSpace : IsSpace (paddr 0) space
space-IsSpace = record {
  table = young-IsTable;
  pool = record { listed = λ p h. ground arith; within = λ p h. ground arith };
}

va_to_pa-svmmap_example :
    (s' : Space) × (svmmap (paddr 0) 65536 (paddr 9) (pgsize * 1) 22 true space ≡ some s')
    × IsSpace (paddr 0) s'
    × ((i : ℕ) → i < pgsize * 1 → (va_to_pa (paddr 0) (65536 + i) s'.pages.memory).0 ≡ paddr 9 + i)
    × ((va' : ℕ)
        → va' < va_top
        → (va' < 65536) ⊎ (65536 + pgsize * 1 ≤ va')
        → (va_to_pa (paddr 0) va' s'.pages.memory).0
          ≡ (va_to_pa (paddr 0) va' space.pages.memory).0)
va_to_pa-svmmap_example =
    va_to_pa-svmmap true (paddr 0) 65536 (paddr 9) 1 22 space space-IsSpace refl refl (omega arith)
      (omega arith) (omega arith) refl (omega arith)

-- The space behind that call.
abbrev mapped_space : Space
mapped_space =
    (va_to_pa-svmmap true (paddr 0) 65536 (paddr 9) 1 22 space space-IsSpace refl refl (omega arith)
      (omega arith) (omega arith) refl (omega arith)).0

mapped_space-IsSpace : IsSpace (paddr 0) mapped_space
mapped_space-IsSpace =
    let (s', run, v, f, g) =
      va_to_pa-svmmap true (paddr 0) 65536 (paddr 9) 1 22 space space-IsSpace refl refl
        (omega arith) (omega arith) (omega arith) refl (omega arith) in
    v

va_to_pa-vmunmap_example :
    (m' : Memory) × (vmunmap (paddr 0) 65536 (pgsize * 3) mapped_space.pages.memory ≡ some m')
    × IsTable (paddr 0) (record mapped_space.pages { memory = m' })
    × ((i : ℕ) → i < pgsize * 3 → (va_to_pa (paddr 0) (65536 + i) m').0 ≡ 0)
    × ((va' : ℕ)
        → va' < va_top
        → (va' < 65536) ⊎ (65536 + pgsize * 3 ≤ va')
        → (va_to_pa (paddr 0) va' m').0 ≡ (va_to_pa (paddr 0) va' mapped_space.pages.memory).0)
va_to_pa-vmunmap_example =
    va_to_pa-vmunmap (paddr 0) 65536 3 mapped_space.pages mapped_space-IsSpace.table refl
      (omega arith)

copy_to_user_lem_example :
    (((va_to_pa (paddr 0) 65600 mapped_space.pages.memory).0 ≢ 0)
      × (is_user_writable
            (word mapped_space.pages.memory (va_to_pa (paddr 0) 65600 mapped_space.pages.memory).1)
          ≡ true)
      × ((m' : Memory) × (copy_to_user (paddr 0) 65600 (paddr 20) 3 mapped_space.pages.memory
            ≡ some (copied m'))
          × ((x : ℕ)
              → m' x ≡ (
                  if within (va_to_pa (paddr 0) 65600 mapped_space.pages.memory).0 3 x
                  then mapped_space.pages.memory
                      (paddr 20 + (x - (va_to_pa (paddr 0) 65600 mapped_space.pages.memory).0))
                  else mapped_space.pages.memory x))))
    ⊎ ((((va_to_pa (paddr 0) 65600 mapped_space.pages.memory).0 ≡ 0)
          ⊎ (is_user_writable (
                word mapped_space.pages.memory
                  (va_to_pa (paddr 0) 65600 mapped_space.pages.memory).1)
              ≡ false))
        × (copy_to_user (paddr 0) 65600 (paddr 20) 3 mapped_space.pages.memory
            ≡ some (killed mapped_space.pages.memory)))
copy_to_user_lem_example =
    copy_to_user_lem (paddr 0) 65600 (paddr 20) 3 mapped_space.pages.memory (omega arith)
      (omega arith)
