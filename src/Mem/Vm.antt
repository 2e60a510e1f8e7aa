-- ===== src/Mem/Vm.antt =====
-- kernel/mem/vm.c: page tables in physical memory, and the copies to and from user addresses. A table is the physical
-- address of its page; memory is that of Mem/Pages, so that a new table is a page that `alloc_page` gives.
-- `page_head` is the list of the task's pages. Attributes are bits below bit 10 of an entry.
use tnix.Common.{
  ℕ, zero, suc, ◌+◌, ◌-◌, ◌*◌, ◌/◌, ◌%◌, ◌^◌, min, List, [], ◌∷◌, ◌++◌, Bool, true, false, not,
  ◌&&◌, ◌||◌, Option, none, some, if◌then◌else◌, ◌==◌, ltb,
}
use tnix.Util.Str.{Memory, memcpy}
use tnix.Mem.Pages.{Pages, pgsize, phy_memory, phy_size, paddr, align_up, alloc_page}
use tnix.Mem.Words.{word, put_word}
pub mod Table
pub mod Grow
pub mod Fresh
pub mod Descend
pub mod Map
pub mod Taken
pub mod Empty
pub mod Translate
pub mod Unmap
pub mod Copy
mod Examples

abbrev pub va_level : ℕ → ℕ → ℕ
va_level va level = va / 4096 / 2 ^ (9 * level) % 512

abbrev pub va_top : ℕ
va_top = 274877906944

abbrev pub phy_top : ℕ
phy_top = phy_memory + phy_size

abbrev pub u64_mod : ℕ
u64_mod = 18446744073709551616

pub record Space : Type 0 where
  pub pages : Pages
  pub page_head : List ℕ

-- `*pte & PTE_V`; `*pte & (PTE_R | PTE_W | PTE_X)`; the bits `PTE_W | PTE_U` and `PTE_R | PTE_U`.
abbrev pub is_valid : ℕ → Bool
is_valid e = e % 2 == 1

abbrev pub is_leaf : ℕ → Bool
is_leaf e = not (e / 2 % 8 == 0)

abbrev pub is_user_writable : ℕ → Bool
is_user_writable e = e / 4 % 2 == 1 && e / 16 % 2 == 1

abbrev pub is_user_readable : ℕ → Bool
is_user_readable e = e / 2 % 2 == 1 && e / 16 % 2 == 1

-- `((pa >> 12) << 10) | PTE_V | attr`, and `(*pte >> 10) << 12`.
abbrev pub pte_of : ℕ → ℕ → ℕ
pte_of pa attr = (pa / 4096 * 1024 + (attr / 2 * 2 + 1)) % u64_mod

abbrev pub table_of : ℕ → ℕ
table_of e = e / 1024 * 4096 % u64_mod

abbrev pub pte_at : ℕ → ℕ → ℕ → ℕ
pte_at cur va level = cur + 8 * va_level va level

-- A store to an entry.
abbrev pub put_pte : ℕ → ℕ → Space → Space
put_pte a e s = record s { pages = record s.pages { memory = put_word s.pages.memory a e } }

-- A new table for the entry at `a`; with a task the page goes to its list. `none` is the panic of `alloc_page`.
unfoldable pub new_table : Bool → ℕ → Space → Option Space
new_table ut a s = elim (alloc_page s.pages) [
  | none ↦ none
  | some (p, pages) ↦ some (
      put_pte a (pte_of (paddr p) 0)
        (record { pages = pages; page_head = if ut then s.page_head ++ (p ∷ []) else s.page_head }))
]

-- The table below the entry at `a`, made where there is none.
unfoldable pub next_table : Bool → ℕ → Space → Option (ℕ × Space)
unfolding new_table
next_table ut a s = elim (is_valid (word s.pages.memory a)) [
  | true ↦ some (table_of (word s.pages.memory a), s)
  | false ↦ elim (new_table ut a s) [
    | none ↦ none
    | some s' ↦ some (table_of (word s'.pages.memory a), s')
  ]
]

-- The loop over the levels, from `level` down to `gra`.
unfoldable pub map_from : Bool → ℕ → ℕ → ℕ → ℕ → ℕ → ℕ → Space → Option Space
unfolding next_table
map_from ut gra zero cur va pa attr s = some (put_pte (pte_at cur va 0) (pte_of pa attr) s)
map_from ut gra (suc l) cur va pa attr s = elim (suc l == gra) [
  | true ↦ some (put_pte (pte_at cur va (suc l)) (pte_of pa attr) s)
  | false ↦ elim (next_table ut (pte_at cur va (suc l)) s) [
    | none ↦ none
    | some (t, s') ↦ map_from ut gra l t va pa attr s'
  ]
]

-- `n` rounds of the loop over the pages.
unfoldable pub map_pages : Bool → ℕ → ℕ → ℕ → ℕ → ℕ → ℕ → ℕ → Space → Option Space
unfolding map_from
map_pages ut gra delta ptb zero va pa attr s = some s
map_pages ut gra delta ptb (suc n) va pa attr s = elim (map_from ut gra 2 ptb va pa attr s) [
  | none ↦ none
  | some s' ↦ map_pages ut gra delta ptb n (va + delta) (pa + delta) attr s'
]

-- `PGSIZE`, `MPGSIZE` and `GPGSIZE`.
abbrev pub delta_of : ℕ → ℕ
delta_of gra = 4096 * 512 ^ gra

-- The rounds of `for (; va < bound; va += delta)`.
abbrev pub rounds : ℕ → ℕ → ℕ → ℕ
rounds va bound delta = (bound - va + (delta - 1)) / delta

unfoldable pub do_vmmap : ℕ → ℕ → ℕ → ℕ → ℕ → ℕ → Bool → Space → Option Space
unfolding map_pages
do_vmmap ptb va pa size attr gra ut s =
    if not (va % pgsize == 0) || not (pa % pgsize == 0)
    then none
    else if ltb va_top ((va + size) % u64_mod) || ltb phy_top ((pa + size) % u64_mod)
    then none
    else if ltb 2 gra
    then none
    else map_pages ut gra (delta_of gra) ptb
        (rounds va (align_up ((va + size) % u64_mod) (delta_of gra)) (delta_of gra)) va pa attr s

unfoldable pub svmmap : ℕ → ℕ → ℕ → ℕ → ℕ → Bool → Space → Option Space
unfolding do_vmmap
svmmap ptb va pa size attr ut s = do_vmmap ptb va pa size attr 0 ut s

unfoldable pub mvmmap : ℕ → ℕ → ℕ → ℕ → ℕ → Space → Option Space
unfolding do_vmmap
mvmmap ptb va pa size attr s = do_vmmap ptb va pa size attr 1 false s

-- The loop of `vmunmap` over the levels.
unfoldable pub unmap_from : ℕ → ℕ → ℕ → Memory → Memory
unmap_from zero cur va m =
    if is_valid (word m (pte_at cur va 0)) then put_word m (pte_at cur va 0) 0 else m
unmap_from (suc l) cur va m =
    let a = pte_at cur va (suc l) in
    elim (is_valid (word m a)) [ true ↦ unmap_from l (table_of (word m a)) va m | false ↦ m ]

unfoldable pub unmap_pages : ℕ → ℕ → ℕ → Memory → Memory
unfolding unmap_from
unmap_pages ptb zero va m = m
unmap_pages ptb (suc n) va m = unmap_pages ptb n (va + pgsize) (unmap_from 2 ptb va m)

unfoldable pub vmunmap : ℕ → ℕ → ℕ → Memory → Option Memory
unfolding unmap_pages
vmunmap ptb va size m =
    if not (va % pgsize == 0)
    then none
    else if ltb va_top ((va + size) % u64_mod)
    then none
    else some (unmap_pages ptb (rounds va (align_up ((va + size) % u64_mod) pgsize) pgsize) va m)

-- The loop of `get_pte`; `none` is NULL.
unfoldable pub get_pte_from : ℕ → ℕ → ℕ → Memory → Option ℕ
get_pte_from zero cur va m =
    let e = word m (pte_at cur va 0) in
    if is_valid e && is_leaf e then some (pte_at cur va 0) else none
get_pte_from (suc l) cur va m =
    let a = pte_at cur va (suc l) in
    elim (is_valid (word m a)) [
      | true ↦ elim (is_leaf (word m a)) [
        | true ↦ some a
        | false ↦ get_pte_from l (table_of (word m a)) va m
      ]
      | false ↦ none
    ]

unfoldable pub get_pte : ℕ → ℕ → Memory → Option ℕ
unfolding get_pte_from
get_pte ptb va m = get_pte_from 2 ptb va m

-- `va_to_pa` once `get_pte` has answered: the address, 0 where there is none, and the entry's address.
abbrev pub address_at : Memory → ℕ → Option ℕ → ℕ × ℕ
address_at m va none = (0, 0)
address_at m va (some a) =
    if is_leaf (word m a) then (word m a / 1024 % 2 ^ 44 * 4096 + va % pgsize, a) else (0, 0)

unfoldable pub va_to_pa : ℕ → ℕ → Memory → ℕ × ℕ
unfolding get_pte
va_to_pa ptb va m = address_at m va (get_pte ptb va m)

-- What a copy comes to: the memory where the task is killed, or behind the copy.
pub data Copied : Type 0 where
  killed : Memory → Copied
  copied : Memory → Copied

abbrev pub copy_len : ℕ → ℕ → ℕ
copy_len u pend_bytes = min (align_up (u + 1) pgsize - u) pend_bytes

-- Each round copies a byte at least.
unfoldable pub copy_to_loop : ℕ → ℕ → ℕ → ℕ → ℕ → Memory → Option Copied
unfolding va_to_pa
copy_to_loop zero ptb ud kd pend_bytes m = none
copy_to_loop (suc fuel) ptb ud kd pend_bytes m =
    let len = copy_len ud pend_bytes in
    let r = va_to_pa ptb ud m in
    elim (pend_bytes == 0) [
      | true ↦ some (copied m)
      | false ↦ elim (r.0 == 0 || not (is_user_writable (word m r.1))) [
        | true ↦ some (killed m)
        | false ↦
            copy_to_loop fuel ptb (ud + len) (kd + len) (pend_bytes - len) (memcpy m r.0 kd len)
      ]
    ]

unfoldable pub copy_to_user : ℕ → ℕ → ℕ → ℕ → Memory → Option Copied
unfolding copy_to_loop
copy_to_user ptb udst ksrc bytes m = copy_to_loop (suc bytes) ptb udst ksrc bytes m

unfoldable pub copy_from_loop : ℕ → ℕ → ℕ → ℕ → ℕ → Memory → Option Copied
unfolding va_to_pa
copy_from_loop zero ptb kd us pend_bytes m = none
copy_from_loop (suc fuel) ptb kd us pend_bytes m =
    let len = copy_len us pend_bytes in
    let r = va_to_pa ptb us m in
    elim (pend_bytes == 0) [
      | true ↦ some (copied m)
      | false ↦ elim (r.0 == 0 || not (is_user_readable (word m r.1))) [
        | true ↦ some (killed m)
        | false ↦
            copy_from_loop fuel ptb (kd + len) (us + len) (pend_bytes - len) (memcpy m kd r.0 len)
      ]
    ]

unfoldable pub copy_from_user : ℕ → ℕ → ℕ → ℕ → Memory → Option Copied
unfolding copy_from_loop
copy_from_user ptb kdst usrc bytes m = copy_from_loop (suc bytes) ptb kdst usrc bytes m
