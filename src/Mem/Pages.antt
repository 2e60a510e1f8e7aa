-- ===== src/Mem/Pages.antt =====
-- kernel/mem/alloc.c: pages of physical memory, by their index in `phy_mem`. The list `pages_head` is `free`, from
-- its first node on; `memory` has the byte of a physical address. The functions hold `mem_spin` while they use the list.
use tnix.Common.{
  ℕ, zero, suc, ◌+◌, ◌-◌, ◌*◌, ◌/◌, ◌≤◌, ◌<◌, List, [], ◌∷◌, ◌++◌, Bool, true, false, ◌&&◌, Option,
  none, some, if◌then◌else◌, ◌==◌, ltb,
}
pub mod Pool

abbrev pub pgsize : ℕ
pgsize = 4096

abbrev pub phy_memory : ℕ
phy_memory = 2147483648

abbrev pub phy_size : ℕ
phy_size = 536870912

abbrev pub npage : ℕ
npage = 131072

pub record Pages : Type 0 where
  pub inuse : ℕ → Bool
  pub free : List ℕ
  pub memory : ℕ → ℕ

-- The field `paddr` of a page.
abbrev pub paddr : ℕ → ℕ
paddr p = phy_memory + p * pgsize

unfoldable pub page : ℕ → ℕ
page a = (a - phy_memory) / pgsize

abbrev pub align_up : ℕ → ℕ → ℕ
align_up a n = (a + (n - 1)) / n * n

abbrev pub marked : ℕ → Bool → (ℕ → Bool) → ℕ → Bool
marked p v inuse q = if q == p then v else inuse q

-- The loop of `init_memory`, for the `n` pages from `p` on; `end` is the end of the kernel.
unfoldable pub init_pages : ℕ → ℕ → ℕ → Pages → Pages
init_pages end p zero s = s
init_pages end p (suc n) s = init_pages end (suc p) n (
    if ltb (paddr p) (align_up end pgsize)
    then record s { inuse = marked p true s.inuse }
    else record s { inuse = marked p false s.inuse; free = s.free ++ (p ∷ []) })

unfoldable pub init_memory : ℕ → (ℕ → ℕ) → Pages
unfolding init_pages
init_memory end memory =
    init_pages end 0 npage (record { inuse = λ p. false; free = []; memory = memory })

-- `memset(paddr, 0, PGSIZE)`
abbrev pub cleared : ℕ → (ℕ → ℕ) → ℕ → ℕ
cleared p memory a =
    if ltb a (paddr p) then memory a else if ltb a (paddr p + pgsize) then 0 else memory a

-- `none` is the panic, of `free_page` too.
unfoldable pub alloc_page : Pages → Option (ℕ × Pages)
alloc_page s = elim s.free [
  | [] ↦ none
  | p ∷ rest ↦
      some (p, record { inuse = marked p true s.inuse; free = rest; memory = cleared p s.memory })
]

unfoldable pub free_page : ℕ → Pages → Option Pages
free_page p s =
    if s.inuse p
    then some (record s { inuse = marked p false s.inuse; free = s.free ++ (p ∷ []) })
    else none
