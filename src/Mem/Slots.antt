-- ===== src/Mem/Slots.antt =====
-- kernel/mem/slot.c: what `slot_define` makes of a table of blocks, each a page of `per` chunks;
-- `per` is `PGSIZE / sizeof(struct chunk)`. `alloc_page` clears the page, so its chunks start unused. The blocks stand
-- in the order of the table, which is the one `init` links them in; a chunk's `belong` is its block.
use tnix.Common.{
  ℕ, zero, suc, ◌+◌, ◌-◌, ◌≤◌, ◌<◌, List, [], ◌∷◌, Bool, true, false, Option, none, some,
  if◌then◌else◌, ◌==◌, get_elem?, set, replicate, add32, sub32,
}
use tnix.Mem.Pages.{Pages, alloc_page, free_page}
pub mod Count
pub mod Laws
pub mod Free

-- `slot` is the page, and `inuse` has the flags of its chunks, which the source keeps in the page itself.
pub record SlotBlock : Type 0 where
  pub refc : ℕ
  pub slot : ℕ
  pub inuse : List Bool

-- `returns k i bs s`: chunk `i` of block `k`. `panics` is either panic; `spins` a turn that leaves `cur` as it is.
pub data Outcome : Type 0 where
  panics : Outcome
  spins : Outcome
  returns : ℕ → ℕ → List SlotBlock → Pages → Outcome

-- A block with no reference gets a page.
unfoldable pub opened : ℕ → SlotBlock → Pages → Option (SlotBlock × Pages)
unfolding alloc_page
opened per b s = elim (b.refc == 0) [
  | true ↦ elim (alloc_page s) [
    | none ↦ none
    | some (p, s') ↦ some (record b { slot = p; inuse = replicate per false }, s')
  ]
  | false ↦ some (b, s)
]

unfoldable pub first_unused : List Bool → Option ℕ
first_unused [] = none
first_unused (true ∷ fs) = elim (first_unused fs) [ none ↦ none | some i ↦ some (suc i) ]
first_unused (false ∷ fs) = some 0

-- What the blocks before the chosen one have become is kept.
abbrev pub behind_block : SlotBlock → Outcome → Outcome
behind_block b panics = panics
behind_block b spins = spins
behind_block b (returns k i bs s) = returns (suc k) i (b ∷ bs) s

abbrev pub taken : ℕ → SlotBlock → SlotBlock
taken i b = record b { refc = add32 b.refc 1; inuse = set b.inuse i true }

abbrev pub take_chunk : SlotBlock → List SlotBlock → Pages → Option ℕ → Outcome
take_chunk b bs s none = spins
take_chunk b bs s (some i) = returns 0 i (taken i b ∷ bs) s

unfoldable pub alloc_slot : ℕ → List SlotBlock → Pages → Outcome
unfolding opened first_unused
alloc_slot per [] s = panics
alloc_slot per (b ∷ bs) s = elim (opened per b s) [
  | none ↦ panics
  | some (b', s') ↦ elim (b'.refc == per) [
    | true ↦ behind_block b' (alloc_slot per bs s')
    | false ↦ take_chunk b' bs s' (first_unused b'.inuse)
  ]
]

-- `free` of chunk `i` of a block; `none` is the panic of `free_page`.
unfoldable pub free_chunk : ℕ → SlotBlock → Pages → Option (SlotBlock × Pages)
unfolding free_page
free_chunk i b s =
    let refc = sub32 b.refc 1 in
    elim (refc == 0) [
      | true ↦ elim (free_page b.slot s) [
        | none ↦ none
        | some s' ↦ some (record { refc = refc; slot = 0; inuse = set b.inuse i false }, s')
      ]
      | false ↦ some (record b { refc = refc; inuse = set b.inuse i false }, s)
    ]

-- `free` of chunk `i` of block `k`, which its `belong` names.
unfoldable pub free_slot : ℕ → ℕ → List SlotBlock → Pages → Option (List SlotBlock × Pages)
unfolding free_chunk
free_slot k i [] s = none
free_slot zero i (b ∷ bs) s = elim (free_chunk i b s) [
  | none ↦ none
  | some (b', s') ↦ some (b' ∷ bs, s')
]
free_slot (suc k) i (b ∷ bs) s = elim (free_slot k i bs s) [
  | none ↦ none
  | some (bs', s') ↦ some (b ∷ bs', s')
]

-- `init`: the blocks of a table, none with a page.
unfoldable pub init_slot : ℕ → List SlotBlock
init_slot n = replicate n (record { refc = 0; slot = 0; inuse = [] })
