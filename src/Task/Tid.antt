-- ===== src/Task/Tid.antt =====
-- `alloc_tid` and `free_tid` of kernel/task/task.c. The map is `NPROC / 32 + 1`, that is two, words;
-- `none` is an access outside it. The spin lock is held throughout.
use tnix.Common.{
  ℕ, zero, suc, ◌+◌, ◌-◌, ◌*◌, ◌/◌, ◌%◌, ◌^◌, List, [], ◌∷◌, Option, none, some, if◌then◌else◌,
  ◌==◌, ltb, length, get_elem?, set, u32_mod, test_bit, set_bit, clear_bit,
}
pub mod Alloc
mod Examples

-- The first word from index `i` on that is not all ones, or the index behind the map.
first_word : List ℕ → ℕ → ℕ
first_word [] i = i
first_word (w ∷ ws) i = let later = first_word ws (suc i) in if w == u32_mod - 1 then later else i

-- The first clear bit among the `n` from bit `j` on.
first_bit : ℕ → ℕ → ℕ → Option ℕ
first_bit w j zero = none
first_bit w j (suc n) = let later = first_bit w (suc j) n in if test_bit w j then later else some j

-- A full word cannot come out of the first loop, so that the second one always finds a bit.
pub alloc_tid : List ℕ → Option (ℕ × List ℕ)
alloc_tid tidmap =
    let i = first_word tidmap 0 in
    elim (get_elem? tidmap i) [
      | none ↦ none
      | some w ↦ elim (first_bit w 0 32) [
        | none ↦ none
        | some j ↦ some ((i * 4 + j + 1) % 2 ^ 16, set tidmap i (set_bit w j))
      ]
    ]

-- `tid` is at least 1.
pub free_tid : List ℕ → ℕ → Option (List ℕ)
free_tid tidmap tid = elim (get_elem? tidmap ((tid - 1) / 4)) [
  | none ↦ none
  | some w ↦ some (set tidmap ((tid - 1) / 4) (clear_bit w ((tid - 1) % 4)))
]
