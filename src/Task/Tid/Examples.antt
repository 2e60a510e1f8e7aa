-- ===== src/Task/Tid/Examples.antt =====
-- Concrete maps for the theorems on `alloc_tid` and `free_tid`.
use tnix.Common.{
  ◌+◌, ◌≡◌, refl, [], ◌∷◌, some, arith, test_bit, test_ones, set_bit, clear_bit, FirstClear,
}
use tnix.Task.Tid.{first_word, first_bit, alloc_tid, free_tid}

three : FirstClear (test_bit 3) 0 2
unfolding test_bit
three = record { behind = omega arith; clear = refl; before = λ m l u. test_ones 2 m u }

thirty_one : FirstClear (test_bit 31) 0 (1 + 4)
unfolding test_bit
thirty_one = record { behind = omega arith; clear = refl; before = λ m l u. test_ones 5 m u }

one : FirstClear (test_bit 1) 0 1
unfolding test_bit
one = record { behind = omega arith; clear = refl; before = λ m l u. test_ones 1 m u }

alloc_tid_run : alloc_tid (3 ∷ 0 ∷ []) ≡ some (3, 7 ∷ 0 ∷ [])
unfolding alloc_tid first_word first_bit test_bit set_bit
alloc_tid_run = refl

free_tid_run : free_tid (7 ∷ 0 ∷ []) 3 ≡ some (3 ∷ 0 ∷ [])
unfolding free_tid clear_bit test_bit
free_tid_run = refl
