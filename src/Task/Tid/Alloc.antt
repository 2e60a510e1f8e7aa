-- ===== src/Task/Tid/Alloc.antt =====
-- Which numbers come out, and what freeing them does. The word index is multiplied and divided by
-- the size of a word in bytes, where its number of bits is meant.
use tnix.Common.{
  ℕ, zero, suc, ◌+◌, ◌-◌, ◌*◌, ◌/◌, ◌%◌, ◌^◌, ◌<◌, ◌≡◌, refl, ap, ap₂, ◌∙◌, sym, List, [], ◌∷◌,
  false, none, some, arith, ◌==◌, Bool-cases, inl, inr, ==→eq, eq→==, not_==→ne, ne→not_==,
  get_elem?, get_elem?-outside, set, u32_mod, test_bit, set_bit, clear_bit, clear-set, test_ones,
  FirstClear,
}
use tnix.Task.Tid.{first_word, first_bit, alloc_tid, free_tid}

first_bit_lem : (w j n t : ℕ) → FirstClear (test_bit w) j t → t < j + n → first_bit w j n ≡ some t
unfolding first_bit
first_bit_lem w j zero t f h = absurd (omega (arith, f.behind))
first_bit_lem w j (suc n) t f h = elim (Bool-cases (t == j)) [
  | inl e ↦ rw (ap (test_bit w) (sym (==→eq t j e)) ∙ f.clear) (ap some (sym (==→eq t j e)))
  | inr e ↦ rw (f.before j (omega arith) (omega (arith, f.behind, not_==→ne t j e))) (
      first_bit_lem w (suc j) n t
        (record {
          behind = omega (arith, f.behind, not_==→ne t j e);
          clear = f.clear;
          before = λ m l u. f.before m (omega arith) u;
        })
        (omega arith))
]

number₀ : (j : ℕ) → j < 32 → (0 * 4 + j + 1) % 2 ^ 16 ≡ j + 1
number₀ j h = omega arith

number₁ : (j : ℕ) → j < 32 → (1 * 4 + j + 1) % 2 ^ 16 ≡ j + 5
number₁ j h = omega arith

-- A word with a clear bit is not all ones.
not_full : (w t : ℕ) → t < 32 → test_bit w t ≡ false → (w == u32_mod - 1) ≡ false
not_full w t h c = ne→not_== w (u32_mod - 1) (λ e. cc (test_ones 32 t h, ap (λ x. test_bit x t) e))

first_word₀ :
    (w₀ w₁ j : ℕ) → j < 32 → FirstClear (test_bit w₀) 0 j → first_word (w₀ ∷ w₁ ∷ []) 0 ≡ 0
unfolding first_word
first_word₀ w₀ w₁ j h f = rw (not_full w₀ j h f.clear) refl

first_word₁ :
    (w₀ w₁ j : ℕ)
    → w₀ ≡ u32_mod - 1
    → j < 32
    → FirstClear (test_bit w₁) 0 j
    → first_word (w₀ ∷ w₁ ∷ []) 0 ≡ 1
unfolding first_word
first_word₁ w₀ w₁ j e h f = rw (eq→== w₀ (u32_mod - 1) e, not_full w₁ j h f.clear) refl

alloc_tid_lem :
    (m : List ℕ) (i w j : ℕ)
    → first_word m 0 ≡ i
    → get_elem? m i ≡ some w
    → first_bit w 0 32 ≡ some j
    → alloc_tid m ≡ some ((i * 4 + j + 1) % 2 ^ 16, set m i (set_bit w j))
unfolding alloc_tid
alloc_tid_lem m i w j e g f = rw (ap (get_elem? m) e ∙ g, f, alloc_tid) (rw e refl)

alloc_tid-word₀ :
    (w₀ w₁ j : ℕ)
    → j < 32
    → FirstClear (test_bit w₀) 0 j
    → alloc_tid (w₀ ∷ w₁ ∷ []) ≡ some (j + 1, set_bit w₀ j ∷ w₁ ∷ [])
alloc_tid-word₀ w₀ w₁ j h f =
    alloc_tid_lem (w₀ ∷ w₁ ∷ []) 0 w₀ j (first_word₀ w₀ w₁ j h f) refl (first_bit_lem w₀ 0 32 j f h)
    ∙ ap (λ r. some (r, set_bit w₀ j ∷ w₁ ∷ [])) (number₀ j h)

alloc_tid-word₁ :
    (w₀ w₁ j : ℕ)
    → w₀ ≡ u32_mod - 1
    → j < 32
    → FirstClear (test_bit w₁) 0 j
    → alloc_tid (w₀ ∷ w₁ ∷ []) ≡ some (j + 5, w₀ ∷ set_bit w₁ j ∷ [])
alloc_tid-word₁ w₀ w₁ j e h f =
    alloc_tid_lem (w₀ ∷ w₁ ∷ []) 1 w₁ j (first_word₁ w₀ w₁ j e h f) refl
      (first_bit_lem w₁ 0 32 j f h)
    ∙ ap (λ r. some (r, w₀ ∷ set_bit w₁ j ∷ [])) (number₁ j h)

free_tid_lem :
    (m : List ℕ) (i w j : ℕ)
    → j < 4
    → get_elem? m i ≡ some w
    → free_tid m (i * 4 + j + 1) ≡ some (set m i (clear_bit w j))
unfolding free_tid
free_tid_lem m i w j h g =
    rw (ap (get_elem? m) word ∙ g, free_tid) (ap₂ (λ a b. some (set m a (clear_bit w b))) word bit)
  where
    word : (i * 4 + j + 1 - 1) / 4 ≡ i
    word = omega arith

    bit : (i * 4 + j + 1 - 1) % 4 ≡ j
    bit = omega arith

-- Where the first clear bit of word 0 is one of the lowest four, `alloc_tid` gives the number of
-- that bit plus one, and `free_tid` of that number restores the map.
pub free_tid-alloc_tid :
    (w₀ w₁ j : ℕ)
    → FirstClear (test_bit w₀) 0 j
    → j < 4
    → (m : List ℕ) × (alloc_tid (w₀ ∷ w₁ ∷ []) ≡ some (j + 1, m))
      × (free_tid m (j + 1) ≡ some (w₀ ∷ w₁ ∷ []))
free_tid-alloc_tid w₀ w₁ j f h = (
  set_bit w₀ j ∷ w₁ ∷ [],
  alloc_tid-word₀ w₀ w₁ j (omega arith) f,
  ap (free_tid (set_bit w₀ j ∷ w₁ ∷ [])) (omega arith)
      ∙ free_tid_lem (set_bit w₀ j ∷ w₁ ∷ []) 0 (set_bit w₀ j) j h refl
      ∙ ap (λ w. some (w ∷ w₁ ∷ [])) (clear-set w₀ j f.clear),
)

-- With bit `j + 4` the first clear one of word 0, for `j` below 28, `alloc_tid` gives `j + 5`; and
-- it gives `j + 5` again once word 0 is full and bit `j` is the first clear one of word 1.
pub alloc_tid-twice :
    (w₀ w₁ v₁ j : ℕ)
    → j < 28
    → FirstClear (test_bit w₀) 0 (j + 4)
    → FirstClear (test_bit v₁) 0 j
    → (alloc_tid (w₀ ∷ w₁ ∷ []) ≡ some (j + 5, set_bit w₀ (j + 4) ∷ w₁ ∷ []))
      × (alloc_tid ((u32_mod - 1) ∷ v₁ ∷ []) ≡ some (j + 5, (u32_mod - 1) ∷ set_bit v₁ j ∷ []))
alloc_tid-twice w₀ w₁ v₁ j h f g = (
  alloc_tid-word₀ w₀ w₁ (j + 4) (omega arith) f
      ∙ ap (λ r. some (r, set_bit w₀ (j + 4) ∷ w₁ ∷ [])) (omega arith),
  alloc_tid-word₁ (u32_mod - 1) v₁ j refl (omega arith) g,
)

-- On a map of two words `free_tid` of a number above 8 reads outside the map.
pub free_tid-outside : (w₀ w₁ tid : ℕ) → 8 < tid → free_tid (w₀ ∷ w₁ ∷ []) tid ≡ none
unfolding free_tid
free_tid-outside w₀ w₁ tid h =
    rw (get_elem?-outside (w₀ ∷ w₁ ∷ []) ((tid - 1) / 4) (omega arith), free_tid) refl
