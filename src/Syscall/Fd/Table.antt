-- ===== src/Syscall/Fd/Table.antt =====
-- The invariant of the table of open files, and what the search for a free slot finds.
use tnix.Common.{
  ℕ, zero, suc, ◌+◌, ◌≤◌, ◌<◌, ◌≡◌, ◌≢◌, ap, sym, ◌∙◌, List, [], ◌∷◌, Option, none, some, arith,
  if◌then◌else◌, ◌==◌, Bool-cases, inl, inr, ◌⊎◌, ==→eq, not_==→ne, length, get_or, set,
}
use tnix.Syscall.Fd.{nfile, FsStruct, first_null}

-- How many slots name file `f`.
abbrev pub one : ℕ → ℕ → ℕ
one f x = if x == f then 1 else 0

unfoldable pub count : ℕ → List ℕ → ℕ
count f [] = 0
count f (x ∷ xs) = one f x + count f xs

pub count-set :
    (f : ℕ) (xs : List ℕ) (i v : ℕ)
    → i < length xs
    → count f (set xs i v) + one f (get_or xs i 0) ≡ count f xs + one f v
unfolding count
count-set f [] i v h = absurd (omega arith)
count-set f (x ∷ xs) zero v h = omega arith
count-set f (x ∷ xs) (suc i) v h = omega (arith, count-set f xs i v (omega arith))

pub count-le : (f : ℕ) (xs : List ℕ) → count f xs ≤ length xs
unfolding count
count-le f [] = omega arith
count-le f (x ∷ xs) = ground (arith, count-le f xs)

pub count-pos : (xs : List ℕ) (i : ℕ) → i < length xs → 0 < count (get_or xs i 0) xs
unfolding count
count-pos [] i h = absurd (omega arith)
count-pos (x ∷ xs) zero h = ground arith
count-pos (x ∷ xs) (suc i) h = ground (arith, count-pos xs i (omega arith))

-- All slots from `i` to before `n` are taken.
abbrev pub Taken : List ℕ → ℕ → ℕ → Type 0
Taken files i n = (j : ℕ) → i ≤ j → j < n → get_or files j 0 ≢ 0

-- Below `fdx` every slot is taken; slot `fdx` is free unless the whole table is taken; each file's
-- count is the number of slots that name it.
pub record IsValid (s : FsStruct) : Type 0 where
  pub size : length s.files ≡ nfile
  pub inside : s.fdx < nfile
  pub below : Taken s.files 0 s.fdx
  pub lowest : (get_or s.files s.fdx 0 ≡ 0) ⊎ Taken s.files 0 nfile
  pub counted : (f : ℕ) → f ≢ 0 → s.refc f ≡ count f s.files

pub data Search (files : List ℕ) (i n : ℕ) : Option ℕ → Type 0 where
  full : Taken files i (i + n) → Search files i n none
  found :
      (k : ℕ)
      → i ≤ k
      → k < i + n
      → get_or files k 0 ≡ 0
      → Taken files i k
      → Search files i n (some k)

Taken-more :
    (files : List ℕ) (i m : ℕ) → get_or files i 0 ≢ 0 → Taken files (suc i) m → Taken files i m
Taken-more files i m ne t j l u = elim (Bool-cases (j == i)) [
  | inl e ↦ λ z. ne (ap (λ k. get_or files k 0) (sym (==→eq j i e)) ∙ z)
  | inr e ↦ t j (omega (arith, not_==→ne j i e)) u
]

Search-more :
    (files : List ℕ) (i n : ℕ) (o : Option ℕ)
    → get_or files i 0 ≢ 0
    → Search files (suc i) n o
    → Search files i (suc n) o
Search-more files i n o ne (full t) =
    full (Taken-more files i (i + suc n) ne (λ j l u. t j l (omega arith)))
Search-more files i n o ne (found k l u z t) =
    found k (omega arith) (omega arith) z (Taken-more files i k ne t)

pub first_null-Search : (files : List ℕ) (i n : ℕ) → Search files i n (first_null files i n)
unfolding first_null
first_null-Search files i zero = full (λ j l u. absurd (omega arith))
first_null-Search files i (suc n) = elim (Bool-cases (get_or files i 0 == 0)) [
  | inl e ↦ rw e (
      found i (omega arith) (omega arith) (==→eq (get_or files i 0) 0 e)
        (λ j l u. absurd (omega arith)))
  | inr e ↦ rw e (
      Search-more files i n (first_null files (suc i) n) (not_==→ne (get_or files i 0) 0 e)
        (first_null-Search files (suc i) n))
]
