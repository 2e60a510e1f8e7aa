-- ===== src/Common/Tabulate.antt =====
-- A list given by its length and its entries, and copies between arrays in those terms.
use Prim.Native.Nat.{ℕ, zero, suc, ◌+◌, ◌≤◌, ◌<◌}
use mathlib.Core.Path.{◌≡◌, refl, ap, ap₂, ◌∙◌}
use mathlib.Core.List.{List, [], ◌∷◌, ◌++◌}
use native.Mathlib.Omega.{arith}
use tnix.Common.Lists.{
  length, get_or, set, take, drop, length-set, get_or-set_self, get_or-set_ne, get_or-drop,
}

module _ {ℓ} {A : Type ℓ} where
  abbrev pub tabulate : ℕ → (ℕ → A) → List A
  tabulate zero f = []
  tabulate (suc n) f = f 0 ∷ tabulate n (λ i. f (suc i))

  pub length-tabulate : (n : ℕ) (f : ℕ → A) → length (tabulate n f) ≡ n
  length-tabulate zero f = refl
  length-tabulate (suc n) f = ap suc (length-tabulate n (λ i. f (suc i)))

  pub tabulate-ext :
      (n : ℕ) (f g : ℕ → A) → ((i : ℕ) → i < n → f i ≡ g i) → tabulate n f ≡ tabulate n g
  tabulate-ext zero f g h = refl
  tabulate-ext (suc n) f g h =
      ap₂ ◌∷◌ (h 0 (omega arith))
        (tabulate-ext n (λ i. f (suc i)) (λ i. g (suc i)) (λ i p. h (suc i) (omega arith)))

  pub tabulate-add :
      (m n k : ℕ) (f : ℕ → A)
      → k ≡ m + n
      → tabulate k f ≡ tabulate m f ++ tabulate n (λ i. f (m + i))
  tabulate-add zero n k f e =
      ap (λ t. tabulate t f) (e ∙ zero_plus n)
      ∙ tabulate-ext n f (λ i. f (0 + i)) (λ i p. ap f (omega arith))
    where
      zero_plus : (t : ℕ) → 0 + t ≡ t
      zero_plus t = omega arith
  tabulate-add (suc m) n k f e =
      ap (λ t. tabulate t f) (e ∙ suc_plus)
      ∙ ap (λ t. f 0 ∷ t)
          (tabulate-add m n (m + n) (λ i. f (suc i)) refl
            ∙ ap (λ t. tabulate m (λ i. f (suc i)) ++ t)
                (tabulate-ext n (λ i. f (suc (m + i))) (λ i. f (suc m + i))
                  (λ i p. ap f (omega arith))))
    where
      suc_plus : suc m + n ≡ suc (m + n)
      suc_plus = omega arith

  pub tabulate-get_or : (xs : List A) (d : A) → tabulate (length xs) (λ i. get_or xs i d) ≡ xs
  tabulate-get_or [] d = refl
  tabulate-get_or (x ∷ xs) d = ap (λ t. x ∷ t) (tabulate-get_or xs d)

  -- Taking entries by their number.
  pub take-tabulate :
      (n : ℕ) (xs : List A) (d : A) → n ≤ length xs → take n xs ≡ tabulate n (λ i. get_or xs i d)
  take-tabulate zero xs d h = refl
  take-tabulate (suc n) [] d h = absurd (omega arith)
  take-tabulate (suc n) (x ∷ xs) d h = ap (λ t. x ∷ t) (take-tabulate n xs d (omega arith))

  -- `memcpy(dst, buf + start, count)`: the `count` entries from `start` on.
  abbrev pub slice : List A → ℕ → ℕ → List A
  slice buf start count = take count (drop start buf)

  -- `memcpy(buf + start, src, length src)`.
  abbrev pub blit : List A → ℕ → List A → List A
  blit buf start [] = buf
  blit buf start (x ∷ xs) = blit (set buf start x) (suc start) xs

  pub length-blit : (buf : List A) (i : ℕ) (xs : List A) → length (blit buf i xs) ≡ length buf
  length-blit buf i [] = refl
  length-blit buf i (x ∷ xs) = length-blit (set buf i x) (suc i) xs ∙ length-set buf i x

  -- A copy leaves what lies outside its target.
  pub get_or-blit_below :
      (buf : List A) (i : ℕ) (xs : List A) (j : ℕ) (d : A)
      → j < i
      → get_or (blit buf i xs) j d ≡ get_or buf j d
  get_or-blit_below buf i [] j d h = refl
  get_or-blit_below buf i (x ∷ xs) j d h =
      get_or-blit_below (set buf i x) (suc i) xs j d (omega arith)
      ∙ get_or-set_ne buf i j x d (omega arith)

  pub get_or-blit_above :
      (buf : List A) (i : ℕ) (xs : List A) (j : ℕ) (d : A)
      → i + length xs ≤ j
      → get_or (blit buf i xs) j d ≡ get_or buf j d
  get_or-blit_above buf i [] j d h = refl
  get_or-blit_above buf i (x ∷ xs) j d h =
      get_or-blit_above (set buf i x) (suc i) xs j d (omega arith)
      ∙ get_or-set_ne buf i j x d (omega arith)

  -- Inside its target it puts the source.
  pub get_or-blit_in :
      (buf : List A) (i : ℕ) (xs : List A) (j : ℕ) (d : A)
      → i + length xs ≤ length buf
      → j < length xs
      → get_or (blit buf i xs) (i + j) d ≡ get_or xs j d
  get_or-blit_in buf i [] j d h p = absurd (omega arith)
  get_or-blit_in buf i (x ∷ xs) zero d h p =
      ap (λ k. get_or (blit (set buf i x) (suc i) xs) k d) (omega arith)
      ∙ get_or-blit_below (set buf i x) (suc i) xs i d (omega arith)
      ∙ get_or-set_self buf i x d (omega arith)
  get_or-blit_in buf i (x ∷ xs) (suc j) d h p =
      ap (λ k. get_or (blit (set buf i x) (suc i) xs) k d) (omega arith)
      ∙ get_or-blit_in (set buf i x) (suc i) xs j d (omega (arith, length-set buf i x))
          (omega arith)

  pub slice-tabulate :
      (buf : List A) (start count : ℕ) (d : A)
      → count ≤ length (drop start buf)
      → slice buf start count ≡ tabulate count (λ i. get_or buf (start + i) d)
  slice-tabulate buf start count d h =
      take-tabulate count (drop start buf) d h
      ∙ tabulate-ext count (λ i. get_or (drop start buf) i d) (λ i. get_or buf (start + i) d)
          (λ i p. get_or-drop start i buf d)
