-- ===== src/Util/Str/Copy.antt =====
-- `memset` and `memcpy` do what they are called for, `memcpy` also where its areas overlap.
use tnix.Common.{
  ℕ, zero, suc, ◌+◌, ◌-◌, ◌%◌, ◌≤◌, ◌<◌, ◌≡◌, ap, ap₂, ◌∙◌, Bool, ◌&&◌, arith, if◌then◌else◌, ◌==◌,
  ltb, leb, Bool-cases, inl, inr,
}
use tnix.Util.Str.{Memory, store, memset, copy_down, copy_up, memcpy}

-- Whether `a` is one of the `n` addresses from `d` on.
abbrev pub within : ℕ → ℕ → ℕ → Bool
within d n a = leb d a && ltb a (d + n)

-- After `memset` the area holds the byte, and the rest of memory is as before.
pub memset_lem :
    (m : Memory) (d c n a : ℕ) → memset m d c n a ≡ (if within d n a then c % 256 else m a)
unfolding memset
memset_lem m d c zero a = ground arith
memset_lem m d c (suc n) a = ground (arith, memset_lem (store m d (c % 256)) (d + 1) c n a)

-- The first byte copied and the others together.
copy_up-step :
    (m : Memory) (d s n a : ℕ)
    → (s < d → s + suc n ≤ d)
    → (if within (d + 1) n a then store m d (m s) (s + 1 + (a - (d + 1))) else store m d (m s) a)
      ≡ (if within d (suc n) a then m (s + (a - d)) else m a)
copy_up-step m d s n a h = ground (arith, same_place (s + 1 + (a - (d + 1))), same_place s)
  where
    same_place : (q : ℕ) → s + (a - d) ≡ q → m (s + (a - d)) ≡ m q
    same_place q e = ap m e

copy_up_lem :
    (m : Memory) (d s n a : ℕ)
    → (s < d → s + n ≤ d)
    → copy_up m d s n a ≡ (if within d n a then m (s + (a - d)) else m a)
unfolding copy_up
copy_up_lem m d s zero a h = ground arith
copy_up_lem m d s (suc n) a h =
    copy_up_lem (store m d (m s)) (d + 1) (s + 1) n a (λ p. h' p) ∙ copy_up-step m d s n a h
  where
    h' : s + 1 < d + 1 → s + 1 + n ≤ d + 1
    h' p = omega arith

copy_down-step :
    (m : Memory) (d s n a : ℕ)
    → (d < s → d + suc n ≤ s)
    → (if within d n a
        then store m (d + n) (m (s + n)) (s + (a - d))
        else store m (d + n) (m (s + n)) a)
      ≡ (if within d (suc n) a then m (s + (a - d)) else m a)
copy_down-step m d s n a h = ground (arith, same_place (s + n))
  where
    same_place : (q : ℕ) → s + (a - d) ≡ q → m (s + (a - d)) ≡ m q
    same_place q e = ap m e

copy_down_lem :
    (m : Memory) (d s n a : ℕ)
    → (d < s → d + n ≤ s)
    → copy_down m (d + n) (s + n) n a ≡ (if within d n a then m (s + (a - d)) else m a)
unfolding copy_down
copy_down_lem m d s zero a h = ground arith
copy_down_lem m d s (suc n) a h =
    ap (λ f. f a) (ap₂ (λ x y. copy_down (store m x (m y)) x y n) last_d last_s)
    ∙ copy_down_lem (store m (d + n) (m (s + n))) d s n a (λ p. omega arith)
    ∙ copy_down-step m d s n a h
  where
    last_d : d + suc n - 1 ≡ d + n
    last_d = omega arith

    last_s : s + suc n - 1 ≡ s + n
    last_s = omega arith

-- After `memcpy` the target holds what the source held before, however the two lie, and the rest
-- of memory is as before.
pub memcpy_lem :
    (m : Memory) (dst src n a : ℕ)
    → memcpy m dst src n a ≡ (if within dst n a then m (src + (a - dst)) else m a)
unfolding memcpy
memcpy_lem m dst src n a = elim (Bool-cases (n == 0)) [
  | inl e ↦ rw e (ground arith)
  | inr e ↦ rw e (elim (Bool-cases (ltb src dst && ltb dst (src + n))) [
    | inl o ↦ rw o (copy_down_lem m dst src n a (λ p. ground arith))
    | inr o ↦ rw o (copy_up_lem m dst src n a (λ p. ground arith))
  ])
]
