-- ===== src/Mem/Slots/Count.antt =====
-- The chunks in use of a block, and its count of them.
use tnix.Common.{
  ℕ, zero, suc, ◌+◌, ◌≤◌, ◌<◌, ◌≡◌, ◌≢◌, refl, List, [], ◌∷◌, Bool, true, false, some, arith,
  if◌then◌else◌, ◌==◌, length, get_or, set, replicate,
}
use tnix.Mem.Slots.{SlotBlock, first_unused}

abbrev pub count_used : List Bool → ℕ
count_used [] = 0
count_used (f ∷ fs) = (if f then 1 else 0) + count_used fs

pub count_used-replicate : (n : ℕ) → count_used (replicate n false) ≡ 0
count_used-replicate zero = refl
count_used-replicate (suc n) = omega (arith, count_used-replicate n)

pub count_used-set-true :
    (fs : List Bool) (i : ℕ)
    → i < length fs
    → get_or fs i true ≡ false
    → count_used (set fs i true) ≡ count_used fs + 1
count_used-set-true [] i h e = absurd (omega arith)
count_used-set-true (f ∷ fs) zero h e = rw e (omega arith)
count_used-set-true (f ∷ fs) (suc i) h e = omega (arith, count_used-set-true fs i (omega arith) e)

pub count_used-set-false :
    (fs : List Bool) (i : ℕ)
    → get_or fs i false ≡ true
    → count_used (set fs i false) + 1 ≡ count_used fs
count_used-set-false [] i e = absurd (cc (e))
count_used-set-false (f ∷ fs) zero e = rw e (omega arith)
count_used-set-false (f ∷ fs) (suc i) e = omega (arith, count_used-set-false fs i e)

pub count_used-length : (fs : List Bool) → count_used fs ≤ length fs
count_used-length [] = omega arith
count_used-length (true ∷ fs) = omega (arith, count_used-length fs)
count_used-length (false ∷ fs) = omega (arith, count_used-length fs)

-- A block that is not full has an unused chunk, and the scan finds the first.
pub first_unused_lem :
    (fs : List Bool)
    → count_used fs ≢ length fs
    → (i : ℕ) × (first_unused fs ≡ some i) × (i < length fs) × (get_or fs i true ≡ false)
unfolding first_unused
first_unused_lem [] h = absurd (h refl)
first_unused_lem (true ∷ fs) h =
    let (i, run, below, e) = first_unused_lem fs (λ q. h (omega arith)) in
    (suc i, rw run refl, omega arith, e)
first_unused_lem (false ∷ fs) h = (0, refl, omega arith, refl)

-- A block with a reference has a page of `per` chunks, and counts those in use.
pub record IsBlock (per : ℕ) (b : SlotBlock) : Type 0 where
  pub counted : b.refc ≢ 0 → b.refc ≡ count_used b.inuse
  pub size : b.refc ≢ 0 → length b.inuse ≡ per

pub count_le : (per : ℕ) (b : SlotBlock) → IsBlock per b → b.refc ≤ per
count_le per b v = ground (arith, v.counted, v.size, count_used-length b.inuse)

abbrev pub Blocks : ℕ → List SlotBlock → Type 0
Blocks per [] = Unit {0}
Blocks per (b ∷ bs) = IsBlock per b × Blocks per bs

abbrev pub total : List SlotBlock → ℕ
total [] = 0
total (b ∷ bs) = b.refc + total bs

-- Whether chunk `i` of a block is in use, and of block `k`.
abbrev pub block_used : SlotBlock → ℕ → Bool
block_used b i = if b.refc == 0 then false else get_or b.inuse i false

abbrev pub chunk_used : List SlotBlock → ℕ → ℕ → Bool
chunk_used [] k i = false
chunk_used (b ∷ bs) zero i = block_used b i
chunk_used (b ∷ bs) (suc k) i = chunk_used bs k i
