-- ===== src/Fs/Bio/View.antt =====
-- What the file system sees of a block through the cache, and the cache's invariant.
use tnix.Common.{
  ℕ, ◌-◌, ◌<◌, ◌≡◌, ◌≢◌, refl, none, some, eq→==, ne→not_==, List, [], ◌∷◌, true, false, arith,
  if◌then◌else◌, ◌==◌, ==→eq, Bool-cases, inl, inr, u32_mod,
}
use tnix.Fs.Blocks.{Block}
use tnix.Fs.Bio.{Buf, Device, caches, buffer}

-- The bytes of the first buffer of the block, if it has been read, or the device's.
unfoldable pub view : Device → List Buf → ℕ → ℕ → Block
view device [] d k = device d k
view device (b ∷ bs) d k =
    if caches d k b then (if b.valid then b.bytes else device d k) else view device bs d k

-- A buffer of the block, if it is one, has no reference and has not been read.
abbrev pub Rests : ℕ → ℕ → Buf → Type 0
Rests d k b = caches d k b ≡ true → (b.refc ≡ 0) × (b.valid ≡ false)

abbrev pub Idle : ℕ → ℕ → List Buf → Type 0
Idle d k [] = Unit {0}
Idle d k (b ∷ bs) = Rests d k b × Idle d k bs

-- Only the first buffer of a block is in use.
abbrev pub Ordered : List Buf → Type 0
Ordered [] = Unit {0}
Ordered (b ∷ bs) = Idle b.dev b.blockno bs × Ordered bs

-- A buffer with no reference agrees with the device, if it has been read.
abbrev pub IsSynced : Device → Buf → Type 0
IsSynced device b = b.refc ≡ 0 → b.valid ≡ true → b.bytes ≡ device b.dev b.blockno

abbrev pub Synced : Device → List Buf → Type 0
Synced device [] = Unit {0}
Synced device (b ∷ bs) = IsSynced device b × Synced device bs

-- A buffer with no reference is held by no task.
abbrev pub Rested : List Buf → Type 0
Rested [] = Unit {0}
Rested (b ∷ bs) = (b.refc ≡ 0 → b.task ≡ none) × Rested bs

-- Buffer `i` has the property.
abbrev pub Origin : (Buf → Type 0) → ℕ → List Buf → Type 0
Origin q i bs = (b : Buf) × (buffer i bs ≡ some b) × q b

-- References can be counted up.
abbrev pub Few : List Buf → Type 0
Few [] = Unit {0}
Few (b ∷ bs) = (b.refc < u32_mod - 1) × Few bs

pub caches-eq : (d k : ℕ) (b : Buf) → caches d k b ≡ true → (b.dev ≡ d) × (b.blockno ≡ k)
caches-eq d k b h = ground arith

pub caches_self : (b : Buf) → caches b.dev b.blockno b ≡ true
caches_self b = ground arith

-- No buffer of the block is in the list.
abbrev pub Absent : ℕ → ℕ → List Buf → Type 0
Absent d k [] = Unit {0}
Absent d k (b ∷ bs) = (caches d k b ≡ false) × Absent d k bs

pub Absent-Idle : (d k : ℕ) (bs : List Buf) → Absent d k bs → Idle d k bs
Absent-Idle d k [] h = tt
Absent-Idle d k (b ∷ bs) h = (λ e. absurd (cc (e, h.0)), Absent-Idle d k bs h.1)

pub Idle-view :
    (device : Device) (d k : ℕ) (bs : List Buf) → Idle d k bs → view device bs d k ≡ device d k
unfolding view
Idle-view device d k [] h = refl
Idle-view device d k (b ∷ bs) h = elim (Bool-cases (caches d k b)) [
  | inl e ↦ rw (e, (h.0 e).1) refl
  | inr e ↦ rw e (Idle-view device d k bs h.1)
]

-- The first buffer of the block is buffer `i`, and has a reference.
abbrev pub Front : ℕ → ℕ → ℕ → List Buf → Type 0
Front d k i [] = ⊥
Front d k i (b ∷ bs) = elim (caches d k b) [
  | true ↦ (b.id ≡ i) × (b.refc ≢ 0)
  | false ↦ Front d k i bs
]

-- No buffer is buffer `i`; and no two buffers are the same.
abbrev pub LacksBuf : ℕ → List Buf → Type 0
LacksBuf i [] = Unit {0}
LacksBuf i (b ∷ bs) = (b.id ≢ i) × LacksBuf i bs

abbrev pub Distinct : List Buf → Type 0
Distinct [] = Unit {0}
Distinct (b ∷ bs) = LacksBuf b.id bs × Distinct bs

-- How `Front` begins.
pub Front-here :
    (d k i : ℕ) (b : Buf) (bs : List Buf)
    → caches d k b ≡ true
    → Front d k i (b ∷ bs)
    → (b.id ≡ i) × (b.refc ≢ 0)
Front-here d k i b bs e h = rw (e, Front) at h

pub Front-later :
    (d k i : ℕ) (b : Buf) (bs : List Buf)
    → caches d k b ≡ false
    → Front d k i (b ∷ bs)
    → Front d k i bs
Front-later d k i b bs e h = rw (e, Front) at h

pub Front-there : (d k i : ℕ) (bs : List Buf) → Front d k i bs → LacksBuf i bs → ⊥
Front-there d k i [] f l = f
Front-there d k i (b ∷ bs) f l = elim (Bool-cases (caches d k b)) [
  | inl e ↦ l.0 (Front-here d k i b bs e f).0
  | inr e ↦ Front-there d k i bs (Front-later d k i b bs e f) l.1
]

-- A buffer before the first one of the block is another one.
pub Front-other :
    (d k i : ℕ) (b : Buf) (bs : List Buf)
    → caches d k b ≡ false
    → Front d k i (b ∷ bs)
    → Distinct (b ∷ bs)
    → (b.id == i) ≡ false
Front-other d k i b bs e f v = elim (Bool-cases (b.id == i)) [
  | inl t ↦
      absurd (Front-there d k i bs (Front-later d k i b bs e f) (rw (==→eq b.id i t) at (v.0)))
  | inr t ↦ t
]

-- Every buffer has a reference.
abbrev pub Busy : List Buf → Type 0
Busy [] = Unit {0}
Busy (b ∷ bs) = (b.refc ≢ 0) × Busy bs

pub Origin-here : (q : Buf → Type 0) (b : Buf) (bs : List Buf) → q b → Origin q b.id (b ∷ bs)
unfolding buffer
Origin-here q b bs h = (b, rw (eq→== b.id b.id refl) refl, h)

buffer-none : (i : ℕ) (bs : List Buf) → LacksBuf i bs → buffer i bs ≡ none
unfolding buffer
buffer-none i [] l = refl
buffer-none i (b ∷ bs) l = rw (ne→not_== b.id i l.0) (buffer-none i bs l.1)

pub Origin-later :
    (q : Buf → Type 0) (i : ℕ) (b : Buf) (bs : List Buf)
    → LacksBuf b.id bs
    → Origin q i bs
    → Origin q i (b ∷ bs)
unfolding buffer
Origin-later q i b bs l (x, e, h) = elim (Bool-cases (b.id == i)) [
  | inr t ↦ (x, rw t e, h)
  | inl t ↦ absurd (cc (e, buffer-none i bs (rw (==→eq b.id i t) at l)))
]
