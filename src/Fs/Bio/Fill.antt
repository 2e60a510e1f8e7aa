-- ===== src/Fs/Bio/Fill.antt =====
-- What `bread` does to the buffer behind `bget`: the lock gets its owner, and the block is read.
use tnix.Common.{
  ℕ, ◌≡◌, ◌≢◌, refl, ap, ap₂, List, [], ◌∷◌, true, false, some, arith, if◌then◌else◌, ◌==◌, eq→==,
  Bool-cases, inl, inr,
}
use tnix.Fs.Blocks.{Block}
use tnix.Fs.Bio.{Buf, Device, caches, buffer, change, acquired}
use tnix.Fs.Bio.View.{
  view, Idle, Ordered, IsSynced, Synced, caches-eq, Front, LacksBuf, Distinct, Front-here,
  Front-later, Front-other, Rested,
}

-- Filling a buffer changes nothing of what is seen of the blocks.
pub change-view :
    (t : ℕ) (device : Device) (i : ℕ) (bs : List Buf) (d k : ℕ)
    → view device (change (acquired t device) i bs) d k ≡ view device bs d k
unfolding view change
change-view t device i [] d k = refl
change-view t device i (b ∷ bs) d k = elim (Bool-cases (b.id == i)) [
  | inl e ↦ elim (Bool-cases (caches d k b)) [
    | inl c ↦ elim (Bool-cases b.valid) [
      | inl v ↦ rw (e, c, v) refl
      | inr v ↦ let (p, q) = caches-eq d k b c in rw (e, c, v) (ap₂ (λ d k. device d k) p q)
    ]
    | inr c ↦ rw (e, c) refl
  ]
  | inr e ↦ rw e (
      ap (λ w. if caches d k b then (if b.valid then b.bytes else device d k) else w)
        (change-view t device i bs d k))
]

change-LacksBuf :
    (t : ℕ) (device : Device) (i j : ℕ) (bs : List Buf)
    → LacksBuf j bs
    → LacksBuf j (change (acquired t device) i bs)
unfolding change
change-LacksBuf t device i j [] l = tt
change-LacksBuf t device i j (b ∷ bs) l = elim (Bool-cases (b.id == i)) [
  | inl e ↦ rw e l
  | inr e ↦ rw e (l.0, change-LacksBuf t device i j bs l.1)
]

pub change-Distinct :
    (t : ℕ) (device : Device) (i : ℕ) (bs : List Buf)
    → Distinct bs
    → Distinct (change (acquired t device) i bs)
unfolding change
change-Distinct t device i [] v = tt
change-Distinct t device i (b ∷ bs) v = elim (Bool-cases (b.id == i)) [
  | inl e ↦ rw e v
  | inr e ↦ rw e (change-LacksBuf t device i b.id bs v.0, change-Distinct t device i bs v.1)
]

-- The buffer `i` is in the list, and has a reference.
abbrev pub Refed : ℕ → List Buf → Type 0
Refed i bs = (b : Buf) → buffer i bs ≡ some b → b.refc ≢ 0

Refed-rest : (i : ℕ) (b : Buf) (bs : List Buf) → (b.id == i) ≡ false → Refed i (b ∷ bs) → Refed i bs
unfolding buffer
Refed-rest i b bs e r x h = r x (rw (e, buffer) h)

change-Idle :
    (t : ℕ) (device : Device) (i : ℕ) (bs : List Buf) (d k : ℕ)
    → Refed i bs
    → Idle d k bs
    → Idle d k (change (acquired t device) i bs)
unfolding change buffer
change-Idle t device i [] d k r h = tt
change-Idle t device i (b ∷ bs) d k r h = elim (Bool-cases (b.id == i)) [
  | inl e ↦ rw e (λ c. absurd (r b (rw e refl) (h.0 c).0), h.1)
  | inr e ↦ rw e (h.0, change-Idle t device i bs d k (Refed-rest i b bs e r) h.1)
]

pub change-Ordered :
    (t : ℕ) (device : Device) (i : ℕ) (bs : List Buf)
    → Refed i bs
    → Ordered bs
    → Ordered (change (acquired t device) i bs)
unfolding change
change-Ordered t device i [] r h = tt
change-Ordered t device i (b ∷ bs) r h = elim (Bool-cases (b.id == i)) [
  | inl e ↦ rw e h
  | inr e ↦ rw e (
    change-Idle t device i bs b.dev b.blockno (Refed-rest i b bs e r) h.0,
    change-Ordered t device i bs (Refed-rest i b bs e r) h.1,
  )
]

pub change-Synced :
    (t : ℕ) (device : Device) (i : ℕ) (bs : List Buf)
    → Synced device bs
    → Synced device (change (acquired t device) i bs)
unfolding change
change-Synced t device i [] h = tt
change-Synced t device i (b ∷ bs) h = elim (Bool-cases (b.id == i)) [
  | inl e ↦ rw e (same, h.1)
  | inr e ↦ rw e (h.0, change-Synced t device i bs h.1)
]
  where
    same : IsSynced device (acquired t device b)
    same z _ = elim (Bool-cases b.valid) [ inl v ↦ rw v (h.0 z v) | inr v ↦ rw v refl ]

-- The buffer of the block has the block's bytes, and a reference.
pub record Reads (t d k i : ℕ) (seen : Block) (bs : List Buf) : Type 0 where
  pub read : Buf
  pub held : read.task ≡ some t
  pub found : buffer i bs ≡ some read
  pub block : (read.dev ≡ d) × (read.blockno ≡ k)
  pub valid : read.valid ≡ true
  pub bytes : read.bytes ≡ seen
  pub refed : read.refc ≢ 0

pub change-Reads :
    (t : ℕ) (device : Device) (d k i : ℕ) (bs : List Buf)
    → Distinct bs
    → Front d k i bs
    → Reads t d k i (view device bs d k) (change (acquired t device) i bs)
unfolding view change buffer
change-Reads t device d k i [] v f = absurd f
change-Reads t device d k i (b ∷ bs) v f = elim (Bool-cases (caches d k b)) [
  | inl e ↦
      let (same, refed) = Front-here d k i b bs e f in
      let (p, q) = caches-eq d k b e in
      record {
        read = acquired t device b;
        held = refl;
        found = rw (eq→== b.id i same) (rw (eq→== b.id i same) refl);
        block = (p, q);
        valid = refl;
        bytes = rw e (ap (λ x. if b.valid then b.bytes else x) (ap₂ (λ d k. device d k) p q));
        refed = refed;
      }
  | inr e ↦
      let r = change-Reads t device d k i bs v.1 (Front-later d k i b bs e f) in
      record {
        read = r.read;
        held = r.held;
        found = rw (Front-other d k i b bs e f v) (rw (Front-other d k i b bs e f v) r.found);
        block = r.block;
        valid = r.valid;
        bytes = rw e r.bytes;
        refed = r.refed;
      }
]

pub Front-Refed : (d k i : ℕ) (bs : List Buf) → Distinct bs → Front d k i bs → Refed i bs
unfolding buffer
Front-Refed d k i [] v f x h = absurd f
Front-Refed d k i (b ∷ bs) v f x h = elim (Bool-cases (caches d k b)) [
  | inl e ↦
      let (same, refed) = Front-here d k i b bs e f in ground (arith, h, refed, eq→== b.id i same)
  | inr e ↦
      Front-Refed d k i bs v.1 (Front-later d k i b bs e f) x
        (rw (Front-other d k i b bs e f v, buffer) at h)
]

-- Giving a buffer to the task leaves it the first of its block.
Front-put :
    (d k i : ℕ) (b : Buf) (bs : List Buf)
    → caches d k b ≡ true
    → (b.id ≡ i) × (b.refc ≢ 0)
    → Front d k i (b ∷ bs)
Front-put d k i b bs e h = rw (e, Front) h

Front-behind :
    (d k i : ℕ) (b : Buf) (bs : List Buf)
    → caches d k b ≡ false
    → Front d k i bs
    → Front d k i (b ∷ bs)
Front-behind d k i b bs e h = rw (e, Front) h

pub change-Front :
    (t : ℕ) (device : Device) (d k i : ℕ) (bs : List Buf)
    → Front d k i bs
    → Front d k i (change (acquired t device) i bs)
unfolding change
change-Front t device d k i [] f = f
change-Front t device d k i (b ∷ bs) f = elim (Bool-cases (b.id == i)) [
  | inl e ↦ rw e f
  | inr e ↦ rw e (elim (Bool-cases (caches d k b)) [
    | inl c ↦ Front-put d k i b (change (acquired t device) i bs) c (Front-here d k i b bs c f)
    | inr c ↦
        Front-behind d k i b (change (acquired t device) i bs) c
          (change-Front t device d k i bs (Front-later d k i b bs c f))
  ])
]

pub change-Rested :
    (t : ℕ) (device : Device) (i : ℕ) (bs : List Buf)
    → Refed i bs
    → Rested bs
    → Rested (change (acquired t device) i bs)
unfolding change buffer
change-Rested t device i [] r h = tt
change-Rested t device i (b ∷ bs) r h = elim (Bool-cases (b.id == i)) [
  | inl e ↦ rw e (λ z. absurd (r b (rw e refl) z), h.1)
  | inr e ↦ rw e (h.0, change-Rested t device i bs (Refed-rest i b bs e r) h.1)
]
