-- ===== src/Fs/Bio.antt =====
-- kernel/fs/bio.c. The buffers stand in the order of the list `bcache.head`, from `next` on. `disk_read` and
-- `disk_write` are taken as reads and writes of `device`, which gives device and block number their bytes.
-- The spin lock of the list is held in each of the steps below; `task` is the holder of a buffer's sleep lock.
use tnix.Common.{
  ℕ, zero, suc, ◌+◌, ◌-◌, ◌%◌, ◌^◌, List, [], ◌∷◌, ◌++◌, Bool, true, false, ◌&&◌, Option, none,
  some, if◌then◌else◌, ◌==◌, u32_mod,
}
use tnix.Fs.Blocks.{Block}
pub mod View
pub mod Get
pub mod Fill
pub mod Read
pub mod Start
pub mod Relock
mod Examples

-- `id` tells the entries of `bufs` apart.
pub record Buf : Type 0 where
  pub id : ℕ
  pub dev : ℕ
  pub blockno : ℕ
  pub refc : ℕ
  pub valid : Bool
  pub task : Option ℕ
  pub bytes : Block

abbrev pub Device : Type 0
Device = ℕ → ℕ → Block

pub record Cache : Type 0 where
  pub bufs : List Buf
  pub device : Device

abbrev pub caches : ℕ → ℕ → Buf → Bool
caches dev blockno b = b.dev == dev && b.blockno == blockno

-- The first loop of `bget`: a buffer of the block gets a reference.
unfoldable pub hit : ℕ → ℕ → List Buf → Option (ℕ × List Buf)
hit dev blockno [] = none
hit dev blockno (b ∷ bs) = elim (caches dev blockno b) [
  | true ↦ some (b.id, record b { refc = (b.refc + 1) % u32_mod } ∷ bs)
  | false ↦ elim (hit dev blockno bs) [ none ↦ none | some (i, bs') ↦ some (i, b ∷ bs') ]
]

abbrev pub claimed : ℕ → ℕ → Buf → Buf
claimed dev blockno b = record b { refc = 1; dev = dev; blockno = blockno; valid = false }

-- The second loop, from the other end: a buffer with no reference is given to the block.
unfoldable pub miss : ℕ → ℕ → List Buf → Option (ℕ × List Buf)
miss dev blockno [] = none
miss dev blockno (b ∷ bs) = elim (miss dev blockno bs) [
  | some (i, bs') ↦ some (i, b ∷ bs')
  | none ↦ elim (b.refc == 0) [ true ↦ some (b.id, claimed dev blockno b ∷ bs) | false ↦ none ]
]

-- `bget` up to `sleep_get`; `none` is the panic.
unfoldable pub bget : ℕ → ℕ → List Buf → Option (ℕ × List Buf)
unfolding hit miss
bget dev blockno bs = elim (hit dev blockno bs) [ some r ↦ some r | none ↦ miss dev blockno bs ]

-- What one step does to the buffer `id`.
unfoldable pub change : (Buf → Buf) → ℕ → List Buf → List Buf
change f i [] = []
change f i (b ∷ bs) = if b.id == i then f b ∷ bs else b ∷ change f i bs

unfoldable pub buffer : ℕ → List Buf → Option Buf
buffer i [] = none
buffer i (b ∷ bs) = if b.id == i then some b else buffer i bs

-- The lock gets its owner.
abbrev pub locked_by : ℕ → Buf → Buf
locked_by t b = record b { task = some t }

-- What `bread` does to the buffer behind `bget`.
abbrev pub loaded : Device → Buf → Buf
loaded device b = record b {
  bytes = if b.valid then b.bytes else device b.dev b.blockno;
  valid = true;
}

-- The exchange of `sleep_get` has found the lock free; `bread` reads the block where the buffer is not valid.
abbrev pub acquired : ℕ → Device → Buf → Buf
acquired t device b = loaded device (locked_by t b)

unfoldable pub fill : ℕ → ℕ → Cache → Cache
unfolding change
fill t i c = record c { bufs = change (acquired t c.device) i c.bufs }

-- The holder of a buffer's lock.
unfoldable pub holder : ℕ → List Buf → Option ℕ
unfolding buffer
holder i bs = elim (buffer i bs) [ none ↦ none | some b ↦ b.task ]

abbrev pub is_holder : ℕ → Option ℕ → Bool
is_holder t none = false
is_holder t (some u) = t == u

-- What `bread` comes to: a panic, a task asleep on the lock of buffer `i`, or buffer `i` returned.
pub data Breading : Type 0 where
  panics : Breading
  waits : ℕ → Cache → Breading
  gets : ℕ → Cache → Breading

-- The loop of `sleep_get` by task `t`, where a task that was woken goes on, and the reading.
unfoldable pub bread_try : ℕ → ℕ → Cache → Breading
unfolding holder fill
bread_try t i c = elim (holder i c.bufs) [ none ↦ gets i (fill t i c) | some u ↦ waits i c ]

-- `bread` by task `t`; `sleep_get` panics where the task holds the buffer already.
unfoldable pub bread : ℕ → ℕ → ℕ → Cache → Breading
unfolding bget bread_try
bread t dev blockno c = elim (bget dev blockno c.bufs) [
  | none ↦ panics
  | some (i, bs) ↦ elim (is_holder t (holder i bs)) [
    | true ↦ panics
    | false ↦ bread_try t i (record c { bufs = bs })
  ]
]

-- `bwrite` by task `t`; `none` is the panic.
unfoldable pub bwrite : ℕ → ℕ → Cache → Option Cache
unfolding buffer
bwrite t i c = elim (buffer i c.bufs) [
  | none ↦ none
  | some b ↦
      if is_holder t b.task
      then some (record c {
        device = λ dev blockno. if caches dev blockno b then b.bytes else c.device dev blockno;
      })
      else none
]

-- What the holder does between `bread` and `bwrite`.
unfoldable pub store_bytes : ℕ → Block → Cache → Cache
unfolding change
store_bytes i data' c = record c { bufs = change (λ b. record b { bytes = data' }) i c.bufs }

unfoldable pub bzero : ℕ → ℕ → Cache → Option Cache
unfolding store_bytes bwrite
bzero t i c = bwrite t i (store_bytes i (λ p. 0) c)

-- The list without buffer `i`, for `list_remove`.
unfoldable pub without : ℕ → List Buf → List Buf
without i [] = []
without i (b ∷ bs) = if b.id == i then bs else b ∷ without i bs

-- `brelse` by task `t`: the reference goes, and with the last one the buffer moves to the front.
unfoldable pub brelse : ℕ → ℕ → Cache → Option Cache
unfolding buffer without change
brelse t i c = elim (buffer i c.bufs) [
  | none ↦ none
  | some b ↦
      let released = record b { task = none; refc = b.refc - 1 } in
      if is_holder t b.task
      then some (record c {
        bufs =
            if b.refc - 1 == 0
            then released ∷ without i c.bufs
            else change (λ _. released) i c.bufs;
      })
      else none
]

-- `init_bcache`: the `n` buffers from `i` on.
unfoldable pub init_bcache : ℕ → ℕ → List Buf
init_bcache i zero = []
init_bcache i (suc n) =
    record { id = i; dev = 0; blockno = 0; refc = 0; valid = false; task = none; bytes = λ p. 0 }
    ∷ init_bcache (suc i) n
