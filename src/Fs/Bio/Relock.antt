-- ===== src/Fs/Bio/Relock.antt =====
-- A second `bread` of a block by a task that has not released the first one's buffer.
use tnix.Common.{
  ℕ, ◌+◌, ◌%◌, ◌≡◌, refl, ◌∙◌, List, [], ◌∷◌, some, eq→==, Bool-cases, inl, inr, subst, u32_mod,
}
use tnix.Fs.Bio.{Buf, Cache, caches, hit, bget, holder, bread, panics, gets}
use tnix.Fs.Bio.View.{Few, Front, Front-here, Front-later}
use tnix.Fs.Bio.Get.{holder_first, holder_later}
use tnix.Fs.Bio.Read.{IsCache, Loaded, bread-Loaded}

-- The first loop of `bget` finds the first buffer of the block, and leaves every holder.
hit-Front :
    (d k i : ℕ) (bs : List Buf)
    → Front d k i bs
    → (bs' : List Buf) × (hit d k bs ≡ some (i, bs')) × ((j : ℕ) → holder j bs' ≡ holder j bs)
unfolding hit
hit-Front d k i [] f = absurd f
hit-Front d k i (b ∷ bs) f = elim (Bool-cases (caches d k b)) [
  | inl e ↦ (
    record b { refc = (b.refc + 1) % u32_mod } ∷ bs,
    rw (e, hit, (Front-here d k i b bs e f).0) refl,
    λ j. holder_first j (record b { refc = (b.refc + 1) % u32_mod }) b bs refl refl,
  )
  | inr e ↦
      let (bs', run, same) = hit-Front d k i bs (Front-later d k i b bs e f) in
      (b ∷ bs', rw (e, run, hit) refl, λ j. holder_later j b bs' bs (same j))
]

-- The task is at the front of the block's buffers.
held_panics :
    (t d k i : ℕ) (c : Cache)
    → Front d k i c.bufs
    → holder i c.bufs ≡ some t
    → bread t d k c ≡ panics
unfolding bread bget
held_panics t d k i c f h =
    let (bs', run, same) = hit-Front d k i c.bufs f in
    rw (bread, bget, run, same i, h, eq→== t t refl) refl

Loaded-holder : (t d k i : ℕ) (c c' : Cache) → Loaded t d k i c c' → holder i c'.bufs ≡ some t
unfolding holder
Loaded-holder t d k i c c' l =
    let is : holder i c'.bufs ≡ l.reads.read.task = rw (holder, l.reads.found) refl in
    is ∙ l.reads.held

-- In a cache that fulfils its invariant, whose counts do not reach the top of `u32`: a task that
-- `bread` has given the buffer of a block, and that reads the block again before anything else is
-- done to the cache, panics.
pub bread_again :
    (t d k i : ℕ) (c c' : Cache)
    → IsCache c
    → Few c.bufs
    → bread t d k c ≡ gets i c'
    → bread t d k c' ≡ panics
bread_again t d k i c c' v few run = elim (bread-Loaded t d k c v few) [
  | inl (_, _, stop) ↦ absurd (cc (stop, run))
  | inr (inl (_, stop)) ↦ absurd (cc (stop, run))
  | inr (inr (inl (_, _, _, _, _, stop, _))) ↦ absurd (cc (stop, run))
  | inr (inr (inr (j, c0, go, l))) ↦
      let same_buf : j ≡ i = cc (go, run) in
      let same_cache : c0 ≡ c' = cc (go, run) in
      subst (λ x. bread t d k x ≡ panics) same_cache
        (held_panics t d k j c0 l.front (Loaded-holder t d k j c c0 l))
]
