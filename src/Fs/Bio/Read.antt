-- ===== src/Fs/Bio/Read.antt =====
-- `bread`: the buffer it returns has the bytes of the block, and the cache keeps its invariant.
use tnix.Common.{
  ℕ, ◌≡◌, ◌≢◌, refl, ap, ◌∙◌, List, [], ◌∷◌, true, Option-cases, subst, sym, ==→eq, not_==→ne, none,
  some, ◌==◌, Bool-cases, inl, inr, ◌⊎◌,
}
use tnix.Fs.Bio.{Buf, Cache, caches, buffer, fill, bread, holder, bread_try, panics, waits, gets}
use tnix.Fs.Bio.View.{view, Ordered, Synced, Few, Absent, Front, Distinct, Busy, Rested, Origin}
use tnix.Fs.Bio.Get.{Stepped, bget-Stepped, IsTaken, From, bget-From}
use tnix.Fs.Bio.Fill.{
  change-Front, change-Synced, Refed, change-Ordered, change-Rested, change-view, Reads,
  Front-Refed, change-Reads, change-Distinct,
}

-- The cache between two steps.
pub record IsCache (c : Cache) : Type 0 where
  pub distinct : Distinct c.bufs
  pub ordered : Ordered c.bufs
  pub synced : Synced c.device c.bufs
  pub rested : Rested c.bufs

-- What a `bread` that returns buffer `i` leaves.
pub record Loaded (t d k i : ℕ) (c c' : Cache) : Type 0 where
  pub device : c'.device ≡ c.device
  pub front : Front d k i c'.bufs
  pub reads : Reads t d k i (view c.device c.bufs d k) c'.bufs
  pub cache : IsCache c'
  pub seen : (d' k' : ℕ) → view c'.device c'.bufs d' k' ≡ view c.device c.bufs d' k'

fill-Loaded :
    (t d k i : ℕ) (c : Cache) (bs : List Buf)
    → IsCache c
    → Stepped c.device d k c.bufs bs
    → Front d k i bs
    → Loaded t d k i c (fill t i (record c { bufs = bs }))
unfolding fill
fill-Loaded t d k i c bs v s f =
    let distinct : Distinct bs = s.distinct v.distinct in
    let refed : Refed i bs = Front-Refed d k i bs distinct f in
    let r = change-Reads t c.device d k i bs distinct f in
    record {
      device = refl;
      front = change-Front t c.device d k i bs f;
      reads = record {
        read = r.read;
        held = r.held;
        found = r.found;
        block = r.block;
        valid = r.valid;
        bytes = r.bytes ∙ s.seen v.ordered v.synced d k;
        refed = r.refed;
      };
      cache = record {
        distinct = change-Distinct t c.device i bs distinct;
        ordered = change-Ordered t c.device i bs refed (s.ordered v.ordered);
        synced = change-Synced t c.device i bs (s.synced v.synced);
        rested = change-Rested t c.device i bs refed (s.rested v.rested);
      };
      seen = λ d' k'. change-view t c.device i bs d' k' ∙ s.seen v.ordered v.synced d' k';
    }

-- A task that sleeps on the lock of buffer `i`: the buffer has a reference more, and the cache keeps its invariant.
pub record Waited (d k i : ℕ) (c c' : Cache) : Type 0 where
  pub device : c'.device ≡ c.device
  pub front : Front d k i c'.bufs
  pub cache : IsCache c'
  pub seen : (d' k' : ℕ) → view c'.device c'.bufs d' k' ≡ view c.device c.bufs d' k'

-- The task holds a buffer of the block.
abbrev pub Holds : ℕ → ℕ → ℕ → List Buf → Type 0
Holds t d k bs = (i : ℕ) × Origin (λ (b : Buf). (caches d k b ≡ true) × (b.task ≡ some t)) i bs

Rested-at :
    (i : ℕ) (bs : List Buf) (b : Buf)
    → Rested bs
    → buffer i bs ≡ some b
    → b.refc ≡ 0
    → b.task ≡ none
unfolding buffer
Rested-at i [] b r e z = absurd (cc e)
Rested-at i (x ∷ bs) b r e z = elim (Bool-cases (x.id == i)) [
  | inl h ↦ first h
  | inr h ↦
      let behind : buffer i (x ∷ bs) ≡ buffer i bs = rw h refl in
      Rested-at i bs b r.1 (sym behind ∙ e) z
]
  where
    first : (x.id == i) ≡ true → b.task ≡ none
    first h =
        let here : buffer i (x ∷ bs) ≡ some x = rw h refl in
        let q : x ≡ b = cc (here, e) in
        sym (ap (λ (y : Buf). y.task) q) ∙ r.0 (ap (λ (y : Buf). y.refc) q ∙ z)

Holds-taken :
    (t d k i : ℕ) (bs : List Buf)
    → Rested bs
    → Origin (IsTaken d k) i bs
    → holder i bs ≡ some t
    → Holds t d k bs
unfolding holder
Holds-taken t d k i bs r (b, e, why) h =
    let is : holder i bs ≡ b.task = rw (holder, e) refl in
    let at : b.task ≡ some t = sym is ∙ h in
    elim why [ inl y ↦ (i, (b, e, (y, at))) | inr z ↦ absurd (cc (Rested-at i bs b r e z, at)) ]

Waited-got :
    (d k i : ℕ) (c : Cache) (bs : List Buf)
    → IsCache c
    → Stepped c.device d k c.bufs bs
    → Front d k i bs
    → Waited d k i c (record c { bufs = bs })
Waited-got d k i c bs v s f = record {
  device = refl;
  front = f;
  cache = record {
    distinct = s.distinct v.distinct;
    ordered = s.ordered v.ordered;
    synced = s.synced v.synced;
    rested = s.rested v.rested;
  };
  seen = λ d' k'. s.seen v.ordered v.synced d' k';
}

pub bread-Loaded :
    (t d k : ℕ) (c : Cache)
    → IsCache c
    → Few c.bufs
    → (Absent d k c.bufs × Busy c.bufs × (bread t d k c ≡ panics))
      ⊎ (Holds t d k c.bufs × (bread t d k c ≡ panics))
      ⊎ ((i u : ℕ) × (c' : Cache) × (u ≢ t)
          × (holder i c'.bufs ≡ some u)
          × (bread t d k c ≡ waits i c')
          × Waited d k i c c')
      ⊎ ((i : ℕ) × (c' : Cache) × (bread t d k c ≡ gets i c') × Loaded t d k i c c')
unfolding bread bread_try
bread-Loaded t d k c v few = elim (bget-Stepped c.device d k c.bufs few) [
  | inl (a, busy, run) ↦ inl (a, busy, rw (run, bread) refl)
  | inr (i, bs, run, s, f) ↦ elim (Option-cases (holder i bs)) [
    | inl e ↦ inr (
        inr (
          inr (
            i,
            fill t i (record c { bufs = bs }),
            rw (run, bread, e, bread_try, e) refl,
            fill-Loaded t d k i c bs v s f,
          )))
    | inr (u, e) ↦ elim (Bool-cases (t == u)) [
      | inl q ↦ inr (
          inl (
            Holds-taken t d k i c.bufs v.rested
                (subst (From d k c.bufs) run (bget-From d k c.bufs v.distinct))
                (sym (s.tasks i) ∙ e ∙ ap some (sym (==→eq t u q))),
            rw (run, bread, e, q) refl,
          ))
      | inr q ↦ inr (
          inr (
            inl (
              i,
              u,
              record c { bufs = bs },
              (λ z. not_==→ne t u q (sym z)),
              e,
              rw (run, bread, e, q, bread_try, e) refl,
              Waited-got d k i c bs v s f,
            )))
    ]
  ]
]
