-- ===== src/Mem/Slots/Laws.antt =====
-- `alloc` gives a chunk that is not in use, changes no other one, and always ends.
use tnix.Common.{
  ℕ, zero, suc, ◌+◌, ◌*◌, ◌<◌, ◌≡◌, ◌≢◌, refl, ap, sym, ◌∙◌, List, [], ◌∷◌, Bool, true, false, none,
  some, arith, ◌==◌, length, get_or, replicate, add32, length-set, length-replicate,
  get_or-set_self, get_or-set_ne, Bool-cases, inl, inr, ◌⊎◌, u32_mod, ==→eq, not_==→ne, ne→not_==,
}
use tnix.Mem.Pages.{Pages}
use tnix.Mem.Pages.Pool.{IsPool, alloc_page-Allocated}
use tnix.Mem.Slots.{SlotBlock, panics, returns, opened, taken, alloc_slot}
use tnix.Mem.Slots.Count.{
  count_used, count_used-replicate, count_used-set-true, first_unused_lem, IsBlock, Blocks, total,
  block_used, chunk_used, count_used-length,
}

-- A block whose chunks can be looked through.
record Opened (per n : ℕ) (b : SlotBlock) (b' : SlotBlock) (s' : Pages) : Type 0 where
  refc : b'.refc ≡ b.refc
  counted : b'.refc ≡ count_used b'.inuse
  size : length b'.inuse ≡ per
  same : (i : ℕ) → get_or b'.inuse i false ≡ block_used b i
  pool : IsPool n s'

get_or-replicate : (m i : ℕ) → get_or (replicate m false) i false ≡ false
get_or-replicate zero i = refl
get_or-replicate (suc m) zero = refl
get_or-replicate (suc m) (suc i) = get_or-replicate m i

opened-Opened :
    (per n : ℕ) (b : SlotBlock) (s : Pages)
    → IsBlock per b
    → IsPool n s
    → ((opened per b s ≡ none) × ((p : ℕ) → p < n → s.inuse p ≡ true))
      ⊎ ((b' : SlotBlock) × (s' : Pages) × (opened per b s ≡ some (b', s')) × Opened per n b b' s')
unfolding opened
opened-Opened per n b s v pool = elim (Bool-cases (b.refc == 0)) [
  | inr e ↦ inr (
    b,
    s,
    rw (e, opened) refl,
    record {
      refc = refl;
      counted = v.counted (not_==→ne b.refc 0 e);
      size = v.size (not_==→ne b.refc 0 e);
      same = λ i. rw e refl;
      pool = pool;
    },
  )
  | inl e ↦ elim (alloc_page-Allocated n s pool) [
    | inl (run, full) ↦ inl (rw (e, opened, run) refl, full)
    | inr (p, s', run, a) ↦ inr (
      record b { slot = p; inuse = replicate per false },
      s',
      rw (e, opened, run) refl,
      record {
        refc = refl;
        counted = ==→eq b.refc 0 e ∙ sym (count_used-replicate per);
        size = length-replicate per false;
        same = λ i. rw e (get_or-replicate per i);
        pool = a.pool;
      },
    )
  ]
]

-- What `alloc` returns.
pub record Given (per n k i : ℕ) (bs bs' : List SlotBlock) (s' : Pages) : Type 0 where
  pub below : i < per
  pub was_free : chunk_used bs k i ≡ false
  pub now_used : chunk_used bs' k i ≡ true
  pub others : (k' i' : ℕ) → (k' ≢ k) ⊎ (i' ≢ i) → chunk_used bs' k' i' ≡ chunk_used bs k' i'
  pub one_more : total bs' ≡ total bs + 1
  pub blocks : Blocks per bs'
  pub pool : IsPool n s'

get_or-other_default :
    (fs : List Bool) (i : ℕ) → get_or fs i true ≡ false → get_or fs i false ≡ false
get_or-other_default [] i e = refl
get_or-other_default (f ∷ fs) zero e = e
get_or-other_default (f ∷ fs) (suc i) e = get_or-other_default fs i e

module _ (per n : ℕ) (small : per < u32_mod) (some_chunk : per ≢ 0) where
  -- A block with room gives its first unused chunk.
  taken-Given :
      (b b' : SlotBlock) (bs : List SlotBlock) (s' : Pages) (i : ℕ)
      → Opened per n b b' s'
      → Blocks per bs
      → i < length b'.inuse
      → get_or b'.inuse i true ≡ false
      → b'.refc ≢ per
      → Given per n 0 i (b ∷ bs) (taken i b' ∷ bs) s'
  taken-Given b b' bs s' i o v below e room = record {
    below = omega (arith, o.size);
    was_free = sym (o.same i) ∙ get_or-other_default b'.inuse i e;
    now_used =
        rw (ne→not_== (add32 b'.refc 1) 0 positive) (get_or-set_self b'.inuse i true false below);
    others = others;
    one_more = omega (arith, grows, o.refc);
    blocks = (
      record {
        counted =
            λ z. grows ∙ ap (λ t. t + 1) o.counted ∙ sym (count_used-set-true b'.inuse i below e);
        size = λ z. length-set b'.inuse i true ∙ o.size;
      },
      v,
    );
    pool = o.pool;
  }
    where
      few : b'.refc < per
      few = omega (arith, o.counted, o.size, count_used-length b'.inuse, room)

      grows : add32 b'.refc 1 ≡ b'.refc + 1
      grows = omega (arith, few, small)

      positive : add32 b'.refc 1 ≢ 0
      positive = omega (arith, grows)

      others :
          (k' i' : ℕ)
          → (k' ≢ 0) ⊎ (i' ≢ i)
          → chunk_used (taken i b' ∷ bs) k' i' ≡ chunk_used (b ∷ bs) k' i'
      others zero i' (inl ne) = absurd (ne refl)
      others zero i' (inr ne) =
          rw (ne→not_== (add32 b'.refc 1) 0 positive)
            (get_or-set_ne b'.inuse i i' true false (λ q. ne (sym q)) ∙ o.same i')
      others (suc k') i' ne = refl

  -- A full block is left as it is.
  behind-Given :
      (b : SlotBlock) (bs bs' : List SlotBlock) (s' : Pages) (k i : ℕ)
      → IsBlock per b
      → Given per n k i bs bs' s'
      → Given per n (suc k) i (b ∷ bs) (b ∷ bs') s'
  behind-Given b bs bs' s' k i v g = record {
    below = g.below;
    was_free = g.was_free;
    now_used = g.now_used;
    others = others;
    one_more = omega (arith, g.one_more);
    blocks = (v, g.blocks);
    pool = g.pool;
  }
    where
      others :
          (k' i' : ℕ)
          → (k' ≢ suc k) ⊎ (i' ≢ i)
          → chunk_used (b ∷ bs') k' i' ≡ chunk_used (b ∷ bs) k' i'
      others zero i' ne = refl
      others (suc k') i' (inl ne) = g.others k' i' (inl (λ q. ne (ap suc q)))
      others (suc k') i' (inr ne) = g.others k' i' (inr ne)

  opened_full : (b : SlotBlock) (s : Pages) → b.refc ≡ per → opened per b s ≡ some (b, s)
  unfolding opened
  opened_full b s e = rw (ne→not_== b.refc 0 (λ z. some_chunk (sym e ∙ z)), opened) refl

  -- Over pages and blocks that fulfil their invariants, with at least one chunk in a block and
  -- fewer than `2 ^ 32`: `alloc` always ends. It panics only if every page is in use or every
  -- block is full; otherwise it gives a chunk that was not in use and is from then on, leaves
  -- every other chunk as it was, and keeps the invariants.
  pub alloc_slot-Given :
      (bs : List SlotBlock) (s : Pages)
      → Blocks per bs
      → IsPool n s
      → ((alloc_slot per bs s ≡ panics)
          × (((p : ℕ) → p < n → s.inuse p ≡ true) ⊎ (total bs ≡ per * length bs)))
        ⊎ ((k i : ℕ) × (bs' : List SlotBlock) × (s' : Pages) × (alloc_slot per bs s
              ≡ returns k i bs' s')
            × Given per n k i bs bs' s')
  unfolding alloc_slot
  alloc_slot-Given [] s v pool = inl (refl, inr (omega arith))
  alloc_slot-Given (b ∷ bs) s v pool = elim (Bool-cases (b.refc == per)) [
    | inl e ↦ elim (alloc_slot-Given bs s v.1 pool) [
      | inl (run, inl full) ↦
          inl (rw (opened_full b s (==→eq b.refc per e), alloc_slot, e, run) refl, inl full)
      | inl (run, inr full) ↦ inl (
        rw (opened_full b s (==→eq b.refc per e), alloc_slot, e, run) refl,
        inr (full_total b bs (==→eq b.refc per e) full),
      )
      | inr (k, i, bs', s', run, g) ↦ inr (
        suc k,
        i,
        b ∷ bs',
        s',
        rw (opened_full b s (==→eq b.refc per e), alloc_slot, e, run) refl,
        behind-Given b bs bs' s' k i v.0 g,
      )
    ]
    | inr e ↦ elim (opened-Opened per n b s v.0 pool) [
      | inl (run, full) ↦ inl (rw (run, alloc_slot) refl, inl full)
      | inr (b', s', run, o) ↦
          let room : b'.refc ≢ per = λ q. not_==→ne b.refc per e (sym o.refc ∙ q) in
          let (i, found, below, free) =
            first_unused_lem b'.inuse (λ q. room (o.counted ∙ q ∙ o.size)) in
          inr (
            0,
            i,
            taken i b' ∷ bs,
            s',
            rw (run, alloc_slot, ne→not_== b'.refc per room, found) refl,
            taken-Given b b' bs s' i o v.1 below free room,
          )
    ]
  ]
    where
      full_total :
          (b : SlotBlock) (bs : List SlotBlock)
          → b.refc ≡ per
          → total bs ≡ per * length bs
          → b.refc + total bs ≡ per * suc (length bs)
      full_total b bs p q = omega (arith, p, q)
