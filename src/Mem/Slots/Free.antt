-- ===== src/Mem/Slots/Free.antt =====
-- `free` of a chunk in use: what becomes of the chunks and of the block's page.
use tnix.Common.{
  get_elem?, ℕ, zero, suc, ◌+◌, ◌≤◌, ◌<◌, ◌≡◌, ◌≢◌, refl, ap, sym, ◌∙◌, List, [], ◌∷◌, Bool, true,
  false, some, arith, ◌==◌, get_or, set, sub32, length-set, get_or-set_ne, Bool-cases, inl, inr,
  ◌⊎◌, u32_mod, ==→eq, not_==→ne, ne→not_==,
}
use tnix.Mem.Pages.{Pages}
use tnix.Mem.Pages.Pool.{IsPool, free_page-IsPool}
use tnix.Mem.Slots.{SlotBlock, free_chunk, free_slot}
use tnix.Mem.Slots.Count.{
  count_used, count_used-set-false, IsBlock, Blocks, total, block_used, chunk_used, count_le,
}

-- What `free` of a block's chunk does to the pages: with its last chunk the page is given back, and no other
-- page changes; else no page does.
abbrev pub Gives : SlotBlock → Pages → Pages → Type 0
Gives b s s' =
    ((b.refc ≡ 1) × (s'.inuse b.slot ≡ false) × ((q : ℕ) → q ≢ b.slot → s'.inuse q ≡ s.inuse q))
    ⊎ ((b.refc ≢ 1) × (s' ≡ s))

Gives-others :
    (b : SlotBlock) (s s' : Pages) → Gives b s s' → (q : ℕ) → q ≢ b.slot → s'.inuse q ≡ s.inuse q
Gives-others b s s' (inl (z, f, o)) q ne = o q ne
Gives-others b s s' (inr (z, e)) q ne = ap (λ (t : Pages). t.inuse q) e

-- What `free` does to a block.
record Freed (per n i : ℕ) (b b' : SlotBlock) (s s' : Pages) : Type 0 where
  now_free : block_used b' i ≡ false
  others : (i' : ℕ) → i' ≢ i → block_used b' i' ≡ block_used b i'
  one_less : b'.refc + 1 ≡ b.refc
  block : IsBlock per b'
  pool : IsPool n s'
  same_page : b'.refc ≢ 0 → b'.slot ≡ b.slot
  gives : Gives b s s'

-- No block has the page.
abbrev pub Apart : ℕ → List SlotBlock → Type 0
Apart p [] = Unit {0}
Apart p (b ∷ bs) = (b.refc ≢ 0 → b.slot ≢ p) × Apart p bs

-- The page of each block that has one is in use, and no other block's.
abbrev pub Paged : ℕ → List SlotBlock → Pages → Type 0
Paged n [] s = Unit {0}
Paged n (b ∷ bs) s =
    (b.refc ≢ 0 → (b.slot < n) × (s.inuse b.slot ≡ true) × Apart b.slot bs) × Paged n bs s

Apart-at :
    (p k : ℕ) (bs : List SlotBlock) (b : SlotBlock)
    → Apart p bs
    → get_elem? bs k ≡ some b
    → b.refc ≢ 0
    → b.slot ≢ p
Apart-at p k [] b v e z = absurd (cc e)
Apart-at p zero (x ∷ bs) b v e z = first (cc e)
  where
    first : x ≡ b → b.slot ≢ p
    first q same =
        v.0 (λ r. z (sym (ap (λ (y : SlotBlock). y.refc) q) ∙ r))
          (ap (λ (y : SlotBlock). y.slot) q ∙ same)
Apart-at p (suc k) (x ∷ bs) b v e z = Apart-at p k bs b v.1 e z

-- The pages of the blocks stay in use where only page `p` may change.
Paged-others :
    (n p : ℕ) (bs : List SlotBlock) (s s' : Pages)
    → Apart p bs
    → ((q : ℕ) → q ≢ p → s'.inuse q ≡ s.inuse q)
    → Paged n bs s
    → Paged n bs s'
Paged-others n p [] s s' a o v = tt
Paged-others n p (b ∷ bs) s s' a o v =
    (λ z. ((v.0 z).0, o b.slot (a.0 z) ∙ (v.0 z).1, (v.0 z).2), Paged-others n p bs s s' a.1 o v.1)

block_used-refc :
    (b : SlotBlock) (i : ℕ) → block_used b i ≡ true → (b.refc ≢ 0) × (get_or b.inuse i false ≡ true)
block_used-refc b i h = elim (Bool-cases (b.refc == 0)) [
  | inl e ↦ absurd (cc (rw e at h))
  | inr e ↦ (not_==→ne b.refc 0 e, rw e at h)
]

get_or-none_used : (fs : List Bool) (i : ℕ) → count_used fs ≡ 0 → get_or fs i false ≡ false
get_or-none_used [] i h = refl
get_or-none_used (true ∷ fs) i h = absurd (omega (arith, h))
get_or-none_used (false ∷ fs) zero h = refl
get_or-none_used (false ∷ fs) (suc i) h = get_or-none_used fs i (omega (arith, h))

get_or-set-false : (fs : List Bool) (i : ℕ) → get_or (set fs i false) i false ≡ false
get_or-set-false [] i = refl
get_or-set-false (f ∷ fs) zero = refl
get_or-set-false (f ∷ fs) (suc i) = get_or-set-false fs i

-- What `free` does to the table.
pub record Returned (per n k i : ℕ) (bs bs' : List SlotBlock) (s s' : Pages) : Type 0 where
  pub now_free : chunk_used bs' k i ≡ false
  pub others : (k' i' : ℕ) → (k' ≢ k) ⊎ (i' ≢ i) → chunk_used bs' k' i' ≡ chunk_used bs k' i'
  pub one_less : total bs' + 1 ≡ total bs
  pub blocks : Blocks per bs'
  pub pool : IsPool n s'
  pub freed : SlotBlock
  pub at : get_elem? bs k ≡ some freed
  pub referenced : freed.refc ≢ 0
  pub gives : Gives freed s s'
  pub paged : Paged n bs' s'
  pub apart : (p : ℕ) → Apart p bs → Apart p bs'

module _ (per n : ℕ) (small : per < u32_mod) where
  free_chunk-Freed :
      (i : ℕ) (b : SlotBlock) (s : Pages)
      → IsBlock per b
      → IsPool n s
      → block_used b i ≡ true
      → (b.slot < n) × (s.inuse b.slot ≡ true)
      → (b' : SlotBlock) × (s' : Pages) × (free_chunk i b s ≡ some (b', s'))
        × Freed per n i b b' s s'
  unfolding free_chunk
  free_chunk-Freed i b s v pool h paged = elim (Bool-cases (sub32 b.refc 1 == 0)) [
    | inl e ↦ elim (free_page-IsPool n b.slot s paged.0 pool) [
      | inr (f, run) ↦ absurd (cc (f, paged.1))
      | inl (s', f, run, g, o, pool') ↦ (
        record { refc = sub32 b.refc 1; slot = 0; inuse = set b.inuse i false },
        s',
        rw (e, free_chunk, run) refl,
        record {
          now_free = rw e refl;
          others = λ i' ne. rw (e, occupied) (sym (last i' ne e));
          one_less = less;
          block = record {
            counted = λ z. absurd (z (==→eq (sub32 b.refc 1) 0 e));
            size = λ z. absurd (z (==→eq (sub32 b.refc 1) 0 e));
          };
          pool = pool';
          same_page = λ z. absurd (z (==→eq (sub32 b.refc 1) 0 e));
          gives = inl (omega (arith, less, ==→eq (sub32 b.refc 1) 0 e), g, o);
        },
      )
    ]
    | inr e ↦ (
      record b { refc = sub32 b.refc 1; inuse = set b.inuse i false },
      s,
      rw (e, free_chunk) refl,
      record {
        now_free = rw e (get_or-set-false b.inuse i);
        others =
            λ i' ne. rw (e, occupied) (get_or-set_ne b.inuse i i' false false (λ q. ne (sym q)));
        one_less = less;
        block = record {
          counted = λ z. omega (arith, counts);
          size = λ z. length-set b.inuse i false ∙ v.size used.0;
        };
        pool = pool;
        same_page = λ z. refl;
        gives = inr ((λ z. not_==→ne (sub32 b.refc 1) 0 e (omega (arith, less, z))), refl);
      },
    )
  ]
    where
      used : (b.refc ≢ 0) × (get_or b.inuse i false ≡ true)
      used = block_used-refc b i h

      occupied : (b.refc == 0) ≡ false
      occupied = ne→not_== b.refc 0 used.0

      bounded : b.refc ≤ per
      bounded = count_le per b v

      less : sub32 b.refc 1 + 1 ≡ b.refc
      less = omega (arith, used.0, bounded, small)

      counts : count_used (set b.inuse i false) ≡ sub32 b.refc 1
      counts = omega (arith, count_used-set-false b.inuse i used.1, v.counted used.0, less)

      last : (i' : ℕ) → i' ≢ i → (sub32 b.refc 1 == 0) ≡ true → get_or b.inuse i' false ≡ false
      last i' ne e =
          sym (get_or-set_ne b.inuse i i' false false (λ q. ne (sym q)))
          ∙ get_or-none_used (set b.inuse i false) i' (counts ∙ ==→eq (sub32 b.refc 1) 0 e)

  -- Over pages and blocks that fulfil their invariants, with fewer than `2 ^ 32` chunks in a block
  -- and the page of each block with references in use and of no other such block: `free` of a
  -- chunk in use does not panic, the chunk is not in use from then on, every other one is as it
  -- was, and the invariants are kept. With the last chunk of its block the page of the block is
  -- given back, and the use of no other page changes; otherwise no page changes.
  pub free_slot-Returned :
      (k i : ℕ) (bs : List SlotBlock) (s : Pages)
      → Blocks per bs
      → IsPool n s
      → Paged n bs s
      → chunk_used bs k i ≡ true
      → (bs' : List SlotBlock) × (s' : Pages) × (free_slot k i bs s ≡ some (bs', s'))
        × Returned per n k i bs bs' s s'
  unfolding free_slot
  free_slot-Returned k i [] s v pool paged h = absurd (cc (h))
  free_slot-Returned zero i (b ∷ bs) s v pool paged h =
      let in_use = (block_used-refc b i h).0 in
      let mine = paged.0 in_use in
      let (b', s', run, f) = free_chunk-Freed i b s v.0 pool h (mine.0, mine.1) in
      (
        b' ∷ bs,
        s',
        rw (run, free_slot) refl,
        record {
          now_free = f.now_free;
          others = head_others b b' bs i f.others;
          one_less = omega (arith, f.one_less);
          blocks = (f.block, v.1);
          pool = f.pool;
          freed = b;
          at = refl;
          referenced = in_use;
          gives = f.gives;
          paged = (
            λ z. head_paged b b' bs s s' z f.one_less (f.same_page z) f.gives mine,
            Paged-others n b.slot bs s s' mine.2 (Gives-others b s s' f.gives) paged.1,
          );
          apart = λ p a. ((λ z q. a.0 in_use (sym (f.same_page z) ∙ q)), a.1);
        },
      )
    where
      head_paged :
          (b b' : SlotBlock) (bs : List SlotBlock) (s s' : Pages)
          → b'.refc ≢ 0
          → b'.refc + 1 ≡ b.refc
          → b'.slot ≡ b.slot
          → Gives b s s'
          → (b.slot < n) × (s.inuse b.slot ≡ true) × Apart b.slot bs
          → (b'.slot < n) × (s'.inuse b'.slot ≡ true) × Apart b'.slot bs
      head_paged b b' bs s s' z less e (inl (one, _, _)) m = absurd (omega (arith, z, less, one))
      head_paged b b' bs s s' z less e (inr (_, same)) m =
          rw e (m.0, ap (λ (t : Pages). t.inuse b.slot) same ∙ m.1, m.2)

      head_others :
          (b b' : SlotBlock) (bs : List SlotBlock) (i : ℕ)
          → ((i' : ℕ) → i' ≢ i → block_used b' i' ≡ block_used b i')
          → (k' i' : ℕ) → (k' ≢ 0) ⊎ (i' ≢ i)
          → chunk_used (b' ∷ bs) k' i' ≡ chunk_used (b ∷ bs) k' i'
      head_others b b' bs i o zero i' (inl ne) = absurd (ne refl)
      head_others b b' bs i o zero i' (inr ne) = o i' ne
      head_others b b' bs i o (suc k') i' ne = refl
  free_slot-Returned (suc k) i (b ∷ bs) s v pool paged h =
      let (bs', s', run, f) = free_slot-Returned k i bs s v.1 pool paged.1 h in
      (
        b ∷ bs',
        s',
        rw (run, free_slot) refl,
        record {
          now_free = f.now_free;
          others = later_others b bs bs' k i f.others;
          one_less = omega (arith, f.one_less);
          blocks = (v.0, f.blocks);
          pool = f.pool;
          freed = f.freed;
          at = f.at;
          referenced = f.referenced;
          gives = f.gives;
          paged = (
            λ z. (
              (paged.0 z).0,
              Gives-others f.freed s s' f.gives b.slot
                    (λ q. Apart-at b.slot k bs f.freed (paged.0 z).2 f.at f.referenced (sym q))
                  ∙ (paged.0 z).1,
              f.apart b.slot (paged.0 z).2,
            ),
            f.paged,
          );
          apart = λ p a. (a.0, f.apart p a.1);
        },
      )
    where
      later_others :
          (b : SlotBlock) (bs bs' : List SlotBlock) (k i : ℕ)
          → ((k' i' : ℕ) → (k' ≢ k) ⊎ (i' ≢ i) → chunk_used bs' k' i' ≡ chunk_used bs k' i')
          → (k' i' : ℕ) → (k' ≢ suc k) ⊎ (i' ≢ i)
          → chunk_used (b ∷ bs') k' i' ≡ chunk_used (b ∷ bs) k' i'
      later_others b bs bs' k i o zero i' ne = refl
      later_others b bs bs' k i o (suc k') i' (inl ne) = o k' i' (inl (λ q. ne (ap suc q)))
      later_others b bs bs' k i o (suc k') i' (inr ne) = o k' i' (inr ne)
