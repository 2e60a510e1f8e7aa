-- ===== src/Fs/Bio/Get.antt =====
-- `bget` and `bread`: what is seen of the blocks stays the same, and the buffer has it.
use tnix.Common.{
  ℕ, ◌+◌, ◌-◌, ◌%◌, ◌<◌, ◌≡◌, refl, ap, ap₂, sym, ◌∙◌, List, [], ◌∷◌, true, false, ◌&&◌, Option,
  none, some, subst, Option-cases, arith, if◌then◌else◌, ◌==◌, ==→eq, not_==→ne, Bool-cases, inl,
  inr, ◌⊎◌, u32_mod,
}
use tnix.Fs.Bio.{Buf, Device, caches, claimed, hit, miss, bget, holder, buffer}
use tnix.Fs.Bio.View.{
  view, Idle, Ordered, IsSynced, Synced, Few, Absent, caches-eq, caches_self, Absent-Idle,
  Idle-view, Front, LacksBuf, Distinct, Busy, Rested, Origin, Origin-here, Origin-later,
}

holder_here : (j : ℕ) (x : Buf) (bs : List Buf) → (x.id == j) ≡ true → holder j (x ∷ bs) ≡ x.task
unfolding holder buffer
holder_here j x bs h = rw (holder, h) refl

holder_there :
    (j : ℕ) (x : Buf) (bs : List Buf) → (x.id == j) ≡ false → holder j (x ∷ bs) ≡ holder j bs
unfolding holder buffer
holder_there j x bs h = elim (Option-cases (buffer j bs)) [
  | inl n ↦ rw (holder, h, n) refl
  | inr (y, n) ↦ rw (holder, h, n) refl
]

pub holder_first :
    (j : ℕ) (x y : Buf) (bs : List Buf)
    → x.id ≡ y.id
    → x.task ≡ y.task
    → holder j (x ∷ bs) ≡ holder j (y ∷ bs)
holder_first j x y bs e f = elim (Bool-cases (y.id == j)) [
  | inl h ↦ holder_here j x bs (ap (λ k. k == j) e ∙ h) ∙ f ∙ sym (holder_here j y bs h)
  | inr h ↦ holder_there j x bs (ap (λ k. k == j) e ∙ h) ∙ sym (holder_there j y bs h)
]

pub holder_later :
    (j : ℕ) (x : Buf) (bs bs' : List Buf)
    → holder j bs ≡ holder j bs'
    → holder j (x ∷ bs) ≡ holder j (x ∷ bs')
holder_later j x bs bs' e = elim (Bool-cases (x.id == j)) [
  | inl h ↦ holder_here j x bs h ∙ sym (holder_here j x bs' h)
  | inr h ↦ holder_there j x bs h ∙ e ∙ sym (holder_there j x bs' h)
]

module _ (device : Device) (dev blockno : ℕ) where
  abbrev Differs : ℕ → ℕ → Type 0
  Differs d k = (d == dev && k == blockno) ≡ false

  -- What giving the block a reference does to the list.
  pub record Stepped (bs bs' : List Buf) : Type 0 where
    pub lacks : (j : ℕ) → LacksBuf j bs → LacksBuf j bs'
    pub distinct : Distinct bs → Distinct bs'
    pub idle : (d k : ℕ) → Differs d k → Idle d k bs → Idle d k bs'
    pub ordered : Ordered bs → Ordered bs'
    pub synced : Synced device bs → Synced device bs'
    pub rested : Rested bs → Rested bs'
    pub tasks : (j : ℕ) → holder j bs' ≡ holder j bs
    pub seen : Ordered bs → Synced device bs → (d k : ℕ) → view device bs' d k ≡ view device bs d k

  Stepped-later :
      (x : Buf) (bs bs' : List Buf)
      → caches dev blockno x ≡ false
      → Stepped bs bs'
      → Stepped (x ∷ bs) (x ∷ bs')
  unfolding view
  Stepped-later x bs bs' n s = record {
    lacks = λ j l. (l.0, s.lacks j l.1);
    distinct = λ v. (s.lacks x.id v.0, s.distinct v.1);
    idle = λ d k e i. (i.0, s.idle d k e i.1);
    ordered = λ o. (s.idle x.dev x.blockno n o.0, s.ordered o.1);
    synced = λ v. (v.0, s.synced v.1);
    rested = λ v. (v.0, s.rested v.1);
    tasks = λ j. holder_later j x bs' bs (s.tasks j);
    seen = λ o v d k.
        ap (λ w. if caches d k x then (if x.valid then x.bytes else device d k) else w)
          (s.seen o.1 v.1 d k);
  }

  abbrev raised : Buf → Buf
  raised b = record b { refc = (b.refc + 1) % u32_mod }

  same_block :
      (d k : ℕ) (b : Buf) → caches dev blockno b ≡ true → Differs d k → caches d k b ≡ false
  same_block d k b e n = ground arith

  Stepped-hit :
      (b : Buf) (bs : List Buf)
      → caches dev blockno b ≡ true
      → b.refc < u32_mod - 1
      → Stepped (b ∷ bs) (raised b ∷ bs)
  unfolding view
  Stepped-hit b bs e few = record {
    lacks = λ j l. l;
    distinct = λ v. v;
    idle = λ d k n i. (λ c. absurd (cc (c, same_block d k b e n)), i.1);
    ordered = λ o. o;
    synced = λ v. (λ z. absurd (omega arith), v.1);
    rested = λ v. (λ z. absurd (omega arith), v.1);
    tasks = λ j. holder_first j (raised b) b bs refl refl;
    seen = λ o v d k. refl;
  }

  Absent-view :
      (bs : List Buf) (b : Buf)
      → Absent dev blockno bs
      → (d k : ℕ) → caches d k (claimed dev blockno b) ≡ true
      → view device bs d k ≡ device d k
  Absent-view bs b a d k e =
      let (p, q) = caches-eq d k (claimed dev blockno b) e in
      ap₂ (λ d k. view device bs d k) (sym p) (sym q)
      ∙ Idle-view device dev blockno bs (Absent-Idle dev blockno bs a)
      ∙ ap₂ (λ d k. device d k) p q

  rest_view :
      (b : Buf) (bs : List Buf)
      → Idle b.dev b.blockno bs
      → (d k : ℕ) → caches d k b ≡ true
      → view device bs d k ≡ device d k
  rest_view b bs o d k f =
      let (p, q) = caches-eq d k b f in
      ap₂ (λ d k. view device bs d k) (sym p) (sym q)
      ∙ Idle-view device b.dev b.blockno bs o
      ∙ ap₂ (λ d k. device d k) p q

  own_view :
      (b : Buf)
      → IsSynced device b
      → b.refc ≡ 0
      → (d k : ℕ) → caches d k b ≡ true
      → (if b.valid then b.bytes else device d k) ≡ device d k
  own_view b v z d k f = elim (Bool-cases b.valid) [
    | inl t ↦ rw t (v z t ∙ (let (p, q) = caches-eq d k b f in ap₂ (λ d k. device d k) p q))
    | inr t ↦ rw t refl
  ]

  Stepped-claim :
      (b : Buf) (bs : List Buf)
      → Absent dev blockno (b ∷ bs)
      → b.refc ≡ 0
      → Stepped (b ∷ bs) (claimed dev blockno b ∷ bs)
  unfolding view
  Stepped-claim b bs a z = record {
    lacks = λ j l. l;
    distinct = λ v. v;
    idle = λ d k n i. (λ c. absurd (other d k n c), i.1);
    ordered = λ o. (Absent-Idle dev blockno bs a.1, o.1);
    synced = λ v. (λ z. absurd (omega arith), v.1);
    rested = λ v. (λ z. absurd (omega arith), v.1);
    tasks = λ j. holder_first j (claimed dev blockno b) b bs refl refl;
    seen = λ o v d k. elim (Bool-cases (caches d k (claimed dev blockno b))) [
      | inl e ↦ rw e (sym (Absent-view (b ∷ bs) b a d k e))
      | inr e ↦ elim (Bool-cases (caches d k b)) [
        | inl f ↦ rw (e, f) (rest_view b bs o.0 d k f ∙ sym (own_view b v.0 z d k f))
        | inr f ↦ rw (e, f) refl
      ]
    ];
  }
    where
      other : (d k : ℕ) → Differs d k → caches d k (claimed dev blockno b) ≡ true → ⊥
      other d k n c = ground arith

  Front-behind :
      (b : Buf) (i : ℕ) (bs : List Buf)
      → caches dev blockno b ≡ false
      → Front dev blockno i bs
      → Front dev blockno i (b ∷ bs)
  Front-behind b i bs e f = rw (e, Front) f

  Front-raised :
      (b : Buf) (bs : List Buf)
      → caches dev blockno b ≡ true
      → b.refc < u32_mod - 1
      → Front dev blockno b.id (raised b ∷ bs)
  Front-raised b bs e few = rw (e, Front) (refl, omega arith)

  Front-claimed : (b : Buf) (bs : List Buf) → Front dev blockno b.id (claimed dev blockno b ∷ bs)
  Front-claimed b bs = rw (caches_self (claimed dev blockno b), Front) (refl, omega arith)

  -- The two loops of `bget`.
  hit-Stepped :
      (bs : List Buf)
      → Few bs
      → Absent dev blockno bs × (hit dev blockno bs ≡ none)
        ⊎ ((i : ℕ) × (bs' : List Buf) × (hit dev blockno bs ≡ some (i, bs'))
            × Stepped bs bs'
            × Front dev blockno i bs')
  unfolding hit
  hit-Stepped [] few = inl (tt, refl)
  hit-Stepped (b ∷ bs) few = elim (Bool-cases (caches dev blockno b)) [
    | inl e ↦
        inr (
          b.id,
          raised b ∷ bs,
          rw (e, hit) refl,
          Stepped-hit b bs e few.0,
          Front-raised b bs e few.0,
        )
    | inr e ↦ elim (hit-Stepped bs few.1) [
      | inl (a, n) ↦ inl ((e, a), rw (e, n, hit) refl)
      | inr (i, bs', run, s, f) ↦
          inr (
            i,
            b ∷ bs',
            rw (e, run, hit) refl,
            Stepped-later b bs bs' e s,
            Front-behind b i bs' e f,
          )
    ]
  ]

  miss-Stepped :
      (bs : List Buf)
      → Absent dev blockno bs
      → Busy bs × (miss dev blockno bs ≡ none)
        ⊎ ((i : ℕ) × (bs' : List Buf) × (miss dev blockno bs ≡ some (i, bs'))
            × Stepped bs bs'
            × Front dev blockno i bs')
  unfolding miss
  miss-Stepped [] a = inl (tt, refl)
  miss-Stepped (b ∷ bs) a = elim (miss-Stepped bs a.1) [
    | inr (i, bs', run, s, f) ↦
        inr (
          i,
          b ∷ bs',
          rw (run, miss) refl,
          Stepped-later b bs bs' a.0 s,
          Front-behind b i bs' a.0 f,
        )
    | inl (busy, n) ↦ elim (Bool-cases (b.refc == 0)) [
      | inl z ↦ inr (
        b.id,
        claimed dev blockno b ∷ bs,
        rw (n, z, miss) refl,
        Stepped-claim b bs a (==→eq b.refc 0 z),
        Front-claimed b bs,
      )
      | inr z ↦ inl ((not_==→ne b.refc 0 z, busy), rw (n, z, miss) refl)
    ]
  ]

  -- `bget` panics if the block is in no buffer and every buffer has a reference, and only then.
  pub bget-Stepped :
      (bs : List Buf)
      → Few bs
      → (Absent dev blockno bs × Busy bs × (bget dev blockno bs ≡ none))
        ⊎ ((i : ℕ) × (bs' : List Buf) × (bget dev blockno bs ≡ some (i, bs'))
            × Stepped bs bs'
            × Front dev blockno i bs')
  unfolding bget
  bget-Stepped bs few = elim (hit-Stepped bs few) [
    | inr (i, bs', run, s, f) ↦ inr (i, bs', rw (run, bget) refl, s, f)
    | inl (a, n) ↦ elim (miss-Stepped bs a) [
      | inr (i, bs', run, s, f) ↦ inr (i, bs', rw (n, bget) run, s, f)
      | inl (busy, m) ↦ inl (a, busy, rw (n, bget) m)
    ]
  ]

-- Which buffer `bget` takes: one of the block, or one with no reference.
abbrev pub IsTaken : ℕ → ℕ → Buf → Type 0
IsTaken dev blockno b = (caches dev blockno b ≡ true) ⊎ (b.refc ≡ 0)

abbrev pub From : ℕ → ℕ → List Buf → Option (ℕ × List Buf) → Type 0
From dev blockno bs none = Unit {0}
From dev blockno bs (some (i, bs')) = Origin (IsTaken dev blockno) i bs

hit-From :
    (dev blockno : ℕ) (bs : List Buf) → Distinct bs → From dev blockno bs (hit dev blockno bs)
unfolding hit
hit-From dev blockno [] v = tt
hit-From dev blockno (b ∷ bs) v = elim (Bool-cases (caches dev blockno b)) [
  | inl e ↦ rw (e, hit) (Origin-here (IsTaken dev blockno) b bs (inl e))
  | inr e ↦ elim (Option-cases (hit dev blockno bs)) [
    | inl n ↦ rw (e, hit, n) tt
    | inr ((i, bs'), n) ↦
        rw (e, hit, n)
          (Origin-later (IsTaken dev blockno) i b bs v.0
            (subst (From dev blockno bs) n (hit-From dev blockno bs v.1)))
  ]
]

miss-From :
    (dev blockno : ℕ) (bs : List Buf) → Distinct bs → From dev blockno bs (miss dev blockno bs)
unfolding miss
miss-From dev blockno [] v = tt
miss-From dev blockno (b ∷ bs) v = elim (Option-cases (miss dev blockno bs)) [
  | inr ((i, bs'), n) ↦
      rw (n, miss)
        (Origin-later (IsTaken dev blockno) i b bs v.0
          (subst (From dev blockno bs) n (miss-From dev blockno bs v.1)))
  | inl n ↦ elim (Bool-cases (b.refc == 0)) [
    | inl z ↦ rw (n, miss, z) (Origin-here (IsTaken dev blockno) b bs (inr (==→eq b.refc 0 z)))
    | inr z ↦ rw (n, miss, z) tt
  ]
]

pub bget-From :
    (dev blockno : ℕ) (bs : List Buf) → Distinct bs → From dev blockno bs (bget dev blockno bs)
unfolding bget
bget-From dev blockno bs v = elim (Option-cases (hit dev blockno bs)) [
  | inl n ↦ rw (n, bget) (miss-From dev blockno bs v)
  | inr ((i, bs'), n) ↦ rw (n, bget) (subst (From dev blockno bs) n (hit-From dev blockno bs v))
]
