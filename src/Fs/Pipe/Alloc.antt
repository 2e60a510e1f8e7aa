-- ===== src/Fs/Pipe/Alloc.antt =====
-- The table of pipes and their reference counts. `refc` is an `i8`: its bit pattern.
use tnix.Common.{
  ℕ, zero, suc, ◌+◌, ◌-◌, ◌%◌, ◌<◌, ◌≡◌, ◌≢◌, refl, ap, List, [], ◌∷◌, Option, none, some,
  if◌then◌else◌, ◌==◌, arith, get_elem?, Bool-cases, inl, inr, ==→eq, not_==→ne, ne→not_==, false,
  ◌∙◌,
}
use mathlib.Core.Option.{some-injective}
use tnix.Fs.Pipe.{Pipe}

-- The first unused entry from index `i` on, made ready; `none` is the panic.
pub pipealloc_from : ℕ → List Pipe → Option (ℕ × List Pipe)
pipealloc_from i [] = none
pipealloc_from i (p ∷ ps) =
    let later = pipealloc_from (suc i) ps in
    if p.refc == 0
    then some (i, record p { refc = 2; nread = 0; nwrite = 0 } ∷ ps)
    else elim later [ none ↦ none | some (k, ps') ↦ some (k, p ∷ ps') ]

pub pipealloc : List Pipe → Option (ℕ × List Pipe)
unfolding pipealloc_from
pipealloc pipes = pipealloc_from 0 pipes

pub pipeclose : Pipe → Option Pipe
pipeclose p = if p.refc == 0 then none else some (record p { refc = p.refc - 1 })

pub pipeget : Pipe → Pipe
pipeget p = record p { refc = (p.refc + 1) % 256 }

-- What `pipealloc` promises of the table: the entry that it gives was unused, is now empty and
-- counted for two ends, and no other entry changes.
pub record Allocated (ps : List Pipe) (n : ℕ) (ps' : List Pipe) : Type 0 where
  pub was : Pipe
  pub found : get_elem? ps n ≡ some was
  pub unused : was.refc ≡ 0
  pub given : get_elem? ps' n ≡ some (record was { refc = 2; nread = 0; nwrite = 0 })
  pub others : (j : ℕ) → j ≢ n → get_elem? ps' j ≡ get_elem? ps j

Allocated-cons :
    (p : Pipe) (ps : List Pipe) (n : ℕ) (ps' : List Pipe)
    → Allocated ps n ps'
    → Allocated (p ∷ ps) (suc n) (p ∷ ps')
Allocated-cons p ps n ps' a = record {
  was = a.was;
  found = a.found;
  unused = a.unused;
  given = a.given;
  others = others;
}
  where
    others : (j : ℕ) → j ≢ suc n → get_elem? (p ∷ ps') j ≡ get_elem? (p ∷ ps) j
    others zero h = refl
    others (suc j) h = a.others j (λ e. h (ap suc e))

Allocated-here :
    (p : Pipe) (ps : List Pipe)
    → p.refc ≡ 0
    → Allocated (p ∷ ps) 0 (record p { refc = 2; nread = 0; nwrite = 0 } ∷ ps)
Allocated-here p ps e = record { was = p; found = refl; unused = e; given = refl; others = others }
  where
    others :
        (j : ℕ)
        → j ≢ 0
        → get_elem? (record p { refc = 2; nread = 0; nwrite = 0 } ∷ ps) j ≡ get_elem? (p ∷ ps) j
    others zero h = absurd (h refl)
    others (suc j) h = refl

-- The search succeeds if some entry is unused.
abbrev pub HasUnused : List Pipe → Type 0
HasUnused ps = (p : Pipe) × (n : ℕ) × (get_elem? ps n ≡ some p) × (p.refc ≡ 0)

pipealloc_from-Allocated :
    (i : ℕ) (ps : List Pipe)
    → HasUnused ps
    → (n : ℕ) × (ps' : List Pipe) × (pipealloc_from i ps ≡ some (i + n, ps')) × Allocated ps n ps'
unfolding pipealloc_from
pipealloc_from-Allocated i [] (p, n, e, z) = absurd (cc)
pipealloc_from-Allocated i (q ∷ ps) (p, n, e, z) = elim (Bool-cases (q.refc == 0)) [
  | inl t ↦ rw t (
    0,
    record q { refc = 2; nread = 0; nwrite = 0 } ∷ ps,
    ap (λ k. some (k, record q { refc = 2; nread = 0; nwrite = 0 } ∷ ps)) (omega arith),
    Allocated-here q ps (==→eq q.refc 0 t),
  )
  | inr t ↦ rw t (
      let (m, ps', run, a) = pipealloc_from-Allocated (suc i) ps (later n e t) in
      (
        suc m,
        q ∷ ps',
        rw run (ap (λ k. some (k, q ∷ ps')) (omega arith)),
        Allocated-cons q ps m ps' a,
      ))
]
  where
    later : (n : ℕ) → get_elem? (q ∷ ps) n ≡ some p → (q.refc == 0) ≡ false → HasUnused ps
    later zero e t =
        absurd (not_==→ne q.refc 0 t (ap (λ (r : Pipe). r.refc) (some-injective q p e) ∙ z))
    later (suc n) e t = (p, n, e, z)

-- A search over a table with an unused entry does not panic: it gives an entry that was unused, is
-- now empty and counted for two ends, and changes no other.
pub pipealloc-Allocated :
    (ps : List Pipe)
    → HasUnused ps
    → (n : ℕ) × (ps' : List Pipe) × (pipealloc ps ≡ some (n, ps')) × Allocated ps n ps'
unfolding pipealloc
pipealloc-Allocated ps h =
    let (n, ps', run, a) = pipealloc_from-Allocated 0 ps h in
    (n, ps', run ∙ ap (λ k. some (k, ps')) (omega arith), a)

-- Of an entry counted for two ends, two closes succeed and leave it unused, and a third one
-- panics.
pub pipeclose_three :
    (p : Pipe)
    → p.refc ≡ 2
    → (q : Pipe) × (r : Pipe) × (pipeclose p ≡ some q)
      × (pipeclose q ≡ some r)
      × (r.refc ≡ 0)
      × (pipeclose r ≡ none)
unfolding pipeclose
pipeclose_three p e = (
  record p { refc = p.refc - 1 },
  record p { refc = p.refc - 1 - 1 },
  ground arith,
  ground arith,
  ground arith,
  ground arith,
)

-- An end that is added by `pipeget` and closed again changes nothing.
pipeclose-pipeget : (p : Pipe) → p.refc < 255 → pipeclose (pipeget p) ≡ some p
unfolding pipeclose pipeget
pipeclose-pipeget p h =
    rw (ne→not_== ((p.refc + 1) % 256) 0 (omega arith))
      (ap (λ r. some (record p { refc = r })) (omega arith))
