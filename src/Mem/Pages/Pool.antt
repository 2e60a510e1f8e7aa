-- ===== src/Mem/Pages/Pool.antt =====
-- The list of free pages: every page that is not in use stands in it, once.
use tnix.Common.{
  ℕ, zero, suc, ◌+◌, ◌≤◌, ◌<◌, ◌≡◌, ◌≢◌, refl, sym, ◌∙◌, List, [], ◌∷◌, ◌++◌, Bool, true, false,
  none, some, arith, if◌then◌else◌, ◌==◌, ltb, Bool-cases, inl, inr, ◌⊎◌,
}
use tnix.Mem.Pages.{
  Pages, pgsize, npage, paddr, page, align_up, marked, init_pages, init_memory, cleared, alloc_page,
  free_page,
}

-- How often a page stands in a list.
abbrev pub occurs : ℕ → List ℕ → ℕ
occurs p [] = 0
occurs p (q ∷ qs) = (if p == q then 1 else 0) + occurs p qs

occurs-append : (p : ℕ) (xs ys : List ℕ) → occurs p (xs ++ ys) ≡ occurs p xs + occurs p ys
occurs-append p [] ys = omega arith
occurs-append p (x ∷ xs) ys = omega (arith, occurs-append p xs ys)

-- The pages below `n` are in use or in the list, once; no other page is in it.
pub record IsPool (n : ℕ) (s : Pages) : Type 0 where
  pub listed : (p : ℕ) → p < n → occurs p s.free ≡ (if s.inuse p then 0 else 1)
  pub within : (p : ℕ) → n ≤ p → occurs p s.free ≡ 0

occurs-add :
    (p q : ℕ) (xs : List ℕ) → occurs p (xs ++ (q ∷ [])) ≡ occurs p xs + (if p == q then 1 else 0)
occurs-add p q xs = omega (arith, occurs-append p xs (q ∷ []))

-- A page past the pool joins it, used by the kernel or free.
joined :
    (p : ℕ) (s : Pages) → IsPool p s → IsPool (suc p) (record s { inuse = marked p true s.inuse })
joined p s v = record {
  listed = λ q h. ground (arith, v.listed q, v.within q, h);
  within = λ q h. v.within q (omega arith);
}

joined_free :
    (p : ℕ) (s : Pages)
    → IsPool p s
    → IsPool (suc p) (record s { inuse = marked p false s.inuse; free = s.free ++ (p ∷ []) })
joined_free p s v = record {
  listed = λ q h. ground (arith, v.listed q, v.within q, h, occurs-add q p s.free);
  within = λ q h. ground (arith, v.within q, h, occurs-add q p s.free);
}

IsPool-cast : (m n : ℕ) (s : Pages) → m ≡ n → IsPool m s → IsPool n s
IsPool-cast m n s e v = record {
  listed = λ q h. v.listed q (omega arith);
  within = λ q h. v.within q (omega arith);
}

init_pages-IsPool : (end p n : ℕ) (s : Pages) → IsPool p s → IsPool (p + n) (init_pages end p n s)
unfolding init_pages
init_pages-IsPool end p zero s v = IsPool-cast p (p + 0) s (omega arith) v
init_pages-IsPool end p (suc n) s v = elim (Bool-cases (ltb (paddr p) (align_up end pgsize))) [
  | inl e ↦ rw e (
      IsPool-cast (suc p + n) (p + suc n) _ (omega arith)
        (init_pages-IsPool end (suc p) n _ (joined p s v)))
  | inr e ↦ rw e (
      IsPool-cast (suc p + n) (p + suc n) _ (omega arith)
        (init_pages-IsPool end (suc p) n _ (joined_free p s v)))
]

pub init_memory-IsPool : (end : ℕ) (memory : ℕ → ℕ) → IsPool npage (init_memory end memory)
unfolding init_memory
init_memory-IsPool end memory =
    init_pages-IsPool end 0 npage (record { inuse = λ p. false; free = []; memory = memory })
      (record { listed = λ q h. absurd (omega arith); within = λ q h. refl })

-- What `alloc_page` gives.
pub record Allocated (n p : ℕ) (s s' : Pages) : Type 0 where
  pub below : p < n
  pub was_free : s.inuse p ≡ false
  pub now_used : s'.inuse p ≡ true
  pub others : (q : ℕ) → q ≢ p → s'.inuse q ≡ s.inuse q
  pub zeroed : (a : ℕ) → a < pgsize → s'.memory (paddr p + a) ≡ 0
  pub kept : (a : ℕ) → (a < paddr p) ⊎ (paddr p + pgsize ≤ a) → s'.memory a ≡ s.memory a
  pub pool : IsPool n s'

abbrev Allocates : ℕ → Pages → Type 0
Allocates n s =
    ((alloc_page s ≡ none) × ((p : ℕ) → p < n → s.inuse p ≡ true))
    ⊎ ((p : ℕ) × (s' : Pages) × (alloc_page s ≡ some (p, s')) × Allocated n p s s')

none_free : (b : Bool) → ◌≡◌ {A = ℕ} 0 (if b then 0 else 1) → b ≡ true
none_free true h = refl
none_free false h = absurd (omega (arith, h))

front_free : (b : Bool) (k : ℕ) → suc k ≡ (if b then 0 else 1) → (b ≡ false) × (k ≡ 0)
front_free true k h = absurd (omega (arith, h))
front_free false k h = (refl, omega (arith, h))

occurs_self : (p : ℕ) (rest : List ℕ) → occurs p (p ∷ rest) ≡ suc (occurs p rest)
occurs_self p rest = ground arith

alloc_front :
    (n : ℕ) (inuse : ℕ → Bool) (p : ℕ) (rest : List ℕ) (memory : ℕ → ℕ)
    → IsPool n (record { inuse = inuse; free = p ∷ rest; memory = memory })
    → (p < n) × (inuse p ≡ false) × (occurs p rest ≡ 0)
alloc_front n inuse p rest memory v =
    let below : p < n = ground (arith, v.within p, occurs_self p rest) in
    let (was, once) =
      front_free (inuse p) (occurs p rest) (sym (occurs_self p rest) ∙ v.listed p below) in
    (below, was, once)

alloc_parts :
    (n : ℕ) (inuse : ℕ → Bool) (free : List ℕ) (memory : ℕ → ℕ)
    → IsPool n (record { inuse = inuse; free = free; memory = memory })
    → Allocates n (record { inuse = inuse; free = free; memory = memory })
unfolding alloc_page
alloc_parts n inuse [] memory v = inl (refl, λ p h. none_free (inuse p) (v.listed p h))
alloc_parts n inuse (p ∷ rest) memory v =
    let (below, was, once) = alloc_front n inuse p rest memory v in
    inr (
      p,
      record { inuse = marked p true inuse; free = rest; memory = cleared p memory },
      refl,
      record {
        below = below;
        was_free = was;
        now_used = ground arith;
        others = λ q ne. ground arith;
        zeroed = λ a h. ground arith;
        kept = λ a h. elim h [ inl l ↦ ground arith | inr r ↦ ground arith ];
        pool = record {
          listed = λ q h. ground (arith, v.listed q h, once);
          within = λ q h. ground (arith, v.within q h);
        };
      },
    )

-- In a pool where exactly the pages not in use stand in the list of free pages, each once:
-- `alloc_page` panics only if every page is in use; otherwise it gives a page of the pool that was
-- not in use, marks it, clears its bytes, changes nothing else, and keeps the invariant.
pub alloc_page-Allocated : (n : ℕ) (s : Pages) → IsPool n s → Allocates n s
alloc_page-Allocated n s v = alloc_parts n s.inuse s.free s.memory v

-- What `free_page` does to a page in use and to a free one.
pub free_page-IsPool :
    (n p : ℕ) (s : Pages)
    → p < n
    → IsPool n s
    → ((s' : Pages) × (s.inuse p ≡ true)
        × (free_page p s ≡ some s')
        × (s'.inuse p ≡ false)
        × ((q : ℕ) → q ≢ p → s'.inuse q ≡ s.inuse q)
        × IsPool n s')
      ⊎ (s.inuse p ≡ false) × (free_page p s ≡ none)
unfolding free_page
free_page-IsPool n p s below v = elim (Bool-cases (s.inuse p)) [
  | inr e ↦ inr (e, rw e refl)
  | inl e ↦ inl (
    record s { inuse = marked p false s.inuse; free = s.free ++ (p ∷ []) },
    e,
    rw e refl,
    ground arith,
    λ q ne. ground arith,
    record {
      listed = λ q h. ground (arith, v.listed q h, e, occurs-add q p s.free);
      within = λ q h. ground (arith, v.within q h, occurs-add q p s.free);
    },
  )
]

-- `page` and `paddr` are inverse.
pub page-paddr : (p : ℕ) → page (paddr p) ≡ p
unfolding page
page-paddr p = omega arith
