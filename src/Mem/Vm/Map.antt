-- ===== src/Mem/Vm/Map.antt =====
-- `do_vmmap` for pages of 4 KB: the entry of each address afterwards.
use tnix.Common.{
  ℕ, zero, suc, ◌+◌, ◌-◌, ◌*◌, ◌/◌, ◌%◌, ◌≤◌, ◌<◌, ◌≡◌, refl, ap, sym, ◌∙◌, Bool, true, ◌&&◌, some,
  arith, if◌then◌else◌, ◌==◌, ltb, leb, Bool-cases, inl, inr, eq→==, le→not_ltb, lt→ltb, lt→not_leb,
  le→leb, leb→le, ==→eq,
}
use tnix.Util.Str.{Memory}
use tnix.Mem.Pages.{pgsize}
use tnix.Mem.Words.{put_word, word-put_word}
use tnix.Mem.Vm.{
  Space, va_top, phy_top, u64_mod, pte_of, pte_at, put_pte, map_from, map_pages, do_vmmap, svmmap,
}
use tnix.Mem.Vm.Table.{table_at, same, same_split, same_join, same_none, entry}
use tnix.Mem.Vm.Grow.{leaf-IsTable, leaf_entry}
use tnix.Mem.Vm.Descend.{IsSpace, free_cnt, put_word-Agrees, next_table-IsSpace}

-- The root is the table of depth 0.
pub root_at : (m : Memory) (root va : ℕ) → table_at m root 0 va ≡ some root
unfolding table_at
root_at m root va = refl

-- A store to the entry in the last table.
put_pte-IsSpace :
    (root : ℕ) (s : Space) (va t pa attr : ℕ)
    → IsSpace root s
    → table_at s.pages.memory root 2 va ≡ some t
    → IsSpace root (put_pte (pte_at t va 0) (pte_of pa attr) s)
      × ((va' : ℕ)
          → entry (put_word s.pages.memory (pte_at t va 0) (pte_of pa attr)) root va'
            ≡ (if same 3 va va' then pte_of pa attr else entry s.pages.memory root va'))
put_pte-IsSpace root s va t pa attr v f =
    let m : Memory = put_word s.pages.memory (pte_at t va 0) (pte_of pa attr) in
    let a = put_word-Agrees root s.pages v.table 2 va t (pte_of pa attr) (omega arith) f in
    (
      record {
        table = leaf-IsTable root s.pages v.table va t f m a;
        pool = record { listed = v.pool.listed; within = v.pool.within };
      },
      λ va'.
          leaf_entry root s.pages v.table va t f m a va'
          ∙ ap (λ w. if same 3 va va' then w else entry s.pages.memory root va')
              (word-put_word s.pages.memory (pte_at t va 0) (pte_of pa attr) (omega arith)),
    )

-- With two pages free it returns.
pub map_from-IsSpace :
    (ut : Bool) (root va pa attr : ℕ) (s : Space)
    → IsSpace root s
    → 2 ≤ free_cnt s
    → (s' : Space) × (map_from ut 0 2 root va pa attr s ≡ some s')
      × IsSpace root s'
      × (free_cnt s ≤ 2 + free_cnt s')
      × ((va' : ℕ)
          → entry s'.pages.memory root va'
            ≡ (if same 3 va va' then pte_of pa attr else entry s.pages.memory root va'))
unfolding map_from
map_from-IsSpace ut root va pa attr s v room =
    elim (next_table-IsSpace ut root s 0 va root v (omega arith) (root_at s.pages.memory root va)) [
      | inl (stop, full) ↦ absurd (omega arith)
      | inr (t1, s1, run, v1, f1, l1, e1) ↦
          elim (next_table-IsSpace ut root s1 1 va t1 v1 (omega arith) f1) [
            | inl (stop, full) ↦ absurd (omega arith)
            | inr (t2, s2, run2, v2, f2, l2, e2) ↦
                let (v3, e3) = put_pte-IsSpace root s2 va t2 pa attr v2 f2 in
                (
                  put_pte (pte_at t2 va 0) (pte_of pa attr) s2,
                  rw (run, map_from, run2) refl,
                  v3,
                  omega arith,
                  λ va'.
                      e3 va'
                      ∙ ap (λ w. if same 3 va va' then pte_of pa attr else w) (e2 va' ∙ e1 va'),
                )
          ]
    ]

page_of_idx :
    (x y : ℕ)
    → x < 134217728
    → y < 134217728
    → x / 262144 % 512 ≡ y / 262144 % 512
    → x / 512 % 512 ≡ y / 512 % 512
    → x % 512 ≡ y % 512
    → x ≡ y
page_of_idx x y h g a b c = omega arith

-- Below `va_top` two addresses share their path exactly if they lie in the same page.
pub same-page :
    (va va' : ℕ) → va < va_top → va' < va_top → same 3 va va' ≡ (va / pgsize == va' / pgsize)
same-page va va' h h' = elim (Bool-cases (same 3 va va')) [
  | inl y ↦
      let (y2, c) = same_split 2 va va' y in
      let (y1, b) = same_split 1 va va' y2 in
      let (_, a) = same_split 0 va va' y1 in
      y
      ∙ sym (
          eq→== (va / pgsize) (va' / pgsize) (
            page_of_idx (va / pgsize) (va' / pgsize) (omega arith) (omega arith) a b
              (omega (arith, c))))
  | inr n ↦ elim (Bool-cases (va / pgsize == va' / pgsize)) [
    | inr e ↦ n ∙ sym e
    | inl e ↦ absurd (cc (n, together (==→eq (va / pgsize) (va' / pgsize) e)))
  ]
]
  where
    together : va / pgsize ≡ va' / pgsize → same 3 va va' ≡ true
    together e =
        same_join 2 va va'
          (same_join 1 va va' (same_join 0 va va' (same_none va va') (ap (λ x. x / 262144 % 512) e))
            (ap (λ x. x / 512 % 512) e))
          (ap (λ x. x / 1 % 512) e)

-- The entry of an address behind the mapping of `n` pages from `va` to `pa`.
abbrev pub mapped : ℕ → ℕ → ℕ → ℕ → ℕ → ℕ → ℕ
mapped n va pa attr old va' =
    if leb (va / pgsize) (va' / pgsize) && ltb (va' / pgsize) (va / pgsize + n)
    then pte_of (pa + pgsize * (va' / pgsize - va / pgsize)) attr
    else old

by_page :
    (g : ℕ → ℕ) (n pa old x y z : ℕ)
    → z ≡ x + 1
    → (if leb z y && ltb y (z + n)
        then g (pa + 4096 + pgsize * (y - z))
        else if x == y
        then g pa
        else old)
      ≡ (if leb x y && ltb y (x + suc n) then g (pa + pgsize * (y - x)) else old)
by_page g n pa old x y z e = elim (Bool-cases (x == y)) [
  | inl q ↦
      let p : x ≡ y = ==→eq x y q in
      rw
        (
          q,
          lt→not_leb z y (omega arith),
          le→leb x y (omega arith),
          lt→ltb y (x + suc n) (omega arith),
        )
        (ap g (omega arith))
  | inr q ↦ elim (Bool-cases (leb z y)) [
    | inl l ↦ elim (Bool-cases (ltb y (z + n))) [
      | inl m ↦ ground (arith, l, m, later (leb→le z y l))
      | inr m ↦ ground (arith, l, m, q)
    ]
    | inr l ↦ ground (arith, l, q)
  ]
]
  where
    later : z ≤ y → g (pa + 4096 + pgsize * (y - z)) ≡ g (pa + pgsize * (y - x))
    later l = ap g (omega arith)

mapped-suc :
    (n va pa attr old va' : ℕ)
    → mapped n
        (va + 4096)
        (pa + 4096)
        attr
        (if va / pgsize == va' / pgsize then pte_of pa attr else old)
        va'
      ≡ mapped (suc n) va pa attr old va'
mapped-suc n va pa attr old va' =
    by_page (λ a. pte_of a attr) n pa old (va / pgsize) (va' / pgsize) ((va + 4096) / pgsize)
      (omega arith)

none_mapped :
    (x y pa attr old : ℕ)
    → old ≡ (if leb x y && ltb y (x + 0) then pte_of (pa + pgsize * (y - x)) attr else old)
none_mapped x y pa attr old = ground arith

pub map_pages-IsSpace :
    (n : ℕ) (ut : Bool) (root va pa attr : ℕ) (s : Space)
    → IsSpace root s
    → va + pgsize * n ≤ va_top
    → 2 * n ≤ free_cnt s
    → (s' : Space) × (map_pages ut 0 4096 root n va pa attr s ≡ some s')
      × IsSpace root s'
      × ((va' : ℕ)
          → va' < va_top
          → entry s'.pages.memory root va'
            ≡ mapped n va pa attr (entry s.pages.memory root va') va')
unfolding map_pages
map_pages-IsSpace zero ut root va pa attr s v b room = (
  s,
  refl,
  v,
  λ va' h. none_mapped (va / pgsize) (va' / pgsize) pa attr (entry s.pages.memory root va'),
)
map_pages-IsSpace (suc n) ut root va pa attr s v b room =
    let (s1, run, v1, l1, e1) = map_from-IsSpace ut root va pa attr s v (omega arith) in
    let (s2, run2, v2, e2) =
      map_pages-IsSpace n ut root (va + 4096) (pa + 4096) attr s1 v1 (omega arith) (omega arith) in
    (
      s2,
      rw (run, map_pages) run2,
      v2,
      λ va' h.
          e2 va' h
          ∙ ap (λ w. mapped n (va + 4096) (pa + 4096) attr w va')
              (e1 va'
                ∙ ap (λ c. if c then pte_of pa attr else entry s.pages.memory root va')
                    (same-page va va' (omega arith) h))
          ∙ mapped-suc n va pa attr (entry s.pages.memory root va') va',
    )

-- `svmmap` of an area below `va_top`.
pub svmmap-IsSpace :
    (ut : Bool) (root va pa n attr : ℕ) (s : Space)
    → IsSpace root s
    → va % pgsize ≡ 0
    → pa % pgsize ≡ 0
    → va + pgsize * n ≤ va_top
    → pa + pgsize * n ≤ phy_top
    → 2 * n ≤ free_cnt s
    → (s' : Space) × (svmmap root va pa (pgsize * n) attr ut s ≡ some s')
      × IsSpace root s'
      × ((va' : ℕ)
          → va' < va_top
          → entry s'.pages.memory root va'
            ≡ mapped n va pa attr (entry s.pages.memory root va') va')
unfolding svmmap do_vmmap
svmmap-IsSpace ut root va pa n attr s v a b h k room =
    let (s', run, v', e) = map_pages-IsSpace n ut root va pa attr s v h room in
    (
      s',
      rw
          (
            eq→== (va % pgsize) 0 a,
            eq→== (pa % pgsize) 0 b,
            le→not_ltb va_top ((va + pgsize * n) % u64_mod) (omega arith),
            le→not_ltb phy_top ((pa + pgsize * n) % u64_mod) (omega arith),
          )
          (ap (λ m. map_pages ut 0 4096 root m va pa attr s) (omega arith) ∙ run),
      v',
      e,
    )
