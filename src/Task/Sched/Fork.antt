-- ===== src/Task/Sched/Fork.antt =====
-- `alloc_task` and `sys_fork`.
use tnix.Common.{
  ℕ, zero, suc, ◌+◌, ◌≤◌, ◌<◌, ◌≡◌, ◌≢◌, refl, ap, sym, ◌∙◌, [], ◌∷◌, ◌++◌, true, false, none, some,
  ◌==◌, arith, Bool-cases, inl, inr, ==→eq, not_==→ne,
}
use tnix.Util.Spin.{update}
use tnix.Task.Sched.{nproc, State, is_free, Tasks, first_free, alloc_task, sys_fork}

-- Entry `k` is the first free one from `i` on.
pub record FirstFree (ts : Tasks) (i k : ℕ) : Type 0 where
  pub behind : i ≤ k
  pub free : is_free (ts k).state ≡ true
  pub before : (j : ℕ) → i ≤ j → j < k → is_free (ts j).state ≡ false

first_free_lem :
    (ts : Tasks) (i n k : ℕ) → FirstFree ts i k → k < i + n → first_free ts i n ≡ some k
unfolding first_free
first_free_lem ts i zero k f h = absurd (omega (arith, f.behind))
first_free_lem ts i (suc n) k f h = elim (Bool-cases (k == i)) [
  | inl e ↦
      rw (ap (λ j. is_free (ts j).state) (sym (==→eq k i e)) ∙ f.free) (ap some (sym (==→eq k i e)))
  | inr e ↦ rw (f.before i (omega arith) (omega (arith, f.behind, not_==→ne k i e))) (
      first_free_lem ts (suc i) n k
        (record {
          behind = omega (arith, f.behind, not_==→ne k i e);
          free = f.free;
          before = λ j l u. f.before j (omega arith) u;
        })
        (omega arith))
]

first_free-none :
    (ts : Tasks) (i n : ℕ)
    → ((j : ℕ) → i ≤ j → j < i + n → is_free (ts j).state ≡ false)
    → first_free ts i n ≡ none
unfolding first_free
first_free-none ts i zero h = refl
first_free-none ts i (suc n) h =
    rw (h i (omega arith) (omega arith))
      (first_free-none ts (suc i) n (λ j l u. h j (omega arith) (omega arith)))

-- The table that `sys_fork` leaves: `c` for the child.
abbrev linked : ℕ → ℕ → Tasks → ℕ → Tasks
linked tid p ts c =
    let made : Tasks =
      update ts c (record (ts c) { state = State.init; pid = tid; parent = p; childs = [] }) in
    update made p (record (made p) { childs = (made p).childs ++ c ∷ [] })

abbrev forked : ℕ → ℕ → Tasks → ℕ → Tasks
forked tid p ts c =
    update (linked tid p ts c) c (record (linked tid p ts c c) { state = State.ready })

linked_pid : (tid p : ℕ) (ts : Tasks) (c : ℕ) → p ≢ c → (linked tid p ts c c).pid ≡ tid
linked_pid tid p ts c ne = ground arith

-- With `c` the first free entry of the table and not the parent: `sys_fork` returns the number
-- that the new task is given; the task is ready, has that number, its parent and no children, and
-- is the last child of its parent; the parent keeps its state, and all other tasks are as before.
pub sys_fork_lem :
    (tid p : ℕ) (ts : Tasks) (c : ℕ)
    → FirstFree ts 0 c
    → c < nproc
    → p ≢ c
    → (ts' : Tasks) × (sys_fork tid p ts ≡ some (tid, ts'))
      × ((ts' c).state ≡ State.ready)
      × ((ts' c).pid ≡ tid)
      × ((ts' c).parent ≡ p)
      × ((ts' c).childs ≡ [])
      × ((ts' p).childs ≡ (ts p).childs ++ c ∷ [])
      × ((ts' p).state ≡ (ts p).state)
      × ((j : ℕ) → j ≢ c → j ≢ p → ts' j ≡ ts j)
unfolding sys_fork alloc_task
sys_fork_lem tid p ts c f h ne = (
  forked tid p ts c,
  rw (first_free_lem ts 0 nproc c f h, sys_fork)
      (ap (λ k. some (k, forked tid p ts c)) (linked_pid tid p ts c ne)),
  ground arith,
  ground arith,
  ground arith,
  ground arith,
  ground arith,
  ground arith,
  λ j n m. ground arith,
)

-- a
pub sys_fork-full :
    (tid p : ℕ) (ts : Tasks)
    → ((j : ℕ) → j < nproc → is_free (ts j).state ≡ false)
    → sys_fork tid p ts ≡ none
unfolding sys_fork alloc_task
sys_fork-full tid p ts h =
    rw (first_free-none ts 0 nproc (λ j l u. h j (omega arith)), sys_fork) refl
