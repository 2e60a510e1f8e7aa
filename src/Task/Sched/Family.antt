-- ===== src/Task/Sched/Family.antt =====
-- `sys_exit` of a child and `sys_wait` of its parent.
use tnix.Common.{
  ℕ, ◌<◌, ◌≡◌, ◌≢◌, refl, ap, sym, ◌∙◌, List, [], ◌∷◌, ◌++◌, append-nil, append_assoc, true, false,
  ◌&&◌, not, ◌%◌, u32_mod, some, if◌then◌else◌, ◌==◌, ltb, arith, Bool-cases, inl, inr,
}
use tnix.Util.Spin.{update}
use tnix.Task.Sched.{
  nproc, State, is_sleep, is_exit, Chan, Task, Tasks, wake, wakeup, leave, adopt, sys_exit,
  first_exit, sys_wait, waits_for, reaps,
}
use tnix.Task.Sched.Wake.{Sleeps, wakeup-Sleeps, is_sleep-eq}

-- What `adopt` leaves of a task, and what it adds to the children of task 0.
pub record Kept (t u : Task) : Type 0 where
  pub state : u.state ≡ t.state
  pub pid : u.pid ≡ t.pid
  pub chan : u.chan ≡ t.chan
  pub exit_code : u.exit_code ≡ t.exit_code

adopt-Kept : (cs : List ℕ) (ts : Tasks) (j : ℕ) → Kept (ts j) (adopt cs ts j)
unfolding adopt
adopt-Kept [] ts j = record { state = refl; pid = refl; chan = refl; exit_code = refl }
adopt-Kept (c ∷ cs) ts j =
    let moved : Tasks = update ts c (record (ts c) { parent = 0 }) in
    let given : Tasks = update moved 0 (record (moved 0) { childs = (moved 0).childs ++ c ∷ [] }) in
    let k = adopt-Kept cs given j in
    record {
      state = k.state ∙ ground arith;
      pid = k.pid ∙ ground arith;
      chan = k.chan ∙ ground arith;
      exit_code = k.exit_code ∙ ground arith;
    }

given_childs :
    (c : ℕ) (cs : List ℕ) (ts : Tasks) (j : ℕ)
    → let moved : Tasks = update ts c (record (ts c) { parent = 0 }) in
      (update moved 0 (record (moved 0) { childs = (moved 0).childs ++ c ∷ [] }) j).childs
      ≡ (ts j).childs ++ (if j == 0 then c ∷ [] else [])
given_childs c cs ts j = ground (arith, append-nil (ts j).childs)

adopt-childs :
    (cs : List ℕ) (ts : Tasks) (j : ℕ)
    → (adopt cs ts j).childs ≡ (ts j).childs ++ (if j == 0 then cs else [])
unfolding adopt
adopt-childs [] ts j = ground (arith, append-nil (ts j).childs)
adopt-childs (c ∷ cs) ts j =
    let moved : Tasks = update ts c (record (ts c) { parent = 0 }) in
    let given : Tasks = update moved 0 (record (moved 0) { childs = (moved 0).childs ++ c ∷ [] }) in
    adopt-childs cs given j
    ∙ ap (λ l. l ++ (if j == 0 then cs else [])) (given_childs c cs ts j)
    ∙ append_assoc (ts j).childs (if j == 0 then c ∷ [] else []) (if j == 0 then cs else [])
    ∙ ap (λ l. (ts j).childs ++ l) (ground arith)

-- No entry is `j`.
abbrev pub Lacks : ℕ → List ℕ → Type 0
Lacks j [] = Unit {0}
Lacks j (x ∷ xs) = (x ≢ j) × Lacks j xs

adopt-parent :
    (cs : List ℕ) (ts : Tasks) (j : ℕ) → Lacks j cs → (adopt cs ts j).parent ≡ (ts j).parent
unfolding adopt
adopt-parent [] ts j h = refl
adopt-parent (c ∷ cs) ts j h =
    let moved : Tasks = update ts c (record (ts c) { parent = 0 }) in
    let given : Tasks = update moved 0 (record (moved 0) { childs = (moved 0).childs ++ c ∷ [] }) in
    adopt-parent cs given j h.1 ∙ given_parent
  where
    given_parent :
        (update
          (update ts c (record (ts c) { parent = 0 }))
          0
          (record (update ts c (record (ts c) { parent = 0 }) 0) {
            childs = (update ts c (record (ts c) { parent = 0 }) 0).childs ++ c ∷ [];
          })
          j).parent
        ≡ (ts j).parent
    given_parent = ground (arith, h.0)

-- What is left of a task that is woken.
record Woken (t u : Task) : Type 0 where
  left : is_exit u.state ≡ is_exit t.state
  pid : u.pid ≡ t.pid
  exit_code : u.exit_code ≡ t.exit_code
  childs : u.childs ≡ t.childs

wake-Woken : (c : Chan) (t : Task) → Woken t (wake c t)
unfolding wake
wake-Woken c t = elim (Bool-cases (is_sleep t.state && waits_for t.chan c)) [
  | inl e ↦ rw e (record {
    left = ap is_exit (sym (is_sleep-eq t.state (and_left e)));
    pid = refl;
    exit_code = refl;
    childs = refl;
  })
  | inr e ↦ rw e (record { left = refl; pid = refl; exit_code = refl; childs = refl })
]
  where
    and_left : (is_sleep t.state && waits_for t.chan c) ≡ true → is_sleep t.state ≡ true
    and_left e = ground arith

wakeup-Woken : (me : ℕ) (c : Chan) (ts : Tasks) (j : ℕ) → Woken (ts j) (wakeup me c ts j)
unfolding wakeup
wakeup-Woken me c ts j = elim (Bool-cases (ltb j nproc && not (j == me))) [
  | inl e ↦ rw e (wake-Woken c (ts j))
  | inr e ↦ rw e (record { left = refl; pid = refl; exit_code = refl; childs = refl })
]

-- None of the tasks has left.
abbrev pub Staying : Tasks → List ℕ → Type 0
Staying ts [] = Unit {0}
Staying ts (x ∷ xs) = (is_exit (ts x).state ≡ false) × Staying ts xs

first_exit-append :
    (ts : Tasks) (l : List ℕ) (c : ℕ) (r : List ℕ)
    → Staying ts l
    → is_exit (ts c).state ≡ true
    → first_exit ts (l ++ c ∷ r) ≡ some (l, c, r)
unfolding first_exit
first_exit-append ts [] c r h e = rw (e, first_exit) refl
first_exit-append ts (x ∷ l) c r h e = rw (h.0, first_exit-append ts l c r h.1 e, first_exit) refl

module _ (ts : Tasks) (c code : ℕ) where
  abbrev marked : Tasks
  marked = update ts c (record (ts c) { exit_code = code % u32_mod })

  abbrev adopted : Tasks
  adopted = adopt (ts c).childs marked

  abbrev bare : Tasks
  bare = update adopted c (record (adopted c) { childs = [] })

  abbrev gone : Tasks
  gone = update bare c (record (bare c) { state = State.exit })

  bare_parent : Lacks c (ts c).childs → (bare c).parent ≡ (ts c).parent
  bare_parent h = ground (arith, adopt-parent (ts c).childs marked c h)

  exit-eq_wakeup :
      Lacks c (ts c).childs → sys_exit c code ts ≡ wakeup c (Chan.childs_of (ts c).parent) gone
  unfolding sys_exit leave
  exit-eq_wakeup h = ap (λ p. wakeup c (Chan.childs_of p) gone) (bare_parent h)

  gone_self :
      (is_exit (gone c).state ≡ true)
      × ((gone c).pid ≡ (ts c).pid)
      × ((gone c).exit_code ≡ code % u32_mod)
  gone_self =
      let k = adopt-Kept (ts c).childs marked c in
      (ground arith, pid_kept k.pid, code_kept k.exit_code)
    where
      pid_kept : (adopted c).pid ≡ (marked c).pid → (gone c).pid ≡ (ts c).pid
      pid_kept e = ground arith

      code_kept : (adopted c).exit_code ≡ (marked c).exit_code → (gone c).exit_code ≡ code % u32_mod
      code_kept e = ground arith

  gone_other : (j : ℕ) → j ≢ c → gone j ≡ adopted j
  gone_other j ne = ground arith

  marked_other : (j : ℕ) → j ≢ c → marked j ≡ ts j
  marked_other j ne = ground arith

  gone_state : (j : ℕ) → j ≢ c → (gone j).state ≡ (ts j).state
  gone_state j ne =
      ap (λ (t : Task). t.state) (gone_other j ne)
      ∙ (adopt-Kept (ts c).childs marked j).state
      ∙ ap (λ (t : Task). t.state) (marked_other j ne)

  gone_childs :
      (j : ℕ) → j ≢ c → (gone j).childs ≡ (ts j).childs ++ (if j == 0 then (ts c).childs else [])
  gone_childs j ne =
      ap (λ (t : Task). t.childs) (gone_other j ne)
      ∙ adopt-childs (ts c).childs marked j
      ∙ ap (λ (t : Task). t.childs ++ (if j == 0 then (ts c).childs else [])) (marked_other j ne)

  gone-Staying : (l : List ℕ) → Lacks c l → Staying ts l → Staying gone l
  gone-Staying [] h st = tt
  gone-Staying (x ∷ l) h st = (ap is_exit (gone_state x h.0) ∙ st.0, gone-Staying l h.1 st.1)

-- A wait for a child that has left: the first such one of the children, whose entry becomes free.
abbrev reaped : Tasks → ℕ → List ℕ → ℕ → List ℕ → Tasks
reaped ts me l c r =
    let unlinked : Tasks = update ts me (record (ts me) { childs = l ++ r }) in
    update unlinked c (record (unlinked c) { state = State.free })

sys_wait-reaps :
    (ts : Tasks) (me : ℕ) (l : List ℕ) (c : ℕ) (r : List ℕ)
    → (ts me).childs ≡ l ++ c ∷ r
    → Staying ts l
    → is_exit (ts c).state ≡ true
    → sys_wait me ts ≡ reaps (ts c).pid (ts c).exit_code (reaped ts me l c r)
unfolding sys_wait
sys_wait-reaps ts me [] c r h st e = rw (h, first_exit-append ts [] c r st e, sys_wait) refl
sys_wait-reaps ts me (x ∷ l) c r h st e =
    rw (h, first_exit-append ts (x ∷ l) c r st e, sys_wait) refl

-- With `c` a child of `p`, another task, not its own child, and before it among the children of
-- `p` only other tasks, none of which has left: when `c` has called `sys_exit`, `sys_wait` of `p`
-- returns the number of `c` and its exit code as the 32 bits of an `int`, and frees its entry; the
-- other children of `p` stay in order, and the children of `c` come behind them if `p` is task 0.
pub sys_wait-sys_exit :
    (ts : Tasks) (p c code : ℕ) (before after : List ℕ)
    → p ≢ c
    → (ts c).parent ≡ p
    → (ts p).childs ≡ before ++ c ∷ after
    → Lacks c before
    → Lacks c (ts c).childs
    → Staying ts before
    → (ts' : Tasks) × (sys_wait p (sys_exit c code ts) ≡ reaps (ts c).pid (code % u32_mod) ts')
      × ((ts' c).state ≡ State.free)
      × ((ts' p).childs ≡ before ++ (after ++ (if p == 0 then (ts c).childs else [])))
sys_wait-sys_exit ts p c code before after ne up family lacks own st =
    let rest : List ℕ = after ++ (if p == 0 then (ts c).childs else []) in
    (
      reaped (left ts c code) p before c rest,
      ap (sys_wait p) (exit-eq_wakeup ts c code own)
          ∙ sys_wait-reaps (left ts c code) p before c rest childs_now (still before lacks st)
              (woken.left ∙ (gone_self ts c code).0)
          ∙ ap
              (λ k.
                reaps k ((left ts c code) c).exit_code (reaped (left ts c code) p before c rest))
              (woken.pid ∙ (gone_self ts c code).1)
          ∙ ap (λ k. reaps (ts c).pid k (reaped (left ts c code) p before c rest))
              (woken.exit_code ∙ (gone_self ts c code).2),
      ground arith,
      ground arith,
    )
  where
    left : Tasks → ℕ → ℕ → Tasks
    left ts c code = wakeup c (Chan.childs_of (ts c).parent) (gone ts c code)

    woken : Woken (gone ts c code c) (left ts c code c)
    woken = wakeup-Woken c (Chan.childs_of (ts c).parent) (gone ts c code) c

    still : (l : List ℕ) → Lacks c l → Staying ts l → Staying (left ts c code) l
    still [] h s = tt
    still (x ∷ l) h s = (
      (wakeup-Woken c (Chan.childs_of (ts c).parent) (gone ts c code) x).left
          ∙ ap is_exit (gone_state ts c code x h.0)
          ∙ s.0,
      still l h.1 s.1,
    )

    childs_now :
        (left ts c code p).childs ≡ before ++ c ∷ (after ++ (if p == 0 then (ts c).childs else []))
    childs_now =
        (wakeup-Woken c (Chan.childs_of (ts c).parent) (gone ts c code) p).childs
        ∙ gone_childs ts c code p ne
        ∙ ap (λ l. l ++ (if p == 0 then (ts c).childs else [])) family
        ∙ append_assoc before (c ∷ after) (if p == 0 then (ts c).childs else [])

-- A parent in the table that sleeps for its children, not the task itself, is ready once one of
-- them has called `sys_exit`; the child is not its own child.
pub sys_exit_wakes :
    (ts : Tasks) (p c code : ℕ)
    → p ≢ c
    → p < nproc
    → (ts c).parent ≡ p
    → Lacks c (ts c).childs
    → Sleeps (Chan.childs_of p) (ts p)
    → (sys_exit c code ts p).state ≡ State.ready
sys_exit_wakes ts p c code ne lt up own s =
    ap (λ (u : Tasks). (u p).state)
      (exit-eq_wakeup ts c code own ∙ ap (λ q. wakeup c (Chan.childs_of q) (gone ts c code)) up)
    ∙ ap (λ (t : Task). t.state)
        (wakeup-Sleeps c (Chan.childs_of p) (gone ts c code) p lt ne (record {
          asleep = gone_state ts c code p ne ∙ s.asleep;
          on =
              ap (λ (t : Task). t.chan) (gone_other ts c code p ne)
              ∙ (adopt-Kept (ts c).childs (marked ts c code) p).chan
              ∙ ap (λ (t : Task). t.chan) (marked_other ts c code p ne)
              ∙ s.on;
        }))
