-- ===== src/Task/Sched.antt =====
-- The table of tasks: `sleep`, `wakeup`, `yield`, `kill` and the choice of `task_schedule` of
-- kernel/task/sche.c, `alloc_task` of kernel/task/task.c, and `sys_fork`, `sys_exit` and `sys_wait` of
-- kernel/syscall/systask.c. A task is its index in `task_queue`. Each function is what happens to the
-- table under the locks of the tasks; registers, memory and files are left aside. `fork` and `alloc_task`
-- are given the number of the new task.
use tnix.Common.{
  ◌%◌, u32_mod, ℕ, zero, suc, ◌+◌, List, [], ◌∷◌, ◌++◌, Bool, true, false, ◌&&◌, not, Option, none,
  some, if◌then◌else◌, ◌==◌, ltb,
}
use tnix.Util.Spin.{update}
pub mod Wake
pub mod Family
pub mod Fork
mod Examples

abbrev pub nproc : ℕ
nproc = 32

pub data State : Type 0 where
  free init ready run sleep exit : State

abbrev pub is_free : State → Bool
is_free State.free = true
is_free s = false

abbrev pub is_ready : State → Bool
is_ready State.ready = true
is_ready s = false

abbrev pub is_sleep : State → Bool
is_sleep State.sleep = true
is_sleep s = false

abbrev pub is_exit : State → Bool
is_exit State.exit = true
is_exit s = false

-- What a task waits for: `&t->childs` of a task, or another address.
pub data Chan : Type 0 where
  childs_of : ℕ → Chan
  address : ℕ → Chan

abbrev pub same_chan : Chan → Chan → Bool
same_chan (Chan.childs_of i) (Chan.childs_of j) = i == j
same_chan (Chan.address i) (Chan.address j) = i == j
same_chan c d = false

pub record Task : Type 0 where
  pub state : State
  pub chan : Option Chan
  pub pid : ℕ
  pub parent : ℕ
  pub childs : List ℕ
  -- The 32 bits of an `int`.
  pub exit_code : ℕ

abbrev pub Tasks : Type 0
Tasks = ℕ → Task

abbrev pub waits_for : Option Chan → Chan → Bool
waits_for none c = false
waits_for (some d) c = same_chan d c

-- `sleep` up to `context_switch`, and behind it.
unfoldable pub sleep_begin : Chan → Task → Task
sleep_begin c t = record t { chan = some c; state = State.sleep }

unfoldable pub sleep_end : Task → Task
sleep_end t = record t { chan = none }

unfoldable pub yield : Task → Task
yield t = record t { state = State.ready }

-- One round of `wakeup`.
unfoldable pub wake : Chan → Task → Task
wake c t = if is_sleep t.state && waits_for t.chan c then record t { state = State.ready } else t

-- `wakeup` by task `me`: its rounds touch different tasks.
unfoldable pub wakeup : ℕ → Chan → Tasks → Tasks
unfolding wake
wakeup me c ts i = if ltb i nproc && not (i == me) then wake c (ts i) else ts i

-- One round of `task_schedule`, up to the switch to the task.
unfoldable pub schedule : ℕ → Tasks → Tasks
schedule i ts =
    if is_ready (ts i).state then update ts i (record (ts i) { state = State.run }) else ts

-- What `kill` and `sys_exit` share: the state, and waking the parent.
unfoldable pub leave : ℕ → Tasks → Tasks
unfolding wakeup
leave me ts =
    wakeup me (Chan.childs_of (ts me).parent) (update ts me (record (ts me) { state = State.exit }))

unfoldable pub kill : ℕ → Tasks → Tasks
unfolding leave
kill me ts = leave me (update ts me (record (ts me) { exit_code = 255 }))

-- The first free one of the `n` tasks from `i` on.
unfoldable pub first_free : Tasks → ℕ → ℕ → Option ℕ
first_free ts i zero = none
first_free ts i (suc n) =
    let later = first_free ts (suc i) n in if is_free (ts i).state then some i else later

-- `task_info_init` sets number, parent and children. `none` is the panic.
unfoldable pub alloc_task : ℕ → ℕ → Tasks → Option (ℕ × Tasks)
unfolding first_free
alloc_task tid p ts = elim (first_free ts 0 nproc) [
  | none ↦ none
  | some i ↦
      some
        (i, update ts i (record (ts i) { state = State.init; pid = tid; parent = p; childs = [] }))
]

-- The parent's side: the new task, and the number returned.
unfoldable pub sys_fork : ℕ → ℕ → Tasks → Option (ℕ × Tasks)
unfolding alloc_task
sys_fork tid p ts = elim (alloc_task tid p ts) [
  | none ↦ none
  | some (c, ts') ↦
      let linked = update ts' p (record (ts' p) { childs = (ts' p).childs ++ c ∷ [] }) in
      some ((linked c).pid, update linked c (record (linked c) { state = State.ready }))
]

-- The loop of `sys_exit`: the children go to task 0.
unfoldable pub adopt : List ℕ → Tasks → Tasks
adopt [] ts = ts
adopt (c ∷ cs) ts =
    let moved = update ts c (record (ts c) { parent = 0 }) in
    adopt cs (update moved 0 (record (moved 0) { childs = (moved 0).childs ++ c ∷ [] }))

-- By a task other than task 0.
unfoldable pub sys_exit : ℕ → ℕ → Tasks → Tasks
unfolding adopt leave
sys_exit me code ts =
    let marked = update ts me (record (ts me) { exit_code = code % u32_mod }) in
    let adopted = adopt (ts me).childs marked in
    leave me (update adopted me (record (adopted me) { childs = [] }))

-- The first child that has left, with the children before it and behind it.
unfoldable pub first_exit : Tasks → List ℕ → Option (List ℕ × ℕ × List ℕ)
first_exit ts [] = none
first_exit ts (c ∷ cs) = elim (is_exit (ts c).state) [
  | true ↦ some ([], c, cs)
  | false ↦ elim (first_exit ts cs) [ none ↦ none | some (l, d, r) ↦ some (c ∷ l, d, r) ]
]

-- A round of `sys_wait`: no children, a child's number and exit code, or asleep.
pub data Waiting : Type 0 where
  childless : Waiting
  reaps : ℕ → ℕ → Tasks → Waiting
  sleeps : Tasks → Waiting

unfoldable pub sys_wait : ℕ → Tasks → Waiting
unfolding first_exit sleep_begin
sys_wait me ts = elim (ts me).childs [
  | [] ↦ childless
  | c ∷ cs ↦ elim (first_exit ts (c ∷ cs)) [
    | none ↦ sleeps (update ts me (sleep_begin (Chan.childs_of me) (ts me)))
    | some (l, d, r) ↦
        let unlinked = update ts me (record (ts me) { childs = l ++ r }) in
        reaps (ts d).pid (ts d).exit_code
          (update unlinked d (record (unlinked d) { state = State.free }))
  ]
]
