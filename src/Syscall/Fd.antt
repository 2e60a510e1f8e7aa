-- ===== src/Syscall/Fd.antt =====
-- The table of open files: `move_fdi`, `sys_dup` and `sys_close` of kernel/syscall/sysfs.c, the end of
-- `sys_open`, and `fdup` and `fclose` of kernel/fs/file.c. A file is its address, and 0 is NULL.
use tnix.Common.{
  ℕ, zero, suc, ◌+◌, ◌-◌, ◌%◌, ◌^◌, min, List, [], ◌∷◌, Option, none, some, if◌then◌else◌, ◌==◌,
  leb, get_or, set,
}
pub mod Table
pub mod Calls
mod Examples

abbrev pub nfile : ℕ
nfile = 16

-- `files` and `fdx` of the task's `fs_struct`, the `refc` of each file, and the files whose last
-- reference went, newest first: their inode or pipe is put back, and their slot freed.
pub record FsStruct : Type 0 where
  pub files : List ℕ
  pub fdx : ℕ
  pub refc : ℕ → ℕ
  pub released : List ℕ

-- The loop of `move_fdi` over the `n` slots from `i` on.
unfoldable pub first_null : List ℕ → ℕ → ℕ → Option ℕ
first_null files i zero = none
first_null files i (suc n) =
    let later = first_null files (suc i) n in if get_or files i 0 == 0 then some i else later

unfoldable pub move_fdi : FsStruct → FsStruct
unfolding first_null
move_fdi s = elim (first_null s.files s.fdx (nfile - s.fdx)) [
  | none ↦ s
  | some i ↦ record s { fdx = i }
]

-- The end of `sys_open`: file `f` into slot `fdx`, which is returned.
unfoldable pub install : ℕ → FsStruct → FsStruct
unfolding move_fdi
install f s = move_fdi (record s { files = set s.files s.fdx f })

unfoldable pub set_refc : FsStruct → ℕ → ℕ → FsStruct
set_refc s f k = record s { refc = λ g. if g == f then k else s.refc g }

-- `none` is the panic.
unfoldable pub fdup : ℕ → FsStruct → Option FsStruct
unfolding set_refc
fdup f s = if s.refc f == 0 then none else some (set_refc s f ((s.refc f + 1) % 2 ^ 32))

unfoldable pub fclose : ℕ → FsStruct → Option FsStruct
unfolding set_refc
fclose f s =
    let t = set_refc s f (s.refc f - 1) in
    if s.refc f == 0
    then none
    else some (if s.refc f - 1 == 0 then record t { released = f ∷ t.released } else t)

-- `fails` is the return of -1, `breaks` a panic or an access outside `files`.
pub data Outcome : Type 0 where
  fails : Outcome
  breaks : Outcome
  returns : ℕ → FsStruct → Outcome

unfoldable pub sys_dup : ℕ → FsStruct → Outcome
unfolding fdup install
sys_dup fd s =
    if leb nfile fd
    then breaks
    else if get_or s.files fd 0 == 0
    then fails
    else elim (fdup (get_or s.files fd 0) s) [
      | none ↦ breaks
      | some t ↦ returns t.fdx (install (get_or t.files fd 0) t)
    ]

unfoldable pub sys_close : ℕ → FsStruct → Outcome
unfolding fclose
sys_close fd s =
    if leb nfile fd
    then breaks
    else if get_or s.files fd 0 == 0
    then fails
    else elim (fclose (get_or s.files fd 0) s) [
      | none ↦ breaks
      | some t ↦ returns 0 (record t { files = set t.files fd 0; fdx = min fd t.fdx })
    ]
