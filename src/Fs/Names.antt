-- ===== src/Fs/Names.antt =====
-- The names and paths of kernel/fs/dir.c. A path is the list of its bytes before the NUL; `name` in an
-- entry is an array of 28 bytes, and ends at its first NUL, if it has one.
use tnix.Common.{
  ℕ, zero, suc, ◌+◌, ◌-◌, ◌≡◌, ◌≢◌, List, [], ◌∷◌, ◌++◌, Bool, true, false, Option, none, some,
  if◌then◌else◌, ◌==◌, leb, ltb, length, get_or, set, take, drop, replicate,
}
pub mod Equal
pub mod Path
mod Examples

abbrev pub dlength : ℕ
dlength = 28

-- The loop of `parse_path`: the bytes before the first `/` or the end.
unfoldable pub component : List ℕ → List ℕ
component [] = []
component (c ∷ cs) = let more = component cs in if c == b'/' then [] else c ∷ more

-- What `parse_path` gives: NULL; `dname` and the rest of the path; or a write behind `dname`.
pub data Parsed : Type 0 where
  finished : Parsed
  overruns : Parsed
  part : List ℕ → List ℕ → Parsed

-- `dname`, zeroed, with `n` bytes of the path copied; behind the end of the path is its NUL.
abbrev pub filled : List ℕ → List ℕ
filled comp = comp ++ replicate (dlength - length comp) 0

unfoldable pub parse_path : List ℕ → Parsed
unfolding component
parse_path [] = finished
parse_path (c ∷ cs) =
    let comp = component (c ∷ cs) in
    let n = length comp in
    if ltb n (length (c ∷ cs))
    then (if leb n dlength then part (filled comp) (drop (n + 1) (c ∷ cs)) else overruns)
    else (if leb (n + 1) dlength then part (filled comp) [] else overruns)

-- The loop over the `n` bytes from `i` on.
unfoldable pub name_set : ℕ → ℕ → List ℕ → List ℕ → List ℕ
name_set zero i dst src = dst
name_set (suc n) i dst src =
    let written = set dst i (get_or src i 0) in
    elim (get_or src i 0 == 0) [ true ↦ written | false ↦ name_set n (suc i) written src ]

unfoldable pub dentry_name_set : List ℕ → List ℕ → List ℕ
unfolding name_set
dentry_name_set dst src = name_set dlength 0 dst src

unfoldable pub name_equal : ℕ → ℕ → List ℕ → List ℕ → Bool
name_equal zero i s1 s2 = get_or s2 i 0 == 0
name_equal (suc n) i s1 s2 = elim (get_or s1 i 0 == get_or s2 i 0) [
  | true ↦ elim (get_or s1 i 0 == 0) [ true ↦ true | false ↦ name_equal n (suc i) s1 s2 ]
  | false ↦ false
]

unfoldable pub dentry_name_equal : List ℕ → List ℕ → Bool
unfolding name_equal
dentry_name_equal s1 s2 = name_equal dlength 0 s1 s2

-- The loop of `path_split`: the index of the last `/` from index `n` on, if there is one.
unfoldable pub last_slash : List ℕ → ℕ → Option ℕ → Option ℕ
last_slash [] n m = m
last_slash (c ∷ cs) n m = last_slash cs (suc n) (if c == b'/' then some n else m)

-- What is copied to `parentpath` and `filename`.
unfoldable pub path_split : List ℕ → List ℕ × List ℕ
unfolding last_slash
path_split path = elim (last_slash path 0 none) [
  | none ↦ (b'.' ∷ [], path)
  | some m ↦ (take m path, drop (m + 1) path)
]
