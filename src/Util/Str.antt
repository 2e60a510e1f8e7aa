-- ===== src/Util/Str.antt =====
-- kernel/util/string.c, over a memory that gives each address its byte. A pointer is an address;
-- address arithmetic does not wrap. `strlen` and `strcpy` run until they find a NUL, on fuel.
use tnix.Common.{
  ℕ, zero, suc, ◌+◌, ◌-◌, ◌%◌, Bool, ◌&&◌, Option, none, some, if◌then◌else◌, ◌==◌, ltb,
}
pub mod Copy
pub mod Term
mod Examples

abbrev pub Memory : Type 0
Memory = ℕ → ℕ

abbrev pub store : Memory → ℕ → ℕ → Memory
store m p v q = if q == p then v else m q

-- The loop of `memset`; `c` is stored as a `char`.
memset_loop : Memory → ℕ → ℕ → ℕ → Memory
memset_loop m p c zero = m
memset_loop m p c (suc n) = memset_loop (store m p (c % 256)) (p + 1) c n

pub memset : Memory → ℕ → ℕ → ℕ → Memory
unfolding memset_loop
memset m d c n = memset_loop m d c n

copy_down : Memory → ℕ → ℕ → ℕ → Memory
copy_down m d s zero = m
copy_down m d s (suc n) = copy_down (store m (d - 1) (m (s - 1))) (d - 1) (s - 1) n

copy_up : Memory → ℕ → ℕ → ℕ → Memory
copy_up m d s zero = m
copy_up m d s (suc n) = copy_up (store m d (m s)) (d + 1) (s + 1) n

pub memcpy : Memory → ℕ → ℕ → ℕ → Memory
unfolding copy_down copy_up
memcpy m dst src n =
    if n == 0
    then m
    else if ltb src dst && ltb dst (src + n)
    then copy_down m (dst + n) (src + n) n
    else copy_up m dst src n

zero_fill : Memory → ℕ → ℕ → Memory
zero_fill m s zero = m
zero_fill m s (suc n) = zero_fill (store m s 0) (s + 1) n

-- `n` is an `int`, which no caller passes negative.
strncpy_loop : Memory → ℕ → ℕ → ℕ → Memory
strncpy_loop m s t zero = m
strncpy_loop m s t (suc n) =
    let m' = store m s (m t) in
    let more = strncpy_loop m' (s + 1) (t + 1) n in
    if m t == 0 then zero_fill m' (s + 1) n else more

pub strncpy : Memory → ℕ → ℕ → ℕ → Memory
unfolding strncpy_loop zero_fill
strncpy m s t n = strncpy_loop m s t n

strlen_loop : ℕ → Memory → ℕ → ℕ → Option ℕ
strlen_loop zero m str len = none
strlen_loop (suc fuel) m str len =
    let more = strlen_loop fuel m str (len + 1) in if m (str + len) == 0 then some len else more

pub strlen : ℕ → Memory → ℕ → Option ℕ
unfolding strlen_loop
strlen fuel m str = strlen_loop fuel m str 0

pub strcpy : ℕ → Memory → ℕ → ℕ → Option Memory
strcpy zero m d src = none
strcpy (suc fuel) m d src =
    let m' = store m d (m src) in
    let more = strcpy fuel m' (d + 1) (src + 1) in if m src == 0 then some m' else more
