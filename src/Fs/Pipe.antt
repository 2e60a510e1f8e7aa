-- ===== src/Fs/Pipe.antt =====
-- kernel/fs/pipe.c and pipe.h. `copy_to_user` and `copy_from_user` are copies between the ring and
-- a list that stands for the user's buffer; a fault of the user's address (`kill`) is not a case.
-- The spin lock is held from one `sleep` to the next, so each function below runs undisturbed.
use tnix.Common.{
  ℕ, zero, suc, ◌+◌, ◌-◌, ◌%◌, min, List, [], ◌∷◌, ◌++◌, Option, none, some, Bool, if◌then◌else◌,
  ◌==◌, add32, sub32, length, take, drop, slice, blit,
}
pub mod Ring
pub mod Read
pub mod Write
pub mod Stream
pub mod Alloc
mod Examples

abbrev pub pipe_size : ℕ
pipe_size = 64

-- The lock is not a field.
pub record Pipe : Type 0 where
  pub nread : ℕ
  pub nwrite : ℕ
  pub refc : ℕ
  pub buf : List ℕ

abbrev pub pipe_isempty : Pipe → Bool
pipe_isempty p = p.nread == p.nwrite

abbrev pub pipe_readable_size : Pipe → ℕ
pipe_readable_size p = sub32 p.nwrite p.nread

abbrev pub pipe_writable_size : Pipe → ℕ
pipe_writable_size p = sub32 pipe_size (sub32 p.nwrite p.nread)

-- What a reader leaves with: asleep on `&p->nread`, or the returned count, the bytes stored from
-- `udst` on, and the pipe.
pub data Reading : Type 0 where
  sleeps : Reading
  returns : ℕ → List ℕ → Pipe → Reading
  out_of_fuel : Reading

-- The loop of `piperead`; `out` holds the `total_read` bytes that it has copied.
read_loop : ℕ → ℕ → Pipe → (start bytes : ℕ) → (out : List ℕ) → Reading
read_loop zero r p start bytes out = out_of_fuel
read_loop (suc fuel) r p start bytes out =
    let count = min bytes (pipe_size - start) in
    let next =
      read_loop fuel r (record p { nread = add32 p.nread count }) ((start + count) % pipe_size)
        (bytes - count) (out ++ slice p.buf start count) in
    if bytes == 0 then returns r out p else next

pub piperead : Pipe → ℕ → Reading
unfolding read_loop
piperead p len =
    let bytes = min len (pipe_readable_size p) in
    if pipe_isempty p then sleeps else read_loop (suc bytes) bytes p (p.nread % pipe_size) bytes []

-- What a writer leaves with: asleep on `&p->nwrite` with the bytes not yet written, or the returned
-- count.
pub data Writing : Type 0 where
  sleeps : List ℕ → Pipe → Writing
  returns : ℕ → Pipe → Writing
  out_of_fuel : Writing

-- One round of `pipewrite`'s outer loop, past the wait: `src` holds the bytes from
-- `usrc + total_written` on.
unfoldable pub write_chunk : Pipe → List ℕ → ℕ
write_chunk p src = min (min (length src) (pipe_writable_size p)) (pipe_size - p.nwrite % pipe_size)

unfoldable pub write_round : Pipe → List ℕ → Pipe
write_round p src = record p {
  buf = blit p.buf (p.nwrite % pipe_size) (take (write_chunk p src) src);
  nwrite = add32 p.nwrite (write_chunk p src);
}

-- The outer loop, entered at the test `total_written < len`; a woken writer runs on from here too.
pub write_loop : ℕ → ℕ → Pipe → List ℕ → Writing
write_loop zero len p src = out_of_fuel
write_loop (suc fuel) len p src =
    let next = write_loop fuel len (write_round p src) (drop (write_chunk p src) src) in
    if length src == 0
    then returns len p
    else if pipe_writable_size p == 0
    then sleeps src p
    else next

pub pipewrite : Pipe → List ℕ → Writing
unfolding write_loop write_round write_chunk
pipewrite p src = write_loop (suc (length src)) (length src) p src
