-- ===== src/Fs/Pipe/Ring.antt =====
-- The ring of a pipe: its invariant, the bytes that it holds, and what one copy does to them.
use tnix.Common.{
  ℕ, ◌+◌, ◌-◌, ◌%◌, ◌≤◌, ◌<◌, ◌≡◌, ap, ◌∙◌, sym, List, ◌++◌, arith, get_or, length, slice, tabulate,
  add32, u32_mod, length-drop, slice-tabulate, tabulate-ext, tabulate-add, length-tabulate,
}
use tnix.Fs.Pipe.{Pipe, pipe_size, pipe_readable_size, pipe_writable_size}

-- The counters are `u32` and may have wrapped; at most `PIPE_SIZE` bytes lie between them.
pub record IsValid (p : Pipe) : Type 0 where
  pub storage : length p.buf ≡ pipe_size
  pub nread_u32 : p.nread < u32_mod
  pub nwrite_u32 : p.nwrite < u32_mod
  pub fits : pipe_readable_size p ≤ pipe_size

-- The byte at position `i` behind the read counter.
abbrev pub byte_at : Pipe → ℕ → ℕ
byte_at p i = get_or p.buf ((p.nread + i) % pipe_size) 0

-- The bytes written and not yet read, oldest first.
abbrev pub contents : Pipe → List ℕ
contents p = tabulate (pipe_readable_size p) (byte_at p)

pub length-contents : (p : Pipe) → length (contents p) ≡ pipe_readable_size p
length-contents p = length-tabulate (pipe_readable_size p) (byte_at p)

-- The free room, with no wrap-around left.
pub writable-eq_sub :
    {p : Pipe} → IsValid p → pipe_writable_size p ≡ pipe_size - pipe_readable_size p
writable-eq_sub v = omega arith

abbrev pub advance : Pipe → ℕ → Pipe
advance p n = record p { nread = add32 p.nread n }

pub readable-advance :
    {p : Pipe} (n : ℕ)
    → IsValid p
    → n ≤ pipe_readable_size p
    → pipe_readable_size (advance p n) ≡ pipe_readable_size p - n
readable-advance n v h = omega arith

pub advance-IsValid :
    {p : Pipe} (n : ℕ) → IsValid p → n ≤ pipe_readable_size p → IsValid (advance p n)
advance-IsValid n v h = omega arith

pub byte_at-advance : {p : Pipe} (n i : ℕ) → IsValid p → byte_at p (n + i) ≡ byte_at (advance p n) i
byte_at-advance {p} n i v = ap (λ k. get_or p.buf k 0) (omega arith)

-- A copy out of the ring that does not pass its end reads the next bytes.
pub slice-bytes :
    {p : Pipe} (count : ℕ)
    → IsValid p
    → count ≤ pipe_size - p.nread % pipe_size
    → slice p.buf (p.nread % pipe_size) count ≡ tabulate count (byte_at p)
slice-bytes {p} count v h =
    slice-tabulate p.buf (p.nread % pipe_size) count 0
      (omega (arith, v.storage, length-drop (p.nread % pipe_size) p.buf))
    ∙ tabulate-ext count (λ i. get_or p.buf (p.nread % pipe_size + i) 0) (byte_at p)
        (λ i q. ap (λ k. get_or p.buf k 0) (omega arith))

-- Going round in two copies is the same as reading the bytes in one.
pub tabulate-advance :
    {p : Pipe} (count n : ℕ)
    → IsValid p
    → count ≤ n
    → tabulate n (byte_at p)
      ≡ tabulate count (byte_at p) ++ tabulate (n - count) (byte_at (advance p count))
tabulate-advance {p} count n v h =
    tabulate-add count (n - count) n (byte_at p) (omega arith)
    ∙ ap (λ t. tabulate count (byte_at p) ++ t)
        (tabulate-ext (n - count) (λ i. byte_at p (count + i)) (byte_at (advance p count))
          (λ i q. byte_at-advance count i v))

pub advance-advance : (p : Pipe) (m n k : ℕ) → m + n ≡ k → advance (advance p m) n ≡ advance p k
advance-advance p m n k e = ap (λ t. record p { nread = t }) (omega arith)

pub advance-zero : {p : Pipe} → IsValid p → advance p 0 ≡ p
advance-zero {p} v = ap (λ t. record p { nread = t }) (omega arith)

-- Reading on is dropping from the front.
pub contents-advance :
    {p : Pipe} (n : ℕ)
    → IsValid p
    → n ≤ pipe_readable_size p
    → contents p ≡ tabulate n (byte_at p) ++ contents (advance p n)
contents-advance {p} n v h =
    tabulate-advance n (pipe_readable_size p) v h
    ∙ ap (λ k. tabulate n (byte_at p) ++ tabulate k (byte_at (advance p n)))
        (sym (readable-advance n v h))
