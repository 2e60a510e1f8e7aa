-- ===== src/Fs/Pipe/Read.antt =====
-- `piperead` takes the oldest bytes.
use tnix.Common.{
  ℕ, zero, suc, ◌+◌, ◌-◌, ◌%◌, ◌≤◌, ◌<◌, ◌≡◌, ◌≢◌, ap, ap₂, ◌∙◌, sym, List, [], ◌++◌, arith, min,
  slice, tabulate, ◌==◌, Bool-cases, inl, inr, ==→eq, not_==→ne, eq→==, ne→not_==, append-nil,
  append_assoc, take, drop, length, split_at, length-tabulate,
}
use tnix.Fs.Pipe.{Pipe, pipe_size, pipe_readable_size, read_loop, piperead, Reading}
use tnix.Fs.Pipe.Ring.{
  IsValid, byte_at, contents, advance, advance-IsValid, readable-advance, slice-bytes,
  tabulate-advance, advance-advance, advance-zero, contents-advance, length-contents,
}

read_loop-returns :
    (fuel r : ℕ) (p : Pipe) (start bytes : ℕ) (out : List ℕ)
    → IsValid p
    → start ≡ p.nread % pipe_size
    → bytes ≤ pipe_readable_size p
    → bytes < fuel
    → read_loop fuel r p start bytes out
      ≡ Reading.returns r (out ++ tabulate bytes (byte_at p)) (advance p bytes)
unfolding read_loop
read_loop-returns zero r p start bytes out v es hb hf = absurd (omega arith)
read_loop-returns (suc fuel) r p start bytes out v es hb hf = elim (Bool-cases (bytes == 0)) [
  | inl e ↦
      rw (e, ==→eq bytes 0 e)
        (ap₂ (Reading.returns r) (sym (append-nil out)) (sym (advance-zero v)))
  | inr e ↦ rw e (
      read_loop-returns fuel r (advance p count) ((start + count) % pipe_size) (bytes - count)
        (out ++ slice p.buf start count) (advance-IsValid count v (omega arith)) (omega arith)
        (omega (arith, readable-advance count v)) (omega (arith, not_==→ne bytes 0 e))
      ∙ ap₂ (Reading.returns r)
          (append_assoc out (slice p.buf start count)
              (tabulate (bytes - count) (byte_at (advance p count)))
            ∙ ap (λ t. out ++ t) chunk)
          (advance-advance p count (bytes - count) bytes (omega arith)))
]
  where
    count : ℕ
    count = min bytes (pipe_size - start)

    chunk :
        slice p.buf start count ++ tabulate (bytes - count) (byte_at (advance p count))
        ≡ tabulate bytes (byte_at p)
    chunk =
        ap (λ t. t ++ tabulate (bytes - count) (byte_at (advance p count)))
          (ap (λ s. slice p.buf s count) es ∙ slice-bytes count v (omega arith))
        ∙ sym (tabulate-advance count bytes v (omega arith))

-- A reader of an empty pipe sleeps, and leaves the pipe alone.
pub piperead-empty : (p : Pipe) (len : ℕ) → p.nread ≡ p.nwrite → piperead p len ≡ Reading.sleeps
unfolding piperead
piperead-empty p len e = rw (eq→== p.nread p.nwrite e)

-- A reader of a pipe that holds bytes returns the `n` oldest, with `n` the smaller of `len` and
-- their number, and moves past them.
pub piperead-returns :
    (p : Pipe) (len : ℕ)
    → IsValid p
    → p.nread ≢ p.nwrite
    → let n = min len (pipe_readable_size p) in
      piperead p len ≡ Reading.returns n (tabulate n (byte_at p)) (advance p n)
unfolding piperead
piperead-returns p len v ne =
    rw (ne→not_== p.nread p.nwrite ne)
      (read_loop-returns (suc n) n p (p.nread % pipe_size) n [] v refl' (omega arith) (omega arith))
  where
    n : ℕ
    n = min len (pipe_readable_size p)

    refl' : p.nread % pipe_size ≡ p.nread % pipe_size
    refl' = omega arith

-- On a pipe that fulfils its invariant and holds bytes, `piperead` comes to an end: it returns the
-- oldest `len` bytes, or all where there are fewer, with their number, leaves the others in order,
-- and keeps the invariant.
pub piperead_refines :
    (p : Pipe) (len : ℕ)
    → IsValid p
    → p.nread ≢ p.nwrite
    → (p' : Pipe) × (piperead p len
        ≡ Reading.returns (min len (length (contents p))) (take len (contents p)) p')
      × (contents p' ≡ drop len (contents p))
      × IsValid p'
piperead_refines p len v ne = (
  advance p n,
  piperead-returns p len v ne
      ∙ ap₂ (λ k bs. Reading.returns k bs (advance p n)) (ap (min len) (sym (length-contents p)))
          (sym halves.0),
  sym halves.1,
  advance-IsValid n v (omega arith),
)
  where
    n : ℕ
    n = min len (pipe_readable_size p)

    halves :
        (take len (contents p) ≡ tabulate n (byte_at p))
        × (drop len (contents p) ≡ contents (advance p n))
    halves = rw (contents-advance n v (omega arith)) (
        split_at len (tabulate n (byte_at p)) (contents (advance p n)) (
          omega (
            arith,
            length-tabulate n (byte_at p),
            ap length (contents-advance n v (omega arith)),
            length-contents p,
          )))
