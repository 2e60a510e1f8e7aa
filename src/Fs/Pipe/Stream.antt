-- ===== src/Fs/Pipe/Stream.antt =====
-- A pipe between a writer and a reader that run in any order.
use tnix.Common.{
  ℕ, suc, ◌≡◌, ◌≢◌, ap, ◌∙◌, sym, List, [], ◌++◌, take, drop, length, append-nil, append_assoc,
  take-append-drop, Bool-cases, inl, inr, ==→eq, ◌==◌, not_==→ne, ap₂, eq_nil,
}
use tnix.Fs.Pipe.{Pipe, pipewrite, piperead, write_loop, Writing, Reading}
use tnix.Fs.Pipe.Ring.{IsValid, contents}
use tnix.Fs.Pipe.Read.{piperead_refines, piperead-empty}
use tnix.Fs.Pipe.Write.{room, stands, Written, write_loop_refines, pipewrite_refines}

-- The pipe; what the writer's call in progress has still to write (`[]` between calls), with that
-- call's `len`; all that the writer was called with; all that the reader was given.
pub record Stream : Type 0 where
  pub pipe : Pipe
  pub pending : List ℕ
  pub len : ℕ
  pub sent : List ℕ
  pub got : List ℕ

-- How a step of the writer ends.
unfoldable pub wrote : Stream → List ℕ → ℕ → Writing → Stream
wrote s sent len (Writing.returns r p) = record s { pipe = p; pending = []; len = 0; sent = sent }
wrote s sent len (Writing.sleeps rest p) = record s {
  pipe = p;
  pending = rest;
  len = len;
  sent = sent;
}
wrote s sent len Writing.out_of_fuel = s

-- What can happen next: the writer calls `pipewrite`, a writer that sleeps wakes up, the reader
-- calls `piperead` on a pipe that holds bytes.
pub data Step : Stream → Stream → Type 0 where
  call :
      (s : Stream) (src : List ℕ)
      → s.pending ≡ []
      → Step s (wrote s (s.sent ++ src) (length src) (pipewrite s.pipe src))
  resume :
      (s : Stream)
      → s.pending ≢ []
      → Step s (wrote s s.sent s.len (write_loop (suc (length s.pending)) s.len s.pipe s.pending))
  read :
      (s : Stream) (n r : ℕ) (bytes : List ℕ) (p : Pipe)
      → piperead s.pipe n ≡ Reading.returns r bytes p
      → Step s (record s { pipe = p; got = s.got ++ bytes })

pub data Reach (s : Stream) : Stream → Type 0 where
  here : Reach s s
  next : {t u : Stream} → Reach s t → Step t u → Reach s u

pub record IsFlowing (s : Stream) : Type 0 where
  pub valid : IsValid s.pipe
  pub conserved : s.sent ≡ (s.got ++ contents s.pipe) ++ s.pending

regroup : (a b c d : List ℕ) → (a ++ b) ++ (c ++ d) ≡ (a ++ (b ++ c)) ++ d
regroup a b c d = sym (append_assoc (a ++ b) c d) ∙ ap (λ t. t ++ d) (append_assoc a b c)

-- A writer that takes `src` in as far as there is room leaves nothing out of the account.
wrote-IsFlowing :
    (s : Stream) (sent src : List ℕ) (len k : ℕ) (p' : Pipe)
    → Written s.pipe src p'
    → sent ≡ (s.got ++ contents s.pipe) ++ src
    → IsFlowing (wrote s sent len (stands k (drop (room s.pipe) src) p'))
unfolding wrote
wrote-IsFlowing s sent src len k p' w e = elim (Bool-cases (length rest == 0)) [
  | inl z ↦ rw z (record {
    valid = w.valid;
    conserved =
        account ∙ ap (λ t. (s.got ++ contents p') ++ t) (eq_nil rest (==→eq (length rest) 0 z));
  })
  | inr z ↦ rw z (record { valid = w.valid; conserved = account })
]
  where
    rest : List ℕ
    rest = drop (room s.pipe) src

    account : sent ≡ (s.got ++ contents p') ++ rest
    account =
        e
        ∙ ap (λ t. (s.got ++ contents s.pipe) ++ t) (sym (take-append-drop (room s.pipe) src))
        ∙ regroup s.got (contents s.pipe) (take (room s.pipe) src) rest
        ∙ ap (λ t. (s.got ++ t) ++ rest) (sym w.appended)

-- A reader's bytes leave the pipe and nothing else.
read-IsFlowing :
    (s : Stream) (n r : ℕ) (bytes : List ℕ) (p : Pipe)
    → IsFlowing s
    → piperead s.pipe n ≡ Reading.returns r bytes p
    → IsFlowing (record s { pipe = p; got = s.got ++ bytes })
read-IsFlowing s n r bytes p f e = elim (Bool-cases (s.pipe.nread == s.pipe.nwrite)) [
  | inl z ↦ absurd (cc (piperead-empty s.pipe n (==→eq s.pipe.nread s.pipe.nwrite z)))
  | inr z ↦
      let (p', run, rest, v) = piperead_refines s.pipe n f.valid (not_==→ne _ _ z) in
      let same_pipe : p' ≡ p = cc in
      let same_bytes : take n (contents s.pipe) ≡ bytes = cc in
      record {
        valid = rw (← same_pipe) v;
        conserved =
            f.conserved
            ∙ ap (λ t. (s.got ++ t) ++ s.pending) (sym (take-append-drop n (contents s.pipe)))
            ∙ ap (λ t. t ++ s.pending)
                (sym (append_assoc s.got (take n (contents s.pipe)) (drop n (contents s.pipe))))
            ∙ ap₂ (λ b c. ((s.got ++ b) ++ c) ++ s.pending) same_bytes
                (sym rest ∙ ap contents same_pipe);
      }
]

pub Step-IsFlowing : {s t : Stream} → Step s t → IsFlowing s → IsFlowing t
Step-IsFlowing (call s src idle) f =
    let (p', run, w) = pipewrite_refines s.pipe src f.valid in
    rw run (
      wrote-IsFlowing s (s.sent ++ src) src (length src) (length src) p' w (
        ap (λ t. t ++ src)
          (f.conserved
            ∙ ap (λ t. (s.got ++ contents s.pipe) ++ t) idle
            ∙ append-nil (s.got ++ contents s.pipe))))
Step-IsFlowing (resume s busy) f =
    let (p', run, w) = write_loop_refines s.len s.pipe s.pending f.valid in
    rw run (wrote-IsFlowing s s.sent s.pending s.len s.len p' w f.conserved)
Step-IsFlowing (read s n r bytes p e) f = read-IsFlowing s n r bytes p f e

-- In whatever order calls, wake-ups and reads come, from a state in which the account holds, no
-- byte is lost, doubled or reordered: the pipe keeps its invariant, and what the writer sent is
-- what the reader got, then what the ring holds, then what is still to be written.
pub Reach-IsFlowing : {s t : Stream} → IsFlowing s → Reach s t → IsFlowing t
Reach-IsFlowing f here = f
Reach-IsFlowing f (next r st) = Step-IsFlowing st (Reach-IsFlowing f r)
