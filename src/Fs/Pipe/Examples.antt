-- ===== src/Fs/Pipe/Examples.antt =====
-- Runs of the pipe, and the theorems at a pipe whose counters are about to wrap.
use tnix.Common.{ℕ, ◌-◌, ◌^◌, ◌≡◌, refl, List, [], ◌∷◌, ◌++◌, arith, take, drop, replicate}
use tnix.Fs.Pipe.{Pipe, Reading, Writing, piperead, pipewrite, write_loop, write_round, write_chunk}
use tnix.Fs.Pipe.Ring.{IsValid, contents}
use tnix.Fs.Pipe.Read.{piperead_refines}
use tnix.Fs.Pipe.Write.{stands, Written, pipewrite_refines}
use tnix.Fs.Pipe.Stream.{Stream, Step, call, read, here, next, wrote, IsFlowing, Reach-IsFlowing}
use tnix.Fs.Pipe.Alloc.{HasUnused}

-- Sixty-two bytes wait in front of the wrap of the write counter.
abbrev wrapping : Pipe
wrapping = record { nread = 2 ^ 32 - 63; nwrite = 2 ^ 32 - 1; refc = 2; buf = replicate 64 7 }

abbrev empty : Pipe
empty = record { nread = 0; nwrite = 0; refc = 2; buf = replicate 64 0 }

wrapping-IsValid : IsValid wrapping
wrapping-IsValid = omega arith

empty-IsValid : IsValid empty
empty-IsValid = omega arith

-- Three bytes are given, two fit, and one of them behind the wrap.
pipewrite-wrapping :
    pipewrite wrapping (1 ∷ 2 ∷ 3 ∷ [])
    ≡ Writing.sleeps (3 ∷ []) (record wrapping { nwrite = 1; buf = 2 ∷ replicate 62 7 ++ 1 ∷ [] })
unfolding pipewrite write_loop write_round write_chunk
pipewrite-wrapping = refl

pipewrite_refines_example :
    (p' : Pipe) × (pipewrite wrapping (1 ∷ 2 ∷ 3 ∷ []) ≡ stands 3 (drop 2 (1 ∷ 2 ∷ 3 ∷ [])) p')
    × Written wrapping (1 ∷ 2 ∷ 3 ∷ []) p'
pipewrite_refines_example = pipewrite_refines wrapping (1 ∷ 2 ∷ 3 ∷ []) wrapping-IsValid

piperead_refines_example :
    (p' : Pipe) × (piperead wrapping 5 ≡ Reading.returns 5 (take 5 (contents wrapping)) p')
    × (contents p' ≡ drop 5 (contents wrapping))
    × IsValid p'
piperead_refines_example = piperead_refines wrapping 5 wrapping-IsValid (omega arith)

abbrev start : Stream
start = record { pipe = empty; pending = []; len = 0; sent = []; got = [] }

abbrev hello : List ℕ
hello = 104 ∷ 105 ∷ []

abbrev sent_hello : Stream
sent_hello = record {
  pipe = record empty { nwrite = 2; buf = 104 ∷ 105 ∷ replicate 62 0 };
  pending = [];
  len = 0;
  sent = hello;
  got = [];
}

abbrev got_h : Stream
got_h = record sent_hello { pipe = record (sent_hello.pipe) { nread = 1 }; got = 104 ∷ [] }

hello_sent : Step start sent_hello
unfolding wrote pipewrite
hello_sent = call start hello refl

h_read : Step sent_hello got_h
unfolding piperead
h_read = read sent_hello 1 1 (104 ∷ []) (got_h.pipe) refl

Reach-IsFlowing_example : IsFlowing got_h
Reach-IsFlowing_example =
    Reach-IsFlowing (record { valid = empty-IsValid; conserved = refl })
      (next (next here hello_sent) h_read)

abbrev table : List Pipe
table = wrapping ∷ record empty { refc = 0 } ∷ empty ∷ []

table-HasUnused : HasUnused table
table-HasUnused = (record empty { refc = 0 }, 1, refl, refl)
