-- ===== src/Fs/Pipe/Write.antt =====
-- `pipewrite` adds its bytes at the end, as many as there is room for, and sleeps with the rest.
use tnix.Common.{
  ℕ, zero, suc, ◌+◌, ◌-◌, ◌%◌, ◌<◌, ◌≡◌, ◌≢◌, refl, ap, ap₂, ◌∙◌, sym, List, [], ◌++◌, arith, min,
  get_or, blit, tabulate, ◌==◌, Bool-cases, inl, inr, ==→eq, not_==→ne, append-nil, append_assoc,
  take, drop, length, length-take, length-drop, length-blit, tabulate-add, tabulate-ext,
  tabulate-get_or, get_or-blit_below, get_or-blit_above, get_or-blit_in, ltb, ltb→lt, not_ltb→le,
  if◌then◌else◌, eq_nil, drop-nil, take-nil, take-add, drop-drop,
}
use tnix.Fs.Pipe.{
  Pipe, pipe_size, pipe_readable_size, pipe_writable_size, write_chunk, write_round, write_loop,
  pipewrite, Writing,
}
use tnix.Fs.Pipe.Ring.{IsValid, byte_at, contents, writable-eq_sub}

-- The free room.
abbrev pub room : Pipe → ℕ
room p = pipe_size - pipe_readable_size p

module _ {p : Pipe} (v : IsValid p) (src : List ℕ) where
  write_chunk-eq_min :
      write_chunk p src ≡ min (min (length src) (room p)) (pipe_size - p.nwrite % pipe_size)
  unfolding write_chunk
  write_chunk-eq_min =
      ap (λ k. min (min (length src) k) (pipe_size - p.nwrite % pipe_size)) (writable-eq_sub v)

  length-chunk : length (take (write_chunk p src) src) ≡ write_chunk p src
  length-chunk = omega (arith, length-take (write_chunk p src) src, write_chunk-eq_min)

  readable-round : pipe_readable_size (write_round p src) ≡ pipe_readable_size p + write_chunk p src
  unfolding write_round
  readable-round = omega (arith, write_chunk-eq_min)

  -- One round keeps the invariant.
  pub write_round-IsValid : IsValid (write_round p src)
  unfolding write_round
  write_round-IsValid = record {
    storage = length-blit p.buf (p.nwrite % pipe_size) (take (write_chunk p src) src) ∙ v.storage;
    nread_u32 = v.nread_u32;
    nwrite_u32 = omega arith;
    fits = omega (arith, write_chunk-eq_min);
  }

  -- The bytes that are waiting are not overwritten.
  byte_at-round_old :
      (i : ℕ) → i < pipe_readable_size p → byte_at (write_round p src) i ≡ byte_at p i
  unfolding write_round
  byte_at-round_old i h =
      elim (Bool-cases (ltb ((p.nread + i) % pipe_size) (p.nwrite % pipe_size))) [
        | inl e ↦
            get_or-blit_below p.buf (p.nwrite % pipe_size) (take (write_chunk p src) src)
              ((p.nread + i) % pipe_size) 0 (ltb→lt _ _ e)
        | inr e ↦
            get_or-blit_above p.buf (p.nwrite % pipe_size) (take (write_chunk p src) src)
              ((p.nread + i) % pipe_size) 0
              (omega (
                arith,
                length-chunk,
                write_chunk-eq_min,
                not_ltb→le ((p.nread + i) % pipe_size) (p.nwrite % pipe_size) e,
              ))
      ]

  -- The new bytes stand behind them.
  byte_at-round_new :
      (i : ℕ)
      → i < write_chunk p src
      → byte_at (write_round p src) (pipe_readable_size p + i)
        ≡ get_or (take (write_chunk p src) src) i 0
  unfolding write_round
  byte_at-round_new i h =
      ap (λ k. get_or (blit p.buf (p.nwrite % pipe_size) (take (write_chunk p src) src)) k 0)
        (omega (arith, write_chunk-eq_min))
      ∙ get_or-blit_in p.buf (p.nwrite % pipe_size) (take (write_chunk p src) src) i 0
          (omega (arith, length-chunk, write_chunk-eq_min, v.storage)) (omega (arith, length-chunk))

  -- One round appends the bytes that it copies.
  pub contents-write_round :
      contents (write_round p src) ≡ contents p ++ take (write_chunk p src) src
  contents-write_round =
      tabulate-add (pipe_readable_size p) (write_chunk p src)
        (pipe_readable_size (write_round p src)) (byte_at (write_round p src)) readable-round
      ∙ ap₂ ◌++◌
          (tabulate-ext (pipe_readable_size p) (byte_at (write_round p src)) (byte_at p)
            byte_at-round_old)
          (tabulate-ext (write_chunk p src)
              (λ i. byte_at (write_round p src) (pipe_readable_size p + i))
              (λ i. get_or (take (write_chunk p src) src) i 0) byte_at-round_new
            ∙ ap (λ k. tabulate k (λ i. get_or (take (write_chunk p src) src) i 0))
                (sym length-chunk)
            ∙ tabulate-get_or (take (write_chunk p src) src) 0)

  -- A round that is made copies at least one byte.
  pub write_chunk-pos : length src ≢ 0 → pipe_writable_size p ≢ 0 → 0 < write_chunk p src
  unfolding write_chunk
  write_chunk-pos hs hw = omega arith

-- How a writer stands once `rest` is left: returned if that is nothing, else asleep with it.
abbrev pub stands : ℕ → List ℕ → Pipe → Writing
stands len rest p = if length rest == 0 then Writing.returns len p else Writing.sleeps rest p

-- `src` has been taken in as far as the room of `p` goes.
pub record Written (p : Pipe) (src : List ℕ) (p' : Pipe) : Type 0 where
  pub valid : IsValid p'
  pub appended : contents p' ≡ contents p ++ take (room p) src
  pub refc_kept : p'.refc ≡ p.refc

Written-round :
    {p : Pipe} (v : IsValid p) (src : List ℕ) {p' : Pipe}
    → Written (write_round p src) (drop (write_chunk p src) src) p'
    → Written p src p'
unfolding write_round
Written-round {p} v src w = record {
  valid = w.valid;
  appended =
      w.appended
      ∙ ap (λ t. t ++ take (room (write_round p src)) (drop (write_chunk p src) src))
          (contents-write_round v src)
      ∙ append_assoc (contents p) (take (write_chunk p src) src)
          (take (room (write_round p src)) (drop (write_chunk p src) src))
      ∙ ap (λ t. contents p ++ t)
          (sym (
            take-add (write_chunk p src) (room (write_round p src)) (room p) src
              (omega (arith, readable-round v src, write_chunk-eq_min v src))));
  refc_kept = w.refc_kept;
}

write_loop-Written :
    (fuel len : ℕ) (p : Pipe) (src : List ℕ)
    → IsValid p
    → length src < fuel
    → (p' : Pipe) × (write_loop fuel len p src ≡ stands len (drop (room p) src) p')
      × Written p src p'
unfolding write_loop
write_loop-Written zero len p src v h = absurd (omega arith)
write_loop-Written (suc fuel) len p src v h = elim (Bool-cases (length src == 0)) [
  | inl e ↦ rw e (
      let none_left : src ≡ [] = eq_nil src (==→eq (length src) 0 e) in
      (
        p,
        ap (λ t. stands len t p) (sym (ap (drop (room p)) none_left ∙ drop-nil (room p))),
        record {
          valid = v;
          appended = sym (
              ap (λ t. contents p ++ t) (ap (take (room p)) none_left ∙ take-nil (room p))
              ∙ append-nil (contents p));
          refc_kept = refl;
        },
      ))
  | inr e ↦ elim (Bool-cases (pipe_writable_size p == 0)) [
    | inl f ↦
        rw (e, f)
          (let full : room p ≡ 0 =
              omega (arith, writable-eq_sub v, ==→eq (pipe_writable_size p) 0 f) in
            (
              p,
              rw (full, e),
              record {
                valid = v;
                appended = sym (ap (λ k. contents p ++ take k src) full ∙ append-nil (contents p));
                refc_kept = refl;
              },
            ))
    | inr f ↦
        rw (e, f)
          (let (p', run, w) =
              write_loop-Written fuel len (write_round p src) (drop (write_chunk p src) src)
                (write_round-IsValid v src)
                (omega (
                  arith,
                  length-drop (write_chunk p src) src,
                  write_chunk-eq_min v src,
                  write_chunk-pos v src (not_==→ne _ 0 e) (not_==→ne _ 0 f),
                )) in
            (
              p',
              run
                  ∙ ap (λ t. stands len t p')
                      (drop-drop (write_chunk p src) (room (write_round p src)) (room p) src
                        (omega (arith, readable-round v src, write_chunk-eq_min v src))),
              Written-round v src w,
            ))
  ]
]

-- A writer that enters its loop with `src` to write, at a call or woken up, takes in as many bytes
-- as there is room for, in order and behind those that wait; it then returns if that is all of
-- them, and sleeps with the others if not. The invariant is kept.
pub write_loop_refines :
    (len : ℕ) (p : Pipe) (src : List ℕ)
    → IsValid p
    → (p' : Pipe) × (write_loop (suc (length src)) len p src ≡ stands len (drop (room p) src) p')
      × Written p src p'
write_loop_refines len p src v = write_loop-Written (suc (length src)) len p src v (omega arith)

-- On a pipe that fulfils its invariant `pipewrite` comes to an end: it has appended the first
-- bytes of its source, as many as there is room for, and kept the invariant; it returns the number
-- of all bytes where they fit, and sleeps with the rest otherwise.
pub pipewrite_refines :
    (p : Pipe) (src : List ℕ)
    → IsValid p
    → (p' : Pipe) × (pipewrite p src ≡ stands (length src) (drop (room p) src) p')
      × Written p src p'
unfolding pipewrite
pipewrite_refines p src v = write_loop_refines (length src) p src v
