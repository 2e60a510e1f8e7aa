-- ===== src/Dev/Console/Read.antt =====
-- What `console_read` copies.
use tnix.Common.{
  if◌then◌else◌, zero, suc, leb, le→leb, ◌&&◌, ℕ, ◌+◌, ◌-◌, ◌%◌, ◌≤◌, ◌<◌, ◌≡◌, ◌≢◌, refl, ap, ◌∙◌,
  sym, List, [], ◌∷◌, ◌++◌, arith, min, length, get_or, take, drop, tabulate, tabulate-ext,
  tabulate-add, length-tabulate, split_at, ltb, lt→ltb, le→not_ltb, ne→not_==, u32_mod, sub32,
  Bool-cases, inl, inr, ltb→lt, not_ltb→le,
}
use tnix.Dev.Console.{
  Con, console_buffer_size, console_readable_len, Copy, console_copies, console_read, Reading,
}
use tnix.Dev.Console.Line.{IsValid, byte_at, line}

-- A copy of the reader's: `u` has the bytes of user memory by their distance from the address of the call.
abbrev pub put_copy : List ℕ → Copy → (ℕ → ℕ) → ℕ → ℕ
put_copy buf k u a =
    if leb k.dst a && ltb a (k.dst + k.count) then get_or buf (k.src + (a - k.dst)) 0 else u a

-- User memory behind the copies, one after the other.
abbrev pub copied : List ℕ → List Copy → (ℕ → ℕ) → ℕ → ℕ
copied buf [] u a = u a
copied buf (k ∷ ks) u a = copied buf ks (put_copy buf k u) a

put_copy-in :
    (buf : List ℕ) (k : Copy) (u : ℕ → ℕ) (a : ℕ)
    → k.dst ≤ a
    → a < k.dst + k.count
    → put_copy buf k u a ≡ get_or buf (k.src + (a - k.dst)) 0
put_copy-in buf k u a h l = rw (le→leb k.dst a h, lt→ltb a (k.dst + k.count) l) refl

put_copy-below :
    (buf : List ℕ) (k : Copy) (u : ℕ → ℕ) (a : ℕ) → a < k.dst → put_copy buf k u a ≡ u a
put_copy-below buf k u a h = ground arith

put_copy-above :
    (buf : List ℕ) (k : Copy) (u : ℕ → ℕ) (a : ℕ) → k.dst + k.count ≤ a → put_copy buf k u a ≡ u a
put_copy-above buf k u a h = ground arith

-- The oldest `n` bytes stand from the address on, and the rest of user memory is as it was.
abbrev Filled : Con → ℕ → Type 0
Filled c n =
    (u : ℕ → ℕ) (a : ℕ)
    → copied c.buf (console_copies c n) u a ≡ (if ltb a n then byte_at c a else u a)

-- In one piece.
straight-Filled :
    (c : Con) (n : ℕ) → IsValid c → c.r < c.w → n ≤ console_readable_len c → Filled c n
unfolding console_copies
straight-Filled c n v h le u a =
    let k : Copy = record { dst = 0; src = c.r; count = n } in
    rw (lt→ltb c.r c.w h) (elim (Bool-cases (ltb a n)) [
      | inl e ↦ rw e (
          put_copy-in c.buf k u a (omega arith) (omega (arith, ltb→lt a n e))
          ∙ ap (λ t. get_or c.buf t 0) (omega (arith, ltb→lt a n e, v.w_in)))
      | inr e ↦ rw e (put_copy-above c.buf k u a (omega (arith, not_ltb→le a n e)))
    ])

-- Round the end of the buffer, where the reader takes at least what lies before the end.
wrapped-Filled :
    (c : Con) (n : ℕ)
    → IsValid c
    → c.w < c.r
    → console_buffer_size - c.r ≤ n
    → n ≤ console_readable_len c
    → Filled c n
unfolding console_copies
wrapped-Filled c n v h ge le u a =
    let m : ℕ = console_buffer_size - c.r in
    let k : Copy = record { dst = 0; src = c.r; count = m } in
    let l : Copy = record { dst = m; src = 0; count = sub32 n m } in
    let u' : ℕ → ℕ = put_copy c.buf k u in
    rw (le→not_ltb c.r c.w (omega arith)) (elim (Bool-cases (ltb a n)) [
      | inr e ↦ rw e (
          put_copy-above c.buf l u' a (omega (arith, not_ltb→le a n e, v.r_in))
          ∙ put_copy-above c.buf k u a (omega (arith, not_ltb→le a n e)))
      | inl e ↦ elim (Bool-cases (ltb a m)) [
        | inl f ↦ rw e (
            put_copy-below c.buf l u' a (ltb→lt a m f)
            ∙ put_copy-in c.buf k u a (omega arith) (omega (arith, ltb→lt a m f))
            ∙ ap (λ t. get_or c.buf t 0) (omega (arith, ltb→lt a m f, v.r_in)))
        | inr f ↦ rw e (
            put_copy-in c.buf l u' a (not_ltb→le a m f) (omega (arith, ltb→lt a n e, v.r_in))
            ∙ ap (λ t. get_or c.buf t 0) (omega (arith, not_ltb→le a m f, ltb→lt a n e, v.r_in)))
      ]
    ])

get_or-tabulate :
    (n : ℕ) (f : ℕ → ℕ) (a d : ℕ) → get_or (tabulate n f) a d ≡ (if ltb a n then f a else d)
get_or-tabulate zero f a d = ground arith
get_or-tabulate (suc n) f zero d = ground arith
get_or-tabulate (suc n) f (suc a) d = get_or-tabulate n (λ i. f (suc i)) a d ∙ ground arith

-- The condition under which a read is right: the bytes lie in one piece, or the caller takes at
-- least those before the end of the buffer.
abbrev pub Fits : Con → ℕ → Type 0
Fits c n = c.w < c.r → console_buffer_size - c.r ≤ n

-- In a console that fulfils its invariant and is not empty, with `n` the smaller of `len` and the
-- number of waiting bytes, and where the waiting bytes go round the end of the buffer `n` no less
-- than those before it: `console_read` returns `n`, its copies, one after the other, put the
-- oldest `n` bytes from the user's address on and leave every other byte of user memory, the
-- others wait on in order, and the invariant is kept.
pub console_read_refines :
    (c : Con) (len : ℕ)
    → IsValid c
    → c.w ≢ c.r
    → Fits c (min len (console_readable_len c))
    → let n = min len (console_readable_len c) in
      (c' : Con) × (console_read c len ≡ Reading.returns n (console_copies c n) c')
      × ((u : ℕ → ℕ) (a : ℕ)
          → copied c.buf (console_copies c n) u a ≡ get_or (take len (line c)) a (u a))
      × (line c' ≡ drop len (line c))
      × IsValid c'
unfolding console_read
console_read_refines c len v ne fits =
    rw (ne→not_== c.w c.r ne) (d, refl, bytes, sym halves.1, omega arith)
  where
    n : ℕ
    n = min len (console_readable_len c)

    d : Con
    d = record c { r = (c.r + n) % console_buffer_size }

    rest : line c ≡ tabulate n (byte_at c) ++ line d
    rest =
        tabulate-add n (console_readable_len d) (console_readable_len c) (byte_at c) (omega arith)
        ∙ ap (λ t. tabulate n (byte_at c) ++ t)
            (tabulate-ext (console_readable_len d) (λ i. byte_at c (n + i)) (byte_at d)
              (λ i q. ap (λ t. get_or c.buf t 0) (omega arith)))

    halves : (take len (line c) ≡ tabulate n (byte_at c)) × (drop len (line c) ≡ line d)
    halves = rw rest (
        split_at len (tabulate n (byte_at c)) (line d) (
          omega (
            arith,
            length-tabulate n (byte_at c),
            length-tabulate (console_readable_len c) (byte_at c),
            ap length rest,
          )))

    filled : Filled c n
    filled = elim (Bool-cases (ltb c.r c.w)) [
      | inl e ↦ straight-Filled c n v (ltb→lt c.r c.w e) (omega arith)
      | inr e ↦
          let below : c.w < c.r = omega (arith, not_ltb→le c.r c.w e) in
          wrapped-Filled c n v below (fits below) (omega arith)
    ]

    bytes :
        (u : ℕ → ℕ) (a : ℕ)
        → copied c.buf (console_copies c n) u a ≡ get_or (take len (line c)) a (u a)
    bytes u a =
        filled u a
        ∙ sym (get_or-tabulate n (byte_at c) a (u a))
        ∙ ap (λ l. get_or l a (u a)) (sym halves.0)

-- In a console that fulfils its invariant, whose waiting bytes go round the end of the buffer, and
-- of a reader that asks for fewer than lie before the end: the first copy is longer than the count
-- returned, and the second one's count is `2 ^ 32` less the difference.
pub console_read_overruns :
    (c : Con) (len : ℕ)
    → IsValid c
    → c.w < c.r
    → len < console_buffer_size - c.r
    → (c' : Con) × (console_read c len
        ≡ Reading.returns len
            (record { dst = 0; src = c.r; count = console_buffer_size - c.r }
              ∷ record {
                dst = console_buffer_size - c.r;
                src = 0;
                count = u32_mod - (console_buffer_size - c.r - len);
              }
              ∷ [])
            c')
unfolding console_read console_copies
console_read_overruns c len v wraps short =
    rw (ne→not_== c.w c.r (omega arith), le→not_ltb c.r c.w (omega arith))
      (record c { r = (c.r + len) % console_buffer_size }, same n len (omega arith))
  where
    n : ℕ
    n = min len (console_readable_len c)

    same :
        (k l : ℕ)
        → (k ≡ l) × (l < console_buffer_size - c.r)
        → Reading.returns k
            (record { dst = 0; src = c.r; count = console_buffer_size - c.r }
              ∷ record {
                dst = console_buffer_size - c.r;
                src = 0;
                count = sub32 k (console_buffer_size - c.r);
              }
              ∷ [])
            (record c { r = (c.r + k) % console_buffer_size })
          ≡ Reading.returns l
              (record { dst = 0; src = c.r; count = console_buffer_size - c.r }
                ∷ record {
                  dst = console_buffer_size - c.r;
                  src = 0;
                  count = u32_mod - (console_buffer_size - c.r - l);
                }
                ∷ [])
              (record c { r = (c.r + l) % console_buffer_size })
    same k l h = ground arith
