-- ===== src/Dev/Console/Keys.antt =====
-- The keys that edit the line, and runs of keys in an escape sequence.
use tnix.Common.{
  ℕ, ◌+◌, ◌-◌, ◌%◌, ◌≤◌, ◌<◌, ◌≡◌, ◌≢◌, refl, ap, ◌∙◌, List, [], ◌∷◌, ◌++◌, Bool, true, false,
  Option, none, some, arith, length, get_or, set, length-set, tabulate, tabulate-ext, get_or-set_ne,
  ◌==◌, Bool-cases, inl, inr, ==→eq, not_==→ne, get_or-set_self, eq→==, ne→not_==, lt→ltb, ltb→lt,
  not_ltb→le, le→not_ltb, le→leb, ltb,
}
use tnix.Dev.Console.{
  Con, console_buffer_size, console_readable_len, console_isfull, put_plain, backspace, last_char,
  put_tb, try_transfer, ends_escape, console_putc, do_console_irq,
}
use tnix.Dev.Console.Line.{IsValid, byte_at, line, line-backspace}
use tnix.Dev.Console.Irq.{backspace-IsValid}

abbrev pushed : ℕ → Con → Con
pushed ch c = record c {
  buf = set c.buf c.w ch;
  w = (c.w + 1) % console_buffer_size;
  out = c.out ++ ch ∷ [];
}

abbrev popped : Con → Con
popped c = record c {
  w = (c.w + console_buffer_size - 1) % console_buffer_size;
  out = c.out ++ 8 ∷ [];
}

put_plain-eq_pushed : (ch : ℕ) (c : Con) → console_isfull c ≡ false → put_plain ch c ≡ pushed ch c
unfolding put_plain
put_plain-eq_pushed ch c e = rw e

backspace-eq_popped : (c : Con) → last_char c ≢ 10 → c.w ≢ c.r → backspace c ≡ popped c
unfolding backspace
backspace-eq_popped c e f = rw (ne→not_== (last_char c) 10 e, ne→not_== c.w c.r f)

last_char-zero : (c : Con) → c.w ≡ 0 → last_char c ≡ 0
unfolding last_char
last_char-zero c e = rw (eq→== c.w 0 e) (omega arith)

last_char-pushed : (ch : ℕ) {c : Con} → IsValid c → ch ≢ 10 → last_char (pushed ch c) ≢ 10
unfolding last_char
last_char-pushed ch {c} v plain =
    ground
      (arith, get_or-set_self c.buf c.w ch 0, get_or-set_ne c.buf c.w ((c.w + 1) % 128 - 1) ch 0)

line-popped-pushed :
    (ch : ℕ) {c : Con} → IsValid c → console_isfull c ≡ false → line (popped (pushed ch c)) ≡ line c
line-popped-pushed ch {c} v room =
    ap (λ n. tabulate n (byte_at (pushed ch c))) same_length
    ∙ tabulate-ext (console_readable_len c) (byte_at (pushed ch c)) (byte_at c)
        (λ k h. get_or-set_ne c.buf c.w ((c.r + k) % console_buffer_size) ch 0 (omega arith))
  where
    same_length : console_readable_len (popped (pushed ch c)) ≡ console_readable_len c
    same_length = omega arith

-- A character that is not a line end, put and taken off again, leaves the line as it was.
backspace-put_plain :
    (ch : ℕ) {c : Con}
    → IsValid c
    → ch ≢ 10
    → console_isfull c ≡ false
    → line (backspace (put_plain ch c)) ≡ line c
backspace-put_plain ch {c} v plain room =
    ap line (
      ap backspace (put_plain-eq_pushed ch c room)
      ∙ backspace-eq_popped (pushed ch c) (last_char-pushed ch v plain)
          (omega (arith, not_==→ne ((c.w + 1) % console_buffer_size) c.r room)))
    ∙ line-popped-pushed ch v room

-- Where there is no room behind a backspace, the backspace took nothing, and one more takes nothing.
backspace-full :
    {c : Con}
    → IsValid c
    → console_isfull (backspace c) ≡ true
    → line (backspace (backspace c)) ≡ line (backspace c)
unfolding backspace
backspace-full {c} v full = elim (Bool-cases (last_char c == 10)) [
  | inl e ↦
      let stuck : backspace c ≡ c = backspace-eq (==→eq (last_char c) 10 e) in
      ap (λ t. line (backspace t)) stuck
  | inr e ↦ elim (Bool-cases (c.w == c.r)) [
    | inl f ↦ absurd (
        cc (
          ne→not_== ((c.w + 1) % console_buffer_size) c.r (omega (arith, ==→eq c.w c.r f)),
          ap console_isfull (backspace-eq_empty f),
        ))
    | inr f ↦ absurd (
        cc (
          ne→not_==
            (((c.w + console_buffer_size - 1) % console_buffer_size + 1) % console_buffer_size) c.r
            (omega (arith, not_==→ne c.w c.r f))))
  ]
]
  where
    backspace-eq : last_char c ≡ 10 → backspace c ≡ c
    backspace-eq e = rw (backspace, eq→== (last_char c) 10 e)

    backspace-eq_empty : (c.w == c.r) ≡ true → backspace c ≡ c
    backspace-eq_empty f = ground arith

-- Backspacing over a blank that was just put, or for which there was no room.
put_plain-full : (ch : ℕ) (c : Con) → console_isfull c ≡ true → put_plain ch c ≡ c
unfolding put_plain
put_plain-full ch c full = rw full

blank_and_back :
    (c : Con) → IsValid c → line (backspace (put_plain 32 (backspace c))) ≡ line (backspace c)
blank_and_back c v = elim (Bool-cases (console_isfull (backspace c))) [
  | inl full ↦
      ap (λ t. line (backspace t)) (put_plain-full 32 (backspace c) full) ∙ backspace-full v full
  | inr room ↦ backspace-put_plain 32 (backspace-IsValid v) (omega arith) room
]

module _ (c : Con) (typing : c.tflag ≡ false) where
  putc-backspace : console_putc 8 c ≡ some (backspace c)
  unfolding console_putc
  putc-backspace = simp typing

  putc-plain : (ch : ℕ) → ch ≢ 8 → ch ≢ 27 → console_putc ch c ≡ some (put_plain ch c)
  unfolding console_putc
  putc-plain ch a b = simp (typing, ne→not_== ch 8 a, ne→not_== ch 27 b)

tflag-backspace : (c : Con) → (backspace c).tflag ≡ c.tflag
unfolding backspace
tflag-backspace c = ground arith

tflag-put_plain : (ch : ℕ) (c : Con) → (put_plain ch c).tflag ≡ c.tflag
unfolding put_plain
tflag-put_plain ch c = ground arith

-- In a console that fulfils its invariant and is not in an escape sequence, the rubout key (127),
-- which puts a backspace, a blank and a backspace, is handled without a write behind `tb`, wakes
-- nobody, and changes the line as the first backspace alone does.
pub rubout-eq_backspace :
    (c : Con)
    → IsValid c
    → c.tflag ≡ false
    → (d : Con) × (do_console_irq 127 c ≡ some (d, false)) × (line d ≡ line (backspace c))
unfolding do_console_irq
rubout-eq_backspace c v typing = (backspace (put_plain 32 (backspace c)), runs, blank_and_back c v)
  where
    typing₁ : (backspace c).tflag ≡ false
    typing₁ = tflag-backspace c ∙ typing

    typing₂ : (put_plain 32 (backspace c)).tflag ≡ false
    typing₂ = tflag-put_plain 32 (backspace c) ∙ typing₁

    runs : do_console_irq 127 c ≡ some (backspace (put_plain 32 (backspace c)), false)
    runs = simp (
      putc-backspace c typing,
      putc-plain (backspace c) typing₁ 32 (omega arith) (omega arith),
      putc-backspace (put_plain 32 (backspace c)) typing₂,
    )

-- Keys one after the other.
pub run_keys : List ℕ → Con → Option Con
run_keys [] c = some c
run_keys (k ∷ ks) c = elim (do_console_irq k c) [ none ↦ none | some (d, _) ↦ run_keys ks d ]

-- Printable keys that do not end an escape sequence.
abbrev pub Unending : List ℕ → Type 0
Unending [] = Unit {0}
Unending (k ∷ ks) = (32 ≤ k) × (k ≤ 126) × (ends_escape k ≡ false) × Unending ks

irq-printable :
    (k : ℕ) (c : Con)
    → 32 ≤ k
    → k ≤ 126
    → do_console_irq k c ≡ elim (console_putc k c) [ none ↦ none | some d ↦ some (d, false) ]
unfolding do_console_irq
irq-printable k c lo hi = simp (
  ne→not_== k 27 (omega arith),
  ne→not_== k 127 (omega arith),
  ne→not_== k 13 (omega arith),
  ne→not_== k 10 (omega arith),
  le→leb 32 k lo,
  le→leb k 126 hi,
)

put_tb-room :
    (k : ℕ) (c : Con) → c.i < 8 → put_tb k c ≡ some (record c { tb = set c.tb c.i k; i = c.i + 1 })
unfolding put_tb
put_tb-room k c h = rw (lt→ltb c.i 8 h)

put_tb-full : (k : ℕ) (c : Con) → 8 ≤ c.i → put_tb k c ≡ none
unfolding put_tb
put_tb-full k c h = rw (le→not_ltb c.i 8 h)

try_transfer-unended :
    (c : Con) → ends_escape (get_or c.tb (c.i - 1) 0) ≡ false → try_transfer c ≡ c
unfolding try_transfer
try_transfer-unended c e = rw e

-- A byte that does not end the sequence is kept in `tb`.
putc-escape :
    (k : ℕ) {c : Con}
    → IsValid c
    → c.tflag ≡ true
    → ends_escape k ≡ false
    → c.i < 8
    → console_putc k c ≡ some (record c { tb = set c.tb c.i k; i = c.i + 1 })
unfolding console_putc
putc-escape k {c} v t e h =
    simp (t, put_tb-room k c h)
      (ap some (
        try_transfer-unended (record c { tb = set c.tb c.i k; tflag = true; i = c.i + 1 })
          (ap ends_escape kept ∙ e)))
  where
    kept : get_or (set c.tb c.i k) (c.i + 1 - 1) 0 ≡ k
    kept =
        ap (λ t. get_or (set c.tb c.i k) t 0) (omega arith)
        ∙ get_or-set_self c.tb c.i k 0 (omega (arith, v.escape))

putc-escape_full : (k : ℕ) (c : Con) → c.tflag ≡ true → 8 ≤ c.i → console_putc k c ≡ none
unfolding console_putc
putc-escape_full k c t h = simp (t, put_tb-full k c h)

run_keys-none :
    (k : ℕ) (ks : List ℕ) (c : Con) → do_console_irq k c ≡ none → run_keys (k ∷ ks) c ≡ none
unfolding run_keys
run_keys-none k ks c e = rw (e, run_keys)

run_keys-some :
    (k : ℕ) (ks : List ℕ) (c d : Con) (b : Bool)
    → do_console_irq k c ≡ some (d, b)
    → run_keys (k ∷ ks) c ≡ run_keys ks d
unfolding run_keys
run_keys-some k ks c d b e = rw (e, run_keys)

run_keys-overrun :
    (ks : List ℕ) (c : Con)
    → IsValid c
    → c.tflag ≡ true
    → Unending ks
    → 8 < c.i + length ks
    → run_keys ks c ≡ none
run_keys-overrun [] c v t u h = absurd (omega arith)
run_keys-overrun (k ∷ ks) c v t (lo, hi, e, u) h = elim (Bool-cases (ltb c.i 8)) [
  | inl room ↦
      run_keys-some k ks c (kept_byte room) false
        (irq-printable k c lo hi ∙ simp (putc-escape k v t e (ltb→lt c.i 8 room)))
      ∙ run_keys-overrun ks (kept_byte room) (ground (arith, length-set c.tb c.i k)) t u
          (omega arith)
  | inr full ↦
      run_keys-none k ks c
        (irq-printable k c lo hi ∙ simp (putc-escape_full k c t (not_ltb→le c.i 8 full)))
]
  where
    kept_byte : ltb c.i 8 ≡ true → Con
    kept_byte room = record c { tb = set c.tb c.i k; i = c.i + 1 }

-- The escape key opens a sequence.
irq-escape :
    (c : Con)
    → IsValid c
    → c.tflag ≡ false
    → do_console_irq 27 c
      ≡ some (record c { tflag = true; tb = set c.tb c.i 27; i = c.i + 1 }, false)
unfolding do_console_irq console_putc
irq-escape c v t = simp (t, put_tb-room 27 (record c { tflag = true }) (omega (arith, v.idle t)))

-- In a console that fulfils its invariant and is not in an escape sequence, the escape key and
-- then eight or more printable keys that do not end the sequence make the code write behind the
-- eight bytes of `tb`.
pub escape_overrun :
    (ks : List ℕ) (c : Con)
    → IsValid c
    → c.tflag ≡ false
    → Unending ks
    → 8 ≤ length ks
    → run_keys (27 ∷ ks) c ≡ none
escape_overrun ks c v t u h =
    run_keys-some 27 ks c opened false (irq-escape c v t)
    ∙ run_keys-overrun ks opened (ground (arith, length-set c.tb c.i 27, v.idle t)) refl u
        (omega arith)
  where
    opened : Con
    opened = record c { tflag = true; tb = set c.tb c.i 27; i = c.i + 1 }

-- In a console that fulfils its invariant, with the write index at the start of the array, waiting
-- bytes and a line end as the last of them, a backspace takes that line end back.
pub backspace_newline :
    (c : Con)
    → IsValid c
    → c.w ≡ 0
    → c.r ≢ 0
    → get_or c.buf 127 0 ≡ 10
    → line c ≡ line (backspace c) ++ 10 ∷ []
backspace_newline c v w r e =
    line-backspace v (omega arith) not_seen
    ∙ ap (λ x. line (backspace c) ++ x ∷ []) (ap (λ k. get_or c.buf k 0) (omega arith) ∙ e)
  where
    not_seen : last_char c ≢ 10
    not_seen = ground (arith, last_char-zero c w)
