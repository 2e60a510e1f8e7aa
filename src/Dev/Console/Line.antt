-- ===== src/Dev/Console/Line.antt =====
-- The bytes of the console that wait for a reader, and what a key does to them.
use tnix.Common.{
  ℕ, ◌+◌, ◌-◌, ◌%◌, ◌≤◌, ◌<◌, ◌≡◌, ◌≢◌, ap, ap₂, ◌∙◌, List, [], ◌∷◌, ◌++◌, false, arith, length,
  get_or, set, get_or-set_self, get_or-set_ne, tabulate, tabulate-ext, tabulate-add, not_==→ne,
  ne→not_==,
}
use tnix.Dev.Console.{
  Con, console_buffer_size, console_readable_len, console_isfull, put_plain, backspace, last_char,
}

pub record IsValid (c : Con) : Type 0 where
  pub r_in : c.r < console_buffer_size
  pub w_in : c.w < console_buffer_size
  pub storage : length c.buf ≡ console_buffer_size
  pub escape : length c.tb ≡ 8
  pub i_in : c.i ≤ 8
  pub idle : c.tflag ≡ false → c.i ≡ 0

abbrev pub byte_at : Con → ℕ → ℕ
byte_at c k = get_or c.buf ((c.r + k) % console_buffer_size) 0

-- What a reader can get, oldest first.
abbrev pub line : Con → List ℕ
line c = tabulate (console_readable_len c) (byte_at c)

-- In a console that fulfils its invariant and has room, a plain character goes to the end of the
-- line.
pub line-put_plain :
    (ch : ℕ) {c : Con}
    → IsValid c
    → console_isfull c ≡ false
    → line (put_plain ch c) ≡ line c ++ ch ∷ []
unfolding put_plain
line-put_plain ch {c} v room = rw room (
    tabulate-add (console_readable_len c) 1 (console_readable_len d) (byte_at d)
      (omega (arith, not_==→ne ((c.w + 1) % console_buffer_size) c.r room))
    ∙ ap₂ ◌++◌
        (tabulate-ext (console_readable_len c) (byte_at d) (byte_at c)
          (λ k h. get_or-set_ne c.buf c.w ((c.r + k) % console_buffer_size) ch 0 (omega arith)))
        (ap (λ x. x ∷ [])
          (ap (λ k. get_or (set c.buf c.w ch) k 0) (omega arith)
            ∙ get_or-set_self c.buf c.w ch 0 (omega (arith, v.storage)))))
  where
    d : Con
    d = record c {
      buf = set c.buf c.w ch;
      w = (c.w + 1) % console_buffer_size;
      out = c.out ++ ch ∷ [];
    }

-- A backspace takes the last character off a line that does not end a line of input.
pub line-backspace :
    {c : Con}
    → IsValid c
    → c.w ≢ c.r
    → last_char c ≢ 10
    → line c
      ≡ line (backspace c)
        ++ get_or c.buf ((c.w + console_buffer_size - 1) % console_buffer_size) 0 ∷ []
unfolding backspace
line-backspace {c} v some_left plain =
    rw (ne→not_== (last_char c) 10 plain, ne→not_== c.w c.r some_left)
      (tabulate-add (console_readable_len d) 1 (console_readable_len c) (byte_at c) (omega arith)
        ∙ ap (λ x. tabulate (console_readable_len d) (byte_at c) ++ x ∷ [])
            (ap (λ k. get_or c.buf k 0) (omega arith)))
  where
    d : Con
    d = record c {
      w = (c.w + console_buffer_size - 1) % console_buffer_size;
      out = c.out ++ 8 ∷ [];
    }
