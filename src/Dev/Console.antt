-- ===== src/Dev/Console.antt =====
-- kernel/dev/console.c. What goes to the serial line is a log, oldest byte first. The spin lock is
-- held throughout, so each function runs undisturbed. `dump_all_task` and the message of a full
-- buffer are only printed, and are not in the log.
use tnix.Common.{
  ℕ, zero, suc, ◌+◌, ◌-◌, ◌%◌, ◌/◌, ◌^◌, min, List, [], ◌∷◌, ◌++◌, Option, none, some, Bool, true,
  false, ◌&&◌, ◌||◌, not, if◌then◌else◌, ◌==◌, ltb, leb, get_or, set, slice, replicate, sub32,
}
pub mod Line
pub mod Irq
pub mod Keys
pub mod Read
mod Examples

abbrev pub console_buffer_size : ℕ
console_buffer_size = 128

pub record Con : Type 0 where
  pub r : ℕ
  pub w : ℕ
  pub buf : List ℕ
  pub tb : List ℕ
  pub tflag : Bool
  pub i : ℕ
  pub out : List ℕ

abbrev pub console_readable_len : Con → ℕ
console_readable_len c = (c.w + console_buffer_size - c.r) % console_buffer_size

abbrev pub console_isfull : Con → Bool
console_isfull c = (c.w + 1) % console_buffer_size == c.r

abbrev pub console_isempty : Con → Bool
console_isempty c = c.w == c.r

abbrev pub uart_put_syn : ℕ → Con → Con
uart_put_syn ch c = record c { out = c.out ++ ch ∷ [] }

unfoldable pub reset_tb : Con → Con
reset_tb c = record c { tb = replicate 8 0; tflag = false; i = 0 }

unfoldable pub clean_console : Con → Con
unfolding reset_tb
clean_console c =
    uart_put_syn b'c' (
      uart_put_syn 27 (record (reset_tb c) { r = 0; w = 0; buf = replicate console_buffer_size 0 }))

is_letter : ℕ → Bool
is_letter x = leb b'a' x && leb x b'z' || leb b'A' x && leb x b'Z'

-- The bytes that end an escape sequence: `~`, the bell, a backslash and the letters but `O`.
unfoldable pub ends_escape : ℕ → Bool
unfolding is_letter
ends_escape x = not (x == b'O') && (x == b'~' || x == 7 || x == 92 || is_letter x)

-- `try_transfer` right behind `con.tb[con.i++] = ch`: it looks at that byte.
unfoldable pub try_transfer : Con → Con
unfolding ends_escape reset_tb
try_transfer c = if ends_escape (get_or c.tb (c.i - 1) 0) then reset_tb c else c

-- `con.buf[con.w - 1]`. At `con.w == 0` the code reads the byte before `buf`, which is the highest
-- byte of the `int` `con.w`.
unfoldable pub last_char : Con → ℕ
last_char c = if c.w == 0 then c.w / 2 ^ 24 else get_or c.buf (c.w - 1) 0

-- `none` is a write behind the end of `tb`.
unfoldable pub put_tb : ℕ → Con → Option Con
put_tb ch c = if ltb c.i 8 then some (record c { tb = set c.tb c.i ch; i = c.i + 1 }) else none

unfoldable pub backspace : Con → Con
unfolding last_char
backspace c =
    if not (last_char c == 10) && not (c.w == c.r)
    then uart_put_syn 8 (record c { w = (c.w + console_buffer_size - 1) % console_buffer_size })
    else c

unfoldable pub put_plain : ℕ → Con → Con
put_plain ch c =
    if console_isfull c
    then c
    else uart_put_syn ch (record c { buf = set c.buf c.w ch; w = (c.w + 1) % console_buffer_size })

unfoldable pub console_putc : ℕ → Con → Option Con
console_putc ch c =
    if not c.tflag
    then (if ch == 8
        then some (backspace c)
        else if ch == 27
        then put_tb 27 (record c { tflag = true })
        else some (put_plain ch c))
    else elim (put_tb ch c) [ none ↦ none | some c' ↦ some (try_transfer c') ]

-- An interrupt's key, with whether the sleepers on `&con.r` are woken.
pub do_console_irq : ℕ → Con → Option (Con × Bool)
do_console_irq ch c =
    if ch == 27
    then elim (console_putc 27 c) [ none ↦ none | some d ↦ some (d, false) ]
    else if ch == 127
    then elim (console_putc 8 c) [
      | none ↦ none
      | some d ↦ elim (console_putc 32 d) [
        | none ↦ none
        | some e ↦ elim (console_putc 8 e) [ none ↦ none | some f ↦ some (f, false) ]
      ]
    ]
    else if ch == 13 || ch == 10
    then elim (console_putc 10 c) [ none ↦ none | some d ↦ some (d, true) ]
    else if leb 32 ch && leb ch 126
    then elim (console_putc ch c) [ none ↦ none | some d ↦ some (d, false) ]
    else if ch == 14
    then some (uart_put_syn b'>' (uart_put_syn b'$' (clean_console c)), false)
    else if ch == 4
    then elim (console_putc 4 c) [ none ↦ none | some d ↦ some (d, true) ]
    else some (c, false)

-- One `copy_to_user`: where in the user's buffer, from where in `con.buf`, how many bytes.
pub record Copy : Type 0 where
  pub dst : ℕ
  pub src : ℕ
  pub count : ℕ

-- A reader sleeps on `&con.r`, or copies and returns.
pub data Reading : Type 0 where
  sleeps : Reading
  returns : ℕ → List Copy → Con → Reading

-- `lslice2 = len - lslice1` is a `u32`.
pub console_copies : Con → ℕ → List Copy
console_copies c len =
    let lslice1 = console_buffer_size - c.r in
    let lslice2 = sub32 len lslice1 in
    if ltb c.r c.w
    then record { dst = 0; src = c.r; count = len } ∷ []
    else record { dst = 0; src = c.r; count = lslice1 }
      ∷ record { dst = lslice1; src = 0; count = lslice2 }
      ∷ []

pub console_read : Con → ℕ → Reading
unfolding console_copies
console_read c len =
    let n = min len (console_readable_len c) in
    if console_isempty c
    then Reading.sleeps
    else Reading.returns n (console_copies c n) (record c { r = (c.r + n) % console_buffer_size })
