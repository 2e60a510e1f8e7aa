-- ===== src/Dev/Console/Irq.antt =====
-- What a key does to the console, whole.
use tnix.Common.{
  ℕ, ◌+◌, ◌-◌, ◌≡◌, refl, Bool, true, false, Option, none, some, ◌⊎◌, arith, get_or, set,
  length-set, length-replicate, ◌==◌, Bool-cases, inl, inr, ltb, leb, ◌&&◌, ◌||◌, if◌then◌else◌,
}
use tnix.Dev.Console.{
  Con, uart_put_syn, console_buffer_size, put_plain, backspace, put_tb, try_transfer, ends_escape,
  reset_tb, console_putc, clean_console, do_console_irq,
}
use tnix.Dev.Console.Line.{IsValid}

reset_tb-IsValid : {c : Con} → IsValid c → IsValid (reset_tb c)
unfolding reset_tb
reset_tb-IsValid v = omega (arith, length-replicate {0} {A = ℕ} 8 0)

try_transfer-IsValid : {c : Con} → IsValid c → c.tflag ≡ true → IsValid (try_transfer c)
unfolding try_transfer
try_transfer-IsValid {c} v t = elim (Bool-cases (ends_escape (get_or c.tb (c.i - 1) 0))) [
  | inl e ↦ rw e (reset_tb-IsValid v)
  | inr e ↦ rw e v
]

pub put_plain-IsValid : (ch : ℕ) {c : Con} → IsValid c → IsValid (put_plain ch c)
unfolding put_plain
put_plain-IsValid ch {c} v = ground (arith, length-set c.buf c.w ch)

pub backspace-IsValid : {c : Con} → IsValid c → IsValid (backspace c)
unfolding backspace
backspace-IsValid v = ground arith

-- A run that does not write behind `tb` ends in a valid state.
abbrev pub Keeps : Option Con → Type 0
Keeps none = Unit {0}
Keeps (some d) = IsValid d

put_tb-Keeps :
    (ch : ℕ) (c : Con)
    → IsValid c
    → c.tflag ≡ true
    → (put_tb ch c ≡ none) ⊎ ((d : Con) × (put_tb ch c ≡ some d) × IsValid d × (d.tflag ≡ true))
unfolding put_tb
put_tb-Keeps ch c v t = elim (Bool-cases (ltb c.i 8)) [
  | inl e ↦ rw e (
      inr (
        record c { tb = set c.tb c.i ch; i = c.i + 1 },
        refl,
        ground (arith, length-set c.tb c.i ch),
        t,
      ))
  | inr e ↦ rw e (inl refl)
]

console_putc-Keeps : (ch : ℕ) (c : Con) → IsValid c → Keeps (console_putc ch c)
unfolding console_putc
console_putc-Keeps ch c v = elim (Bool-cases c.tflag) [
  | inl t ↦ simp t (elim (put_tb-Keeps ch c v t) [
    | inl e ↦ rw e tt
    | inr (d, e, vd, td) ↦ rw e (try_transfer-IsValid vd td)
  ])
  | inr t ↦ simp t (elim (Bool-cases (ch == 8)) [
    | inl e ↦ rw e (backspace-IsValid v)
    | inr e ↦ rw e (elim (Bool-cases (ch == 27)) [
      | inl g ↦ rw g (elim (put_tb-Keeps 27 (record c { tflag = true }) (ground arith) refl) [
        | inl o ↦ rw o tt
        | inr (d, o, vd, _) ↦ rw o vd
      ])
      | inr g ↦ rw g (put_plain-IsValid ch v)
    ])
  ])
]

clean_console-IsValid : {c : Con} → IsValid c → IsValid (clean_console c)
unfolding clean_console reset_tb
clean_console-IsValid v = record {
  r_in = omega arith;
  w_in = omega arith;
  storage = length-replicate {A = ℕ} console_buffer_size 0;
  escape = length-replicate {A = ℕ} 8 0;
  i_in = omega arith;
  idle = λ _. refl;
}

-- The log plays no part.
uart_put_syn-IsValid : (ch : ℕ) {c : Con} → IsValid c → IsValid (uart_put_syn ch c)
uart_put_syn-IsValid ch v = omega arith

abbrev pub KeepsIrq : Option (Con × Bool) → Type 0
KeepsIrq none = Unit {0}
KeepsIrq (some (d, _)) = IsValid d

then-KeepsIrq :
    (o : Option Con) (wake : Bool)
    → Keeps o
    → KeepsIrq (elim o [ none ↦ none | some d ↦ some (d, wake) ])
then-KeepsIrq none wake k = tt
then-KeepsIrq (some d) wake k = k

rubout-KeepsIrq :
    (c : Con)
    → IsValid c
    → KeepsIrq (elim (console_putc 8 c) [
      | none ↦ none
      | some d ↦ elim (console_putc 32 d) [
        | none ↦ none
        | some e ↦ elim (console_putc 8 e) [ none ↦ none | some f ↦ some (f, false) ]
      ]
    ])
rubout-KeepsIrq c v = first (console_putc 8 c) (console_putc-Keeps 8 c v)
  where
    second :
        (o : Option Con)
        → Keeps o
        → KeepsIrq (elim o [
          | none ↦ none
          | some e ↦ elim (console_putc 8 e) [ none ↦ none | some f ↦ some (f, false) ]
        ])
    second none k = tt
    second (some e) k = then-KeepsIrq (console_putc 8 e) false (console_putc-Keeps 8 e k)

    first :
        (o : Option Con)
        → Keeps o
        → KeepsIrq (elim o [
          | none ↦ none
          | some d ↦ elim (console_putc 32 d) [
            | none ↦ none
            | some e ↦ elim (console_putc 8 e) [ none ↦ none | some f ↦ some (f, false) ]
          ]
        ])
    first none k = tt
    first (some d) k = second (console_putc 32 d) (console_putc-Keeps 32 d k)

if-KeepsIrq :
    (b : Bool) (x y : Option (Con × Bool)) → KeepsIrq x → KeepsIrq y → KeepsIrq (if b then x else y)
if-KeepsIrq true x y p q = p
if-KeepsIrq false x y p q = q

-- A key that is handled without a write behind `tb` leaves a console that fulfils its invariant in
-- a state that does.
pub do_console_irq-IsValid : (ch : ℕ) (c : Con) → IsValid c → KeepsIrq (do_console_irq ch c)
unfolding do_console_irq
do_console_irq-IsValid ch c v =
    if-KeepsIrq (ch == 27) _ _ (then-KeepsIrq (console_putc 27 c) false (console_putc-Keeps 27 c v))
      (if-KeepsIrq (ch == 127) _ _ (rubout-KeepsIrq c v) (
        if-KeepsIrq (ch == 13 || ch == 10) _ _
          (then-KeepsIrq (console_putc 10 c) true (console_putc-Keeps 10 c v))
          (if-KeepsIrq (leb 32 ch && leb ch 126) _ _
            (then-KeepsIrq (console_putc ch c) false (console_putc-Keeps ch c v))
            (if-KeepsIrq (ch == 14) _ _
              (uart_put_syn-IsValid b'>' (uart_put_syn-IsValid b'$' (clean_console-IsValid v)))
              (if-KeepsIrq (ch == 4) _ _
                (then-KeepsIrq (console_putc 4 c) true (console_putc-Keeps 4 c v)) v)))))
