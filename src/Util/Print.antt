-- ===== src/Util/Print.antt =====
-- kernel/util/printf.c. What `uart_put_syn` is given is a list, first byte first. A format is the list
-- of its bytes before the NUL. A `long` is its bit pattern. `none` is a read behind the seven
-- parameters, a write behind `buf`, or a string with no NUL within the fuel.
use tnix.Common.{
  ℕ, zero, suc, ◌+◌, ◌-◌, ◌/◌, ◌%◌, ◌^◌, List, [], ◌∷◌, ◌++◌, Bool, true, false, ◌||◌, Option, none,
  some, if◌then◌else◌, ◌==◌, leb, ltb, get_or, get_elem?, set, replicate,
}
use tnix.Util.Str.{Memory}
pub mod Digits
pub mod Number
pub mod Format
mod Examples

abbrev pub digits : List ℕ
digits =
    b'0' ∷ b'1' ∷ b'2' ∷ b'3' ∷ b'4' ∷ b'5' ∷ b'6' ∷ b'7' ∷ b'8' ∷ b'9' ∷ b'A' ∷ b'B' ∷ b'C' ∷ b'D'
    ∷ b'E' ∷ b'F' ∷ []

-- `struct var_para`: `a1` to `a7`, and `i`.
pub record VarPara : Type 0 where
  pub args : List ℕ
  pub i : ℕ

unfoldable pub fetch_para : VarPara → Option (ℕ × VarPara)
fetch_para vp = elim (get_elem? vp.args vp.i) [
  | none ↦ none
  | some a ↦ some (a, record vp { i = (vp.i + 1) % 256 })
]

unfoldable pub printstr : ℕ → Memory → ℕ → Option (List ℕ)
printstr zero m ch = none
printstr (suc fuel) m ch = elim (m ch == 0) [
  | true ↦ some []
  | false ↦ elim (printstr fuel m (ch + 1)) [ none ↦ none | some out ↦ some (m ch ∷ out) ]
]

-- `while (num > 0)`, with the digits put into `buf` from `i` on, the lowest first.
unfoldable pub digit_loop : ℕ → ℕ → ℕ → List ℕ → ℕ → Option (List ℕ × ℕ)
digit_loop zero ns num buf i = none
digit_loop (suc fuel) ns num buf i = elim (num == 0) [
  | true ↦ some (buf, i)
  | false ↦ elim (ltb i 21) [
    | true ↦ digit_loop fuel ns (num / ns) (set buf i (get_or digits (num % ns) 0)) (suc i)
    | false ↦ none
  ]
]

-- `while (i--)`
unfoldable pub put_back : List ℕ → ℕ → List ℕ
put_back buf zero = []
put_back buf (suc i) = get_or buf i 0 ∷ put_back buf i

-- The two loops over an empty `buf`. A number of 64 bits has at most 64 digits.
unfoldable pub put_number : ℕ → ℕ → Option (List ℕ)
unfolding digit_loop put_back
put_number ns num = elim (digit_loop 65 ns num (replicate 21 0) 0) [
  | none ↦ none
  | some (buf, i) ↦ some (put_back buf i)
]

unfoldable pub printuint : ℕ → VarPara → Option (List ℕ × VarPara)
unfolding fetch_para
printuint ns vp = elim (fetch_para vp) [
  | none ↦ none
  | some (num, vp') ↦ elim (num == 0) [
    | true ↦ some (b'0' ∷ [], vp')
    | false ↦ elim (put_number ns num) [ none ↦ none | some out ↦ some (out, vp') ]
  ]
]

abbrev pub is_negative : ℕ → Bool
is_negative num = leb (2 ^ 63) num

-- `-num`, which wraps around at the least `long`.
abbrev pub negate : ℕ → ℕ
negate num = (2 ^ 64 - num) % 2 ^ 64

abbrev pub sign : ℕ → List ℕ
sign num = if is_negative num then b'-' ∷ [] else []

-- What `while (num > 0)` sees of a `long`.
abbrev pub positive : ℕ → ℕ
positive num = if is_negative num then 0 else num

unfoldable pub printint : ℕ → VarPara → Option (List ℕ × VarPara)
unfolding fetch_para
printint ns vp = elim (fetch_para vp) [
  | none ↦ none
  | some (num, vp') ↦ elim (num == 0) [
    | true ↦ some (sign num ++ b'0' ∷ [], vp')
    | false ↦ elim (put_number ns (positive (if is_negative num then negate num else num))) [
      | none ↦ none
      | some out ↦ some (sign num ++ out, vp')
    ]
  ]
]

-- The bytes that follow a `%` in a conversion.
abbrev pub is_conversion : ℕ → Bool
is_conversion c = c == b'd' || c == b'u' || c == b'x' || c == b's'

unfoldable pub convert : ℕ → Memory → ℕ → VarPara → Option (List ℕ × VarPara)
unfolding printint printuint fetch_para printstr
convert fuel m c vp =
    if c == b'd'
    then printint 10 vp
    else if c == b'u'
    then printuint 10 vp
    else if c == b'x'
    then elim (printuint 16 vp) [ none ↦ none | some (out, vp') ↦ some (b'0' ∷ b'x' ∷ out, vp') ]
    else elim (fetch_para vp) [
      | none ↦ none
      | some (ch, vp') ↦ elim (printstr fuel m ch) [ none ↦ none | some out ↦ some (out, vp') ]
    ]

-- A byte of the format that is put as it is, and the rest of the output.
abbrev pub then_put : List ℕ → Option (List ℕ × VarPara) → Option (List ℕ × VarPara)
then_put out none = none
then_put out (some (more, vp)) = some (out ++ more, vp)

-- The loop of `print` and of `panic`.
unfoldable pub format : ℕ → Memory → List ℕ → VarPara → Option (List ℕ × VarPara)
unfolding convert
format fuel m [] vp = some ([], vp)
format fuel m (c ∷ []) vp = some (c ∷ [], vp)
format fuel m (c ∷ d ∷ rest) vp =
    let plain = then_put (c ∷ []) (format fuel m (d ∷ rest) vp) in
    let converted : Option (List ℕ × VarPara) = elim (convert fuel m d vp) [
      | none ↦ none
      | some (out, vp') ↦ then_put out (format fuel m rest vp')
    ] in
    if c == b'%' then (if is_conversion d then converted else plain) else plain

unfoldable pub print : ℕ → Memory → List ℕ → List ℕ → Option (List ℕ)
unfolding format
print fuel m fmt args = elim (format fuel m fmt (record { args = args; i = 0 })) [
  | none ↦ none
  | some (out, _) ↦ some out
]

-- What `panic` puts before it stops.
unfoldable pub panic : ℕ → Memory → List ℕ → List ℕ → Option (List ℕ)
unfolding format
panic fuel m fmt args = elim (format fuel m fmt (record { args = args; i = 0 })) [
  | none ↦ none
  | some (out, _) ↦
      some (10 ∷ 10 ∷ b'p' ∷ b'a' ∷ b'n' ∷ b'i' ∷ b'c' ∷ b':' ∷ b' ' ∷ (out ++ 10 ∷ []))
]
