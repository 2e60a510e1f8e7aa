-- ===== src/Util/Print/Format.antt =====
-- `print`: text is put as it is, and a conversion is replaced by its parameter.
use tnix.Common.{
  ℕ, ◌-◌, ◌^◌, ◌<◌, ◌≡◌, ◌≢◌, refl, ap, sym, ◌∙◌, List, [], ◌∷◌, ◌++◌, true, Option, none, some,
  if◌then◌else◌, ne→not_==,
}
use tnix.Util.Str.{Memory}
use tnix.Util.Print.{VarPara, is_conversion, convert, then_put, format, print, sign, is_negative}
use tnix.Util.Print.Digits.{Spells}
use tnix.Util.Print.Number.{printint_lem, ten-Fits}

-- No byte of the text is a `%`.
abbrev pub IsPlain : List ℕ → Type 0
IsPlain [] = Unit {0}
IsPlain (c ∷ cs) = (c ≢ b'%') × IsPlain cs

module _ (fuel : ℕ) (m : Memory) where
  put_nil : (o : Option (List ℕ × VarPara)) → then_put [] o ≡ o
  put_nil none = refl
  put_nil (some (out, vp)) = refl

  put_cons :
      (c : ℕ) (text : List ℕ) (o : Option (List ℕ × VarPara))
      → then_put (c ∷ []) (then_put text o) ≡ then_put (c ∷ text) o
  put_cons c text none = refl
  put_cons c text (some (out, vp)) = refl

  format-plain :
      (c : ℕ) (rest : List ℕ) (vp : VarPara)
      → c ≢ b'%'
      → format fuel m (c ∷ rest) vp ≡ then_put (c ∷ []) (format fuel m rest vp)
  unfolding format
  format-plain c [] vp h = refl
  format-plain c (d ∷ rest) vp h = rw (ne→not_== c b'%' h) refl

  pub format-text :
      (text rest : List ℕ) (vp : VarPara)
      → IsPlain text
      → format fuel m (text ++ rest) vp ≡ then_put text (format fuel m rest vp)
  format-text [] rest vp h = sym (put_nil (format fuel m rest vp))
  format-text (c ∷ text) rest vp h =
      format-plain c (text ++ rest) vp h.0
      ∙ ap (then_put (c ∷ [])) (format-text text rest vp h.1)
      ∙ put_cons c text (format fuel m rest vp)

  pub format-conversion :
      (d : ℕ) (rest out : List ℕ) (vp vp' : VarPara)
      → is_conversion d ≡ true
      → convert fuel m d vp ≡ some (out, vp')
      → format fuel m (b'%' ∷ d ∷ rest) vp ≡ then_put out (format fuel m rest vp')
  unfolding format
  format-conversion d rest out vp vp' h e = rw (h, e) refl

  format-done :
      (text : List ℕ) (vp : VarPara) → IsPlain text → format fuel m text vp ≡ some (text, vp)
  unfolding format
  format-done [] vp h = refl
  format-done (c ∷ text) vp h =
      format-plain c text vp h.0 ∙ ap (then_put (c ∷ [])) (format-done text vp h.1)

  -- The format `text % d tail`.
  print_one :
      (text tail out : List ℕ) (d : ℕ) (args : List ℕ) (vp : VarPara)
      → IsPlain text
      → IsPlain tail
      → is_conversion d ≡ true
      → convert fuel m d (record { args = args; i = 0 }) ≡ some (out, vp)
      → print fuel m (text ++ b'%' ∷ d ∷ tail) args ≡ some (text ++ (out ++ tail))
  unfolding print
  print_one text tail out d args vp p q h e =
      rw
        (
          format-text text (b'%' ∷ d ∷ tail) (record { args = args; i = 0 }) p,
          format-conversion d tail out (record { args = args; i = 0 }) vp h e,
          format-done tail vp q,
          print,
        )
        refl

  -- For a text without `%`, `%d` and another such text, and a number that is neither 0 nor the
  -- least `long`: `print` puts the first text, the sign, the decimal digits of the number, and the
  -- second text.
  pub print-number :
      (text tail : List ℕ) (num : ℕ) (args : List ℕ)
      → IsPlain text
      → IsPlain tail
      → num < 2 ^ 64
      → num ≢ 0
      → num ≢ 2 ^ 63
      → (cs : List ℕ) × (print fuel m (text ++ b'%' ∷ b'd' ∷ tail) (num ∷ args)
          ≡ some (text ++ ((sign num ++ cs) ++ tail)))
        × Spells 10 (if is_negative num then 2 ^ 64 - num else num) cs
  unfolding convert
  print-number text tail num args p q h ne least =
      let vp : VarPara = record { args = num ∷ args; i = 0 } in
      let (cs, run, sp, _) = printint_lem 10 num vp ten-Fits refl h ne least in
      (cs, print_one text tail (sign num ++ cs) b'd' (num ∷ args) _ p q refl run, sp)
