-- ===== src/Util/Print/Examples.antt =====
-- Runs of the number printers and of `print`.
use tnix.Common.{ℕ, ◌-◌, ◌^◌, ◌≤◌, ◌≡◌, refl, List, [], ◌∷◌, some, arith, length, get_or}
use tnix.Util.Str.{Memory}
use tnix.Util.Print.{VarPara, print, panic, printuint, put_number}
use tnix.Util.Print.Digits.{Spells}
use tnix.Util.Print.Number.{sixteen-Fits, printuint_lem}

-- The string "ok" at 100.
abbrev memory : Memory
memory a = get_or (b'o' ∷ b'k' ∷ []) (a - 100) 0

print_run :
    print 9 memory (b'%' ∷ b'x' ∷ b' ' ∷ b'%' ∷ b's' ∷ b'%' ∷ []) (255 ∷ 100 ∷ [])
    ≡ some (b'0' ∷ b'x' ∷ b'F' ∷ b'F' ∷ b' ' ∷ b'o' ∷ b'k' ∷ b'%' ∷ [])
unfolding print put_number
print_run = refl

panic_run :
    panic 9 memory (b'%' ∷ b'd' ∷ []) ((2 ^ 64 - 12) ∷ [])
    ≡ some (10 ∷ 10 ∷ b'p' ∷ b'a' ∷ b'n' ∷ b'i' ∷ b'c' ∷ b':' ∷ b' ' ∷ b'-' ∷ b'1' ∷ b'2' ∷ 10 ∷ [])
unfolding panic put_number
panic_run = refl

abbrev para : ℕ → VarPara
para num = record { args = num ∷ []; i = 0 }

printuint_lem_example :
    (cs : List ℕ) × (printuint 16 (para 48879) ≡ some (cs, record { args = 48879 ∷ []; i = 1 }))
    × Spells 16 48879 cs
    × (length cs ≤ 20)
printuint_lem_example =
    printuint_lem 16 48879 (para 48879) sixteen-Fits refl (omega arith) (omega arith)
