-- ===== src/Util/Print/Digits.antt =====
-- The digits of a number: what a list of digits stands for, and what the two loops put.
use tnix.Common.{
  ℕ, zero, suc, ◌+◌, ◌-◌, ◌*◌, ◌/◌, ◌%◌, ◌^◌, ◌≤◌, ◌<◌, ◌≡◌, ◌≢◌, refl, ap, sym, ◌∙◌, List, [], ◌∷◌,
  ◌++◌, some, arith, if◌then◌else◌, ◌==◌, ltb, length, get_or, set, replicate, length-set,
  length-append, get_or-set_self, get_or-set_ne, append_assoc, Bool-cases, inl, inr, ==→eq,
  not_==→ne, lt→ltb, append-nil, ◌⊎◌,
}
use native.Mathlib.Nat.{pow-zero}
use tnix.Util.Print.{digits, digit_loop, put_back, put_number}

-- What a character stands for.
abbrev pub digit_of : ℕ → ℕ
digit_of c = if ltb c 58 then c - 48 else c - 55

-- What the characters stand for behind `acc`, in base `ns`.
pub value : ℕ → List ℕ → ℕ → ℕ
value ns [] acc = acc
value ns (c ∷ cs) acc = value ns cs (acc * ns + digit_of c)

value-append :
    (ns : ℕ) (cs : List ℕ) (c acc : ℕ)
    → value ns (cs ++ c ∷ []) acc ≡ value ns cs acc * ns + digit_of c
unfolding value
value-append ns [] c acc = refl
value-append ns (x ∷ cs) c acc = value-append ns cs c (acc * ns + digit_of x)

-- A character from '0' to '9' or from 'A' to 'F'.
abbrev pub IsDigit : ℕ → Type 0
IsDigit c = ((48 ≤ c) × (c ≤ 57)) ⊎ ((65 ≤ c) × (c ≤ 70))

abbrev pub AreDigits : List ℕ → Type 0
AreDigits [] = Unit {0}
AreDigits (c ∷ cs) = IsDigit c × AreDigits cs

AreDigits-append : (cs : List ℕ) (c : ℕ) → AreDigits cs → IsDigit c → AreDigits (cs ++ c ∷ [])
AreDigits-append [] c v h = (h, tt)
AreDigits-append (x ∷ cs) c v h = (v.0, AreDigits-append cs c v.1 h)

AreDigits-get_or : (cs : List ℕ) (d : ℕ) → AreDigits cs → d < length cs → IsDigit (get_or cs d 0)
AreDigits-get_or [] d v h = absurd (omega arith)
AreDigits-get_or (x ∷ cs) zero v h = v.0
AreDigits-get_or (x ∷ cs) (suc d) v h = AreDigits-get_or cs d v.1 (omega arith)

digits-AreDigits : AreDigits digits
digits-AreDigits = (
  inl (omega arith, omega arith),
  (
    inl (omega arith, omega arith),
    (
      inl (omega arith, omega arith),
      (
        inl (omega arith, omega arith),
        (
          inl (omega arith, omega arith),
          (
            inl (omega arith, omega arith),
            (
              inl (omega arith, omega arith),
              (
                inl (omega arith, omega arith),
                (
                  inl (omega arith, omega arith),
                  (
                    inl (omega arith, omega arith),
                    (
                      inr (omega arith, omega arith),
                      (
                        inr (omega arith, omega arith),
                        (
                          inr (omega arith, omega arith),
                          (
                            inr (omega arith, omega arith),
                            (inr (omega arith, omega arith), (inr (omega arith, omega arith), tt)),
                          ),
                        ),
                      ),
                    ),
                  ),
                ),
              ),
            ),
          ),
        ),
      ),
    ),
  ),
)

-- From position `k` on, each character stands for its position.
abbrev InPlace : List ℕ → ℕ → Type 0
InPlace [] k = Unit {0}
InPlace (x ∷ xs) k = (digit_of x ≡ k) × InPlace xs (k + 1)

InPlace-get_or :
    (xs : List ℕ) (k d : ℕ) → InPlace xs k → d < length xs → digit_of (get_or xs d 0) ≡ k + d
InPlace-get_or [] k d h u = absurd (omega arith)
InPlace-get_or (x ∷ xs) k zero h u = h.0 ∙ omega arith
InPlace-get_or (x ∷ xs) k (suc d) h u = InPlace-get_or xs (k + 1) d h.1 (omega arith) ∙ omega arith

digits-InPlace : InPlace digits 0
digits-InPlace = omega arith

pub digit_of-digit : (d : ℕ) → d < 16 → digit_of (get_or digits d 0) ≡ d
digit_of-digit d h = InPlace-get_or digits 0 d digits-InPlace h ∙ omega arith

-- `cs` is the number `num` in base `ns`, in digits and with no leading zero; zero itself is the empty list.
pub record Spells (ns num : ℕ) (cs : List ℕ) : Type 0 where
  pub worth : value ns cs 0 ≡ num
  pub empty : num ≡ 0 → cs ≡ []
  pub lead : num ≢ 0 → digit_of (get_or cs 0 48) ≢ 0
  pub shown : AreDigits cs

pub record IsBase (ns : ℕ) : Type 0 where
  pub small : ns ≤ 16
  pub mod_lt : (n : ℕ) → n % ns < ns
  pub split : (n : ℕ) → n / ns * ns + n % ns ≡ n
  pub fewer : (n k : ℕ) → n < ns ^ suc k → n / ns < ns ^ k

put_back-set : (buf : List ℕ) (i j v : ℕ) → i ≤ j → put_back (set buf j v) i ≡ put_back buf i
unfolding put_back
put_back-set buf zero j v h = refl
put_back-set buf (suc i) j v h =
    simp (get_or-set_ne buf j i v 0 (omega arith), put_back-set buf i j v (omega arith)) refl

put_back-digit :
    (buf : List ℕ) (i v : ℕ) → i < length buf → put_back (set buf i v) (suc i) ≡ v ∷ put_back buf i
unfolding put_back
put_back-digit buf i v h =
    simp (get_or-set_self buf i v 0 h, put_back-set buf i i v (omega arith)) refl

lead-append : (cs : List ℕ) (c : ℕ) → length cs ≢ 0 → get_or (cs ++ c ∷ []) 0 48 ≡ get_or cs 0 48
lead-append [] c h = absurd (h refl)
lead-append (x ∷ cs) c h = refl

length-eq_zero : (cs : List ℕ) → length cs ≡ 0 → cs ≡ []
length-eq_zero [] h = refl
length-eq_zero (x ∷ cs) h = absurd (omega arith)

module _ {ns : ℕ} (b : IsBase ns) where
  digit_back : (num : ℕ) → digit_of (get_or digits (num % ns) 0) ≡ num % ns
  digit_back num = digit_of-digit (num % ns) (omega (arith, b.mod_lt num, b.small))

  Spells-zero : (num : ℕ) → num ≡ 0 → Spells ns num []
  unfolding value
  Spells-zero num e = record {
    worth = sym e;
    empty = λ _. refl;
    lead = λ ne. absurd (ne e);
    shown = tt;
  }

  Spells-digit :
      (num : ℕ) (cs : List ℕ)
      → num ≢ 0
      → Spells ns (num / ns) cs
      → Spells ns num (cs ++ get_or digits (num % ns) 0 ∷ [])
  Spells-digit num cs ne s = record {
    worth =
        value-append ns cs (get_or digits (num % ns) 0) 0
        ∙ rw (s.worth, digit_back num) (b.split num);
    empty = λ e. absurd (ne e);
    lead = λ _. elim (Bool-cases (length cs == 0)) [
      | inl e ↦ first (length-eq_zero cs (==→eq (length cs) 0 e))
      | inr e ↦
          rw (lead-append cs (get_or digits (num % ns) 0) (not_==→ne (length cs) 0 e))
            (s.lead (λ z. not_==→ne (length cs) 0 e (ap length (s.empty z))))
    ];
    shown = AreDigits-append cs (get_or digits (num % ns) 0) s.shown (
        AreDigits-get_or digits (num % ns) digits-AreDigits (omega (arith, b.mod_lt num, b.small)));
  }
    where
      quotient : cs ≡ [] → num / ns ≡ 0
      quotient e = elim (Bool-cases (num / ns == 0)) [
        | inl z ↦ ==→eq (num / ns) 0 z
        | inr z ↦ absurd (s.lead (not_==→ne (num / ns) 0 z) (ap (λ l. digit_of (get_or l 0 48)) e))
      ]

      low : cs ≡ [] → num % ns ≡ 0 → num ≡ 0
      low e z = omega (arith, b.split num, ap (λ q. q * ns + num % ns) (quotient e))

      first : cs ≡ [] → digit_of (get_or (cs ++ get_or digits (num % ns) 0 ∷ []) 0 48) ≢ 0
      first e = rw e (rw (digit_back num) (λ z. ne (low e z)))

  pub digit_loop_lem :
      (fuel k num : ℕ) (buf : List ℕ) (i : ℕ)
      → length buf ≡ 21
      → num < ns ^ k
      → k + i ≤ 21
      → k < fuel
      → (buf' : List ℕ) × (i' : ℕ) × (cs : List ℕ) × (digit_loop fuel ns num buf i
          ≡ some (buf', i'))
        × (put_back buf' i' ≡ cs ++ put_back buf i)
        × Spells ns num cs
        × (length cs ≤ k)
  unfolding digit_loop
  digit_loop_lem zero k num buf i size h u w = absurd (omega arith)
  digit_loop_lem (suc fuel) zero num buf i size h u w = elim (Bool-cases (num == 0)) [
    | inl e ↦
        (buf, i, [], rw (e, digit_loop) refl, refl, Spells-zero num (==→eq num 0 e), omega arith)
    | inr e ↦ absurd (omega (arith, pow-zero ns, not_==→ne num 0 e))
  ]
  digit_loop_lem (suc fuel) (suc k) num buf i size h u w = elim (Bool-cases (num == 0)) [
    | inl e ↦
        (buf, i, [], rw (e, digit_loop) refl, refl, Spells-zero num (==→eq num 0 e), omega arith)
    | inr e ↦
        let d = get_or digits (num % ns) 0 in
        let (buf', i', cs, run, back, sp, len) =
          digit_loop_lem fuel k (num / ns) (set buf i d) (suc i) (length-set buf i d ∙ size)
            (b.fewer num k h) (omega arith) (omega arith) in
        (
          buf',
          i',
          cs ++ d ∷ [],
          rw (e, lt→ltb i 21 (omega arith), digit_loop) run,
          back
              ∙ ap (λ t. cs ++ t) (put_back-digit buf i d (omega (arith, size)))
              ∙ sym (append_assoc cs (d ∷ []) (put_back buf i)),
          Spells-digit num cs (not_==→ne num 0 e) sp,
          omega (arith, length-append cs (d ∷ []), len),
        )
  ]

  -- The two loops put the number, whatever it is.
  pub put_number_lem :
      (k num : ℕ)
      → num < ns ^ k
      → k ≤ 21
      → (cs : List ℕ) × (put_number ns num ≡ some cs) × Spells ns num cs × (length cs ≤ k)
  unfolding put_number
  put_number_lem k num h u =
      let (buf, i, cs, run, back, sp, len) =
        digit_loop_lem 65 k num (replicate 21 0) 0 refl h (omega arith) (omega arith) in
      (cs, rw (run, put_number) (ap some (back ∙ append-nil cs)), sp, len)
