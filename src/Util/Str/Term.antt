-- ===== src/Util/Str/Term.antt =====
-- Strings that end at their first NUL: `strlen`, `strcpy` and `strncpy`.
use tnix.Common.{
  ℕ, zero, suc, ◌+◌, ◌-◌, ◌≤◌, ◌<◌, ◌≡◌, ◌≢◌, refl, ap, ◌∙◌, sym, arith, some, if◌then◌else◌, ltb,
  eq→==, ne→not_==,
}
use tnix.Util.Str.{Memory, store, zero_fill, strncpy_loop, strncpy, strlen_loop, strlen, strcpy}
use tnix.Util.Str.Copy.{within}

-- The string at `p` has `k` bytes before its NUL.
pub record Terminated (m : Memory) (p k : ℕ) : Type 0 where
  pub nul : m (p + k) ≡ 0
  pub body : (j : ℕ) → j < k → m (p + j) ≢ 0

strlen_loop-total :
    (fuel : ℕ) (m : Memory) (p k len rest : ℕ)
    → Terminated m p k
    → len + rest ≡ k
    → rest < fuel
    → strlen_loop fuel m p len ≡ some k
unfolding strlen_loop
strlen_loop-total zero m p k len rest t e h = absurd (omega arith)
strlen_loop-total (suc fuel) m p k len zero t e h =
    rw (eq→== (m (p + len)) 0 (ap (λ q. m (p + q)) same ∙ t.nul)) (ap some same)
  where
    same : len ≡ k
    same = omega arith
strlen_loop-total (suc fuel) m p k len (suc rest) t e h =
    rw (ne→not_== (m (p + len)) 0 (t.body len (omega arith)))
      (strlen_loop-total fuel m p k (len + 1) rest t (omega arith) (omega arith))

-- `strlen` of a string that has a NUL ends and counts the bytes before it; one round for each byte
-- and one for the NUL are enough.
pub strlen_lem :
    (fuel : ℕ) (m : Memory) (p k : ℕ) → Terminated m p k → k < fuel → strlen fuel m p ≡ some k
unfolding strlen
strlen_lem fuel m p k t h = strlen_loop-total fuel m p k 0 k t (omega arith) h

zero_fill_lem : (m : Memory) (s n a : ℕ) → zero_fill m s n a ≡ (if within s n a then 0 else m a)
unfolding zero_fill
zero_fill_lem m s zero a = ground arith
zero_fill_lem m s (suc n) a = ground (arith, zero_fill_lem (store m s 0) (s + 1) n a)

-- The first `k` bytes from `t` on are not NUL, and the next is, if it is one of the first `n`.
pub record Prefix (m : Memory) (t k n : ℕ) : Type 0 where
  pub short : k ≤ n
  pub nul : k < n → m (t + k) ≡ 0
  pub body : (j : ℕ) → j < k → m (t + j) ≢ 0

module _ (m : Memory) (s t n : ℕ) (h : t < s → t + suc n ≤ s) where
  -- Behind the byte just copied the source is as before.
  store-ahead : (j : ℕ) → j < n → store m s (m t) (t + 1 + j) ≡ m (t + suc j)
  store-ahead j q = ground (arith, same_place (t + suc j))
    where
      same_place : (r : ℕ) → t + 1 + j ≡ r → m (t + 1 + j) ≡ m r
      same_place r e = ap m e

  Prefix-tail : (k : ℕ) → Prefix m t (suc k) (suc n) → Prefix (store m s (m t)) (t + 1) k n
  Prefix-tail k p = record {
    short = omega (arith, p.short);
    nul = λ q. store-ahead k q ∙ p.nul (omega arith);
    body = λ j q e. p.body (suc j) (omega arith) (sym (store-ahead j (omega (arith, p.short))) ∙ e);
  }

  strncpy-step :
      (k a : ℕ)
      → k ≤ n
      → (if within (s + 1) n a
          then (if ltb a (s + 1 + k) then store m s (m t) (t + 1 + (a - (s + 1))) else 0)
          else store m s (m t) a)
        ≡ (if within s (suc n) a then (if ltb a (s + suc k) then m (t + (a - s)) else 0) else m a)
  strncpy-step k a q = ground (arith, same_place (t + 1 + (a - (s + 1))), same_place t)
    where
      same_place : (r : ℕ) → t + (a - s) ≡ r → m (t + (a - s)) ≡ m r
      same_place r e = ap m e

strncpy-nul :
    (m : Memory) (s t n a : ℕ)
    → m t ≡ 0
    → (if within (s + 1) n a then 0 else store m s (m t) a)
      ≡ (if within s (suc n) a then (if ltb a (s + 0) then m (t + (a - s)) else 0) else m a)
strncpy-nul m s t n a e = ground arith

strncpy_loop_lem :
    (m : Memory) (s t n k a : ℕ)
    → Prefix m t k n
    → (t < s → t + n ≤ s)
    → strncpy_loop m s t n a
      ≡ (if within s n a then (if ltb a (s + k) then m (t + (a - s)) else 0) else m a)
unfolding strncpy_loop
strncpy_loop_lem m s t zero k a p h = ground arith
strncpy_loop_lem m s t (suc n) zero a p h =
    let at_nul : m t ≡ 0 = ap m (omega arith) ∙ p.nul (omega arith) in
    rw (eq→== (m t) 0 at_nul)
      (zero_fill_lem (store m s (m t)) (s + 1) n a ∙ strncpy-nul m s t n a at_nul)
strncpy_loop_lem m s t (suc n) (suc k) a p h =
    rw (ne→not_== (m t) 0 (λ e. p.body 0 (omega arith) (ap m (omega arith) ∙ e))) (
      strncpy_loop_lem (store m s (m t)) (s + 1) (t + 1) n k a (Prefix-tail m s t n h k p)
        (λ q. omega arith)
      ∙ strncpy-step m s t n h k a (omega (arith, p.short)))

-- After `strncpy` the first `n` bytes of the target hold the source's bytes before its NUL and
-- then zeros, or the first `n` bytes of the source where no NUL is among them; the rest of memory
-- is as before. The target does not begin inside the `n` bytes from the source's start on.
pub strncpy_lem :
    (m : Memory) (s t n k a : ℕ)
    → Prefix m t k n
    → (t < s → t + n ≤ s)
    → strncpy m s t n a
      ≡ (if within s n a then (if ltb a (s + k) then m (t + (a - s)) else 0) else m a)
unfolding strncpy
strncpy_lem m s t n k a p h = strncpy_loop_lem m s t n k a p h

module _ (m : Memory) (d src k : ℕ) (apart : src < d → src + suc k < d) where
  Terminated-tail : Terminated m src (suc k) → Terminated (store m d (m src)) (src + 1) k
  Terminated-tail t = record {
    nul = store-ahead m d src (suc k) (λ p. omega arith) k (omega arith) ∙ t.nul;
    body = λ j q e.
        t.body (suc j) (omega arith)
          (sym (store-ahead m d src (suc k) (λ p. omega arith) j (omega arith)) ∙ e);
  }

  -- The first byte copied and the others together.
  strcpy-step :
      (a : ℕ)
      → (if within (d + 1) (k + 1) a
          then store m d (m src) (src + 1 + (a - (d + 1)))
          else store m d (m src) a)
        ≡ (if within d (suc k + 1) a then m (src + (a - d)) else m a)
  strcpy-step a = ground (arith, same_place (src + 1 + (a - (d + 1))), same_place src)
    where
      same_place : (r : ℕ) → src + (a - d) ≡ r → m (src + (a - d)) ≡ m r
      same_place r e = ap m e

strcpy-nul :
    (m : Memory) (d src a : ℕ)
    → store m d (m src) a ≡ (if within d (0 + 1) a then m (src + (a - d)) else m a)
strcpy-nul m d src a = ground (arith, same_place src)
  where
    same_place : (r : ℕ) → src + (a - d) ≡ r → m (src + (a - d)) ≡ m r
    same_place r e = ap m e

-- `strcpy` of a string that has a NUL ends, and copies the string with its NUL, and nothing else,
-- where the target does not begin inside the string; one round for each byte and one for the NUL
-- are enough.
pub strcpy_lem :
    (fuel : ℕ) (m : Memory) (d src k : ℕ)
    → Terminated m src k
    → k < fuel
    → (src < d → src + k < d)
    → (m' : Memory) × (strcpy fuel m d src ≡ some m')
      × ((a : ℕ) → m' a ≡ (if within d (k + 1) a then m (src + (a - d)) else m a))
unfolding strcpy
strcpy_lem zero m d src k t h apart = absurd (omega arith)
strcpy_lem (suc fuel) m d src zero t h apart =
    rw (eq→== (m src) 0 (ap m (omega arith) ∙ t.nul)) (store m d (m src), refl, strcpy-nul m d src)
strcpy_lem (suc fuel) m d src (suc k) t h apart =
    let (m', run, bytes) =
      strcpy_lem fuel (store m d (m src)) (d + 1) (src + 1) k (Terminated-tail m d src k apart t)
        (omega arith) (λ p. omega arith) in
    rw (ne→not_== (m src) 0 (λ e. t.body 0 (omega arith) (ap m (omega arith) ∙ e)))
      (m', run, λ a. bytes a ∙ strcpy-step m d src k apart a)
