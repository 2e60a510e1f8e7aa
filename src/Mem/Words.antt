-- ===== src/Mem/Words.antt =====
-- A `u64` in physical memory: its eight bytes, lowest first.
use tnix.Common.{
  ℕ, ◌+◌, ◌-◌, ◌*◌, ◌/◌, ◌%◌, ◌^◌, ◌≤◌, ◌<◌, ◌≡◌, refl, ap, sym, ◌∙◌, ◌&&◌, ◌⊎◌, inl, inr, arith,
  if◌then◌else◌, leb, ltb, le→leb, lt→ltb, lt→not_leb, le→not_ltb,
}

unfoldable pub word : (ℕ → ℕ) → ℕ → ℕ
word m a =
    m a
    + 256 * m (a + 1)
    + 65536 * m (a + 2)
    + 16777216 * m (a + 3)
    + 4294967296 * m (a + 4)
    + 1099511627776 * m (a + 5)
    + 281474976710656 * m (a + 6)
    + 72057594037927936 * m (a + 7)

unfoldable pub put_word : (ℕ → ℕ) → ℕ → ℕ → ℕ → ℕ
put_word m a v x = if leb a x && ltb x (a + 8) then v / 2 ^ (8 * (x - a)) % 256 else m x

put_word_in :
    (m : ℕ → ℕ) (a v i x q : ℕ)
    → i < 8
    → x ≡ a + i
    → q ≡ 2 ^ (8 * i)
    → put_word m a v x ≡ v / q % 256
unfolding put_word
put_word_in m a v i x q h e f =
    rw (le→leb a x (omega arith), lt→ltb x (a + 8) (omega arith))
      (ap (λ t. v / t % 256) (ap (λ s. 2 ^ (8 * s)) offset ∙ sym f))
  where
    offset : x - a ≡ i
    offset = omega arith

put_word_out : (m : ℕ → ℕ) (a v x : ℕ) → (x < a) ⊎ (a + 8 ≤ x) → put_word m a v x ≡ m x
unfolding put_word
put_word_out m a v x (inl h) = rw (lt→not_leb a x h) refl
put_word_out m a v x (inr h) = ground (arith, le→not_ltb x (a + 8) h)

pub word-put_word : (m : ℕ → ℕ) (a v : ℕ) → v < 18446744073709551616 → word (put_word m a v) a ≡ v
unfolding word
word-put_word m a v h = omega (
  arith,
  put_word_in m a v 0 a 1 (omega arith) (omega arith) refl,
  put_word_in m a v 1 (a + 1) 256 (omega arith) refl refl,
  put_word_in m a v 2 (a + 2) 65536 (omega arith) refl refl,
  put_word_in m a v 3 (a + 3) 16777216 (omega arith) refl refl,
  put_word_in m a v 4 (a + 4) 4294967296 (omega arith) refl refl,
  put_word_in m a v 5 (a + 5) 1099511627776 (omega arith) refl refl,
  put_word_in m a v 6 (a + 6) 281474976710656 (omega arith) refl refl,
  put_word_in m a v 7 (a + 7) 72057594037927936 (omega arith) refl refl,
)

-- A word depends on its eight bytes.
pub word-ext :
    (m m' : ℕ → ℕ) (a : ℕ) → ((i : ℕ) → i < 8 → m (a + i) ≡ m' (a + i)) → word m a ≡ word m' a
unfolding word
word-ext m m' a h = omega (
  arith,
  first,
  h 1 (omega arith),
  h 2 (omega arith),
  h 3 (omega arith),
  h 4 (omega arith),
  h 5 (omega arith),
  h 6 (omega arith),
  h 7 (omega arith),
)
  where
    first : m a ≡ m' a
    first = ap m (omega arith) ∙ h 0 (omega arith) ∙ ap m' (omega arith)

pub word-put_word_other :
    (m : ℕ → ℕ) (a v b : ℕ) → (a + 8 ≤ b) ⊎ (b + 8 ≤ a) → word (put_word m a v) b ≡ word m b
word-put_word_other m a v b h = word-ext (put_word m a v) m b (λ i l.
    put_word_out m a v (b + i) (elim h [ inl p ↦ inr (omega arith) | inr p ↦ inl (omega arith) ]))

pub word_zero : (m : ℕ → ℕ) (a : ℕ) → ((i : ℕ) → i < 8 → m (a + i) ≡ 0) → word m a ≡ 0
unfolding word
word_zero m a h = omega (
  arith,
  first,
  h 1 (omega arith),
  h 2 (omega arith),
  h 3 (omega arith),
  h 4 (omega arith),
  h 5 (omega arith),
  h 6 (omega arith),
  h 7 (omega arith),
)
  where
    first : m a ≡ 0
    first = ap m (omega arith) ∙ h 0 (omega arith)
