-- ===== src/Fs/Bitmap/Scan.antt =====
-- The search for a clear bit, in one block and over the blocks of a map.
use tnix.Common.{
  ℕ, zero, suc, ◌+◌, ◌-◌, ◌*◌, ◌/◌, ◌%◌, ◌≤◌, ◌<◌, ◌≡◌, ◌≢◌, refl, ap, ap₂, ◌∙◌, sym, Bool, true,
  false, Option, none, some, arith, ◌==◌, Bool-cases, inl, inr, ==→eq, eq→==, not_==→ne, test_bit,
  test_ones, some_clear, FirstClear, ltb, ltb→lt, not_ltb→le,
}
use tnix.Fs.Blocks.{bit_cnt_per_block, Block, Disk, bit_of}
use tnix.Fs.Bitmap.{full_bytes, section_full, first_section, first_bit, find_clear, find_block}

abbrev pub IsBytes : Block → Type 0
IsBytes b = (p : ℕ) → b p < 256

bit_of-byte : (b : Block) (p k : ℕ) → k < 8 → bit_of b (8 * p + k) ≡ test_bit (b p) k
unfolding bit_of
bit_of-byte b p k h = ap₂ (λ x y. test_bit (b x) y) (omega arith) (omega arith)

-- A byte whose bits are all set is 255, and the bits of 255 are set.
byte_full :
    (b : Block) (p : ℕ) → IsBytes b → ((k : ℕ) → k < 8 → bit_of b (8 * p + k) ≡ true) → b p ≡ 255
byte_full b p v h = elim (Bool-cases (b p == 255)) [
  | inl e ↦ ==→eq (b p) 255 e
  | inr e ↦
      let (k, lt, c) = some_clear 8 (b p) (v p) (not_==→ne (b p) 255 e) in
      absurd (cc (h k lt, bit_of-byte b p k lt))
]

byte_not_full : (b : Block) (n : ℕ) → bit_of b n ≡ false → b (n / 8) ≢ 255
unfolding bit_of
byte_not_full b n c e = cc (test_ones 8 (n % 8) (omega arith), ap (λ x. test_bit x (n % 8)) e)

full_bytes-true :
    (b : Block) (p n : ℕ) → ((q : ℕ) → p ≤ q → q < p + n → b q ≡ 255) → full_bytes b p n ≡ true
unfolding full_bytes
full_bytes-true b p zero h = refl
full_bytes-true b p (suc n) h =
    rw (eq→== (b p) 255 (h p (omega arith) (omega arith)))
      (full_bytes-true b (p + 1) n (λ q l u. h q (omega arith) (omega arith)))

full_bytes-false :
    (b : Block) (p n q : ℕ) → p ≤ q → q < p + n → b q ≢ 255 → full_bytes b p n ≡ false
unfolding full_bytes
full_bytes-false b p zero q l u ne = absurd (omega arith)
full_bytes-false b p (suc n) q l u ne = elim (Bool-cases (b p == 255)) [
  | inl e ↦ rw e (full_bytes-false b (p + 1) n q (beyond (==→eq (b p) 255 e)) (omega arith) ne)
  | inr e ↦ rw e
]
  where
    beyond : b p ≡ 255 → p + 1 ≤ q
    beyond e = elim (Bool-cases (p == q)) [
      | inl f ↦ absurd (ne (ap b (sym (==→eq p q f)) ∙ e))
      | inr f ↦ omega (arith, not_==→ne p q f)
    ]

section_full-true :
    (b : Block) (j : ℕ)
    → IsBytes b
    → ((n : ℕ) → 64 * j ≤ n → n < 64 * j + 64 → bit_of b n ≡ true)
    → section_full b j ≡ true
unfolding section_full
section_full-true b j v h =
    full_bytes-true b (8 * j) 8
      (λ q l u. byte_full b q v (λ k lt. h (8 * q + k) (omega arith) (omega arith)))

section_full-false :
    (b : Block) (j n : ℕ)
    → 64 * j ≤ n
    → n < 64 * j + 64
    → bit_of b n ≡ false
    → section_full b j ≡ false
unfolding section_full
section_full-false b j n l u c =
    full_bytes-false b (8 * j) 8 (n / 8) (omega arith) (omega arith) (byte_not_full b n c)

first_section_lem :
    (b : Block) (j n t : ℕ)
    → IsBytes b
    → FirstClear (bit_of b) (64 * j) t
    → t < 64 * (j + n)
    → first_section b j n ≡ some (t / 64)
unfolding first_section
first_section_lem b j zero t v f h = absurd (omega (arith, f.behind))
first_section_lem b j (suc n) t v f h = elim (Bool-cases (ltb t (64 * j + 64))) [
  | inl e ↦
      rw (section_full-false b j t f.behind (ltb→lt t (64 * j + 64) e) f.clear)
        (ap some (omega (arith, f.behind, ltb→lt t (64 * j + 64) e)))
  | inr e ↦
      rw
        (section_full-true b j v
          (λ m l u. f.before m l (omega (arith, not_ltb→le t (64 * j + 64) e))))
        (first_section_lem b (suc j) n t v
          (record {
            behind = omega (arith, not_ltb→le t (64 * j + 64) e);
            clear = f.clear;
            before = λ m l u. f.before m (omega arith) u;
          })
          (omega arith))
]

first_section-none :
    (b : Block) (j n : ℕ)
    → IsBytes b
    → ((m : ℕ) → 64 * j ≤ m → m < 64 * (j + n) → bit_of b m ≡ true)
    → first_section b j n ≡ none
unfolding first_section
first_section-none b j zero v h = refl
first_section-none b j (suc n) v h =
    rw (section_full-true b j v (λ m l u. h m l (omega arith)))
      (first_section-none b (suc j) n v (λ m l u. h m (omega arith) (omega arith)))

first_bit_lem :
    (b : Block) (j k n t : ℕ)
    → FirstClear (bit_of b) (64 * j + k) t
    → t < 64 * j + k + n
    → first_bit b j k n ≡ some (t - 64 * j)
unfolding first_bit
first_bit_lem b j k zero t f h = absurd (omega (arith, f.behind))
first_bit_lem b j k (suc n) t f h = elim (Bool-cases (t == 64 * j + k)) [
  | inl e ↦
      rw (ap (bit_of b) (sym (==→eq t (64 * j + k) e)) ∙ f.clear)
        (ap some (omega (arith, ==→eq t (64 * j + k) e)))
  | inr e ↦
      rw (f.before (64 * j + k) (omega arith) (omega (arith, f.behind, not_==→ne t (64 * j + k) e)))
        (first_bit_lem b j (suc k) n t
          (record {
            behind = omega (arith, f.behind, not_==→ne t (64 * j + k) e);
            clear = f.clear;
            before = λ m l u. f.before m (omega arith) u;
          })
          (omega arith))
]

-- In a block the search finds the first clear bit, and none where all are set.
pub find_clear_lem :
    (b : Block) (t : ℕ)
    → IsBytes b
    → FirstClear (bit_of b) 0 t
    → t < bit_cnt_per_block
    → find_clear b ≡ some (t / 64, t % 64)
unfolding find_clear
find_clear_lem b t v f h =
    rw
      (
        first_section_lem b 0 128 t v
            (record {
              behind = omega arith;
              clear = f.clear;
              before = λ m l u. f.before m (omega arith) u;
            })
            (omega arith),
        first_bit_lem b (t / 64) 0 64 t
            (record {
              behind = omega arith;
              clear = f.clear;
              before = λ m l u. f.before m (omega arith) u;
            })
            (omega arith),
        find_clear,
      )
      (ap (λ k. some (t / 64, k)) (omega arith))

pub find_clear-none :
    (b : Block)
    → IsBytes b
    → ((n : ℕ) → n < bit_cnt_per_block → bit_of b n ≡ true)
    → find_clear b ≡ none
unfolding find_clear
find_clear-none b v h = rw (first_section-none b 0 128 v (λ m l u. h m (omega arith)), find_clear)

-- Bit `n` of a map whose block `i` is block `start + i` of the disk.
abbrev pub map_bit : Disk → ℕ → ℕ → Bool
map_bit d start n = bit_of (d (start + n / bit_cnt_per_block)) (n % bit_cnt_per_block)

-- Over the blocks the search finds the first clear bit of the map.
module _ (nth : ℕ → Option ℕ) (d : Disk) (start cnt : ℕ)
    (blocks : (i : ℕ) → i < cnt → nth i ≡ some (start + i)) (bytes : (n : ℕ) → IsBytes (d n)) where
  pub find_block_lem :
      (i n t : ℕ)
      → i + n ≤ cnt
      → FirstClear (map_bit d start) (bit_cnt_per_block * i) t
      → t < bit_cnt_per_block * (i + n)
      → find_block nth d i n ≡ some (t / bit_cnt_per_block, t % bit_cnt_per_block / 64, t % 64)
  unfolding find_block
  find_block_lem i zero t le f h = absurd (omega (arith, f.behind))
  find_block_lem i (suc n) t le f h =
      elim (Bool-cases (ltb t (bit_cnt_per_block * i + bit_cnt_per_block))) [
        | inl e ↦
            rw
              (
                blocks i (omega arith),
                find_clear_lem (d (start + i)) (t % bit_cnt_per_block) (bytes (start + i))
                    (in_block (ltb→lt _ _ e)) (omega arith),
                find_block,
              )
              (ap some (
                ap₂ (λ x y. (x, t % bit_cnt_per_block / 64, y))
                  (omega (arith, f.behind, ltb→lt t (bit_cnt_per_block * i + bit_cnt_per_block) e))
                  (omega arith)))
        | inr e ↦
            rw
              (
                blocks i (omega arith),
                find_clear-none (d (start + i)) (bytes (start + i)) (all_set (not_ltb→le _ _ e)),
                find_block,
              )
              (find_block_lem (suc i) n t (omega arith)
                (record {
                  behind =
                      omega (arith, not_ltb→le t (bit_cnt_per_block * i + bit_cnt_per_block) e);
                  clear = f.clear;
                  before = λ m l u. f.before m (omega arith) u;
                })
                (omega arith))
      ]
    where
      here :
          (m : ℕ)
          → m < bit_cnt_per_block
          → map_bit d start (bit_cnt_per_block * i + m) ≡ bit_of (d (start + i)) m
      here m l = ap₂ (λ x y. bit_of (d x) y) (omega arith) (omega arith)

      in_block :
          t < bit_cnt_per_block * i + bit_cnt_per_block
          → FirstClear (bit_of (d (start + i))) 0 (t % bit_cnt_per_block)
      in_block u = record {
        behind = omega arith;
        clear =
            sym (here (t % bit_cnt_per_block) (omega arith))
            ∙ ap (map_bit d start) (omega (arith, f.behind))
            ∙ f.clear;
        before = λ m l w.
            sym (here m (omega arith))
            ∙ f.before (bit_cnt_per_block * i + m) (omega arith) (omega (arith, f.behind));
      }

      all_set :
          bit_cnt_per_block * i + bit_cnt_per_block ≤ t
          → (m : ℕ) → m < bit_cnt_per_block
          → bit_of (d (start + i)) m ≡ true
      all_set u m l =
          sym (here m l) ∙ f.before (bit_cnt_per_block * i + m) (omega arith) (omega arith)

  pub find_block-none :
      (i n : ℕ)
      → i + n ≤ cnt
      → ((t : ℕ)
          → bit_cnt_per_block * i ≤ t
          → t < bit_cnt_per_block * (i + n)
          → map_bit d start t ≡ true)
      → find_block nth d i n ≡ none
  unfolding find_block
  find_block-none i zero le h = refl
  find_block-none i (suc n) le h =
      rw
        (
          blocks i (omega arith),
          find_clear-none (d (start + i)) (bytes (start + i)) all_set,
          find_block,
        )
        (find_block-none (suc i) n (omega arith) (λ t l u. h t (omega arith) (omega arith)))
    where
      all_set : (m : ℕ) → m < bit_cnt_per_block → bit_of (d (start + i)) m ≡ true
      all_set m l =
          ap₂ (λ x y. bit_of (d x) y) (omega arith) (omega arith)
          ∙ h (bit_cnt_per_block * i + m) (omega arith) (omega arith)
