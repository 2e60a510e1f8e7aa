-- ===== src/Fs/Names/Equal.antt =====
-- `dentry_name_equal` finds the names that `dentry_name_set` has written, and no others.
use tnix.Common.{
  ℕ, zero, suc, ◌+◌, ◌≤◌, ◌<◌, ◌≡◌, ◌≢◌, ◌↔◌, refl, ap, ap₂, sym, ◌∙◌, List, [], ◌∷◌, true, false,
  arith, if◌then◌else◌, ◌==◌, ltb, ltb→lt, not_ltb→le, length, get_or, set, length-set,
  get_or-set_self, get_or-set_ne, Bool-cases, inl, inr, ==→eq, not_==→ne, eq→==, ne→not_==,
}
use tnix.Fs.Names.{dlength, name_set, dentry_name_set, name_equal, dentry_name_equal}

-- A name that an entry can hold: up to 28 bytes, none of them NUL.
pub record IsName (a : List ℕ) : Type 0 where
  pub short : length a ≤ dlength
  pub whole : (i : ℕ) → i < length a → get_or a i 0 ≢ 0

-- The name in an array, up to its NUL or its end.
pub record Holds (s a : List ℕ) : Type 0 where
  pub bytes : (i : ℕ) → i < length a → get_or s i 0 ≡ get_or a i 0
  pub nul : length a < dlength → get_or s (length a) 0 ≡ 0

get_or-outside : (a : List ℕ) (i : ℕ) → length a ≤ i → get_or a i 0 ≡ 0
get_or-outside [] i h = refl
get_or-outside (x ∷ a) zero h = absurd (omega arith)
get_or-outside (x ∷ a) (suc i) h = get_or-outside a i (omega arith)

name_set_kept :
    (n i : ℕ) (dst src : List ℕ) (j : ℕ)
    → j < i
    → get_or (name_set n i dst src) j 0 ≡ get_or dst j 0
unfolding name_set
name_set_kept zero i dst src j h = refl
name_set_kept (suc n) i dst src j h = elim (Bool-cases (get_or src i 0 == 0)) [
  | inl t ↦ rw (t, name_set) (get_or-set_ne dst i j (get_or src i 0) 0 (omega arith))
  | inr t ↦
      rw (t, name_set)
        (name_set_kept n (suc i) (set dst i (get_or src i 0)) src j (omega arith)
          ∙ get_or-set_ne dst i j (get_or src i 0) 0 (omega arith))
]

length-name_set : (n i : ℕ) (dst src : List ℕ) → length (name_set n i dst src) ≡ length dst
unfolding name_set
length-name_set zero i dst src = refl
length-name_set (suc n) i dst src = elim (Bool-cases (get_or src i 0 == 0)) [
  | inl t ↦ rw (t, name_set) (length-set dst i (get_or src i 0))
  | inr t ↦
      rw (t, name_set)
        (length-name_set n (suc i) (set dst i (get_or src i 0)) src
          ∙ length-set dst i (get_or src i 0))
]

pub length-dentry_name_set : (dst src : List ℕ) → length (dentry_name_set dst src) ≡ length dst
unfolding dentry_name_set
length-dentry_name_set dst src = length-name_set dlength 0 dst src

name_set_here :
    (n i : ℕ) (dst src : List ℕ)
    → i < length dst
    → get_or (name_set (suc n) i dst src) i 0 ≡ get_or src i 0
unfolding name_set
name_set_here n i dst src h = elim (Bool-cases (get_or src i 0 == 0)) [
  | inl t ↦ rw (t, name_set) (get_or-set_self dst i (get_or src i 0) 0 h)
  | inr t ↦
      rw (t, name_set)
        (name_set_kept n (suc i) (set dst i (get_or src i 0)) src i (omega arith)
          ∙ get_or-set_self dst i (get_or src i 0) 0 h)
]

name_set_next :
    (n i : ℕ) (dst src : List ℕ)
    → get_or src i 0 ≢ 0
    → (j : ℕ)
    → get_or (name_set (suc n) i dst src) j 0
      ≡ get_or (name_set n (suc i) (set dst i (get_or src i 0)) src) j 0
unfolding name_set
name_set_next n i dst src ne j = rw (ne→not_== (get_or src i 0) 0 ne, name_set) refl

name_set_written :
    (n i : ℕ) (dst src : List ℕ) (j : ℕ)
    → IsName src
    → length dst ≡ dlength
    → i + n ≡ dlength
    → i ≤ j
    → j ≤ length src
    → j < dlength
    → get_or (name_set n i dst src) j 0 ≡ get_or src j 0
name_set_written zero i dst src j v l e h u w = absurd (omega arith)
name_set_written (suc n) i dst src j v l e h u w = elim (Bool-cases (j == i)) [
  | inl t ↦
      ap (λ k. get_or (name_set (suc n) i dst src) k 0) (==→eq j i t)
      ∙ name_set_here n i dst src (omega (arith, l))
      ∙ ap (λ k. get_or src k 0) (sym (==→eq j i t))
  | inr t ↦
      name_set_next n i dst src (v.whole i (omega (arith, not_==→ne j i t))) j
      ∙ name_set_written n (suc i) (set dst i (get_or src i 0)) src j v
          (length-set dst i (get_or src i 0) ∙ l) (omega arith) (omega (arith, not_==→ne j i t)) u w
]

-- `dentry_name_set` leaves the name in the array, whatever was there.
pub dentry_name_set-Holds :
    (dst a : List ℕ) → length dst ≡ dlength → IsName a → Holds (dentry_name_set dst a) a
unfolding dentry_name_set
dentry_name_set-Holds dst a l v = record {
  bytes = λ i h.
      name_set_written dlength 0 dst a i v l refl (omega arith) (omega arith)
        (omega (arith, v.short));
  nul = λ h.
      name_set_written dlength 0 dst a (length a) v l refl (omega arith) (omega arith) h
      ∙ get_or-outside a (length a) (omega arith);
}

-- Two names that agree at every index are the same.
names_equal :
    (a b : List ℕ)
    → length a ≡ length b
    → ((i : ℕ) → i < length a → get_or a i 0 ≡ get_or b i 0)
    → a ≡ b
names_equal [] [] e h = refl
names_equal [] (y ∷ b) e h = absurd (omega arith)
names_equal (x ∷ a) [] e h = absurd (omega arith)
names_equal (x ∷ a) (y ∷ b) e h =
    ap₂ ◌∷◌ (h 0 (omega arith)) (names_equal a b (omega arith) (λ i u. h (suc i) (omega arith)))

-- A string: no NUL before its end.
abbrev pub IsString : List ℕ → Type 0
IsString b = (i : ℕ) → i < length b → get_or b i 0 ≢ 0

ends_at : (b : List ℕ) (i : ℕ) → IsString b → get_or b i 0 ≡ 0 → length b ≤ i
ends_at b i v z = elim (Bool-cases (ltb i (length b))) [
  | inl t ↦ absurd (v i (ltb→lt i (length b) t) z)
  | inr t ↦ not_ltb→le i (length b) t
]

inside_of : (b : List ℕ) (i : ℕ) → get_or b i 0 ≢ 0 → i < length b
inside_of b i ne = elim (Bool-cases (ltb i (length b))) [
  | inl t ↦ ltb→lt i (length b) t
  | inr t ↦ absurd (ne (get_or-outside b i (not_ltb→le i (length b) t)))
]

-- One round of `dentry_name_equal`.
module _ (n i : ℕ) (s b : List ℕ) where
  pub equal_differs : get_or s i 0 ≢ get_or b i 0 → name_equal (suc n) i s b ≡ false
  unfolding name_equal
  equal_differs d = rw (ne→not_== (get_or s i 0) (get_or b i 0) d, name_equal) refl

  equal_ends : get_or s i 0 ≡ get_or b i 0 → get_or s i 0 ≡ 0 → name_equal (suc n) i s b ≡ true
  unfolding name_equal
  equal_ends e z =
      rw (eq→== (get_or s i 0) (get_or b i 0) e, eq→== (get_or s i 0) 0 z, name_equal) refl

  equal_goes_on :
      get_or s i 0 ≡ get_or b i 0
      → get_or s i 0 ≢ 0
      → name_equal (suc n) i s b ≡ name_equal n (suc i) s b
  unfolding name_equal
  equal_goes_on e z =
      rw (eq→== (get_or s i 0) (get_or b i 0) e, ne→not_== (get_or s i 0) 0 z, name_equal) refl

module _ (s a b : List ℕ) (v : IsName a) (h : Holds s a) (w : IsString b) where
  Agree : ℕ → Type 0
  Agree i = (j : ℕ) → j < i → get_or a j 0 ≡ get_or b j 0

  Agree-more : (i : ℕ) → get_or a i 0 ≡ get_or b i 0 → Agree i → Agree (suc i)
  unfolding Agree
  Agree-more i e g j u = elim (Bool-cases (j == i)) [
    | inl t ↦ ap (λ k. get_or a k 0) (==→eq j i t) ∙ e ∙ ap (λ k. get_or b k 0) (sym (==→eq j i t))
    | inr t ↦ g j (omega (arith, not_==→ne j i t))
  ]

  nul_at : (i : ℕ) → i < dlength → i ≡ length a → get_or s i 0 ≡ 0
  nul_at i u e = ap (λ k. get_or s k 0) e ∙ h.nul (omega arith)

  -- Behind `i` equal bytes, a NUL of `b` at `i` is the end of both.
  ends_together : (i : ℕ) → i ≤ length b → Agree i → i ≡ length a → get_or b i 0 ≡ 0 → a ≡ b
  unfolding Agree
  ends_together i lb agree ea z =
      names_equal a b (omega (arith, ends_at b i w z)) (λ j u. agree j (omega arith))

  name_equal_sound :
      (n i : ℕ)
      → i + n ≡ dlength
      → i ≤ length a
      → i ≤ length b
      → Agree i
      → name_equal n i s b ≡ true
      → a ≡ b
  unfolding name_equal
  name_equal_sound zero i e la lb agree t =
      ends_together i lb agree (omega (arith, v.short, ends_at b i w (==→eq (get_or b i 0) 0 t)))
        (==→eq (get_or b i 0) 0 t)
  name_equal_sound (suc n) i e la lb agree t = elim (Bool-cases (get_or s i 0 == get_or b i 0)) [
    | inr d ↦ absurd (cc (t, equal_differs n i s b (not_==→ne (get_or s i 0) (get_or b i 0) d)))
    | inl d ↦ elim (Bool-cases (i == length a)) [
      | inl f ↦ ends_together i lb agree (==→eq i (length a) f) (
          sym (==→eq (get_or s i 0) (get_or b i 0) d)
          ∙ nul_at i (omega arith) (==→eq i (length a) f))
      | inr f ↦
          let lt : i < length a = omega (arith, not_==→ne i (length a) f) in
          let same : get_or a i 0 ≡ get_or b i 0 =
            sym (h.bytes i lt) ∙ ==→eq (get_or s i 0) (get_or b i 0) d in
          let used : get_or b i 0 ≢ 0 = λ z. v.whole i lt (same ∙ z) in
          name_equal_sound n (suc i) (omega arith) lt (inside_of b i used) (Agree-more i same agree)
            (sym (
                equal_goes_on n i s b (==→eq (get_or s i 0) (get_or b i 0) d)
                  (λ z. v.whole i lt (sym (h.bytes i lt) ∙ z)))
              ∙ t)
    ]
  ]

name_equal_complete :
    (s a : List ℕ) (n i : ℕ)
    → IsName a
    → Holds s a
    → i + n ≡ dlength
    → i ≤ length a
    → name_equal n i s a ≡ true
unfolding name_equal
name_equal_complete s a zero i v h e la =
    eq→== (get_or a i 0) 0 (get_or-outside a i (omega (arith, v.short)))
name_equal_complete s a (suc n) i v h e la = elim (Bool-cases (i == length a)) [
  | inl f ↦
      let z : get_or s i 0 ≡ 0 =
        ap (λ k. get_or s k 0) (==→eq i (length a) f)
        ∙ h.nul (omega (arith, ==→eq i (length a) f)) in
      equal_ends n i s a (z ∙ sym (get_or-outside a i (omega (arith, ==→eq i (length a) f)))) z
  | inr f ↦
      let lt : i < length a = omega (arith, not_==→ne i (length a) f) in
      equal_goes_on n i s a (h.bytes i lt) (λ z. v.whole i lt (sym (h.bytes i lt) ∙ z))
      ∙ name_equal_complete s a n (suc i) v h (omega arith) lt
]

-- a
pub dentry_name_equal_iff :
    (s a b : List ℕ) → IsName a → Holds s a → IsString b → (dentry_name_equal s b ≡ true) ↔ (a ≡ b)
unfolding dentry_name_equal Agree
dentry_name_equal_iff s a b v h w = (
  name_equal_sound s a b v h w dlength 0 refl (omega arith) (omega arith)
      (λ j u. absurd (omega arith)),
  λ e.
      ap (name_equal dlength 0 s) (sym e)
      ∙ name_equal_complete s a dlength 0 v h refl (omega arith),
)

-- A name of at most 28 bytes without NUL that is put into an entry's array of 28 bytes equals
-- there exactly itself: compared with any string without NUL, `dentry_name_equal` is true exactly
-- for that name.
pub dentry_name_equal-dentry_name_set :
    (dst a b : List ℕ)
    → length dst ≡ dlength
    → IsName a
    → IsString b
    → (dentry_name_equal (dentry_name_set dst a) b ≡ true) ↔ (a ≡ b)
dentry_name_equal-dentry_name_set dst a b l v w =
    dentry_name_equal_iff (dentry_name_set dst a) a b v (dentry_name_set-Holds dst a l v) w

-- The name in an array.
pub trim : List ℕ → List ℕ
trim [] = []
trim (c ∷ cs) = if c == 0 then [] else c ∷ trim cs

trim-bytes : (s : List ℕ) (i : ℕ) → i < length (trim s) → get_or s i 0 ≡ get_or (trim s) i 0
unfolding trim
trim-bytes [] i h = refl
trim-bytes (c ∷ cs) zero h = ground arith
trim-bytes (c ∷ cs) (suc i) h = ground (arith, trim-bytes cs i)

trim-nul : (s : List ℕ) → get_or s (length (trim s)) 0 ≡ 0
unfolding trim
trim-nul [] = refl
trim-nul (c ∷ cs) = ground (arith, trim-nul cs)

trim-IsString : (s : List ℕ) → IsString (trim s)
unfolding trim
trim-IsString [] i h = absurd (omega arith)
trim-IsString (c ∷ cs) zero h = ground arith
trim-IsString (c ∷ cs) (suc i) h = ground (arith, trim-IsString cs i)

length-trim : (s : List ℕ) → length (trim s) ≤ length s
unfolding trim
length-trim [] = omega arith
length-trim (c ∷ cs) = ground (arith, length-trim cs)

-- An array holds one name only.
pub equal_unique :
    (s a b : List ℕ)
    → length s ≡ dlength
    → IsString a
    → IsString b
    → dentry_name_equal s a ≡ true
    → dentry_name_equal s b ≡ true
    → a ≡ b
equal_unique s a b l v w p q = sym (one a v p) ∙ one b w q
  where
    own : IsName (trim s)
    own = record { short = omega (arith, length-trim s, l); whole = trim-IsString s }

    one : (c : List ℕ) → IsString c → dentry_name_equal s c ≡ true → trim s ≡ c
    one c u r =
        (dentry_name_equal_iff s (trim s) c own
            (record { bytes = trim-bytes s; nul = λ _. trim-nul s }) u).0
          r
