-- ===== src/Fs/Names/Path.antt =====
-- `path_split` cuts a path at its last `/`, and `parse_path` takes its parts off one by one.
use tnix.Common.{
  ℕ, zero, suc, ◌+◌, ◌≡◌, ◌≢◌, refl, ap, ap₂, ◌∙◌, List, [], ◌∷◌, ◌++◌, Option, none, some, arith,
  if◌then◌else◌, ◌==◌, ltb, leb, length, take, drop, length-append, ne→not_==, lt→ltb, le→not_ltb,
}
use tnix.Fs.Names.{
  dlength, component, Parsed, part, overruns, filled, parse_path, last_slash, path_split,
}

-- No byte is a `/`.
abbrev pub IsPart : List ℕ → Type 0
IsPart [] = Unit {0}
IsPart (c ∷ cs) = (c ≢ b'/') × IsPart cs

take-append : (xs ys : List ℕ) → take (length xs) (xs ++ ys) ≡ xs
take-append [] ys = refl
take-append (x ∷ xs) ys = ap (λ l. x ∷ l) (take-append xs ys)

drop-append : (xs ys : List ℕ) → drop (length xs) (xs ++ ys) ≡ ys
drop-append [] ys = refl
drop-append (x ∷ xs) ys = drop-append xs ys

drop_none : (k : ℕ) (ys : List ℕ) → k ≡ 0 → drop k ys ≡ ys
drop_none zero ys e = refl
drop_none (suc k) ys e = absurd (omega arith)

drop-append-cons : (xs ys : List ℕ) (c k : ℕ) → k ≡ length xs + 1 → drop k (xs ++ c ∷ ys) ≡ ys
drop-append-cons [] ys c zero e = absurd (omega arith)
drop-append-cons [] ys c (suc k) e = drop_none k ys (omega arith)
drop-append-cons (x ∷ xs) ys c zero e = absurd (omega arith)
drop-append-cons (x ∷ xs) ys c (suc k) e = drop-append-cons xs ys c k (omega arith)

last_slash-part : (ys : List ℕ) (n : ℕ) (m : Option ℕ) → IsPart ys → last_slash ys n m ≡ m
unfolding last_slash
last_slash-part [] n m h = refl
last_slash-part (y ∷ ys) n m h = rw (ne→not_== y b'/' h.0) (last_slash-part ys (suc n) m h.1)

last_slash-append :
    (xs ys : List ℕ) (n k : ℕ) (m : Option ℕ)
    → IsPart ys
    → k ≡ n + length xs
    → last_slash (xs ++ b'/' ∷ ys) n m ≡ some k
unfolding last_slash
last_slash-append [] ys n k m h e = last_slash-part ys (suc n) (some n) h ∙ ap some (omega arith)
last_slash-append (x ∷ xs) ys n k m h e =
    last_slash-append xs ys (suc n) k (if x == b'/' then some n else m) h (omega arith)

-- a
pub path_split-append :
    (parent name : List ℕ)
    → IsPart name
    → (path_split (parent ++ b'/' ∷ name) ≡ (parent, name)) × (path_split name ≡ (b'.' ∷ [], name))
unfolding path_split
path_split-append parent name h = (
  rw (last_slash-append parent name 0 (length parent) none h (omega arith), path_split)
      (ap₂ (λ a b. (a, b)) (take-append parent (b'/' ∷ name))
        (drop-append-cons parent name b'/' (length parent + 1) refl)),
  rw (last_slash-part name 0 none h, path_split) refl,
)

component-append : (xs ys : List ℕ) → IsPart xs → component (xs ++ b'/' ∷ ys) ≡ xs
unfolding component
component-append [] ys h = refl
component-append (x ∷ xs) ys h =
    rw (ne→not_== x b'/' h.0) (ap (λ l. x ∷ l) (component-append xs ys h.1))

component-part : (xs : List ℕ) → IsPart xs → component xs ≡ xs
unfolding component
component-part [] h = refl
component-part (x ∷ xs) h = rw (ne→not_== x b'/' h.0) (ap (λ l. x ∷ l) (component-part xs h.1))

-- `parse_path` by the part that it finds.
unfoldable parsed : List ℕ → List ℕ → Parsed
parsed comp path =
    if ltb (length comp) (length path)
    then (if leb (length comp) dlength
        then part (filled comp) (drop (length comp + 1) path)
        else overruns)
    else (if leb (length comp + 1) dlength then part (filled comp) [] else overruns)

parse_path-parsed :
    (path comp : List ℕ)
    → length path ≢ 0
    → component path ≡ comp
    → parse_path path ≡ parsed comp path
unfolding parse_path parsed
parse_path-parsed [] comp h e = absurd (h refl)
parse_path-parsed (c ∷ cs) comp h e = ap (λ l. parsed l (c ∷ cs)) e

-- a
pub parse_path-inner :
    (comp rest : List ℕ)
    → IsPart comp
    → parse_path (comp ++ b'/' ∷ rest)
      ≡ (if leb (length comp) dlength then part (filled comp) rest else overruns)
unfolding parsed
parse_path-inner comp rest h =
    parse_path-parsed (comp ++ b'/' ∷ rest) comp (omega (arith, length-append comp (b'/' ∷ rest)))
      (component-append comp rest h)
    ∙ rw
        (
          lt→ltb (length comp) (length (comp ++ b'/' ∷ rest))
              (omega (arith, length-append comp (b'/' ∷ rest))),
          drop-append-cons comp rest b'/' (length comp + 1) refl,
        )
        refl

-- a
pub parse_path-last :
    (comp : List ℕ)
    → IsPart comp
    → length comp ≢ 0
    → parse_path comp ≡ (if leb (length comp + 1) dlength then part (filled comp) [] else overruns)
unfolding parsed
parse_path-last comp h ne =
    parse_path-parsed comp comp ne (component-part comp h)
    ∙ rw (le→not_ltb (length comp) (length comp) (omega arith)) refl
