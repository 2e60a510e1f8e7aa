-- ===== src/Syscall/Paths/Follow.antt =====
-- A path behind an entry that is added to a directory.
use tnix.Common.{
  ℕ, zero, suc, ◌+◌, ◌-◌, ◌≡◌, ◌≢◌, refl, ap, sym, ◌∙◌, List, [], ◌∷◌, ◌++◌, Option, none, some,
  if◌then◌else◌, ◌==◌, ltb, length, get_or, replicate, Bool-cases, Option-cases, inl, inr, ==→eq,
  eq→==, append_assoc, ◌⊎◌,
}
use tnix.Fs.Names.{dlength, dentry_name_set, dentry_name_equal, name_equal, filled}
use tnix.Fs.Names.Equal.{dentry_name_equal-dentry_name_set}
use tnix.Fs.Dir.{
  Dentry, DirBlock, in_use, find_entry, find_block, Found, missing, inode, dentry_add,
}
use tnix.Fs.Dir.Lookup.{IsDir}
use tnix.Fs.Dir.Fill.{IsFull}
use tnix.Fs.Dir.Change.{IsBlank, find_block-dentry_add}
use tnix.Fs.Dir.Walk.{join, follow}

-- Zeros behind a name change nothing.
get_or-zeros : (xs : List ℕ) (k i : ℕ) → get_or (xs ++ replicate k 0) i 0 ≡ get_or xs i 0
get_or-zeros [] zero i = refl
get_or-zeros [] (suc k) zero = refl
get_or-zeros [] (suc k) (suc i) = get_or-zeros [] k i
get_or-zeros (x ∷ xs) k zero = refl
get_or-zeros (x ∷ xs) k (suc i) = get_or-zeros xs k i

name_equal-ext :
    (n i : ℕ) (s a b : List ℕ)
    → ((j : ℕ) → get_or a j 0 ≡ get_or b j 0)
    → name_equal n i s a ≡ name_equal n i s b
unfolding name_equal
name_equal-ext zero i s a b e = rw (e i) refl
name_equal-ext (suc n) i s a b e =
    rw (name_equal, e i)
      (elim (Bool-cases (get_or s i 0 == get_or b i 0)) [
        | inr d ↦ rw (d, name_equal) refl
        | inl d ↦ elim (Bool-cases (get_or s i 0 == 0)) [
          | inl z ↦ rw (d, z, name_equal) refl
          | inr z ↦ rw (d, z, name_equal) (name_equal-ext n (suc i) s a b e)
        ]
      ])

same_name : (s n : List ℕ) → dentry_name_equal s (filled n) ≡ dentry_name_equal s n
unfolding dentry_name_equal
same_name s n = name_equal-ext dlength 0 s (filled n) n (get_or-zeros n (dlength - length n))

find_entry-filled :
    (es : List Dentry) (k cnt : ℕ) (n : List ℕ)
    → find_entry es k cnt (filled n) ≡ find_entry es k cnt n
unfolding find_entry
find_entry-filled [] k cnt n = refl
find_entry-filled (e ∷ es) k cnt n = elim (Bool-cases (ltb k cnt)) [
  | inr l ↦ rw (l, find_entry) refl
  | inl l ↦ elim (Bool-cases (dentry_name_equal e.name n)) [
    | inl q ↦ rw (l, same_name e.name n, q, find_entry) refl
    | inr q ↦
        rw (l, same_name e.name n, q, find_entry)
          (find_entry-filled es (if in_use e then k + 1 else k) cnt n)
  ]
]

pub find_block-filled :
    (bs : List DirBlock) (n : List ℕ) → find_block bs (filled n) ≡ find_block bs n
unfolding find_block
find_block-filled [] n = refl
find_block-filled (b ∷ bs) n = elim (Option-cases (find_entry b.entries 0 b.cnt n)) [
  | inl e ↦ rw (find_entry-filled b.entries 0 b.cnt n, e, find_block) (find_block-filled bs n)
  | inr (i, e) ↦ rw (find_entry-filled b.entries 0 b.cnt n, e, find_block) refl
]

abbrev pub AreFull : List (List ℕ) → Type 0
AreFull [] = Unit {0}
AreFull (n ∷ ns) = IsFull n × AreFull ns

-- What a name stands for in the first it stands for in the second.
abbrev pub Keeps : (ℕ → List DirBlock) → (ℕ → List DirBlock) → Type 0
Keeps dirs dirs' =
    (c k : ℕ) (o : List ℕ)
    → IsFull o
    → find_block (dirs c) o ≡ some k
    → find_block (dirs' c) o ≡ some k

-- One step.
follow_step :
    (dirs : ℕ → List DirBlock) (cur c : ℕ) (n : List ℕ) (ns : List (List ℕ))
    → find_block (dirs cur) (filled n) ≡ some c
    → follow dirs cur (n ∷ ns) ≡ follow dirs c ns
unfolding follow
follow_step dirs cur c n ns e = rw (e, follow) refl

follow_stops :
    (dirs : ℕ → List DirBlock) (cur : ℕ) (n : List ℕ) (ns : List (List ℕ))
    → find_block (dirs cur) (filled n) ≡ none
    → follow dirs cur (n ∷ ns) ≡ missing
unfolding follow
follow_stops dirs cur n ns e = rw (e, follow) refl

missing_inode : (k : ℕ) → ◌≢◌ {A = Found} missing (inode k)
missing_inode k e = absurd (cc e)

pub follow-Keeps :
    (dirs dirs' : ℕ → List DirBlock) (cur k : ℕ) (ns : List (List ℕ))
    → Keeps dirs dirs'
    → AreFull ns
    → follow dirs cur ns ≡ inode k
    → follow dirs' cur ns ≡ inode k
follow-Keeps dirs dirs' cur k [] h f e = unfold follow in e
follow-Keeps dirs dirs' cur k (n ∷ ns) h f e =
    elim (Option-cases (find_block (dirs cur) (filled n))) [
      | inl g ↦ absurd (missing_inode k (sym (follow_stops dirs cur n ns g) ∙ e))
      | inr (c, g) ↦
          follow_step dirs' cur c n ns (
            find_block-filled (dirs' cur) n
            ∙ h cur c n f.0 (sym (find_block-filled (dirs cur) n) ∙ g))
          ∙ follow-Keeps dirs dirs' c k ns h f.1 (sym (follow_step dirs cur c n ns g) ∙ e)
    ]

-- One name more.
pub follow-append :
    (dirs : ℕ → List DirBlock) (cur p : ℕ) (ns : List (List ℕ)) (n : List ℕ)
    → follow dirs cur ns ≡ inode p
    → follow dirs cur (ns ++ n ∷ []) ≡ follow dirs p (n ∷ [])
follow-append dirs cur p [] n e = ap (λ c. follow dirs c (n ∷ [])) (here e)
  where
    here : follow dirs cur [] ≡ inode p → cur ≡ p
    here e = unfold follow in cc e
follow-append dirs cur p (m ∷ ns) n e = elim (Option-cases (find_block (dirs cur) (filled m))) [
  | inl g ↦ absurd (missing_inode p (sym (follow_stops dirs cur m ns g) ∙ e))
  | inr (c, g) ↦
      follow_step dirs cur c m (ns ++ n ∷ []) g
      ∙ follow-append dirs c p ns n (sym (follow_step dirs cur c m ns g) ∙ e)
]

pub follow_one :
    (dirs : ℕ → List DirBlock) (p i : ℕ) (n : List ℕ)
    → find_block (dirs p) n ≡ some i
    → follow dirs p (n ∷ []) ≡ inode i
unfolding follow
follow_one dirs p i n e = follow_step dirs p i n [] (find_block-filled (dirs p) n ∙ e)

pub follow-none :
    (dirs : ℕ → List DirBlock) (p : ℕ) (n : List ℕ)
    → find_block (dirs p) n ≡ none
    → follow dirs p (n ∷ []) ≡ missing
follow-none dirs p n e = follow_stops dirs p n [] (find_block-filled (dirs p) n ∙ e)

-- One path more.
pub join-append :
    (m : List ℕ) (ns : List (List ℕ)) (n : List ℕ)
    → join (m ∷ ns ++ n ∷ []) ≡ join (m ∷ ns) ++ b'/' ∷ n
unfolding join
join-append m [] n = refl
join-append m (k ∷ ns) n =
    ap (λ l. m ++ b'/' ∷ l) (join-append k ns n)
    ∙ sym (append_assoc m (b'/' ∷ join (k ∷ ns)) (b'/' ∷ n))

-- Two names that differ, or do not.
same_or_not : (n o : List ℕ) → IsFull n → IsFull o → (n ≡ o) ⊎ (n ≢ o)
same_or_not n o f g =
    let (to, from) =
      dentry_name_equal-dentry_name_set (replicate dlength 0) n o refl f.fits g.fits.whole in
    elim (Bool-cases (dentry_name_equal (dentry_name_set (replicate dlength 0) n) o)) [
      | inl e ↦ inl (to e)
      | inr e ↦ inr (λ q. absurd (cc (e, from q)))
    ]

-- The names of the directory keep what they stand for when one that is new is added.
pub dentry_add-Keeps :
    (fresh : DirBlock) (p i : ℕ) (n : List ℕ) (dirs dirs' : ℕ → List DirBlock)
    → IsFull n
    → IsBlank fresh
    → IsDir (dirs p)
    → find_block (dirs p) n ≡ none
    → ((c : ℕ) → dirs' c ≡ (if c == p then dentry_add i n fresh (dirs p) else dirs c))
    → Keeps dirs dirs' × (find_block (dirs' p) n ≡ some i)
dentry_add-Keeps fresh p i n dirs dirs' f b v e d =
    let (gives, others, valid) = find_block-dentry_add i n f fresh b (dirs p) v e in
    (
      λ c k o g h. elim (Bool-cases (c == p)) [
        | inr t ↦ let q : dirs' c ≡ dirs c = d c ∙ rw t refl in ap (λ bs. find_block bs o) q ∙ h
        | inl t ↦
            let at_p : find_block (dirs p) o ≡ some k =
              ap (λ x. find_block (dirs x) o) (sym (==→eq c p t)) ∙ h in
            let r : dirs' c ≡ dentry_add i n fresh (dirs p) = d c ∙ rw t refl in
            ap (λ bs. find_block bs o) r ∙ elim (same_or_not n o f g) [
              | inl q ↦ absurd (none_some k (sym e ∙ ap (find_block (dirs p)) q ∙ at_p))
              | inr ne ↦ others o g (λ q. ne (sym q)) ∙ at_p
            ]
      ],
      ap (λ bs. find_block bs n) at_self ∙ gives,
    )
  where
    at_self : dirs' p ≡ dentry_add i n fresh (dirs p)
    at_self = d p ∙ rw (eq→== p p refl) refl

    none_some : (k : ℕ) → ◌≢◌ {A = Option ℕ} none (some k)
    none_some k q = absurd (cc q)
