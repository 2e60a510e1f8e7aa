-- ===== src/Syscall/Fd/Calls.antt =====
-- What installing, duplicating and closing do to the table of open files.
use tnix.Common.{
  ℕ, ◌+◌, ◌-◌, ◌≤◌, ◌<◌, ◌≡◌, ◌≢◌, refl, ap, sym, ◌∙◌, min, List, ◌∷◌, Option, none, some, arith,
  if◌then◌else◌, ◌==◌, leb, lt→not_leb, Bool-cases, inl, inr, ◌⊎◌, ne→not_==, length, get_or, set,
  length-set, get_or-set_self, get_or-set_ne,
}
use tnix.Syscall.Fd.{
  nfile, FsStruct, Outcome, first_null, move_fdi, install, set_refc, fdup, fclose, sys_dup,
  sys_close,
}
use tnix.Syscall.Fd.Table.{
  one, count, count-set, count-le, count-pos, Taken, IsValid, Search, full, found,
  first_null-Search,
}

-- What `move_fdi` promises of a table whose slots below `fdx` are taken.
record Tracks (t s : FsStruct) : Type 0 where
  files_kept : s.files ≡ t.files
  refc_kept : s.refc ≡ t.refc
  inside : s.fdx < nfile
  below : Taken s.files 0 s.fdx
  lowest : (get_or s.files s.fdx 0 ≡ 0) ⊎ Taken s.files 0 nfile

join : (files : List ℕ) (k n : ℕ) → Taken files 0 k → Taken files k n → Taken files 0 n
join files k n a b j l u = elim (Bool-cases (leb k j)) [
  | inl e ↦ b j (ground arith) u
  | inr e ↦ a j l (ground arith)
]

moved :
    (t : FsStruct) (o : Option ℕ)
    → Search t.files t.fdx (nfile - t.fdx) o
    → t.fdx < nfile
    → Taken t.files 0 t.fdx
    → Tracks t (elim o [ none ↦ t | some i ↦ record t { fdx = i } ])
moved t none (full r) h b = record {
  files_kept = refl;
  refc_kept = refl;
  inside = h;
  below = b;
  lowest = inr (join t.files t.fdx nfile b (λ j l u. r j l (omega arith)));
}
moved t (some k) (found _ l u z r) h b = record {
  files_kept = refl;
  refc_kept = refl;
  inside = omega arith;
  below = join t.files t.fdx k b r;
  lowest = inl z;
}

move_fdi-Tracks : (t : FsStruct) → t.fdx < nfile → Taken t.files 0 t.fdx → Tracks t (move_fdi t)
unfolding move_fdi
move_fdi-Tracks t h b =
    moved t (first_null t.files t.fdx (nfile - t.fdx))
      (first_null-Search t.files t.fdx (nfile - t.fdx)) h b

install-Tracks :
    (f : ℕ) (s : FsStruct)
    → s.fdx < nfile
    → Taken s.files 0 s.fdx
    → Tracks (record s { files = set s.files s.fdx f }) (install f s)
unfolding install
install-Tracks f s h b =
    move_fdi-Tracks (record s { files = set s.files s.fdx f }) h
      (λ j l u z. b j l u (sym (get_or-set_ne s.files s.fdx j f 0 (omega arith)) ∙ z))

-- One slot changes to `f`, and the invariant holds.
pub record Becomes (s : FsStruct) (i f : ℕ) (t : FsStruct) : Type 0 where
  pub valid : IsValid t
  pub changed : get_or t.files i 0 ≡ f
  pub others : (j : ℕ) → j ≢ i → get_or t.files j 0 ≡ get_or s.files j 0

module _ (s : FsStruct) (v : IsValid s) (fd : ℕ) (h : fd < nfile)
    (used : get_or s.files fd 0 ≢ 0) where
  abbrev file : ℕ
  file = get_or s.files fd 0

  refc-eq_count : s.refc file ≡ count file s.files
  refc-eq_count = v.counted file used

  refc-pos : 0 < s.refc file
  refc-pos = omega (arith, refc-eq_count, count-pos s.files fd (omega (arith, v.size)))

  refc-le : s.refc file ≤ nfile
  refc-le = omega (arith, refc-eq_count, count-le file s.files, v.size)

  abbrev upped : FsStruct
  upped = set_refc s file (s.refc file + 1)

  fdup_lem : fdup file s ≡ some upped
  unfolding fdup
  fdup_lem =
      rw (ne→not_== (s.refc file) 0 (omega (arith, refc-pos)))
        (ap (λ k. some (set_refc s file k)) (omega (arith, refc-le)))

  dup_runs : sys_dup fd s ≡ Outcome.returns s.fdx (install file upped)
  unfolding sys_dup set_refc
  dup_runs = rw (lt→not_leb nfile fd (omega arith), ne→not_== file 0 used, fdup_lem) refl

  dup_counted :
      get_or s.files s.fdx 0 ≡ 0 → (f : ℕ) → f ≢ 0 → upped.refc f ≡ count f (set s.files s.fdx file)
  unfolding set_refc
  dup_counted z f ne =
      ground
        (arith, count-set f s.files s.fdx file (omega (arith, v.size, v.inside)), v.counted f ne, z)

  dup-Becomes : get_or s.files s.fdx 0 ≡ 0 → Becomes s s.fdx file (install file upped)
  unfolding set_refc
  dup-Becomes z =
      let k = install-Tracks file upped v.inside v.below in
      record {
        valid = record {
          size = ap length k.files_kept ∙ length-set s.files s.fdx file ∙ v.size;
          inside = k.inside;
          below = k.below;
          lowest = k.lowest;
          counted = λ f ne.
              ap (λ r. r f) k.refc_kept ∙ dup_counted z f ne ∙ ap (count f) (sym k.files_kept);
        };
        changed =
            ap (λ l. get_or l s.fdx 0) k.files_kept
            ∙ get_or-set_self s.files s.fdx file 0 (omega (arith, v.size, v.inside));
        others = λ j ne.
            ap (λ l. get_or l j 0) k.files_kept
            ∙ get_or-set_ne s.files s.fdx j file 0 (λ e. ne (sym e));
      }

  -- In a table that fulfils its invariant, with slot `fdx` free and an open file at `fd`:
  -- `sys_dup` returns `fdx`, the slot then names that file, the others are as before, and the
  -- invariant is kept.
  pub sys_dup-Becomes :
      get_or s.files s.fdx 0 ≡ 0
      → (t : FsStruct) × (sys_dup fd s ≡ Outcome.returns s.fdx t) × Becomes s s.fdx file t
  sys_dup-Becomes z = (install file upped, dup_runs, dup-Becomes z)

  -- The state behind `fclose`.
  abbrev downed : FsStruct
  downed =
      if s.refc file - 1 == 0
      then record (set_refc s file (s.refc file - 1)) { released = file ∷ s.released }
      else set_refc s file (s.refc file - 1)

  abbrev closed : FsStruct
  closed = record downed { files = set downed.files fd 0; fdx = min fd downed.fdx }

  close_runs : sys_close fd s ≡ Outcome.returns 0 closed
  unfolding sys_close fclose set_refc
  close_runs =
      rw
        (
          lt→not_leb nfile fd (omega arith),
          ne→not_== file 0 used,
          ne→not_== (s.refc file) 0 (omega (arith, refc-pos)),
        )
        refl

  downed_fields :
      (downed.files ≡ s.files)
      × (downed.fdx ≡ s.fdx)
      × ((f : ℕ) → downed.refc f ≡ (if f == file then s.refc file - 1 else s.refc f))
  unfolding set_refc
  downed_fields = elim (Bool-cases (s.refc file - 1 == 0)) [
    | inl e ↦ rw e (refl, refl, λ f. refl)
    | inr e ↦ rw e (refl, refl, λ f. refl)
  ]

  closed_files : closed.files ≡ set s.files fd 0
  closed_files = let (e, _, _) = downed_fields in ap (λ l. set l fd 0) e

  closed_fdx : closed.fdx ≡ min fd s.fdx
  closed_fdx = let (_, e, _) = downed_fields in ap (min fd) e

  count-closed : (f : ℕ) → f ≢ 0 → count f (set s.files fd 0) + one f file ≡ count f s.files
  count-closed f ne =
      ground (arith, count-set f s.files fd 0 (omega (arith, v.size)), v.counted f ne)

  closed_counted : (f : ℕ) → f ≢ 0 → closed.refc f ≡ count f closed.files
  closed_counted f ne =
      let (_, _, e) = downed_fields in e f ∙ counted_here ∙ ap (count f) (sym closed_files)
    where
      counted_here : (if f == file then s.refc file - 1 else s.refc f) ≡ count f (set s.files fd 0)
      counted_here = ground (arith, count-closed f ne, v.counted f ne)

  count_left : count file closed.files ≡ s.refc file - 1
  count_left =
      omega
        (arith, ap (count file) closed_files, count-closed file used, refc-eq_count, one_self file)
    where
      one_self : (f : ℕ) → one f f ≡ 1
      one_self f = ground arith

  downed_released :
      downed.released ≡ (if s.refc file - 1 == 0 then file ∷ s.released else s.released)
  unfolding set_refc
  downed_released = elim (Bool-cases (s.refc file - 1 == 0)) [
    | inl e ↦ rw e refl
    | inr e ↦ rw e refl
  ]

  slot_kept : (j : ℕ) → j ≢ fd → get_or closed.files j 0 ≡ get_or s.files j 0
  slot_kept j ne =
      ap (λ l. get_or l j 0) closed_files ∙ get_or-set_ne s.files fd j 0 0 (λ e. ne (sym e))

  slot_freed : get_or closed.files fd 0 ≡ 0
  slot_freed =
      ap (λ l. get_or l fd 0) closed_files ∙ get_or-set_self s.files fd 0 0 (omega (arith, v.size))

  closed_below : Taken closed.files 0 closed.fdx
  closed_below j l u z =
      v.below j l (omega (arith, closed_fdx)) (sym (slot_kept j (omega (arith, closed_fdx))) ∙ z)

  closed_lowest : (fd ≤ s.fdx) ⊎ (get_or s.files s.fdx 0 ≡ 0) → get_or closed.files closed.fdx 0 ≡ 0
  closed_lowest c = elim (Bool-cases (leb fd s.fdx)) [
    | inl e ↦ ap (get_or_of closed.files) (closed_fdx ∙ ground arith) ∙ slot_freed
    | inr e ↦ elim c [
      | inl le ↦ absurd (ground arith)
      | inr z ↦
          ap (get_or_of closed.files) (closed_fdx ∙ ground arith)
          ∙ slot_kept s.fdx (ground arith)
          ∙ z
    ]
  ]
    where
      get_or_of : List ℕ → ℕ → ℕ
      get_or_of l j = get_or l j 0

  -- In a table that fulfils its invariant, with an open file at `fd`, and `fd` not above `fdx` or
  -- slot `fdx` free: `sys_close` returns 0 and keeps the invariant, which says that `fdx` is the
  -- lowest free slot, if there is one, and that each file's count is the number of slots that name
  -- it; slot `fd` is free, the others are as before, and the file is released exactly if no slot
  -- names it any more.
  pub sys_close-Becomes :
      (fd ≤ s.fdx) ⊎ (get_or s.files s.fdx 0 ≡ 0)
      → (t : FsStruct) × (sys_close fd s ≡ Outcome.returns 0 t)
        × Becomes s fd 0 t
        × (t.released ≡ (if count file t.files == 0 then file ∷ s.released else s.released))
  sys_close-Becomes c = (
    closed,
    close_runs,
    record {
      valid = record {
        size = ap length closed_files ∙ length-set s.files fd 0 ∙ v.size;
        inside = omega (arith, closed_fdx, v.inside);
        below = closed_below;
        lowest = inl (closed_lowest c);
        counted = closed_counted;
      };
      changed = slot_freed;
      others = slot_kept;
    },
    downed_released ∙ ap (λ k. if k == 0 then file ∷ s.released else s.released) (sym count_left),
  )

  -- In a full table that fulfils the invariant, `sys_close` of a slot above `fdx` returns 0 and
  -- leaves `fdx` on a slot that is in use, and the next file that is installed replaces the one in
  -- that slot.
  pub sys_close_hides :
      (f : ℕ)
      → Taken s.files 0 nfile
      → s.fdx < fd
      → (t : FsStruct) × (sys_close fd s ≡ Outcome.returns 0 t)
        × (t.fdx ≡ s.fdx)
        × (get_or t.files t.fdx 0 ≢ 0)
        × (get_or (install f t).files t.fdx 0 ≡ f)
  sys_close_hides f all lt = (
    closed,
    close_runs,
    same,
    λ z.
        all s.fdx (omega arith) v.inside
          (sym (slot_kept s.fdx (omega arith)) ∙ ap (λ j. get_or closed.files j 0) (sym same) ∙ z),
    ap (λ l. get_or l closed.fdx 0)
          (install-Tracks f closed (omega (arith, same, v.inside)) closed_below).files_kept
        ∙ get_or-set_self closed.files closed.fdx f 0 (
            omega (arith, same, v.inside, ap length closed_files, length-set s.files fd 0, v.size)),
  )
    where
      same : closed.fdx ≡ s.fdx
      same = closed_fdx ∙ omega arith
