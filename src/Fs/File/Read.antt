-- ===== src/Fs/File/Read.antt =====
-- What `fread` copies from a file of direct blocks, and where `blockno_of_data` goes wrong.
use tnix.Common.{
  ℕ, zero, suc, ◌+◌, ◌-◌, ◌*◌, ◌/◌, ◌%◌, ◌≤◌, ◌<◌, ◌≡◌, refl, ap, ap₂, sym, ◌∙◌, min, List, [],
  ◌++◌, none, some, arith, ◌==◌, Bool-cases, inl, inr, ==→eq, not_==→ne, lt→ltb, lt→not_leb,
  le→not_ltb, Option-cases, length, get_elem?, get_or, get_elem?-eq-get_or, tabulate, tabulate-add,
  tabulate-ext, append_assoc, append-nil, sub32,
}
use tnix.Fs.Blocks.{bsize, Disk}
use tnix.Fs.File.{ndirect, idx_cnt, File, blockno_of_data, fread_loop, fread_of, fread}

-- Byte `o` of a file of direct blocks.
abbrev pub byte : File → Disk → ℕ → ℕ
byte f d o = d (get_or f.iblock (o / bsize) 0) (o % bsize)

-- For an offset 256 bytes or more behind the direct blocks `blockno_of_data` accesses an entry
-- outside `iblock` or outside the index block.
pub blockno_of_data-outside :
    (f : File) (d : Disk) (off : ℕ)
    → bsize * ndirect + idx_cnt ≤ off
    → blockno_of_data f d off ≡ none
unfolding blockno_of_data
blockno_of_data-outside f d off h =
    elim (Option-cases (get_elem? f.iblock ((off - bsize * ndirect) / idx_cnt + ndirect))) [
      | inl e ↦ rw (le→not_ltb off (bsize * ndirect) (omega arith), e) refl
      | inr (b, e) ↦
          rw
            (
              le→not_ltb off (bsize * ndirect) (omega arith),
              e,
              lt→not_leb ((off - bsize * ndirect) / idx_cnt * idx_cnt) (off / bsize - ndirect)
                  (omega arith),
            )
            refl
    ]

module _ (f : File) (d : Disk) (size : length f.iblock ≡ 15) where
  direct :
      (off : ℕ)
      → off < bsize * ndirect
      → blockno_of_data f d off ≡ some (get_or f.iblock (off / bsize) 0)
  unfolding blockno_of_data
  direct off h =
      rw (lt→ltb off (bsize * ndirect) h)
        (get_elem?-eq-get_or f.iblock (off / bsize) 0 (omega (arith, size)))

  chunk :
      (pcur len : ℕ)
      → len ≤ bsize - pcur % bsize
      → tabulate len (λ k. d (get_or f.iblock (pcur / bsize) 0) (pcur % bsize + k))
        ≡ tabulate len (λ k. byte f d (pcur + k))
  chunk pcur len h =
      tabulate-ext len (λ k. d (get_or f.iblock (pcur / bsize) 0) (pcur % bsize + k))
        (λ k. byte f d (pcur + k))
        (λ k u. place (pcur / bsize) (pcur % bsize + k) (pcur + k) (omega arith) (omega arith))
    where
      place : (x y o : ℕ) → x ≡ o / bsize → y ≡ o % bsize → d (get_or f.iblock x 0) y ≡ byte f d o
      place x y o p q = ap₂ (λ x y. d (get_or f.iblock x 0) y) p q

  abbrev len_of : ℕ → ℕ → ℕ
  len_of pcur pend = min (bsize - pcur % bsize) pend

  abbrev piece : ℕ → ℕ → List ℕ
  piece pcur len = tabulate len (λ k. d (get_or f.iblock (pcur / bsize) 0) (pcur % bsize + k))

  regroup :
      (out : List ℕ) (pcur len pend : ℕ)
      → len ≤ bsize - pcur % bsize
      → len ≤ pend
      → (out ++ piece pcur len) ++ tabulate (pend - len) (λ k. byte f d (pcur + len + k))
        ≡ out ++ tabulate pend (λ k. byte f d (pcur + k))
  regroup out pcur len pend h u =
      append_assoc out (piece pcur len) (tabulate (pend - len) (λ k. byte f d (pcur + len + k)))
      ∙ ap (λ t. out ++ t)
          (ap₂ ◌++◌ (chunk pcur len h) (
              tabulate-ext (pend - len) (λ k. byte f d (pcur + len + k))
                (λ k. byte f d (pcur + (len + k))) (λ k w. ap (byte f d) (omega arith)))
            ∙ sym (tabulate-add len (pend - len) pend (λ k. byte f d (pcur + k)) (omega arith)))

  fread_loop_lem :
      (fuel pcur pend : ℕ) (out : List ℕ)
      → pcur + pend ≤ bsize * ndirect
      → pend < fuel
      → fread_loop fuel f d pcur pend out ≡ some (out ++ tabulate pend (λ k. byte f d (pcur + k)))
  unfolding fread_loop
  fread_loop_lem zero pcur pend out h u = absurd (omega arith)
  fread_loop_lem (suc fuel) pcur pend out h u = elim (Bool-cases (pend == 0)) [
    | inl e ↦ rw (e, ==→eq pend 0 e) (ap some (sym (append-nil out)))
    | inr e ↦
        rw (e, direct pcur (omega (arith, not_==→ne pend 0 e)))
          (fread_loop_lem fuel (pcur + len_of pcur pend) (pend - len_of pcur pend)
              (out ++ piece pcur (len_of pcur pend)) (omega arith)
              (omega (arith, not_==→ne pend 0 e))
            ∙ ap some (regroup out pcur (len_of pcur pend) pend (omega arith) (omega arith)))
  ]

  whole :
      (n : ℕ)
      → f.off + n ≤ bsize * ndirect
      → fread_of f d n
        ≡ some (tabulate n (λ k. byte f d (f.off + k)), n, record f { off = f.off + n })
  unfolding fread_of
  whole n h = rw (fread_loop_lem (suc n) f.off n [] h (omega arith), fread_of) refl

  -- Of a file with 15 block entries that lies in its direct blocks, and whose offset is not behind
  -- its end, `fread` ends and stays inside the arrays: it copies the bytes of the file from the
  -- offset on, `bytes` of them or as many as there are up to the end, returns their number and
  -- moves the offset by it.
  pub fread_lem :
      (bytes : ℕ)
      → f.off ≤ f.fsize
      → f.fsize ≤ bsize * ndirect
      → let n = min bytes (f.fsize - f.off) in
        fread f d bytes
        ≡ some (tabulate n (λ k. byte f d (f.off + k)), n, record f { off = f.off + n })
  unfolding fread
  fread_lem bytes h u =
      ap (λ k. fread_of f d (min bytes k)) small ∙ whole (min bytes (f.fsize - f.off)) (omega arith)
    where
      small : sub32 f.fsize f.off ≡ f.fsize - f.off
      small = omega arith
