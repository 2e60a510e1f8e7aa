-- ===== src/Mem/Vm/Copy.antt =====
-- The rounds of the user copies.
use tnix.Common.{
  ℕ, zero, suc, ◌+◌, ◌-◌, ◌≤◌, ◌<◌, ◌≡◌, ◌≢◌, refl, Bool, true, false, not, ◌||◌, some, arith, ◌==◌,
  Bool-cases, inl, inr, not_==→ne, ne→not_==, ==→eq, eq→==, ap, ◌∙◌, ◌%◌, ◌⊎◌, if◌then◌else◌,
}
use tnix.Util.Str.{Memory, memcpy}
use tnix.Util.Str.Copy.{within, memcpy_lem}
use tnix.Mem.Pages.{pgsize}
use tnix.Mem.Words.{word}
use tnix.Mem.Vm.{
  va_to_pa, is_user_writable, is_user_readable, Copied, killed, copied, copy_len, copy_to_loop,
  copy_to_user, copy_from_loop, copy_from_user,
}

copy_len-pos : (u pend_bytes : ℕ) → pend_bytes ≢ 0 → 0 < copy_len u pend_bytes
copy_len-pos u pend_bytes ne = omega arith

copy_to_loop_returns :
    (fuel ptb ud kd pend_bytes : ℕ) (m : Memory)
    → pend_bytes < fuel
    → (r : Copied) × (copy_to_loop fuel ptb ud kd pend_bytes m ≡ some r)
unfolding copy_to_loop
copy_to_loop_returns zero ptb ud kd pend_bytes m h = absurd (omega arith)
copy_to_loop_returns (suc fuel) ptb ud kd pend_bytes m h = elim (Bool-cases (pend_bytes == 0)) [
  | inl e ↦ (copied m, rw (e, copy_to_loop) refl)
  | inr e ↦
      let ne : pend_bytes ≢ 0 = not_==→ne pend_bytes 0 e in
      let r = va_to_pa ptb ud m in
      let len = copy_len ud pend_bytes in
      elim (Bool-cases (r.0 == 0 || not (is_user_writable (word m r.1)))) [
        | inl k ↦ (killed m, rw (e, copy_to_loop, k) refl)
        | inr k ↦
            let (c, run) =
              copy_to_loop_returns fuel ptb (ud + len) (kd + len) (pend_bytes - len)
                (memcpy m r.0 kd len) (omega (arith, copy_len-pos ud pend_bytes ne)) in
            (c, rw (e, copy_to_loop, k) run)
      ]
]

copy_from_loop_returns :
    (fuel ptb kd us pend_bytes : ℕ) (m : Memory)
    → pend_bytes < fuel
    → (r : Copied) × (copy_from_loop fuel ptb kd us pend_bytes m ≡ some r)
unfolding copy_from_loop
copy_from_loop_returns zero ptb kd us pend_bytes m h = absurd (omega arith)
copy_from_loop_returns (suc fuel) ptb kd us pend_bytes m h = elim (Bool-cases (pend_bytes == 0)) [
  | inl e ↦ (copied m, rw (e, copy_from_loop) refl)
  | inr e ↦
      let ne : pend_bytes ≢ 0 = not_==→ne pend_bytes 0 e in
      let r = va_to_pa ptb us m in
      let len = copy_len us pend_bytes in
      elim (Bool-cases (r.0 == 0 || not (is_user_readable (word m r.1)))) [
        | inl k ↦ (killed m, rw (e, copy_from_loop, k) refl)
        | inr k ↦
            let (c, run) =
              copy_from_loop_returns fuel ptb (kd + len) (us + len) (pend_bytes - len)
                (memcpy m kd r.0 len) (omega (arith, copy_len-pos us pend_bytes ne)) in
            (c, rw (e, copy_from_loop, k) run)
      ]
]

-- Both copies come to an end.
pub copies_return :
    (ptb user kernel bytes : ℕ) (m : Memory)
    → ((r : Copied) × (copy_to_user ptb user kernel bytes m ≡ some r))
      × ((r : Copied) × (copy_from_user ptb kernel user bytes m ≡ some r))
unfolding copy_to_user copy_from_user
copies_return ptb user kernel bytes m = (
  copy_to_loop_returns (suc bytes) ptb user kernel bytes m (omega arith),
  copy_from_loop_returns (suc bytes) ptb kernel user bytes m (omega arith),
)

copy_to_loop_done :
    (fuel ptb ud kd pend_bytes : ℕ) (m : Memory)
    → pend_bytes ≡ 0
    → copy_to_loop (suc fuel) ptb ud kd pend_bytes m ≡ some (copied m)
unfolding copy_to_loop
copy_to_loop_done fuel ptb ud kd pend_bytes m e = rw (eq→== pend_bytes 0 e, copy_to_loop) refl

-- The one round for bytes in one page.
one_round :
    (ptb ud kd b : ℕ) (m : Memory)
    → ud % pgsize + suc b ≤ pgsize
    → ((va_to_pa ptb ud m).0 == 0 || not (is_user_writable (word m (va_to_pa ptb ud m).1))) ≡ false
    → copy_to_user ptb ud kd (suc b) m ≡ some (copied (memcpy m (va_to_pa ptb ud m).0 kd (suc b)))
unfolding copy_to_user
one_round ptb ud kd b m h k =
    rw (ne→not_== (suc b) 0 (omega arith), copy_to_loop, k)
      (copy_to_loop_done b ptb (ud + copy_len ud (suc b)) (kd + copy_len ud (suc b))
          (suc b - copy_len ud (suc b)) (memcpy m (va_to_pa ptb ud m).0 kd (copy_len ud (suc b)))
          (omega arith)
        ∙ ap (λ len. some (copied (memcpy m (va_to_pa ptb ud m).0 kd len))) whole)
  where
    whole : copy_len ud (suc b) ≡ suc b
    whole = omega arith

-- What the test of a round says.
test_cases :
    (a : ℕ) (w : Bool)
    → ((a ≢ 0) × (w ≡ true) × ((a == 0 || not w) ≡ false))
      ⊎ (((a ≡ 0) ⊎ (w ≡ false)) × ((a == 0 || not w) ≡ true))
test_cases a true = elim (Bool-cases (a == 0)) [
  | inl e ↦ inr (inl (==→eq a 0 e), rw e refl)
  | inr e ↦ inl (not_==→ne a 0 e, refl, rw e refl)
]
test_cases a false =
    inr (inr refl, elim (Bool-cases (a == 0)) [ inl e ↦ rw e refl | inr e ↦ rw e refl ])

-- For at least one byte that is copied inside one page of user addresses, `copy_to_user` ends in
-- one of two ways. With an address from `va_to_pa` and an entry that is writable for the user, the
-- bytes there are those of the source, and the rest of memory is as before; without one of the
-- two, the task is killed and memory is as before.
pub copy_to_user_lem :
    (ptb udst ksrc bytes : ℕ) (m : Memory)
    → bytes ≢ 0
    → udst % pgsize + bytes ≤ pgsize
    → (((va_to_pa ptb udst m).0 ≢ 0)
        × (is_user_writable (word m (va_to_pa ptb udst m).1) ≡ true)
        × ((m' : Memory) × (copy_to_user ptb udst ksrc bytes m ≡ some (copied m'))
            × ((x : ℕ)
                → m' x ≡ (
                    if within (va_to_pa ptb udst m).0 bytes x
                    then m (ksrc + (x - (va_to_pa ptb udst m).0))
                    else m x))))
      ⊎ ((((va_to_pa ptb udst m).0 ≡ 0)
            ⊎ (is_user_writable (word m (va_to_pa ptb udst m).1) ≡ false))
          × (copy_to_user ptb udst ksrc bytes m ≡ some (killed m)))
unfolding copy_to_user
copy_to_user_lem ptb udst ksrc zero m ne h = absurd (ne refl)
copy_to_user_lem ptb udst ksrc (suc b) m ne h =
    elim (test_cases (va_to_pa ptb udst m).0 (is_user_writable (word m (va_to_pa ptb udst m).1))) [
      | inl (a, w, k) ↦ inl (
        a,
        w,
        (
          memcpy m (va_to_pa ptb udst m).0 ksrc (suc b),
          one_round ptb udst ksrc b m h k,
          memcpy_lem m (va_to_pa ptb udst m).0 ksrc (suc b),
        ),
      )
      | inr (why, k) ↦ inr (why, rw (ne→not_== (suc b) 0 (omega arith), copy_to_loop, k) refl)
    ]
