-- ===== src/Syscall/Fd/Examples.antt =====
-- Runs on a table with the console three times and one file, and on a full table.
use tnix.Common.{
  ℕ, zero, suc, ◌<◌, ◌≡◌, ◌≢◌, refl, [], ◌∷◌, arith, if◌then◌else◌, ◌==◌, inl, inr, get_or,
  replicate,
}
use tnix.Syscall.Fd.{FsStruct, Outcome, install, sys_close}
use tnix.Syscall.Fd.Table.{count, Taken, IsValid}
use tnix.Syscall.Fd.Calls.{Becomes, sys_close-Becomes, sys_close_hides}

-- File 8 is the console, in slots 0 to 2; file 9 is in slot 3, and slot 4 is next.
abbrev young : FsStruct
young = record {
  files = 8 ∷ 8 ∷ 8 ∷ 9 ∷ 0 ∷ 0 ∷ 0 ∷ 0 ∷ 0 ∷ 0 ∷ 0 ∷ 0 ∷ 0 ∷ 0 ∷ 0 ∷ 0 ∷ [];
  fdx = 4;
  refc = λ f. if f == 8 then 3 else if f == 9 then 1 else 0;
  released = [];
}

young-IsValid : IsValid young
unfolding count
young-IsValid = record {
  size = refl;
  inside = omega arith;
  below = taken;
  lowest = inl refl;
  counted = λ f ne. ground arith;
}
  where
    taken : Taken young.files 0 4
    taken zero l u = omega arith
    taken (suc zero) l u = omega arith
    taken (suc (suc zero)) l u = omega arith
    taken (suc (suc (suc zero))) l u = omega arith
    taken (suc (suc (suc (suc j)))) l u = absurd (omega arith)

-- The console everywhere; slot 3 was filled last.
abbrev full : FsStruct
full = record {
  files = 8 ∷ 8 ∷ 8 ∷ 8 ∷ 8 ∷ 8 ∷ 8 ∷ 8 ∷ 8 ∷ 8 ∷ 8 ∷ 8 ∷ 8 ∷ 8 ∷ 8 ∷ 8 ∷ [];
  fdx = 3;
  refc = λ f. if f == 8 then 16 else 0;
  released = [];
}

get_or-replicate : (n a j : ℕ) → j < n → get_or (replicate n a) j 0 ≡ a
get_or-replicate zero a j u = absurd (omega arith)
get_or-replicate (suc n) a zero u = refl
get_or-replicate (suc n) a (suc j) u = get_or-replicate n a j (omega arith)

full-all : Taken full.files 0 16
full-all j l u z = omega (arith, get_or-replicate 16 8 j u, z)

full-IsValid : IsValid full
unfolding count
full-IsValid = record {
  size = refl;
  inside = omega arith;
  below = λ j l u. full-all j l (omega arith);
  lowest = inr full-all;
  counted = λ f ne. ground arith;
}

sys_close-Becomes_example :
    (t : FsStruct) × (sys_close 3 young ≡ Outcome.returns 0 t)
    × Becomes young 3 0 t
    × (t.released ≡ (if count 9 t.files == 0 then 9 ∷ [] else []))
sys_close-Becomes_example =
    sys_close-Becomes young young-IsValid 3 (omega arith) (omega arith) (inl (omega arith))

sys_close_hides_example :
    (t : FsStruct) × (sys_close 7 full ≡ Outcome.returns 0 t)
    × (t.fdx ≡ 3)
    × (get_or t.files t.fdx 0 ≢ 0)
    × (get_or (install 9 t).files t.fdx 0 ≡ 9)
sys_close_hides_example =
    sys_close_hides full full-IsValid 7 (omega arith) (omega arith) 9 full-all (omega arith)
