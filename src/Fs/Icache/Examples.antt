-- ===== src/Fs/Icache/Examples.antt =====
-- A table that the theorems are applied to.
use tnix.Common.{ℕ, ◌≡◌, refl, arith, List, [], ◌∷◌, true, false, ◌⊎◌}
use tnix.Fs.Icache.{Cached, iget, iget_hit, null, panics, entry}
use tnix.Fs.Icache.Copies.{copies, Full, Has, iget-Has}
use tnix.Fs.Icache.Race.{Twice, iget-Twice}

-- One entry is in use.
abbrev table : List Cached
table =
    record { sb = 9; inum = 3; refc = 1 }
    ∷ record { sb = 9; inum = 4; refc = 0 }
    ∷ record { sb = 0; inum = 0; refc = 0 }
    ∷ []

iget-Has_example :
    ((iget true 9 5 table ≡ null) × (true ≡ false) × (copies 9 5 table ≡ 0))
    ⊎ ((iget true 9 5 table ≡ panics) × (true ≡ true) × (copies 9 5 table ≡ 0) × Full table)
    ⊎ ((i : ℕ) × (cs' : List Cached) × (iget true 9 5 table ≡ entry i cs') × Has 9 5 i table cs')
iget-Has_example = iget-Has 9 5 true table

iget-Twice_example : Twice 9 5 table
iget-Twice_example = iget-Twice 9 5 table (unfold iget_hit in refl) (omega arith)
