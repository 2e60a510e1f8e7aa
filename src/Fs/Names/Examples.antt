-- ===== src/Fs/Names/Examples.antt =====
-- Names and paths.
use tnix.Common.{ℕ, zero, suc, ◌≡◌, ◌↔◌, refl, List, [], ◌∷◌, ◌++◌, true, arith, replicate}
use tnix.Fs.Names.{dentry_name_set, dentry_name_equal, parse_path, overruns, path_split}
use tnix.Fs.Names.Equal.{IsName, IsString, dentry_name_equal-dentry_name_set}

abbrev sh : List ℕ
sh = b's' ∷ b'h' ∷ []

abbrev shell : List ℕ
shell = b's' ∷ b'h' ∷ b'e' ∷ b'l' ∷ b'l' ∷ []

sh-IsString : IsString sh
sh-IsString zero h = omega arith
sh-IsString (suc zero) h = omega arith
sh-IsString (suc (suc i)) h = absurd (omega arith)

sh-IsName : IsName sh
sh-IsName = record { short = omega arith; whole = sh-IsString }

-- A longer name was in the entry before.
set_run :
    dentry_name_set (shell ++ replicate 23 0) sh ≡ b's' ∷ b'h' ∷ 0 ∷ b'l' ∷ b'l' ∷ replicate 23 0
unfolding dentry_name_set
set_run = refl

dentry_name_equal-dentry_name_set_example :
    (dentry_name_equal (dentry_name_set (shell ++ replicate 23 0) sh) sh ≡ true) ↔ (sh ≡ sh)
dentry_name_equal-dentry_name_set_example =
    dentry_name_equal-dentry_name_set (shell ++ replicate 23 0) sh sh refl sh-IsName sh-IsString

parse_path_long : parse_path (replicate 28 b'a') ≡ overruns
unfolding parse_path
parse_path_long = refl

root_parent : path_split (b'/' ∷ sh) ≡ ([], sh)
unfolding path_split
root_parent = refl
