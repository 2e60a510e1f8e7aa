-- ===== src/Syscall/Paths/Rooted.antt =====
-- Paths from the root, and names in the directories that they lead to.
use tnix.Common.{ℕ, ◌≡◌, ap, sym, ◌∙◌, List, [], ◌∷◌, ◌++◌, none, some}
use tnix.Fs.Names.{path_split}
use tnix.Fs.Names.Path.{path_split-append}
use tnix.Fs.Dir.{DirBlock, find_block, missing, inode, rootinum}
use tnix.Fs.Dir.Walk.{IsStep, AreSteps, join, follow, dentry_find-follow}
use tnix.Syscall.Paths.{Files, find}
use tnix.Syscall.Paths.Follow.{
  AreFull, Keeps, follow-Keeps, follow-append, follow_one, follow-none, join-append,
}

-- A path from the root.
abbrev pub rooted : List (List ℕ) → List ℕ
rooted ns = b'/' ∷ join ns

abbrev pub dirs_of : Files → ℕ → List DirBlock
dirs_of s c = (s.inodes c).blocks

pub find-rooted :
    (s : Files) (ns : List (List ℕ))
    → AreSteps ns
    → find (rooted ns) s ≡ follow (dirs_of s) rootinum ns
unfolding find
find-rooted s ns a = (dentry_find-follow (dirs_of s) s.cwd ns a).0

pub AreSteps-append :
    (ns : List (List ℕ)) (n : List ℕ) → AreSteps ns → IsStep n → AreSteps (ns ++ n ∷ [])
AreSteps-append [] n a s = (s, tt)
AreSteps-append (m ∷ ns) n a s = (a.0, AreSteps-append ns n a.1 s)

-- The path of a name in a directory that is not the root, split.
pub split-rooted :
    (m : List ℕ) (ns : List (List ℕ)) (n : List ℕ)
    → IsStep n
    → path_split (rooted (m ∷ ns ++ n ∷ [])) ≡ (rooted (m ∷ ns), n)
split-rooted m ns n st =
    ap (λ l. path_split (b'/' ∷ l)) (join-append m ns n)
    ∙ (path_split-append (rooted (m ∷ ns)) n st.part).0

-- Every path that led to an inode leads to it still.
pub paths_keep :
    (s s' : Files) (ks : List (List ℕ)) (k : ℕ)
    → Keeps (dirs_of s) (dirs_of s')
    → AreSteps ks
    → AreFull ks
    → find (rooted ks) s ≡ inode k
    → find (rooted ks) s' ≡ inode k
paths_keep s s' ks k h x f e =
    find-rooted s' ks x
    ∙ follow-Keeps (dirs_of s) (dirs_of s') rootinum k ks h f (sym (find-rooted s ks x) ∙ e)

-- One name more.
path_more :
    (s : Files) (ks : List (List ℕ)) (n : List ℕ) (p : ℕ)
    → AreSteps ks
    → IsStep n
    → find (rooted ks) s ≡ inode p
    → find (rooted (ks ++ n ∷ [])) s ≡ follow (dirs_of s) p (n ∷ [])
path_more s ks n p a st e =
    find-rooted s (ks ++ n ∷ []) (AreSteps-append ks n a st)
    ∙ follow-append (dirs_of s) rootinum p ks n (sym (find-rooted s ks a) ∙ e)

pub path_found :
    (s : Files) (ks : List (List ℕ)) (n : List ℕ) (p i : ℕ)
    → AreSteps ks
    → IsStep n
    → find (rooted ks) s ≡ inode p
    → find_block (dirs_of s p) n ≡ some i
    → find (rooted (ks ++ n ∷ [])) s ≡ inode i
path_found s ks n p i a st e f = path_more s ks n p a st e ∙ follow_one (dirs_of s) p i n f

pub path_missing :
    (s : Files) (ks : List (List ℕ)) (n : List ℕ) (p : ℕ)
    → AreSteps ks
    → IsStep n
    → find (rooted ks) s ≡ inode p
    → find_block (dirs_of s p) n ≡ none
    → find (rooted (ks ++ n ∷ [])) s ≡ missing
path_missing s ks n p a st e f = path_more s ks n p a st e ∙ follow-none (dirs_of s) p n f
