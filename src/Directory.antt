-- ===== src/Directory.antt =====
-- kernel/fs.c: dirlookup and dirlink, a directory as a file of entries of 16 bytes, over FileData. A name
-- is the list of its bytes before the NUL. A directory in the kernel's memory is read and written whole,
-- so that no copy fails.
pub mod Lookup
pub mod Empty
pub mod Linked
pub mod Link
mod Tests
use computer_system.Prelude.{
  ℕ, zero, suc, ◌+◌, ◌-◌, ◌*◌, ◌/◌, ◌%◌, ◌^◌, Bool, true, false, not, Option, none, some, List, [],
  ◌∷◌, ◌++◌, ltb, ◌==◌, if◌then◌else◌, length, take, drop, replicate,
}
use computer_system.Inode.{Fs, Result, ok, panics, sleeps, and_then, iget}
use computer_system.Inode.Trunc.{iput}
use computer_system.FileData.{readi, writei}

-- DIRSIZ and sizeof(struct dirent)
abbrev pub dirsiz : ℕ
dirsiz = 14

abbrev pub dirent_size : ℕ
dirent_size = 16

-- T_DIR
abbrev pub t_dir : ℕ
t_dir = 1

-- A byte of a C string or array, 0 behind its end.
abbrev pub head_or : List ℕ → ℕ
head_or [] = 0
head_or (c ∷ cs) = c

abbrev pub tail : List ℕ → List ℕ
tail [] = []
tail (c ∷ cs) = cs

-- strncmp(s, t, n) == 0
unfoldable pub same_name : ℕ → List ℕ → List ℕ → Bool
same_name zero s t = true
same_name (suc n) s t =
    let rest = same_name n (tail s) (tail t) in
    if not (head_or s == head_or t) then false else if head_or s == 0 then true else rest

unfoldable pub namecmp : List ℕ → List ℕ → Bool
unfolding same_name
namecmp s t = same_name dirsiz s t

-- de.inum
abbrev pub dirent_inum : List ℕ → ℕ
dirent_inum de = head_or de + 256 * head_or (tail de)

-- de.name
abbrev pub dirent_name : List ℕ → List ℕ
dirent_name de = tail (tail de)

-- What follows readi(dp, 0, &de, off, sizeof(de)) in a round, with its test.
abbrev pub on_dirent :
    {A : Type 0}
    → Option (Result (List ℕ × Fs))
    → (List ℕ → Fs → Option (Result A))
    → Option (Result A)
on_dirent none k = none
on_dirent (some panics) k = some panics
on_dirent (some sleeps) k = some sleeps
on_dirent (some (ok (de, fs))) k = if not (length de == dirent_size) then some panics else k de fs

-- The loop of dirlookup: the offset of the entry and the inode, or none for `return 0`.
unfoldable pub look_from : ℕ → Fs → ℕ → List ℕ → ℕ → Option (Result (Option (ℕ × ℕ) × Fs))
unfolding readi namecmp
look_from zero fs dp name off = none
look_from (suc fuel) fs dp name off =
    if not (ltb off (((fs.inode dp).copy).size))
    then some (ok (none, fs))
    else on_dirent (readi 17 fs dp off dirent_size (λ t. false)) (λ de fs1.
      let rest = look_from fuel fs1 dp name (off + dirent_size) in
      if dirent_inum de == 0
      then rest
      else if namecmp name (dirent_name de)
      then some (
          and_then (iget fs1 ((fs1.inode dp).dev) (dirent_inum de))
            (λ r. ok (some (off, r.0), r.1)))
      else rest)

unfoldable pub dirlookup : ℕ → Fs → ℕ → List ℕ → Option (Result (Option (ℕ × ℕ) × Fs))
unfolding look_from
dirlookup fuel fs dp name =
    if not (((fs.inode dp).copy).type == t_dir) then some panics else look_from fuel fs dp name 0

-- The loop of dirlink: the offset of an empty entry, or the end of the directory.
unfoldable pub empty_from : ℕ → Fs → ℕ → ℕ → Option (Result (ℕ × Fs))
unfolding readi
empty_from zero fs dp off = none
empty_from (suc fuel) fs dp off =
    if not (ltb off (((fs.inode dp).copy).size))
    then some (ok (off, fs))
    else on_dirent (readi 17 fs dp off dirent_size (λ t. false)) (λ de fs1.
      let rest = empty_from fuel fs1 dp (off + dirent_size) in
      if dirent_inum de == 0 then some (ok (off, fs1)) else rest)

-- strncpy(de.name, name, DIRSIZ); de.inum = inum
abbrev pub new_dirent : List ℕ → ℕ → List ℕ
new_dirent name inum =
    inum % 256 ∷ inum / 256 % 256 ∷ (take dirsiz name ++ replicate (dirsiz - length name) 0)

-- writei(dp, 0, &de, off, sizeof(de)), and its test.
unfoldable pub put_dirent : Fs → ℕ → List ℕ → ℕ × Fs → Option (Result (Bool × Fs))
unfolding writei
put_dirent fs dp de (off, fs1) = elim (writei 17 fs1 dp off de (λ t. none)) [
  | none ↦ none
  | some (ok (some n, fs2)) ↦ if n == dirent_size then some (ok (true, fs2)) else some panics
  | some (ok (none, fs2)) ↦ some panics
  | some panics ↦ some panics
  | some sleeps ↦ some sleeps
]

-- What follows dirlookup: false is `return -1`.
unfoldable pub link_if :
    ℕ
    → ℕ
    → Fs
    → ℕ
    → List ℕ
    → ℕ
    → Option (Result (Option (ℕ × ℕ) × Fs))
    → Option (Result (Bool × Fs))
unfolding empty_from put_dirent iput
link_if fuel pid fs dp name inum none = none
link_if fuel pid fs dp name inum (some panics) = some panics
link_if fuel pid fs dp name inum (some sleeps) = some sleeps
link_if fuel pid fs dp name inum (some (ok (some (off, ip), fs1))) =
    some (and_then (iput fs1 pid ip) (λ fs2. ok (false, fs2)))
link_if fuel pid fs dp name inum (some (ok (none, fs1))) = elim (empty_from fuel fs1 dp 0) [
  | none ↦ none
  | some (ok r) ↦ put_dirent fs1 dp (new_dirent name inum) r
  | some panics ↦ some panics
  | some sleeps ↦ some sleeps
]

unfoldable pub dirlink : ℕ → Fs → ℕ → ℕ → List ℕ → ℕ → Option (Result (Bool × Fs))
unfolding dirlookup link_if
dirlink fuel fs pid dp name inum = link_if fuel pid fs dp name inum (dirlookup fuel fs dp name)
