-- ===== src/Directory/Empty.antt =====
-- The search of dirlink for an entry that is not in use, and the entry that it stores.
use computer_system.Prelude.{
  ℕ, zero, suc, ◌+◌, ◌-◌, ◌*◌, ◌%◌, ◌^◌, ◌≤◌, ◌<◌, ◌≡◌, refl, inl, inr, Bool, true, false, not,
  ◌&&◌, some, List, [], ◌∷◌, ◌++◌, ltb, ◌==◌, Bool-cases, ==_iff, length, take, replicate,
  length-append, length-take, length-replicate, arith,
}
use computer_system.Inode.{Fs, ok}
use computer_system.Directory.{
  dirsiz, dirent_size, same_name, namecmp, dirent_inum, dirent_name, empty_from, new_dirent,
}
use computer_system.Directory.Lookup.{IsDirectory, entry, readi-entry}

-- An aligned offset in the directory, of an entry that is not in use, or its end.
pub record IsRoom (fs : Fs) (dp off : ℕ) : Type 0 where
  pub aligned : off % dirent_size ≡ 0
  pub inside : off ≤ ((fs.inode dp).copy).size
  pub unused : off < ((fs.inode dp).copy).size → dirent_inum (entry fs dp off) ≡ 0

pub empty_from-IsRoom :
    (fuel : ℕ) (fs : Fs) (dp off : ℕ)
    → IsDirectory fs dp
    → off % dirent_size ≡ 0
    → off ≤ ((fs.inode dp).copy).size
    → ((fs.inode dp).copy).size < off + fuel * dirent_size
    → (at : ℕ) × (empty_from fuel fs dp off ≡ some (ok (at, fs))) × IsRoom fs dp at
unfolding empty_from
empty_from-IsRoom zero fs dp off d al le h = absurd (omega arith)
empty_from-IsRoom (suc fuel) fs dp off d al le h =
    elim (Bool-cases (ltb off (((fs.inode dp).copy).size))) [
      | inr done ↦ rw done (
        off,
        refl,
        record { aligned = al; inside = le; unused = λ lt. absurd (ground (arith, done)) },
      )
      | inl more ↦
          let lt : off < ((fs.inode dp).copy).size = ground arith in
          rw (more, readi-entry fs dp off d al lt)
            (elim (Bool-cases (dirent_inum (entry fs dp off) == 0)) [
              | inl z ↦
                  rw z (
                    off,
                    refl,
                    record { aligned = al; inside = le; unused = λ l. (==_iff _ _).0 z },
                  )
              | inr n ↦ rw n (
                  empty_from-IsRoom fuel fs dp (off + dirent_size) d (omega arith)
                    (omega (arith, d.entries)) (omega arith))
            ])
    ]

pub length-new_dirent : (name : List ℕ) (inum : ℕ) → length (new_dirent name inum) ≡ 16
length-new_dirent name inum =
    let a = length-append (take dirsiz name) (replicate (dirsiz - length name) 0) in
    let b = length-take dirsiz name in
    let c : length (replicate {A = ℕ} (dirsiz - length name) 0) ≡ dirsiz - length name =
      length-replicate (dirsiz - length name) 0 in
    omega arith

abbrev pub is_string : List ℕ → Bool
is_string [] = true
is_string (c ∷ s) = not (c == 0) && is_string s

-- strncpy's copy of a name compares equal to it.
same_name-padded :
    (n : ℕ) (s : List ℕ)
    → is_string s ≡ true
    → same_name n s (take n s ++ replicate (n - length s) 0) ≡ true
unfolding same_name
same_name-padded zero s h = refl
same_name-padded (suc n) [] h = let z : suc n - 0 ≡ suc n = omega arith in rw z refl
same_name-padded (suc n) (c ∷ s) h =
    let there : (c == 0) ≡ false = ground (arith, h) in
    let self : (c == c) ≡ true = ground arith in
    let left : suc n - suc (length s) ≡ n - length s = omega arith in
    rw (self, there, left) (same_name-padded n s (ground (arith, h)))

pub namecmp-new_dirent :
    (name : List ℕ) (inum : ℕ)
    → is_string name ≡ true
    → namecmp name (dirent_name (new_dirent name inum)) ≡ true
unfolding namecmp
namecmp-new_dirent name inum h = same_name-padded 14 name h

pub dirent_inum-new_dirent :
    (name : List ℕ) (inum : ℕ) → inum < 2 ^ 16 → dirent_inum (new_dirent name inum) ≡ inum
dirent_inum-new_dirent name inum h = omega arith
