-- ===== src/Directory/Lookup.antt =====
-- dirlookup finds the first entry with the name.
use computer_system.Prelude.{
  ℕ, zero, suc, ◌+◌, ◌-◌, ◌*◌, ◌%◌, ◌^◌, ◌≤◌, ◌<◌, ◌≡◌, ◌≢◌, ◌⊎◌, min, refl, ◌∙◌, sym, ap, inl, inr,
  Bool, true, false, not, ◌&&◌, Option, none, some, List, ltb, ◌==◌, if◌then◌else◌, Bool-cases,
  ==_iff, arith,
}
use mathlib.Core.Path.{ap₂}
use computer_system.Bitmap.{bsize}
use computer_system.Inode.{ndirect, nindirect, Fs, Result, ok, panics, and_then, iget}
use computer_system.Inode.File.{block_of, IsFile}
use computer_system.FileData.{readi}
use computer_system.FileData.Read.{file_bytes, readi-file_bytes}
use computer_system.Directory.{
  dirent_size, t_dir, namecmp, dirent_inum, dirent_name, look_from, dirlookup,
}

-- A directory of whole entries, all of whose blocks are there.
pub record IsDirectory (fs : Fs) (dp : ℕ) : Type 0 where
  pub file : IsFile fs dp
  pub entries : ((fs.inode dp).copy).size % dirent_size ≡ 0
  pub small : ((fs.inode dp).copy).size < 2 ^ 31
  pub whole :
      (bn : ℕ)
      → bn * bsize < ((fs.inode dp).copy).size
      → (bn < ndirect + nindirect) × (block_of fs dp bn ≢ 0)

-- The entry at an offset.
abbrev pub entry : Fs → ℕ → ℕ → List ℕ
entry fs dp off = file_bytes fs dp off 16

-- It is in use and has the name.
abbrev pub matches : Fs → ℕ → List ℕ → ℕ → Bool
matches fs dp name off =
    not (dirent_inum (entry fs dp off) == 0) && namecmp name (dirent_name (entry fs dp off))

-- A search of the entries from an offset on ends with what `found` gives at the first that `match_at`
-- accepts, or with `missing`.
abbrev pub First : {X : Type 0} → (ℕ → Bool) → ℕ → X → (ℕ → X) → ℕ → X → Type 0
First match_at size missing found off o =
    (((k : ℕ) → off + k * dirent_size < size → match_at (off + k * dirent_size) ≡ false)
      × (o ≡ missing))
    ⊎ ((k : ℕ) × (off + k * dirent_size < size)
        × (match_at (off + k * dirent_size) ≡ true)
        × ((j : ℕ) → j < k → match_at (off + j * dirent_size) ≡ false)
        × (o ≡ found (off + k * dirent_size)))

module _ {X : Type 0} (match_at : ℕ → Bool) (size : ℕ) (missing : X) (found : ℕ → X) (off : ℕ) where
  shift : (k : ℕ) → off + dirent_size + k * dirent_size ≡ off + suc k * dirent_size
  shift k = omega arith

  earlier :
      (n : ℕ)
      → match_at off ≡ false
      → ((j : ℕ) → j < n → match_at (off + dirent_size + j * dirent_size) ≡ false)
      → (j : ℕ) → j < suc n
      → match_at (off + j * dirent_size) ≡ false
  earlier n other h zero lt =
      let at : off + 0 * dirent_size ≡ off = omega arith in ap match_at at ∙ other
  earlier n other h (suc j) lt = ap match_at (sym (shift j)) ∙ h j (omega arith)

  First-next :
      (o : X)
      → match_at off ≡ false
      → First match_at size missing found (off + dirent_size) o
      → First match_at size missing found off o
  First-next o other (inl (all, e)) = inl (every, e)
    where
      every : (k : ℕ) → off + k * dirent_size < size → match_at (off + k * dirent_size) ≡ false
      every zero lt = let at : off + 0 * dirent_size ≡ off = omega arith in ap match_at at ∙ other
      every (suc k) lt = ap match_at (sym (shift k)) ∙ all k (omega arith)
  First-next o other (inr (k, lt, here, before, e)) = inr (
    suc k,
    omega arith,
    ap match_at (sym (shift k)) ∙ here,
    earlier k other before,
    e ∙ ap found (shift k),
  )

  First-here : off < size → match_at off ≡ true → First match_at size missing found off (found off)
  First-here lt here =
      let at : off + 0 * dirent_size ≡ off = omega arith in
      inr (0, omega arith, ap match_at at ∙ here, (λ j h. absurd (omega arith)), ap found (sym at))

  First-end : size ≤ off → First match_at size missing found off missing
  First-end h = inl ((λ k lt. absurd (omega arith)), refl)

-- What dirlookup returns at the entry that it takes.
abbrev pub taken : Fs → ℕ → ℕ → Option (Result (Option (ℕ × ℕ) × Fs))
taken fs dp off = some (
    and_then (iget fs ((fs.inode dp).dev) (dirent_inum (entry fs dp off)))
      (λ r. ok (some (off, r.0), r.1)))

abbrev pub Looks : Fs → ℕ → List ℕ → ℕ → Option (Result (Option (ℕ × ℕ) × Fs)) → Type 0
Looks fs dp name off o =
    First (matches fs dp name) ((fs.inode dp).copy).size (some (ok (none, fs))) (taken fs dp) off o

pub readi-entry :
    (fs : Fs) (dp off : ℕ)
    → IsDirectory fs dp
    → off % dirent_size ≡ 0
    → off < ((fs.inode dp).copy).size
    → readi 17 fs dp off dirent_size (λ t. false) ≡ some (ok (entry fs dp off, fs))
readi-entry fs dp off d al lt =
    let all : min dirent_size (((fs.inode dp).copy).size - off) ≡ 16 = omega (arith, d.entries) in
    readi-file_bytes 17 fs dp off dirent_size d.file d.whole (omega arith) (omega (arith, d.small))
      (omega arith)
    ∙ ap (λ k. some (ok (file_bytes fs dp off k, fs))) all

look_from-Looks :
    (fuel : ℕ) (fs : Fs) (dp : ℕ) (name : List ℕ) (off : ℕ)
    → IsDirectory fs dp
    → off % dirent_size ≡ 0
    → off ≤ ((fs.inode dp).copy).size
    → ((fs.inode dp).copy).size < off + fuel * dirent_size
    → Looks fs dp name off (look_from fuel fs dp name off)
unfolding look_from
look_from-Looks zero fs dp name off d al le h = absurd (omega arith)
look_from-Looks (suc fuel) fs dp name off d al le h =
    elim (Bool-cases (ltb off (((fs.inode dp).copy).size))) [
      | inr done ↦ rw done (First-end (matches fs dp name) _ _ (taken fs dp) off (ground arith))
      | inl more ↦
          let lt : off < ((fs.inode dp).copy).size = ground arith in
          rw (more, readi-entry fs dp off d al lt)
            (go (dirent_inum (entry fs dp off) == 0) (namecmp name (dirent_name (entry fs dp off)))
              refl refl lt
              (look_from-Looks fuel fs dp name (off + dirent_size) d (omega arith)
                (omega (arith, d.entries)) (omega arith)))
    ]
  where
    go :
        (z n : Bool)
        → (dirent_inum (entry fs dp off) == 0) ≡ z
        → namecmp name (dirent_name (entry fs dp off)) ≡ n
        → off < ((fs.inode dp).copy).size
        → Looks fs dp name (off + dirent_size) (look_from fuel fs dp name (off + dirent_size))
        → Looks fs dp name off (
            if z
            then look_from fuel fs dp name (off + dirent_size)
            else if n
            then taken fs dp off
            else look_from fuel fs dp name (off + dirent_size))
    go true n ez en lt rest =
        First-next (matches fs dp name) _ _ (taken fs dp) off _ (ap₂ (λ a b. not a && b) ez en) rest
    go false true ez en lt rest =
        First-here (matches fs dp name) _ _ (taken fs dp) off lt (ap₂ (λ a b. not a && b) ez en)
    go false false ez en lt rest =
        First-next (matches fs dp name) _ _ (taken fs dp) off _ (ap₂ (λ a b. not a && b) ez en) rest

-- dirlookup in a well-formed inode of directory entries: of a directory, it takes a reference, by
-- iget, to the inode of the first entry that is in use and has the name, and returns its offset, or
-- returns 0 and changes nothing if no entry has it, so that it panics only where that iget does; it
-- panics for what is no directory. With fuel above the number of entries it ends.
pub dirlookup-Looks :
    (fuel : ℕ) (fs : Fs) (dp : ℕ) (name : List ℕ)
    → IsDirectory fs dp
    → ((fs.inode dp).copy).size < fuel * dirent_size
    → (((fs.inode dp).copy).type ≡ t_dir) × Looks fs dp name 0 (dirlookup fuel fs dp name)
      ⊎ (((fs.inode dp).copy).type ≢ t_dir) × (dirlookup fuel fs dp name ≡ some panics)
unfolding dirlookup
dirlookup-Looks fuel fs dp name d h = elim (Bool-cases (((fs.inode dp).copy).type == t_dir)) [
  | inl dir ↦ inl (
    (==_iff _ _).0 dir,
    rw dir (look_from-Looks fuel fs dp name 0 d refl (omega arith) (omega arith)),
  )
  | inr file ↦ inr (ground arith, rw file refl)
]
