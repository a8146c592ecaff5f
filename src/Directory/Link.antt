-- ===== src/Directory/Link.antt =====
-- dirlink as a whole.
use computer_system.Prelude.{
  ℕ, ◌+◌, ◌*◌, ◌^◌, ◌≤◌, ◌<◌, ◌≡◌, ◌≢◌, refl, ◌∙◌, Bool, true, false, Option, none, some, List,
  ◌==◌, if◌then◌else◌, length, arith,
}
use computer_system.Bitmap.{bsize}
use computer_system.Inode.{Fs, Result, ok, panics, sleeps, and_then, iget}
use computer_system.Inode.File.{block_of}
use computer_system.FileData.{writei}
use computer_system.FileData.Owned.{maxfile, Owns}
use computer_system.FileData.Close.{WritesFile, writei-WritesFile}
use computer_system.Directory.{
  dirent_size, t_dir, dirlookup, new_dirent, put_dirent, link_if, dirlink,
}
use computer_system.Directory.Lookup.{IsDirectory}
use computer_system.Directory.Empty.{IsRoom, empty_from-IsRoom, length-new_dirent, is_string}
use computer_system.Directory.Linked.{HasNot, lookup-HasNot, Linked, Written-Linked, Linked-lookup}

-- How dirlink may end.
abbrev pub Links : Fs → ℕ → List ℕ → ℕ → Option (Result (Bool × Fs)) → Type 0
Links fs dp name inum (some (ok (true, fs'))) =
    (off : ℕ) × Linked fs fs' dp name inum off
    × ((fuel : ℕ)
        → ((fs'.inode dp).copy).size < fuel * dirent_size
        → dirlookup fuel fs' dp name
          ≡ some (and_then (iget fs' ((fs'.inode dp).dev) inum) (λ r. ok (some (off, r.0), r.1))))
Links fs dp name inum (some (ok (false, fs'))) = ⊥
Links fs dp name inum (some panics) =
    (bn : ℕ) × (bn * bsize < ((fs.inode dp).copy).size + dirent_size) × (block_of fs dp bn ≡ 0)
Links fs dp name inum (some sleeps) = ⊥
Links fs dp name inum none = ⊥

-- dirlink of a name, with no NUL in it, that no entry in use has, and of an inode number that is
-- not 0 and fits 16 bits, in a directory that is well formed, owns its blocks and is not of the
-- largest size: it stores the name and the number in an entry that was not in use or behind the
-- last one, leaves every other entry, and keeps the directory well formed; dirlookup then finds the
-- name there, and takes a reference to the inode of that number if iget does not panic. dirlink
-- panics only where the directory has no block for the place of an entry up to the new one. With
-- fuel above the number of entries it ends.
pub dirlink-Links :
    (fuel : ℕ) (fs : Fs) (pid dp : ℕ) (name : List ℕ) (inum : ℕ)
    → IsDirectory fs dp
    → Owns fs dp
    → ((fs.inode dp).copy).type ≡ t_dir
    → ((fs.inode dp).copy).size < fuel * dirent_size
    → ((fs.inode dp).copy).size + dirent_size ≤ maxfile * bsize
    → HasNot fs dp name
    → inum ≢ 0
    → inum < 2 ^ 16
    → is_string name ≡ true
    → Links fs dp name inum (dirlink fuel fs pid dp name inum)
unfolding dirlink link_if put_dirent
dirlink-Links fuel fs pid dp name inum d owns dir enough fits h there small string =
    let (off, e, room) = empty_from-IsRoom fuel fs dp 0 d refl (omega arith) (omega arith) in
    let sixteen : length (new_dirent name inum) ≡ 16 = length-new_dirent name inum in
    let le = room.inside in
    rw (lookup-HasNot fuel fs dp name d dir enough h, link_if, e)
      (finish off room (writei 17 fs dp off (new_dirent name inum) (λ t. none)) (
        writei-WritesFile 17 fs dp off (new_dirent name inum) (λ t. none) owns le (omega arith)
          (omega arith)))
  where
    finish :
        (off : ℕ)
        → IsRoom fs dp off
        → (o : Option (Result (Option ℕ × Fs)))
        → WritesFile fs dp off (new_dirent name inum) (λ t. none) o
        → Links fs dp name inum (elim o [
          | none ↦ none
          | some (ok (some n, fs2)) ↦
              if n == dirent_size then some (ok (true, fs2)) else some panics
          | some (ok (none, fs2)) ↦ some panics
          | some panics ↦ some panics
          | some sleeps ↦ some sleeps
        ])
    finish off room (some (ok (some n, fs2))) (count, w) =
        let all : (n == dirent_size) ≡ true = ground (arith, count ∙ length-new_dirent name inum) in
        let l : Linked fs fs2 dp name inum off =
          Written-Linked fs fs2 dp name inum off d dir fits room w in
        rw all (off, l, Linked-lookup fs fs2 dp name inum off h there small string l)
    finish off room (some (ok (none, fs2))) w = absurd w
    finish off room (some panics) (bn, lt, z) =
        let sixteen : length (new_dirent name inum) ≡ 16 = length-new_dirent name inum in
        let le = room.inside in (bn, omega arith, z)
    finish off room (some sleeps) w = w
    finish off room none w = w
