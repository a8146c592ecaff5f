-- ===== src/FileData/Read.antt =====
-- readi delivers the bytes of the file.
use computer_system.Prelude.{
  ℕ, zero, suc, ◌+◌, ◌-◌, ◌*◌, ◌/◌, ◌%◌, ◌^◌, ◌≤◌, ◌<◌, ◌≡◌, ◌≢◌, min, refl, ◌∙◌, sym, ap, inl, inr,
  false, ◌||◌, some, List, [], ◌∷◌, ◌++◌, ltb, if◌then◌else◌, Bool-cases, arith,
}
use mathlib.Core.Path.{ap₂}
use computer_system.Bitmap.{bsize}
use computer_system.Inode.{ndirect, nindirect, Fs, Result, ok, panics, sleeps, bmap}
use computer_system.Inode.File.{block_of, IsFile}
use computer_system.Inode.Grown.{Bmaps}
use computer_system.Inode.Map.{bmap-Bmaps}
use computer_system.FileData.{bytes_at, before, read_from, readi}

-- The byte of a file at an offset.
abbrev pub file_byte : Fs → ℕ → ℕ → ℕ
file_byte fs ip off = fs.disk (block_of fs ip (off / bsize)) (off % bsize)

-- A number of them, one after the other.
abbrev pub file_bytes : Fs → ℕ → ℕ → ℕ → List ℕ
file_bytes fs ip off zero = []
file_bytes fs ip off (suc n) = file_byte fs ip off ∷ file_bytes fs ip (off + 1) n

pub file_bytes-append :
    (fs : Fs) (ip off n k : ℕ)
    → file_bytes fs ip off (n + k) ≡ file_bytes fs ip off n ++ file_bytes fs ip (off + n) k
file_bytes-append fs ip off zero k =
    let z : 0 + k ≡ k = omega arith in let o : off + 0 ≡ off = omega arith in rw (z, o) refl
file_bytes-append fs ip off (suc n) k =
    let s : suc n + k ≡ suc (n + k) = omega arith in
    let o : off + 1 + n ≡ off + suc n = omega arith in
    ap (file_bytes fs ip off) s
    ∙ ap (λ xs. file_byte fs ip off ∷ xs)
        (file_bytes-append fs ip (off + 1) n k
          ∙ ap (λ q. file_bytes fs ip (off + 1) n ++ file_bytes fs ip q k) o)

-- Within one block.
pub file_bytes_block :
    (fs : Fs) (ip bn o n : ℕ)
    → o + n ≤ bsize
    → file_bytes fs ip (bn * bsize + o) n ≡ bytes_at (fs.disk (block_of fs ip bn)) o n
file_bytes_block fs ip bn o zero h = refl
file_bytes_block fs ip bn o (suc n) h =
    let block : (bn * bsize + o) / bsize ≡ bn = omega arith in
    let place : (bn * bsize + o) % bsize ≡ o = omega arith in
    let next : bn * bsize + o + 1 ≡ bn * bsize + (o + 1) = omega arith in
    ap₂ (λ x xs. x ∷ xs) (ap₂ (λ p q. fs.disk (block_of fs ip p) q) block place)
      (ap (λ q. file_bytes fs ip q n) next ∙ file_bytes_block fs ip bn (o + 1) n (omega arith))

-- bmap of a block that the file has changes nothing.
bmap_there :
    (fs : Fs) (ip bn : ℕ)
    → IsFile fs ip
    → bn < ndirect + nindirect
    → block_of fs ip bn ≢ 0
    → bmap fs ip bn ≡ ok (block_of fs ip bn, fs)
bmap_there fs ip bn file lt ne = go (bmap fs ip bn) (bmap-Bmaps fs ip bn file)
  where
    go : (o : Result (ℕ × Fs)) → Bmaps fs ip bn o → o ≡ ok (block_of fs ip bn, fs)
    go (ok (a, fs')) (file', na, at, others, inl (was, stays), e) =
        ap₂ (λ x y. ok (x, y)) (sym at ∙ ap (λ q. block_of q ip bn) stays) stays
    go (ok (a, fs')) (file', na, at, others, inr (missing, n), e) = absurd (ne missing)
    go panics (inl h) = absurd (omega arith)
    go panics (inr (z, full)) = absurd (ne z)
    go sleeps h = absurd h

read_from_lem :
    (fuel : ℕ) (fs : Fs) (ip off n tot : ℕ)
    → IsFile fs ip
    → ((bn : ℕ)
        → bn * bsize < off + (n - tot)
        → (bn < ndirect + nindirect) × (block_of fs ip bn ≢ 0))
    → n - tot < fuel
    → read_from fuel fs ip off n tot (λ t. false) ≡ some (ok (file_bytes fs ip off (n - tot), fs))
unfolding read_from
read_from_lem zero fs ip off n tot file whole h = absurd (omega arith)
read_from_lem (suc fuel) fs ip off n tot file whole h = elim (Bool-cases (ltb tot n)) [
  | inr done ↦ let z : n - tot ≡ 0 = ground arith in rw (done, z) refl
  | inl more ↦
      let m : ℕ = min (n - tot) (bsize - off % bsize) in
      let lt : tot < n = ground arith in
      let here = whole (off / bsize) (omega arith) in
      let place : off / bsize * bsize + off % bsize ≡ off = omega arith in
      let left : n - (tot + m) ≡ n - tot - m = omega arith in
      let all : m + (n - tot - m) ≡ n - tot = omega arith in
      rw (more, bmap_there fs ip (off / bsize) file here.0 here.1)
        (ap (before (bytes_at (fs.disk (block_of fs ip (off / bsize))) (off % bsize) m)) (
            read_from_lem fuel fs ip (off + m) n (tot + m) file (λ bn k. whole bn (omega arith))
              (omega arith))
          ∙ ap (λ bs. some (ok (bs, fs)))
              (ap₂ (λ x k. x ++ file_bytes fs ip (off + m) k)
                  (sym (file_bytes_block fs ip (off / bsize) (off % bsize) m (omega arith))
                    ∙ ap (λ q. file_bytes fs ip q m) place)
                  left
                ∙ sym (file_bytes-append fs ip off m (n - tot - m))
                ∙ ap (file_bytes fs ip off) all))
]

-- readi of a file with no holes, whose list of blocks is in use, at an offset up to its size, with
-- off + n below 2 to the 32 and copies that do not fail, delivers the bytes of the file from there
-- on, n of them or up to the end of the file, and changes nothing; with more fuel than n it ends.
pub readi-file_bytes :
    (fuel : ℕ) (fs : Fs) (ip off n : ℕ)
    → IsFile fs ip
    → ((bn : ℕ)
        → bn * bsize < ((fs.inode ip).copy).size
        → (bn < ndirect + nindirect) × (block_of fs ip bn ≢ 0))
    → off ≤ ((fs.inode ip).copy).size
    → off + n < 2 ^ 32
    → n < fuel
    → readi fuel fs ip off n (λ t. false)
      ≡ some (ok (file_bytes fs ip off (min n (((fs.inode ip).copy).size - off)), fs))
unfolding readi
readi-file_bytes fuel fs ip off n file whole inside fits enough =
    let size : ℕ = ((fs.inode ip).copy).size in
    let end : (off + n) % 2 ^ 32 ≡ off + n = omega arith in
    let test : (ltb size off || ltb (off + n) off) ≡ false = ground arith in
    let count : (if ltb size (off + n) then size - off else n) ≡ min n (size - off) =
      ground arith in
    let all : min n (size - off) - 0 ≡ min n (size - off) = omega arith in
    rw (end, test, count)
      (read_from_lem fuel fs ip off (min n (size - off)) 0 file (λ bn k. whole bn (omega arith))
          (omega arith)
        ∙ ap (λ k. some (ok (file_bytes fs ip off k, fs))) all)
