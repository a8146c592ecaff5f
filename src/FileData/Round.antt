-- ===== src/FileData/Round.antt =====
-- What writei stores, readi delivers.
use computer_system.Prelude.{
  ℕ, ◌+◌, ◌-◌, ◌*◌, ◌/◌, ◌≤◌, ◌<◌, ◌≡◌, ◌≢◌, min, ◌∙◌, sym, ap, ap₂, inl, inr, false, Option, none,
  some, List, [], ◌++◌, length, ltb, Bool-cases, arith,
}
use mathlib.Core.List.{append-nil}
use mathlib.Core.Path.{subst}
use computer_system.Bitmap.{bsize}
use computer_system.Inode.{ndirect, nindirect, Fs, Result, ok, panics, sleeps}
use computer_system.Inode.File.{block_of}
use computer_system.FileData.{readi, writei}
use computer_system.FileData.Read.{file_bytes, readi-file_bytes}
use computer_system.FileData.Owned.{maxfile, Owns}
use computer_system.FileData.Wrote.{Wrote}
use computer_system.FileData.Close.{WritesFile, Written, writei-WritesFile}

-- Every block up to a size is there.
abbrev pub NoHoles : Fs → ℕ → Type 0
NoHoles fs ip =
    (bn : ℕ)
    → bn * bsize < ((fs.inode ip).copy).size
    → (bn < ndirect + nindirect) × (block_of fs ip bn ≢ 0)

-- All of the bytes, and no other, where either_copyin never fails.
pub whole_done :
    (fs fs' : Fs) (ip off : ℕ) (src : List ℕ) (w : Written fs fs' ip off src (λ t. none))
    → (w.done ≡ src) × (w.spilt ≡ [])
whole_done fs fs' ip off src w = elim (w.full) [
  | inl (e, z) ↦ (sym (w.parts ∙ ap (λ ys. w.done ++ ys) e ∙ append-nil w.done), z)
  | inr (t, k, rest, e, short, block, parts) ↦ ground (arith, e)
]

pub whole-Wrote :
    (fs fs' : Fs) (ip off : ℕ) (src : List ℕ)
    → Written fs fs' ip off src (λ t. none)
    → Wrote fs fs' ip off src
whole-Wrote fs fs' ip off src w =
    let (done, rest) = whole_done fs fs' ip off src w in
    subst (Wrote fs fs' ip off) (ap₂ (λ a b. a ++ b) done rest ∙ append-nil src) w.wrote

-- A write leaves no hole.
pub NoHoles-Written :
    (fs fs' : Fs) (ip off : ℕ) (src : List ℕ)
    → NoHoles fs ip
    → off ≤ ((fs.inode ip).copy).size
    → off + length src ≤ maxfile * bsize
    → Written fs fs' ip off src (λ t. none)
    → NoHoles fs' ip
NoHoles-Written fs fs' ip off src whole inside fits w bn lt =
    let all : length (w.done) ≡ length src = ap length (whole_done fs fs' ip off src w).0 in
    let wrote = whole-Wrote fs fs' ip off src w in
    let grown = w.size in
    elim (Bool-cases (ltb (bn * bsize) (((fs.inode ip).copy).size))) [
      | inl old ↦ let h = whole bn (ground arith) in (h.0, wrote.stays bn h.0 h.1)
      | inr new ↦
          let block : bn * bsize / bsize ≡ bn = omega arith in
          let past : ((fs.inode ip).copy).size ≤ bn * bsize = ground arith in
          let below : bn * bsize < off + length src = omega arith in
          (
            omega arith,
            subst (λ b. block_of fs' ip b ≢ 0) block (wrote.there (bn * bsize) (omega arith) below),
          )
    ]

-- What a read of the range finds after a write.
abbrev pub ReadsBack : ℕ → Fs → ℕ → ℕ → List ℕ → Option (Result (Option ℕ × Fs)) → Type 0
ReadsBack fuel fs ip off src (some (ok (some k, fs'))) =
    (k ≡ length src)
    × (readi fuel fs' ip off (length src) (λ t. false) ≡ some (ok (src, fs')))
    × NoHoles fs' ip
ReadsBack fuel fs ip off src (some (ok (none, fs'))) = ⊥
ReadsBack fuel fs ip off src (some panics) =
    (bn : ℕ) × (bn * bsize < off + length src) × (block_of fs ip bn ≡ 0)
ReadsBack fuel fs ip off src (some sleeps) = ⊥
ReadsBack fuel fs ip off src none = ⊥

-- After a writei to a file that owns its blocks and has no holes, from an offset up to its size,
-- within the largest file and with copies that do not fail, readi of the range written delivers
-- just the bytes written, whose number writei reported, and the file has no holes; writei ends so,
-- with more fuel than bytes, unless it panics, at a block that the file did not have.
pub readi-writei :
    (fuel : ℕ) (fs : Fs) (ip off : ℕ) (src : List ℕ)
    → Owns fs ip
    → NoHoles fs ip
    → off ≤ ((fs.inode ip).copy).size
    → off + length src ≤ maxfile * bsize
    → length src < fuel
    → ReadsBack fuel fs ip off src (writei fuel fs ip off src (λ t. none))
readi-writei fuel fs ip off src owns whole inside fits enough =
    go (writei fuel fs ip off src (λ t. none))
      (writei-WritesFile fuel fs ip off src (λ t. none) owns inside fits enough)
  where
    go :
        (o : Option (Result (Option ℕ × Fs)))
        → WritesFile fs ip off src (λ t. none) o
        → ReadsBack fuel fs ip off src o
    go none h = h
    go (some panics) h = h
    go (some sleeps) h = h
    go (some (ok (none, fs'))) h = h
    go (some (ok (some k, fs'))) (n, w) =
        let wrote = whole-Wrote fs fs' ip off src w in
        let all : length (w.done) ≡ length src = ap length (whole_done fs fs' ip off src w).0 in
        let grown = w.size in
        let count : min (length src) (((fs'.inode ip).copy).size - off) ≡ length src =
          omega arith in
        let whole' = NoHoles-Written fs fs' ip off src whole inside fits w in
        (
          n,
          readi-file_bytes fuel fs' ip off (length src) ((wrote.owns).file) whole' (omega arith)
                (omega arith) enough
              ∙ ap (λ c. some (ok (file_bytes fs' ip off c, fs'))) count
              ∙ ap (λ bs. some (ok (bs, fs'))) wrote.bytes,
          whole',
        )
