-- ===== src/FileData/Leaves.antt =====
-- How the loop of writei may end, and a round before the others.
use computer_system.Prelude.{
  ℕ, ◌+◌, ◌%◌, ◌*◌, ◌≤◌, ◌<◌, ◌≡◌, ◌≢◌, refl, ◌∙◌, sym, ap, ◌⊎◌, inl, inr, Option, none, some, List,
  [], ◌++◌, length, length-append, ◌==◌, ==_iff, Bool-cases, arith,
}
use mathlib.Core.List.{append_assoc}
use mathlib.Core.Path.{subst}
use computer_system.Bitmap.{bsize}
use computer_system.Inode.{Fs, Result, ok, panics, sleeps}
use computer_system.Inode.File.{block_of}
use computer_system.Inode.Grown.{Bmaps}
use computer_system.FileData.{store_bytes}
use computer_system.FileData.Owned.{maxfile}
use computer_system.FileData.Wrote.{Wrote, Wrote-append}

-- What the loop of writei leaves alone.
pub record Leaves (fs fs' : Fs) (ip : ℕ) : Type 0 where
  pub others : (k : ℕ) → k ≢ ip → fs'.inode k ≡ fs.inode k
  pub inum : (fs'.inode ip).inum ≡ (fs.inode ip).inum
  pub dev : (fs'.inode ip).dev ≡ (fs.inode ip).dev
  pub type : ((fs'.inode ip).copy).type ≡ ((fs.inode ip).copy).type
  pub size : ((fs'.inode ip).copy).size ≡ ((fs.inode ip).copy).size
  pub dinode : fs'.dinode ≡ fs.dinode
  pub sb : fs'.sb ≡ fs.sb

pub Leaves-refl : (fs : Fs) (ip : ℕ) → Leaves fs fs ip
Leaves-refl fs ip = record {
  others = λ k ne. refl;
  inum = refl;
  dev = refl;
  type = refl;
  size = refl;
  dinode = refl;
  sb = refl;
}

Leaves-trans : (fs fs1 fs2 : Fs) (ip : ℕ) → Leaves fs fs1 ip → Leaves fs1 fs2 ip → Leaves fs fs2 ip
Leaves-trans fs fs1 fs2 ip a b = record {
  others = λ k ne. b.others k ne ∙ a.others k ne;
  inum = b.inum ∙ a.inum;
  dev = b.dev ∙ a.dev;
  type = b.type ∙ a.type;
  size = b.size ∙ a.size;
  dinode = b.dinode ∙ a.dinode;
  sb = b.sb ∙ a.sb;
}

pub Leaves-bmap : (fs fs' : Fs) (ip bn a : ℕ) → Bmaps fs ip bn (ok (a, fs')) → Leaves fs fs' ip
Leaves-bmap fs fs' ip bn a (file, there, at, same, cases, e) = record {
  others = e.others;
  inum = e.inum;
  dev = e.dev;
  type = e.type;
  size = e.size;
  dinode = e.dinode;
  sb = e.sb;
}

pub Leaves-store :
    (fs fs1 : Fs) (ip b o : ℕ) (xs : List ℕ)
    → Leaves fs fs1 ip
    → Leaves fs (store_bytes fs1 b o xs) ip
Leaves-store fs fs1 ip b o xs l = record {
  others = l.others;
  inum = l.inum;
  dev = l.dev;
  type = l.type;
  size = l.size;
  dinode = l.dinode;
  sb = l.sb;
}

-- What is left of src at an offset, and the bytes of it that a failing either_copyin stored there.
abbrev pub Spills : (ℕ → Option ℕ) → ℕ → List ℕ → List ℕ → Type 0
Spills fails off left spilt =
    ((left ≡ []) × (spilt ≡ []))
    ⊎ ((t : ℕ) × (k : ℕ) × (rest : List ℕ) × (fails t ≡ some k)
        × (length spilt ≤ k)
        × (off % bsize + length spilt ≤ bsize)
        × (left ≡ spilt ++ rest))

-- How the loop may end: a first part of src is written, all of it if either_copyin never fails.
abbrev pub Writes : Fs → ℕ → ℕ → List ℕ → (ℕ → Option ℕ) → Option (Result (ℕ × Fs)) → Type 0
Writes fs ip off src fails (some (ok (off', fs'))) =
    (xs : List ℕ) × (ys : List ℕ) × (zs : List ℕ) × (src ≡ xs ++ ys)
    × Spills fails off' ys zs
    × (off' ≡ off + length xs)
    × Wrote fs fs' ip off (xs ++ zs)
    × Leaves fs fs' ip
Writes fs ip off src fails (some panics) =
    (bn : ℕ) × (bn * bsize < off + length src) × (block_of fs ip bn ≡ 0)
Writes fs ip off src fails (some sleeps) = ⊥
Writes fs ip off src fails none = ⊥

pub Writes-before :
    (fs fs1 : Fs) (ip off mid : ℕ) (src xs ys : List ℕ) (fails : ℕ → Option ℕ)
    (o : Option (Result (ℕ × Fs)))
    → src ≡ xs ++ ys
    → mid ≡ off + length xs
    → off + length src ≤ maxfile * bsize
    → Wrote fs fs1 ip off xs
    → Leaves fs fs1 ip
    → Writes fs1 ip mid ys fails o
    → Writes fs ip off src fails o
Writes-before fs fs1 ip off mid src xs ys fails (some (ok (off', fs'))) e m fits w l
      (xs', ys', zs', e', full, o', w', l') =
    let len : length src ≡ length xs + length ys = ap length e ∙ length-append xs ys in
    (
      xs ++ xs',
      ys',
      zs',
      e ∙ ap (λ q. xs ++ q) e' ∙ sym (append_assoc xs xs' ys'),
      full,
      (let l' : length (xs ++ xs') ≡ length xs + length xs' = length-append xs xs' in omega arith),
      subst (Wrote fs fs' ip off) (sym (append_assoc xs xs' zs'))
          (Wrote-append fs fs1 fs' ip off mid xs (xs' ++ zs') m (omega arith) w w'),
      Leaves-trans fs fs1 fs' ip l l',
    )
Writes-before fs fs1 ip off mid src xs ys fails (some panics) e m fits w l (bn, lt, z) =
    let len : length src ≡ length xs + length ys = ap length e ∙ length-append xs ys in
    (
      bn,
      omega arith,
      elim (Bool-cases (block_of fs ip bn == 0)) [
        | inl q ↦ (==_iff _ _).0 q
        | inr n ↦ absurd (w.stays bn (omega arith) (ground (arith, n)) z)
      ],
    )
Writes-before fs fs1 ip off mid src xs ys fails (some sleeps) e m fits w l h = h
Writes-before fs fs1 ip off mid src xs ys fails none e m fits w l h = h
