-- ===== src/FileData/Write.antt =====
-- writei stores bytes, through the blocks that bmap gives.
use computer_system.Prelude.{
  Option, none, Option-cases, ℕ, zero, suc, ◌+◌, ◌-◌, ◌*◌, ◌/◌, ◌%◌, ◌≤◌, ◌<◌, ◌≡◌, ◌≢◌, min, refl,
  ◌∙◌, sym, inl, inr, true, some, List, [], ◌∷◌, length, take, drop, length-take, length-drop,
  take-append-drop, ◌==◌, Bool-cases, arith,
}
use mathlib.Core.Path.{subst}
use computer_system.Bitmap.{bsize}
use computer_system.Inode.{Fs, Result, ok, panics, sleeps, bmap}
use computer_system.Inode.File.{block_of}
use computer_system.Inode.Grown.{Bmaps}
use computer_system.Inode.Map.{bmap-Bmaps}
use computer_system.FileData.{store_bytes, on_block, write_from}
use computer_system.FileData.Owned.{maxfile, Owns}
use computer_system.FileData.Wrote.{Wrote, Wrote-none, Wrote-append, Wrote-bmap, Wrote-block}
use computer_system.FileData.Leaves.{Leaves-refl, Leaves-bmap, Leaves-store, Writes, Writes-before}

-- A round on the block that bmap gave.
Wrote-round :
    (fs fs1 : Fs) (ip off b : ℕ) (xs : List ℕ)
    → Owns fs ip
    → off < maxfile * bsize
    → off % bsize + length xs ≤ bsize
    → Bmaps fs ip (off / bsize) (ok (b, fs1))
    → Wrote fs (store_bytes fs1 b (off % bsize) xs) ip off xs
Wrote-round fs fs1 ip off b xs owns inside fits (file, there, at, same, cases, e) =
    let w : Wrote fs fs1 ip off [] =
      Wrote-bmap fs fs1 ip off (off / bsize) b owns (file, there, at, same, cases, e) in
    let place : off / bsize * bsize + off % bsize ≡ off = omega arith in
    let stored : ℕ → Fs = λ a. store_bytes fs1 a (off % bsize) xs in
    Wrote-append fs fs1 (stored b) ip off off [] xs (omega arith) (omega arith) w (
      subst (λ a. Wrote fs1 (stored a) ip off xs) at
        (subst (λ o. Wrote fs1 (stored (block_of fs1 ip (off / bsize))) ip o xs) place
          (Wrote-block fs1 ip (off / bsize) (off % bsize) xs w.owns (omega arith)
            (λ z. there (sym at ∙ z)) fits)))

nothing_left : (src : List ℕ) → (length src == 0) ≡ true → src ≡ []
nothing_left [] e = refl
nothing_left (x ∷ src) e = absurd (ground (arith, e))

pub write_from-Writes :
    (fuel : ℕ) (fs : Fs) (ip off : ℕ) (src : List ℕ) (tot : ℕ) (fails : ℕ → Option ℕ)
    → Owns fs ip
    → off + length src ≤ maxfile * bsize
    → length src < fuel
    → Writes fs ip off src fails (write_from fuel fs ip off src tot fails)
unfolding write_from
write_from-Writes zero fs ip off src tot fails owns fits h = absurd (omega arith)
write_from-Writes (suc fuel) fs ip off src tot fails owns fits h =
    let m : ℕ = min (length src) (bsize - off % bsize) in
    let rest : length (drop m src) ≡ length src - m = length-drop m src in
    elim (Bool-cases (length src == 0)) [
      | inl e ↦ rw e (
        [],
        src,
        [],
        refl,
        inl (nothing_left src e, refl),
        omega arith,
        Wrote-none fs ip off owns,
        Leaves-refl fs ip,
      )
      | inr n ↦
          let some_left : length src ≢ 0 = ground (arith, n) in
          rw n (
            round (bmap fs ip (off / bsize)) some_left
              (bmap-Bmaps fs ip (off / bsize) ((owns).file))
              (λ fs1 owns1.
                write_from-Writes fuel fs1 ip (off + m) (drop m src) (tot + m) fails owns1
                  (omega arith) (omega arith)))
    ]
  where
    round :
        (o : Result (ℕ × Fs))
        → length src ≢ 0
        → Bmaps fs ip (off / bsize) o
        → ((fs1 : Fs)
            → Owns fs1 ip
            → Writes fs1 ip
                (off + min (length src) (bsize - off % bsize))
                (drop (min (length src) (bsize - off % bsize)) src)
                fails
                (write_from fuel fs1 ip
                  (off + min (length src) (bsize - off % bsize))
                  (drop (min (length src) (bsize - off % bsize)) src)
                  (tot + min (length src) (bsize - off % bsize))
                  fails))
        → Writes fs ip off src fails (
            on_block o (λ b fs1. elim (fails tot) [
              | some k ↦ some (
                  ok (
                    off,
                    store_bytes fs1 b
                        (off % bsize)
                        (take (min k (min (length src) (bsize - off % bsize))) src),
                  ))
              | none ↦
                  write_from fuel
                    (store_bytes fs1 b
                      (off % bsize)
                      (take (min (length src) (bsize - off % bsize)) src))
                    ip
                    (off + min (length src) (bsize - off % bsize))
                    (drop (min (length src) (bsize - off % bsize)) src)
                    (tot + min (length src) (bsize - off % bsize))
                    fails
            ]))
    round panics some_left (inl past) rest = absurd (omega arith)
    round panics some_left (inr (z, full)) rest = (off / bsize, omega arith, z)
    round sleeps some_left h rest = h
    round (ok (b, fs1)) some_left h rest =
        let m : ℕ = min (length src) (bsize - off % bsize) in
        let l = Leaves-bmap fs fs1 ip (off / bsize) b h in
        elim (Option-cases (fails tot)) [
          | inr (k, e) ↦
              let first : length (take (min k m) src) ≡ min (min k m) (length src) =
                length-take (min k m) src in
              rw e (
                [],
                src,
                take (min k m) src,
                refl,
                inr (
                  tot,
                  k,
                  drop (min k m) src,
                  e,
                  omega arith,
                  omega arith,
                  sym (take-append-drop (min k m) src),
                ),
                omega arith,
                Wrote-round fs fs1 ip off b (take (min k m) src) owns (omega arith) (omega arith) h,
                Leaves-store fs fs1 ip b (off % bsize) (take (min k m) src) l,
              )
          | inl e ↦
              let first : length (take m src) ≡ min m (length src) = length-take m src in
              let w : Wrote fs (store_bytes fs1 b (off % bsize) (take m src)) ip off (take m src) =
                Wrote-round fs fs1 ip off b (take m src) owns (omega arith) (omega arith) h in
              rw e (
                Writes-before fs _ ip off (off + m) src (take m src) (drop m src) fails _
                  (sym (take-append-drop m src)) (omega arith) fits w
                  (Leaves-store fs fs1 ip b (off % bsize) (take m src) l) (rest _ w.owns))
        ]
