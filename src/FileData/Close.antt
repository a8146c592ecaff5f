-- ===== src/FileData/Close.antt =====
-- writei as a whole: the bytes of the file, its size and the inode on the disk.
use computer_system.Prelude.{
  ℕ, ◌+◌, ◌-◌, ◌*◌, ◌/◌, ◌%◌, ◌^◌, ◌≤◌, ◌<◌, ◌≡◌, ◌≢◌, max, refl, ◌∙◌, sym, ap, inl, inr, false,
  ◌||◌, Option, none, some, List, [], ◌∷◌, ◌++◌, length, length-append, update_self, update_ne, ltb,
  ◌==◌, if◌then◌else◌, Bool-cases, arith,
}
use mathlib.Core.Path.{subst}
use computer_system.Bitmap.{bsize}
use computer_system.Inode.{
  ndirect, nindirect, Inode, Dinode, Fs, Result, ok, panics, sleeps, and_then, word, iupdate,
}
use computer_system.Inode.Blocks.{IsKept}
use computer_system.Inode.File.{block_of, addrs_of}
use computer_system.FileData.{write_from, close_write, writei}
use computer_system.FileData.Owned.{maxfile, Owns}
use computer_system.FileData.Read.{file_byte}
use computer_system.FileData.Wrote.{Wrote, file_bytes_same}
use computer_system.FileData.Leaves.{Leaves, Spills, Writes}
use computer_system.FileData.Write.{write_from-Writes}

-- A change to inodes that leaves the file's block addresses.
module _ (fs fs1 : Fs) (ip : ℕ) (inode' : ℕ → Inode) (dinode' : ℕ → Dinode)
    (e : ((inode' ip).copy).addrs ≡ addrs_of fs1 ip) where
  abbrev readdressed : Fs
  readdressed = record fs1 { inode = inode'; dinode = dinode' }

  same_place : (bn : ℕ) → block_of readdressed ip bn ≡ block_of fs1 ip bn
  same_place bn =
      ap
        (λ a.
          if ltb bn ndirect
          then a bn
          else if a ndirect == 0
          then 0
          else word fs1.disk (a ndirect) (bn - ndirect))
        e

  pub Owns-readdressed : Owns fs1 ip → Owns readdressed ip
  Owns-readdressed owns = record {
    file = record {
      sound = (owns.file).sound;
      list =
          subst (λ a. a ndirect ≢ 0 → IsKept fs1.sb fs1.disk (a ndirect)) (sym e) (owns.file).list;
    };
    kept = λ bn lt.
        subst (λ b. b ≢ 0 → IsKept fs1.sb fs1.disk b) (sym (same_place bn)) (owns.kept bn lt);
    no_list = λ bn lt h q.
        owns.no_list bn lt (λ z. h (same_place bn ∙ z))
          (sym (same_place bn) ∙ q ∙ ap (λ a. a ndirect) e);
    apart = λ x y ltx lty d h q.
        owns.apart x y ltx lty d (λ z. h (same_place x ∙ z))
          (sym (same_place x) ∙ q ∙ same_place y);
  }

  file_byte_same : (o : ℕ) → file_byte readdressed ip o ≡ file_byte fs1 ip o
  file_byte_same o = ap (λ b. fs1.disk b (o % bsize)) (same_place (o / bsize))

  Wrote-readdressed :
      (off : ℕ) (src : List ℕ) → Wrote fs fs1 ip off src → Wrote fs readdressed ip off src
  Wrote-readdressed off src w = record {
    owns = Owns-readdressed w.owns;
    bytes =
        file_bytes_same fs1 readdressed ip off (length src) (λ o l r. file_byte_same o) ∙ w.bytes;
    others = λ o lt h out. file_byte_same o ∙ w.others o lt h out;
    stays = λ bn lt h z. w.stays bn lt h (sym (same_place bn) ∙ z);
    there = λ o l r z. w.there o l r (sym (same_place (o / bsize)) ∙ z);
  }

-- What writei does to a file: a first part of src is written from off on, all of it if either_copyin
-- never fails; behind it stands what a failing either_copyin stored.
pub record Written (fs fs' : Fs) (ip off : ℕ) (src : List ℕ) (fails : ℕ → Option ℕ) : Type 0 where
  pub done : List ℕ
  pub left : List ℕ
  pub spilt : List ℕ
  pub parts : src ≡ done ++ left
  pub full : Spills fails (off + length done) left spilt
  pub wrote : Wrote fs fs' ip off (done ++ spilt)
  pub size : ((fs'.inode ip).copy).size ≡ max (((fs.inode ip).copy).size) (off + length done)
  pub dev : (fs'.inode ip).dev ≡ (fs.inode ip).dev
  pub type : ((fs'.inode ip).copy).type ≡ ((fs.inode ip).copy).type
  pub saved : src ≢ [] → fs'.dinode ((fs'.inode ip).inum) ≡ (fs'.inode ip).copy
  pub others : (k : ℕ) → k ≢ ip → fs'.inode k ≡ fs.inode k

-- How writei may end.
abbrev pub WritesFile :
    Fs → ℕ → ℕ → List ℕ → (ℕ → Option ℕ) → Option (Result (Option ℕ × Fs)) → Type 0
WritesFile fs ip off src fails (some (ok (some k, fs'))) =
    (k ≡ length src) × Written fs fs' ip off src fails
WritesFile fs ip off src fails (some (ok (none, fs'))) = ⊥
WritesFile fs ip off src fails (some panics) =
    (bn : ℕ) × (bn * bsize < off + length src) × (block_of fs ip bn ≡ 0)
WritesFile fs ip off src fails (some sleeps) = ⊥
WritesFile fs ip off src fails none = ⊥

-- The end of writei.
Written-close :
    (fs fs1 : Fs) (ip off off' : ℕ) (src xs ys zs : List ℕ) (fails : ℕ → Option ℕ)
    → off ≤ ((fs.inode ip).copy).size
    → src ≡ xs ++ ys
    → Spills fails off' ys zs
    → off' ≡ off + length xs
    → Wrote fs fs1 ip off (xs ++ zs)
    → Leaves fs fs1 ip
    → Written fs (close_write ip (length src) (off', fs1)).1 ip off src fails
unfolding iupdate
Written-close fs fs1 ip off off' src xs ys zs fails inside parts full at w l =
    let len : length src ≡ length xs + length ys = ap length parts ∙ length-append xs ys in
    let spills : Spills fails (off + length xs) ys zs = subst (λ o. Spills fails o ys zs) at full in
    elim (Bool-cases (ltb 0 (length src))) [
      | inr nothing ↦ rw nothing (record {
        done = xs;
        left = ys;
        spilt = zs;
        parts = parts;
        full = spills;
        wrote = w;
        size = l.size ∙ ground arith;
        dev = l.dev;
        type = l.type;
        saved = λ ne. absurd (ne (none_there src nothing));
        others = l.others;
      })
      | inl more ↦ elim (Bool-cases (ltb (((fs1.inode ip).copy).size) off')) [
        | inr same ↦
            rw (more, same)
              (record {
                done = xs;
                left = ys;
                spilt = zs;
                parts = parts;
                full = spills;
                wrote = Wrote-readdressed fs fs1 ip fs1.inode _ refl off (xs ++ zs) w;
                size = l.size ∙ (let s = l.size in ground (arith, same));
                dev = l.dev;
                type = l.type;
                saved = λ ne. update_self fs1.dinode _ _;
                others = l.others;
              })
        | inl grows ↦
            let self =
              update_self fs1.inode ip
                (record (fs1.inode ip) { copy = record ((fs1.inode ip).copy) { size = off' } }) in
            rw (more, grows)
              (record {
                done = xs;
                left = ys;
                spilt = zs;
                parts = parts;
                full = spills;
                wrote =
                    Wrote-readdressed fs fs1 ip _ _ (ap (λ v. (v.copy).addrs) self) off (xs ++ zs)
                      w;
                size = ap (λ v. (v.copy).size) self ∙ (let s = l.size in ground (arith, grows));
                dev = ap (λ v. v.dev) self ∙ l.dev;
                type = ap (λ v. (v.copy).type) self ∙ l.type;
                saved = λ ne. update_self fs1.dinode _ _;
                others = λ k ne. update_ne fs1.inode ip _ k (λ q. ne (sym q)) ∙ l.others k ne;
              })
      ]
    ]
  where
    none_there : (zs : List ℕ) → ltb 0 (length zs) ≡ false → zs ≡ []
    none_there [] e = refl
    none_there (z ∷ zs) e = absurd (ground (arith, e))

pub writei-WritesFile :
    (fuel : ℕ) (fs : Fs) (ip off : ℕ) (src : List ℕ) (fails : ℕ → Option ℕ)
    → Owns fs ip
    → off ≤ ((fs.inode ip).copy).size
    → off + length src ≤ maxfile * bsize
    → length src < fuel
    → WritesFile fs ip off src fails (writei fuel fs ip off src fails)
unfolding writei
writei-WritesFile fuel fs ip off src fails owns inside fits enough =
    let size : ℕ = ((fs.inode ip).copy).size in
    let n : ℕ = length src in
    let end : (off + n) % 2 ^ 32 ≡ off + n = omega arith in
    let test : (ltb size off || ltb (off + n) off) ≡ false = ground arith in
    let small : ltb ((ndirect + nindirect) * bsize) (off + n) ≡ false = ground arith in
    rw (end, test, small)
      (finish (write_from fuel fs ip off src 0 fails)
        (write_from-Writes fuel fs ip off src 0 fails owns fits enough))
  where
    finish :
        (o : Option (Result (ℕ × Fs)))
        → Writes fs ip off src fails o
        → WritesFile fs ip off src fails (elim o [
          | none ↦ none
          | some r ↦
              some
                (and_then r (λ w. let (k, fs1) = close_write ip (length src) w in ok (some k, fs1)))
        ])
    finish (some (ok (off', fs1))) (xs, ys, zs, parts, full, at, w, l) =
        (refl, Written-close fs fs1 ip off off' src xs ys zs fails inside parts full at w l)
    finish (some panics) h = h
    finish (some sleeps) h = h
    finish none h = h
