-- ===== src/Inode/File.antt =====
-- A file's blocks, and what changes to the disk and to the list of blocks keep of them.
use computer_system.Prelude.{
  ℕ, ◌+◌, ◌-◌, ◌*◌, ◌/◌, ◌%◌, ◌<◌, ◌≡◌, ◌≢◌, refl, ◌∙◌, sym, ap, ◌⊎◌, inl, inr, true, false, update,
  update_self, update_ne, ltb, ◌==◌, if◌then◌else◌, arith,
}
use mathlib.Core.Path.{subst}
use computer_system.Bitmap.{Disk, Superblock, bblock, bpb, bit, bit_of}
use computer_system.Inode.{ndirect, Fs, set_addr, word}
use computer_system.Inode.Blocks.{IsKept, IsDisk}

abbrev pub addrs_of : Fs → ℕ → ℕ → ℕ
addrs_of fs ip = ((fs.inode ip).copy).addrs

-- The disk block of a file's block, or 0.
abbrev pub block_of : Fs → ℕ → ℕ → ℕ
block_of fs ip bn =
    if ltb bn ndirect
    then addrs_of fs ip bn
    else if addrs_of fs ip ndirect == 0
    then 0
    else word fs.disk (addrs_of fs ip ndirect) (bn - ndirect)

-- A file's indirect block is in use and no part of the bitmap.
pub record IsFile (fs : Fs) (ip : ℕ) : Type 0 where
  pub sound : IsDisk fs.sb fs.disk
  pub list : addrs_of fs ip ndirect ≢ 0 → IsKept fs.sb fs.disk (addrs_of fs ip ndirect)

-- What bmap and the calls below it keep of the disk and the inodes: a block in use stays in use, and its
-- contents too unless it lists the file's blocks, and that list is new or the one there was.
pub record Extends (fs fs' : Fs) (ip : ℕ) : Type 0 where
  pub keep : (x : ℕ) → IsKept fs.sb fs.disk x → IsKept fs'.sb fs'.disk x
  pub same :
      (x : ℕ)
      → IsKept fs.sb fs.disk x
      → x ≢ addrs_of fs ip ndirect
      → (i : ℕ) → fs'.disk x i ≡ fs.disk x i
  pub top :
      (addrs_of fs' ip ndirect ≡ addrs_of fs ip ndirect)
      ⊎ ((addrs_of fs ip ndirect ≡ 0) × ¬ IsKept fs.sb fs.disk (addrs_of fs' ip ndirect))
  pub others : (k : ℕ) → k ≢ ip → fs'.inode k ≡ fs.inode k
  pub inum : (fs'.inode ip).inum ≡ (fs.inode ip).inum
  pub dev : (fs'.inode ip).dev ≡ (fs.inode ip).dev
  pub type : ((fs'.inode ip).copy).type ≡ ((fs.inode ip).copy).type
  pub size : ((fs'.inode ip).copy).size ≡ ((fs.inode ip).copy).size
  pub dinode : fs'.dinode ≡ fs.dinode
  pub sb : fs'.sb ≡ fs.sb

-- A block that was not in use, and now is, for the file's contents.
pub record IsNew (fs fs' : Fs) (ip a : ℕ) : Type 0 where
  pub kept : IsKept fs'.sb fs'.disk a
  pub free : ¬ IsKept fs.sb fs.disk a
  pub no_list : a ≢ addrs_of fs' ip ndirect

pub Extends-refl : (fs : Fs) (ip : ℕ) → Extends fs fs ip
Extends-refl fs ip = record {
  keep = λ x k. k;
  same = λ x k ne i. refl;
  top = inl refl;
  others = λ k ne. refl;
  inum = refl;
  dev = refl;
  type = refl;
  size = refl;
  dinode = refl;
  sb = refl;
}

-- A new list, and what follows.
pub Extends-trans :
    (fs fs1 fs2 : Fs) (ip : ℕ)
    → addrs_of fs ip ndirect ≡ 0
    → ¬ IsKept fs.sb fs.disk (addrs_of fs1 ip ndirect)
    → addrs_of fs2 ip ndirect ≡ addrs_of fs1 ip ndirect
    → Extends fs fs1 ip
    → Extends fs1 fs2 ip
    → Extends fs fs2 ip
Extends-trans fs fs1 fs2 ip z free top e f = record {
  keep = λ x k. f.keep x (e.keep x k);
  same = λ x k ne i.
      f.same x (e.keep x k) (λ q. free (subst (IsKept fs.sb fs.disk) q k)) i ∙ e.same x k ne i;
  top = inr (z, λ k. free (subst (IsKept fs.sb fs.disk) top k));
  others = λ k ne. f.others k ne ∙ e.others k ne;
  inum = f.inum ∙ e.inum;
  dev = f.dev ∙ e.dev;
  type = f.type ∙ e.type;
  size = f.size ∙ e.size;
  dinode = f.dinode ∙ e.dinode;
  sb = f.sb ∙ e.sb;
}

pub addrs_of-set_addr :
    (fs : Fs) (ip k a : ℕ) → addrs_of (set_addr fs ip k a) ip ≡ update (addrs_of fs ip) k a
addrs_of-set_addr fs ip k a = ap (λ v. (v.copy).addrs) (update_self fs.inode ip _)

pub word_same : (d d' : Disk) (x j : ℕ) → ((i : ℕ) → d' x i ≡ d x i) → word d' x j ≡ word d x j
word_same d d' x j h = rw (h (4 * j), h (4 * j + 1), h (4 * j + 2), h (4 * j + 3)) refl

pub block_of_high :
    (fs : Fs) (ip j : ℕ)
    → addrs_of fs ip ndirect ≢ 0
    → block_of fs ip (ndirect + j) ≡ word fs.disk (addrs_of fs ip ndirect) j
block_of_high fs ip j ne =
    let high : ltb (ndirect + j) ndirect ≡ false = ground arith in
    let nz : (addrs_of fs ip ndirect == 0) ≡ false = ground (arith, ne) in
    let at : ndirect + j - ndirect ≡ j = omega arith in rw (high, nz, at) refl

pub block_of_none :
    (fs : Fs) (ip j : ℕ) → addrs_of fs ip ndirect ≡ 0 → block_of fs ip (ndirect + j) ≡ 0
block_of_none fs ip j z =
    let high : ltb (ndirect + j) ndirect ≡ false = ground arith in
    let none_there : (addrs_of fs ip ndirect == 0) ≡ true = ground arith in
    rw (high, none_there) refl

-- A store outside the bitmap.
module _ (sb : Superblock) (d : Disk) (x : ℕ) (f : ℕ → ℕ)
    (apart : (b : ℕ) → b < sb.size → bblock sb b ≢ x) where
  bit_of-update : (c : ℕ) → c < sb.size → bit_of sb (update d x f) c ≡ bit_of sb d c
  bit_of-update c lt =
      ap (λ g. bit (g (c % bpb / 8)) (c % bpb % 8))
        (update_ne d x f (bblock sb c) (λ e. apart c lt (sym e)))

  pub IsDisk-update : IsDisk sb d → IsDisk sb (update d x f)
  IsDisk-update s = record {
    maps = λ b lt z. s.maps b lt (sym (bit_of-update (bblock sb b) (s.placed b lt)) ∙ z);
    placed = s.placed;
    some_block = s.some_block;
    boot = λ z. s.boot (sym (bit_of-update 0 s.some_block) ∙ z);
    small = s.small;
  }

  pub IsKept-update : (y : ℕ) → IsKept sb d y → IsKept sb (update d x f) y
  IsKept-update y k = record {
    inside = k.inside;
    used = λ z. k.used (sym (bit_of-update y k.inside) ∙ z);
    apart = k.apart;
  }
