-- ===== src/FileData/Tests.antt =====
-- A read of a small file, a write at its end, and the last reference to it.
use computer_system.Prelude.{
  ℕ, none, zero, suc, ◌+◌, ◌-◌, ◌*◌, ◌<◌, ◌≡◌, ◌≢◌, some, true, false, refl, min, arith,
  if◌then◌else◌, ◌==◌, ◌&&◌, ltb, Bool-cases, inl, inr, List, [], ◌∷◌,
}
use mathlib.Core.Path.{subst}
use computer_system.Bitmap.{Disk, bblock, bit_of}
use computer_system.Bitmap.Alloc.{MapInUse}
use computer_system.Bitmap.Sample.{small_sb}
use computer_system.Inode.Blocks.{IsKept}
use computer_system.FileData.Owned.{Owns}
use computer_system.FileData.Sample.{one_block-Owns}
use computer_system.FileData.Discard.{Puts, iput-Puts}
use computer_system.FileData.Close.{Owns-readdressed}
use computer_system.FileData.Round.{ReadsBack, readi-writei}
use computer_system.Inode.{Inode, Fs, Dinode, ok}
use computer_system.Inode.Trunc.{iput}
use computer_system.Inode.File.{IsFile, block_of}
use computer_system.FileData.{readi, writei}
use computer_system.FileData.Read.{file_bytes, readi-file_bytes}

-- 300 bytes in block 5.
abbrev one_block : Dinode
one_block = record {
  type = 2;
  major = 0;
  minor = 0;
  nlink = 1;
  size = 300;
  addrs = λ k. if k == 0 then 5 else 0;
}

-- Blocks 0, 1, 2 and 5 are in use, and block 2 is the bitmap.
abbrev file_disk : Disk
file_disk b i = if b == 2 && i == 0 then 39 else 0

file_disk-MapInUse : MapInUse small_sb file_disk
file_disk-MapInUse b lt z =
    let at : bblock small_sb b ≡ 2 = omega arith in
    absurd (omega (arith, subst (λ q. bit_of small_sb file_disk q ≡ 0) at z))

abbrev small_fs : Fs
small_fs = record {
  inode =
      λ i. record { dev = 1; inum = 7; ref = 1; holder = some 3; valid = true; copy = one_block };
  dinode = λ i. one_block;
  disk = file_disk;
  sb = small_sb;
  ninodes = 20;
}

small_fs-IsFile : IsFile small_fs 0
small_fs-IsFile = record {
  sound = record {
    maps = file_disk-MapInUse;
    placed = λ b lt. omega arith;
    some_block = omega arith;
    boot = λ z. absurd (omega (arith, z));
    small = omega arith;
  };
  list = λ ne. absurd (ne refl);
}

small_fs_whole : (bn : ℕ) → bn * 1024 < 300 → (bn < 12 + 256) × (block_of small_fs 0 bn ≢ 0)
small_fs_whole zero h = (omega arith, λ z. absurd (omega arith))
small_fs_whole (suc bn) h = absurd (omega arith)

readi-file_bytes_example :
    readi 200 small_fs 0 250 100 (λ t. false)
    ≡ some (ok (file_bytes small_fs 0 250 (min 100 (300 - 250)), small_fs))
readi-file_bytes_example =
    readi-file_bytes 200 small_fs 0 250 100 small_fs-IsFile small_fs_whole (omega arith)
      (omega arith) (omega arith)

no_other_block : (bn : ℕ) → block_of small_fs 0 (suc bn) ≡ 0
no_other_block bn = elim (Bool-cases (ltb (suc bn) 12)) [
  | inl e ↦ rw e (ground arith)
  | inr e ↦ rw e refl
]

block_five-IsKept : IsKept small_sb file_disk 5
block_five-IsKept = record {
  inside = omega arith;
  used = λ z. absurd (omega (arith, z));
  apart = λ b lt e. absurd (omega (arith, e));
}

small_fs-Owns : Owns small_fs 0
small_fs-Owns = one_block-Owns small_fs 0 small_fs-IsFile no_other_block refl block_five-IsKept

-- Three bytes at the end of the file.
abbrev three_bytes : List ℕ
three_bytes = 104 ∷ 105 ∷ 10 ∷ []

readi-writei_example :
    ReadsBack 9 small_fs 0 300 three_bytes (writei 9 small_fs 0 300 three_bytes (λ t. none))
readi-writei_example =
    readi-writei 9 small_fs 0 300 three_bytes small_fs-Owns small_fs_whole (omega arith)
      (omega arith) (omega arith)

-- The file, with no links and not locked.
abbrev unlinked_inodes : ℕ → Inode
unlinked_inodes i = record {
  dev = 1;
  inum = 7;
  ref = 1;
  holder = none;
  valid = true;
  copy = record one_block { nlink = 0 };
}

abbrev unlinked_fs : Fs
unlinked_fs = record small_fs { inode = unlinked_inodes }

iput-Puts_example : Puts unlinked_fs 0 true (iput unlinked_fs 3 0)
iput-Puts_example =
    iput-Puts unlinked_fs 3 0
      (Owns-readdressed small_fs small_fs 0 unlinked_inodes small_fs.dinode refl small_fs-Owns)
