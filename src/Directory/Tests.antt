-- ===== src/Directory/Tests.antt =====
-- A lookup in a directory of two entries, and a link.
use computer_system.Prelude.{
  ℕ, ltb, Bool-cases, inl, inr, zero, suc, ◌+◌, ◌*◌, ◌<◌, ◌≡◌, ◌≢◌, ◌⊎◌, ◌&&◌, none, some, true,
  false, [], ◌∷◌, refl, arith, if◌then◌else◌, ◌==◌,
}
use mathlib.Core.Path.{subst}
use computer_system.Bitmap.{Disk, bblock, bit_of}
use computer_system.Bitmap.Sample.{small_sb}
use computer_system.Inode.{Fs, Dinode, panics}
use computer_system.Inode.File.{block_of}
use computer_system.Directory.{t_dir, same_name, namecmp, dirlookup, dirlink}
use computer_system.Inode.Blocks.{IsKept}
use computer_system.FileData.Owned.{Owns}
use computer_system.FileData.Sample.{one_block-Owns}
use computer_system.Directory.Linked.{HasNot}
use computer_system.Directory.Link.{Links, dirlink-Links}
use computer_system.Directory.Lookup.{IsDirectory, Looks, dirlookup-Looks}

-- 32 bytes in block 5: "." is inode 1 and "a" is inode 4.
abbrev two_entries : Dinode
two_entries = record {
  type = 1;
  major = 0;
  minor = 0;
  nlink = 1;
  size = 32;
  addrs = λ k. if k == 0 then 5 else 0;
}

abbrev entry_bytes : ℕ → ℕ
entry_bytes i =
    if i == 0 then 1 else if i == 2 then 46 else if i == 16 then 4 else if i == 18 then 97 else 0

abbrev dir_disk : Disk
dir_disk b i = if b == 2 && i == 0 then 39 else if b == 5 then entry_bytes i else 0

abbrev dir_fs : Fs
dir_fs = record {
  inode = λ i.
      if i == 0
      then record { dev = 1; inum = 1; ref = 1; holder = some 3; valid = true; copy = two_entries }
      else record { dev = 0; inum = 0; ref = 0; holder = none; valid = false; copy = two_entries };
  dinode = λ i. two_entries;
  disk = dir_disk;
  sb = small_sb;
  ninodes = 20;
}

dir_fs-IsDirectory : IsDirectory dir_fs 0
dir_fs-IsDirectory = record {
  file = record {
    sound = record {
      maps = λ b lt z.
          let at : bblock small_sb b ≡ 2 = omega arith in
          absurd (omega (arith, subst (λ q. bit_of small_sb dir_disk q ≡ 0) at z));
      placed = λ b lt. omega arith;
      some_block = omega arith;
      boot = λ z. absurd (omega (arith, z));
      small = omega arith;
    };
    list = λ ne. absurd (ne refl);
  };
  entries = refl;
  small = omega arith;
  whole = λ bn h. first bn h;
}
  where
    first : (bn : ℕ) → bn * 1024 < 32 → (bn < 12 + 256) × (block_of dir_fs 0 bn ≢ 0)
    first zero h = (omega arith, λ z. absurd (omega arith))
    first (suc bn) h = absurd (omega arith)

dirlookup-Looks_example :
    (1 ≡ t_dir) × Looks dir_fs 0 (97 ∷ []) 0 (dirlookup 3 dir_fs 0 (97 ∷ []))
    ⊎ (1 ≢ t_dir) × (dirlookup 3 dir_fs 0 (97 ∷ []) ≡ some panics)
dirlookup-Looks_example = dirlookup-Looks 3 dir_fs 0 (97 ∷ []) dir_fs-IsDirectory (omega arith)

dir_block_five-IsKept : IsKept small_sb dir_disk 5
dir_block_five-IsKept = record {
  inside = omega arith;
  used = λ z. absurd (omega (arith, z));
  apart = λ b lt e. absurd (omega (arith, e));
}

no_other_block : (bn : ℕ) → block_of dir_fs 0 (suc bn) ≡ 0
no_other_block bn = elim (Bool-cases (ltb (suc bn) 12)) [
  | inl e ↦ rw e (ground arith)
  | inr e ↦ rw e refl
]

dir_fs-Owns : Owns dir_fs 0
dir_fs-Owns =
    one_block-Owns dir_fs 0 dir_fs-IsDirectory.file no_other_block refl dir_block_five-IsKept

dir_fs-HasNot : HasNot dir_fs 0 (98 ∷ [])
unfolding namecmp same_name
dir_fs-HasNot zero lt = refl
dir_fs-HasNot (suc zero) lt = refl
dir_fs-HasNot (suc (suc k)) lt = absurd (omega (arith, lt))

dirlink-Links_example : Links dir_fs 0 (98 ∷ []) 9 (dirlink 3 dir_fs 3 0 (98 ∷ []) 9)
dirlink-Links_example =
    dirlink-Links 3 dir_fs 3 0 (98 ∷ []) 9 dir_fs-IsDirectory dir_fs-Owns refl (omega arith)
      (omega arith) dir_fs-HasNot (omega arith) (omega arith) refl
