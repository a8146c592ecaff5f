-- ===== src/Bitmap/Sample.antt =====
-- A disk of 40 blocks, the first three in use, for the runs of kernel/fs.c's functions.
use computer_system.Prelude.{◌≡◌, ◌&&◌, ◌==◌, if◌then◌else◌, arith}
use mathlib.Core.Path.{subst}
use computer_system.Bitmap.{Disk, Superblock, bblock, bit_of}
use computer_system.Bitmap.Alloc.{MapInUse}

abbrev pub small_sb : Superblock
small_sb = record { size = 40; bmapstart = 2 }

-- Block 2 is the bitmap.
abbrev pub small_disk : Disk
small_disk b i = if b == 2 && i == 0 then 7 else 0

pub small_disk-MapInUse : MapInUse small_sb small_disk
small_disk-MapInUse b lt z =
    let at : bblock small_sb b ≡ 2 = omega arith in
    absurd (omega (arith, subst (λ q. bit_of small_sb small_disk q ≡ 0) at z))
