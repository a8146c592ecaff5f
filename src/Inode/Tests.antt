-- ===== src/Inode/Tests.antt =====
-- Runs of iget and bmap with an empty cache and an empty file.
use computer_system.Prelude.{none, false, refl, arith}
use computer_system.Bitmap.Sample.{small_sb, small_disk, small_disk-MapInUse}
use computer_system.Inode.{Fs, fresh_dinode, iget, bmap}
use computer_system.Inode.Get.{OneSlot, Gets, iget-Gets}
use computer_system.Inode.Blocks.{IsDisk}
use computer_system.Inode.File.{IsFile}
use computer_system.Inode.Grown.{Bmaps}
use computer_system.Inode.Map.{bmap-Bmaps}

abbrev empty_fs : Fs
empty_fs = record {
  inode = λ i. record {
    dev = 0;
    inum = 0;
    ref = 0;
    holder = none;
    valid = false;
    copy = fresh_dinode 2;
  };
  dinode = λ i. fresh_dinode 0;
  disk = small_disk;
  sb = small_sb;
  ninodes = 20;
}

empty_fs-OneSlot : OneSlot empty_fs
empty_fs-OneSlot i j dev inum hi hj ci cj = absurd (ground (arith, ci))

iget-Gets_example : Gets empty_fs 1 7 (iget empty_fs 1 7)
iget-Gets_example = iget-Gets empty_fs 1 7 empty_fs-OneSlot

small_disk-IsDisk : IsDisk small_sb small_disk
small_disk-IsDisk = record {
  maps = small_disk-MapInUse;
  placed = λ b lt. omega arith;
  some_block = omega arith;
  boot = λ z. absurd (omega (arith, z));
  small = omega arith;
}

empty_fs-IsFile : IsFile empty_fs 0
empty_fs-IsFile = record { sound = small_disk-IsDisk; list = λ ne. absurd (ne refl) }

bmap-Bmaps_example : Bmaps empty_fs 0 12 (bmap empty_fs 0 12)
bmap-Bmaps_example = bmap-Bmaps empty_fs 0 12 empty_fs-IsFile
