-- ===== src/Bitmap/Tests.antt =====
-- Runs of balloc and bfree.
use computer_system.Prelude.{◌≡◌, some, refl}
use computer_system.Bitmap.{Disk, balloc, scan_blocks, scan_bits, mark, bzero}
use computer_system.Bitmap.Alloc.{Allocates, balloc-Allocates}
use computer_system.Bitmap.Sample.{small_sb, small_disk, small_disk-MapInUse}

balloc-Allocates_example : Allocates small_sb small_disk (balloc small_sb small_disk)
balloc-Allocates_example = balloc-Allocates small_sb small_disk small_disk-MapInUse

abbrev after : Disk
after = bzero (mark small_sb small_disk 3) 3

balloc_gives_3 : balloc small_sb small_disk ≡ some (3, after)
unfolding balloc scan_blocks scan_bits
balloc_gives_3 = refl
