-- ===== src/Bcache/Tests.antt =====
-- Runs of the buffer cache of kernel/bio.c on three slots, and its theorems at them.
use computer_system.Prelude.{◌*◌, ◌≡◌, refl, true, false, some, [], ◌∷◌, update, arith}
use computer_system.Bcache.{
  Buf, Bcache, Disk, bget, bget_from, bread, fill, find_cached, find_free, recycle, with_buf,
  brelse, unlink,
}
use computer_system.Bcache.Scan.{Unique}
use computer_system.Bcache.Get.{Gets, bget_finds, bget-Unique}

abbrev blank : Buf
blank = record { dev = 0; blockno = 0; valid = false; refcnt = 0; contents = 0 }

-- Block 7 of device 1 is in slot 0, in use; slots 1 and 2 have held nothing.
abbrev three : Bcache
three = record {
  slot =
      update (λ i. blank) 0
        (record { dev = 1; blockno = 7; valid = true; refcnt = 1; contents = 77 });
  order = 0 ∷ 1 ∷ 2 ∷ [];
}

abbrev disk : Disk
disk dev blockno = blockno * 10

abbrev three_and_8 : Bcache
three_and_8 =
    with_buf three 2 (record { dev = 1; blockno = 8; valid = false; refcnt = 1; contents = 0 })

abbrev three_with_8 : Bcache
three_with_8 =
    with_buf three_and_8 2
      (record { dev = 1; blockno = 8; valid = true; refcnt = 1; contents = 80 })

three-Unique : Unique three
three-Unique i j dev blockno ai aj nz hi hj = ground arith

bget_recycles_last : bget three 1 8 ≡ some (2, three_and_8)
unfolding bget bget_from find_cached find_free recycle
bget_recycles_last = refl

bread_reads_8 : bread disk three 1 8 ≡ some (2, three_with_8)
unfolding bread bget bget_from find_cached find_free recycle fill
bread_reads_8 = refl

bget_finds_example : Gets three 1 8 (bget three 1 8)
bget_finds_example = bget_finds three 1 8

bget-Unique_example : Unique three_and_8
bget-Unique_example = bget-Unique three 1 8 three-Unique bget_recycles_last

brelse_moves_to_front : (brelse three_with_8 2).order ≡ 2 ∷ 0 ∷ 1 ∷ []
unfolding brelse unlink
brelse_moves_to_front = refl
