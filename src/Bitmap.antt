-- ===== src/Bitmap.antt =====
-- kernel/fs.c: the disk blocks' allocator, a bitmap on the disk. The disk is the contents of its blocks
-- as the running transaction sees them through bread and log_write, which Log and Bcache model.
pub mod Bits
pub mod Alloc
pub mod Sample
mod Tests
use computer_system.Prelude.{
  ℕ, zero, suc, ◌+◌, ◌-◌, ◌*◌, ◌/◌, ◌%◌, Bool, true, false, Option, none, some, update, ltb, ◌==◌,
  if◌then◌else◌,
}

-- BSIZE and BPB
abbrev pub bsize : ℕ
bsize = 1024

abbrev pub bpb : ℕ
bpb = 8192

-- The bytes of each block.
abbrev pub Disk : Type 0
Disk = ℕ → ℕ → ℕ

-- struct superblock, as far as this file reads it.
pub record Superblock : Type 0 where
  pub size : ℕ
  pub bmapstart : ℕ

-- BBLOCK(b, sb)
abbrev pub bblock : Superblock → ℕ → ℕ
bblock sb b = b / bpb + sb.bmapstart

-- 1 << k
abbrev pub one_shl : ℕ → ℕ
one_shl zero = 1
one_shl (suc k) = 2 * one_shl k

-- x & (1 << k), as 0 or 1
abbrev pub bit : ℕ → ℕ → ℕ
bit x zero = x % 2
bit x (suc k) = bit (x / 2) k

-- The bit of a block in the bitmap.
abbrev pub bit_of : Superblock → Disk → ℕ → ℕ
bit_of sb d b = bit (d (bblock sb b) (b % bpb / 8)) (b % bpb % 8)

-- bp->data[bi/8] = v, and log_write.
abbrev pub set_byte : Disk → ℕ → ℕ → ℕ → Disk
set_byte d bno i v = update d bno (update (d bno) i v)

unfoldable pub bzero : Disk → ℕ → Disk
bzero d bno = update d bno (λ i. 0)

-- |= m, where the bit is clear.
unfoldable pub mark : Superblock → Disk → ℕ → Disk
mark sb d b =
    set_byte d (bblock sb b) (b % bpb / 8) (d (bblock sb b) (b % bpb / 8) + one_shl (b % bpb % 8))

-- &= ~m, where the bit is set.
unfoldable pub unmark : Superblock → Disk → ℕ → Disk
unmark sb d b =
    set_byte d (bblock sb b) (b % bpb / 8) (d (bblock sb b) (b % bpb / 8) - one_shl (b % bpb % 8))

-- The inner loop of balloc, n bits from bit bi of the map block of block b: the block that is free.
unfoldable pub scan_bits : ℕ → Superblock → Disk → ℕ → ℕ → Option ℕ
scan_bits zero sb d b bi = none
scan_bits (suc n) sb d b bi =
    let rest = scan_bits n sb d b (bi + 1) in
    if ltb (b + bi) sb.size
    then if bit (d (bblock sb b) (bi / 8)) (bi % 8) == 0 then some (b + bi) else rest
    else none

-- The outer loop, n blocks of the map from the one of block b on.
unfoldable pub scan_blocks : ℕ → Superblock → Disk → ℕ → Option ℕ
unfolding scan_bits
scan_blocks zero sb d b = none
scan_blocks (suc n) sb d b =
    let rest = scan_blocks n sb d (b + bpb) in
    elim (scan_bits bpb sb d b 0) [ none ↦ rest | some r ↦ some r ]

-- none is the panic.
unfoldable pub balloc : Superblock → Disk → Option (ℕ × Disk)
unfolding scan_blocks mark bzero
balloc sb d = elim (scan_blocks ((sb.size + bpb - 1) / bpb) sb d 0) [
  | none ↦ none
  | some r ↦ some (r, bzero (mark sb d r) r)
]

-- none is the panic.
unfoldable pub bfree : Superblock → Disk → ℕ → Option Disk
unfolding unmark
bfree sb d b = if bit_of sb d b == 0 then none else some (unmark sb d b)
