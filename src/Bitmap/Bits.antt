-- ===== src/Bitmap/Bits.antt =====
-- Setting and clearing one bit of the bitmap.
use computer_system.Prelude.{
  ℕ, zero, suc, ◌+◌, ◌-◌, ◌*◌, ◌/◌, ◌%◌, ◌≤◌, ◌<◌, ◌≡◌, ◌≢◌, ◌∙◌, sym, ap, inl, inr, false, ◌&&◌,
  ◌==◌, if◌then◌else◌, Bool-cases, arith,
}
use mathlib.Core.Path.{ap₂}
use computer_system.Bitmap.{
  bpb, Disk, Superblock, bblock, one_shl, bit, bit_of, set_byte, mark, unmark,
}

bit_lt : (x k : ℕ) → bit x k < 2
bit_lt x zero = omega arith
bit_lt x (suc k) = bit_lt (x / 2) k

bit-add : (x k j : ℕ) → bit x k ≡ 0 → bit (x + one_shl k) j ≡ (if k == j then 1 else bit x j)
bit-add x zero zero h = omega arith
bit-add x zero (suc j) h =
    let other : (zero == suc j) ≡ false = ground arith in
    let half : (x + 1) / 2 ≡ x / 2 = omega arith in
    ap (λ q. bit q j) half ∙ ap (λ b. if b then 1 else bit (x / 2) j) (sym other)
bit-add x (suc k) zero h =
    let other : (suc k == zero) ≡ false = ground arith in
    let even : (x + 2 * one_shl k) % 2 ≡ x % 2 = omega arith in
    even ∙ ap (λ b. if b then 1 else x % 2) (sym other)
bit-add x (suc k) (suc j) h =
    let half : (x + 2 * one_shl k) / 2 ≡ x / 2 + one_shl k = omega arith in
    let same : (suc k == suc j) ≡ (k == j) = ground arith in
    ap (λ q. bit q j) half
    ∙ bit-add (x / 2) k j h
    ∙ ap (λ b. if b then 1 else bit (x / 2) j) (sym same)

bit-sub :
    (x k j : ℕ)
    → bit x k ≢ 0
    → (one_shl k ≤ x) × (bit (x - one_shl k) j ≡ (if k == j then 0 else bit x j))
bit-sub x zero zero h = (omega arith, omega arith)
bit-sub x zero (suc j) h =
    let other : (zero == suc j) ≡ false = ground arith in
    let half : (x - 1) / 2 ≡ x / 2 = omega arith in
    (omega arith, ap (λ q. bit q j) half ∙ ap (λ b. if b then 0 else bit (x / 2) j) (sym other))
bit-sub x (suc k) zero h =
    let r = bit-sub (x / 2) k 0 h in
    let other : (suc k == zero) ≡ false = ground arith in
    let even : (x - 2 * one_shl k) % 2 ≡ x % 2 = omega (arith, r.0) in
    (omega (arith, r.0), even ∙ ap (λ b. if b then 0 else x % 2) (sym other))
bit-sub x (suc k) (suc j) h =
    let r = bit-sub (x / 2) k j h in
    let half : (x - 2 * one_shl k) / 2 ≡ x / 2 - one_shl k = omega (arith, r.0) in
    let same : (suc k == suc j) ≡ (k == j) = ground arith in
    (
      omega (arith, r.0),
      ap (λ q. bit q j) half ∙ r.1 ∙ ap (λ b. if b then 0 else bit (x / 2) j) (sym same),
    )

-- Whether two blocks have one bit.
same_bit :
    (sb : Superblock) (b b' : ℕ)
    → bblock sb b ≡ bblock sb b'
    → b % bpb / 8 ≡ b' % bpb / 8
    → b % bpb % 8 ≡ b' % bpb % 8
    → b ≡ b'
same_bit sb b b' h i j = omega arith

bits_eq :
    (sb : Superblock) (b b' : ℕ)
    → bblock sb b ≡ bblock sb b'
    → b % bpb / 8 ≡ b' % bpb / 8
    → (b % bpb % 8 == b' % bpb % 8) ≡ (b == b')
bits_eq sb b b' h i = ground (arith, same_bit sb b b' h i)

-- A byte changed in the bitmap, at one bit, is the bitmap changed at one block.
set_byte-bit_of :
    (sb : Superblock) (d : Disk) (b b' v w : ℕ)
    → ((j : ℕ) → bit v j ≡ (if b % bpb % 8 == j then w else bit (d (bblock sb b) (b % bpb / 8)) j))
    → bit_of sb (set_byte d (bblock sb b) (b % bpb / 8) v) b'
      ≡ (if b == b' then w else bit_of sb d b')
set_byte-bit_of sb d b b' v w h =
    elim (Bool-cases (bblock sb b == bblock sb b' && (b % bpb / 8 == b' % bpb / 8))) [
      | inl here ↦
          let block : bblock sb b ≡ bblock sb b' = ground arith in
          let index : b % bpb / 8 ≡ b' % bpb / 8 = ground arith in
          let bits : (b % bpb % 8 == b' % bpb % 8) ≡ (b == b') = bits_eq sb b b' block index in
          let byte : set_byte d (bblock sb b) (b % bpb / 8) v (bblock sb b') (b' % bpb / 8) ≡ v =
            ground arith in
          ap (λ q. bit q (b' % bpb % 8)) byte
          ∙ h (b' % bpb % 8)
          ∙ ap (λ c. if c then w else bit (d (bblock sb b) (b % bpb / 8)) (b' % bpb % 8)) bits
          ∙ ap₂ (λ p i. if b == b' then w else bit (d p i) (b' % bpb % 8)) block index
      | inr away ↦
          let byte : set_byte d (bblock sb b) (b % bpb / 8) v (bblock sb b') (b' % bpb / 8)
              ≡ d (bblock sb b') (b' % bpb / 8) =
            ground arith in
          let other : (b == b') ≡ false = ground arith in
          ap (λ q. bit q (b' % bpb % 8)) byte
          ∙ ap (λ c. if c then w else bit_of sb d b') (sym other)
    ]

pub bit_of-mark :
    (sb : Superblock) (d : Disk) (b b' : ℕ)
    → bit_of sb d b ≡ 0
    → bit_of sb (mark sb d b) b' ≡ (if b == b' then 1 else bit_of sb d b')
unfolding mark
bit_of-mark sb d b b' h =
    set_byte-bit_of sb d b b' _ 1 (λ j. bit-add (d (bblock sb b) (b % bpb / 8)) (b % bpb % 8) j h)

pub bit_of-unmark :
    (sb : Superblock) (d : Disk) (b b' : ℕ)
    → bit_of sb d b ≢ 0
    → bit_of sb (unmark sb d b) b' ≡ (if b == b' then 0 else bit_of sb d b')
unfolding unmark
bit_of-unmark sb d b b' h =
    set_byte-bit_of sb d b b' _ 0
      (λ j. (bit-sub (d (bblock sb b) (b % bpb / 8)) (b % bpb % 8) j h).1)
