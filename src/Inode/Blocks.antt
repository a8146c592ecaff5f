-- ===== src/Inode/Blocks.antt =====
-- What bmap builds on: the words of an indirect block, and what balloc keeps.
use computer_system.Prelude.{
  ℕ, ◌+◌, ◌*◌, ◌/◌, ◌%◌, ◌^◌, ◌≤◌, ◌<◌, ◌≡◌, ◌≢◌, refl, ◌∙◌, sym, ap, inl, inr, some, update,
  update_self, ◌==◌, ==_iff, if◌then◌else◌, Bool-cases, arith,
}
use mathlib.Core.Path.{subst}
use computer_system.Bitmap.{Disk, Superblock, bblock, bit_of, balloc}
use computer_system.Bitmap.Alloc.{MapInUse, Allocates, balloc-Allocates}
use computer_system.Inode.{word, set_word}

abbrev pub bytes : (ℕ → ℕ) → ℕ → ℕ → ℕ → ℕ
bytes f j v =
    update
      (update (update (update f (4 * j) (v % 256)) (4 * j + 1) (v / 256 % 256)) (4 * j + 2)
        (v / 65536 % 256))
      (4 * j + 3) (v / 16777216 % 256)

pub word-set_word :
    (d : Disk) (b j j' v : ℕ)
    → v < 2 ^ 32
    → word (set_word d b j v) b j' ≡ (if j == j' then v else word d b j')
word-set_word d b j j' v lt = elim (Bool-cases (j == j')) [
  | inl e ↦
      let eq : j ≡ j' = (==_iff j j').0 e in
      let b0 : bytes (d b) j v (4 * j') ≡ v % 256 = ground arith in
      let b1 : bytes (d b) j v (4 * j' + 1) ≡ v / 256 % 256 = ground arith in
      let b2 : bytes (d b) j v (4 * j' + 2) ≡ v / 65536 % 256 = ground arith in
      let b3 : bytes (d b) j v (4 * j' + 3) ≡ v / 16777216 % 256 = ground arith in
      rw (update_self d b (bytes (d b) j v), b0, b1, b2, b3, e) (omega arith)
  | inr n ↦
      let ne : j ≢ j' = ground arith in
      let b0 : bytes (d b) j v (4 * j') ≡ d b (4 * j') = ground arith in
      let b1 : bytes (d b) j v (4 * j' + 1) ≡ d b (4 * j' + 1) = ground arith in
      let b2 : bytes (d b) j v (4 * j' + 2) ≡ d b (4 * j' + 2) = ground arith in
      let b3 : bytes (d b) j v (4 * j' + 3) ≡ d b (4 * j' + 3) = ground arith in
      rw (update_self d b (bytes (d b) j v), b0, b1, b2, b3, n) refl
]

-- What is kept of a block: one in use that holds no part of the bitmap.
pub record IsKept (sb : Superblock) (d : Disk) (x : ℕ) : Type 0 where
  pub inside : x < sb.size
  pub used : bit_of sb d x ≢ 0
  pub apart : (b : ℕ) → b < sb.size → bblock sb b ≢ x

-- The disk as mkfs lays it out: the bitmap's blocks are marked, and so is block 0.
pub record IsDisk (sb : Superblock) (d : Disk) : Type 0 where
  pub maps : MapInUse sb d
  pub placed : (b : ℕ) → b < sb.size → bblock sb b < sb.size
  pub some_block : 0 < sb.size
  pub boot : bit_of sb d 0 ≢ 0
  pub small : sb.size ≤ 2 ^ 32

-- What balloc gives.
pub record Gives (sb : Superblock) (d : Disk) (r : ℕ) (d' : Disk) : Type 0 where
  pub sound : IsDisk sb d'
  pub free : bit_of sb d r ≡ 0
  pub there : r ≢ 0
  pub new : IsKept sb d' r
  pub zeros : (i : ℕ) → d' r i ≡ 0
  pub kept : (x : ℕ) → IsKept sb d x → IsKept sb d' x × ((i : ℕ) → d' x i ≡ d x i)

pub balloc-Gives :
    (sb : Superblock) (d : Disk) (r : ℕ) (d' : Disk)
    → IsDisk sb d
    → balloc sb d ≡ some (r, d')
    → Gives sb d r d'
balloc-Gives sb d r d' s e =
    let h : Allocates sb d (some (r, d')) =
      subst (Allocates sb d) e (balloc-Allocates sb d s.maps) in
    let still : (c : ℕ) → c < sb.size → bit_of sb d c ≢ 0 → bit_of sb d' c ≢ 0 =
      λ c lt used z. ground (arith, h.3 c lt) in
    record {
      sound = record {
        maps = λ b lt. still (bblock sb b) (s.placed b lt) (s.maps b lt);
        placed = s.placed;
        some_block = s.some_block;
        boot = still 0 s.some_block s.boot;
        small = s.small;
      };
      free = h.1;
      there = λ z. s.boot (ap (bit_of sb d) (sym z) ∙ h.1);
      new = record {
        inside = h.0;
        used = ground (arith, h.3 r h.0);
        apart = λ b lt eq. s.maps b lt (ap (bit_of sb d) eq ∙ h.1);
      };
      zeros = h.4;
      kept = λ x k. (
        record { inside = k.inside; used = still x k.inside k.used; apart = k.apart },
        λ i. h.5 x i (λ eq. k.used (ap (bit_of sb d) eq ∙ h.1)) (λ eq. k.apart r h.0 (sym eq)),
      );
    }
