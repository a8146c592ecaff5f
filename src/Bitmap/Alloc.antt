-- ===== src/Bitmap/Alloc.antt =====
-- balloc and bfree: which block they choose, and the bitmap afterwards.
use computer_system.Prelude.{
  ℕ, zero, suc, ◌+◌, ◌-◌, ◌*◌, ◌/◌, ◌%◌, ◌≤◌, ◌<◌, ◌≡◌, ◌≢◌, refl, ◌∙◌, sym, ap, inl, inr, true,
  false, Option, none, some, ltb, ◌==◌, ==_iff, if◌then◌else◌, Bool-cases, arith,
}
use mathlib.Core.Path.{subst}
use computer_system.Bitmap.{
  bpb, Disk, Superblock, bblock, bit, bit_of, mark, unmark, bzero, scan_bits, scan_blocks, balloc,
  bfree,
}
use computer_system.Bitmap.Bits.{bit_of-mark, bit_of-unmark}

-- A search of the blocks from lo to hi finds the first one that is free.
abbrev pub First : Superblock → Disk → ℕ → ℕ → Option ℕ → Type 0
First sb d lo hi none = (c : ℕ) → lo ≤ c → c < hi → c < sb.size → bit_of sb d c ≢ 0
First sb d lo hi (some r) =
    (lo ≤ r)
    × (r < hi)
    × (r < sb.size)
    × (bit_of sb d r ≡ 0)
    × ((c : ℕ) → lo ≤ c → c < r → bit_of sb d c ≢ 0)

First-step :
    (sb : Superblock) (d : Disk) (lo hi : ℕ) (o : Option ℕ)
    → bit_of sb d lo ≢ 0
    → First sb d (lo + 1) hi o
    → First sb d lo hi o
First-step sb d lo hi none used h = λ c le lt s. elim (Bool-cases (c == lo)) [
  | inl e ↦ subst (λ q. bit_of sb d q ≢ 0) (sym ((==_iff c lo).0 e)) used
  | inr n ↦ h c (ground arith) lt s
]
First-step sb d lo hi (some r) used (le, lt, s, free, before) = (
  omega arith,
  lt,
  s,
  free,
  λ c le' lt'. elim (Bool-cases (c == lo)) [
    | inl e ↦ subst (λ q. bit_of sb d q ≢ 0) (sym ((==_iff c lo).0 e)) used
    | inr n ↦ before c (ground arith) lt'
  ],
)

scan_bits-First :
    (n : ℕ) (sb : Superblock) (d : Disk) (b bi : ℕ)
    → b % bpb ≡ 0
    → bi + n ≤ bpb
    → First sb d (b + bi) (b + bi + n) (scan_bits n sb d b bi)
unfolding scan_bits
scan_bits-First zero sb d b bi al h = λ c le lt s. absurd (omega arith)
scan_bits-First (suc n) sb d b bi al h = elim (Bool-cases (ltb (b + bi) sb.size)) [
  | inr past ↦ rw past (λ c le lt s. absurd (ground arith))
  | inl inside ↦ rw inside (elim (Bool-cases (bit (d (bblock sb b) (bi / 8)) (bi % 8) == 0)) [
    | inl free ↦ rw free (
      omega arith,
      omega arith,
      ground arith,
      here ∙ (==_iff _ _).0 free,
      λ c le lt. absurd (omega arith),
    )
    | inr used ↦ rw used (
        First-step sb d (b + bi) (b + bi + suc n) _ (λ e. absurd (ground (arith, here, e)))
          (subst (λ lo. First sb d lo (b + bi + suc n) (scan_bits n sb d b (bi + 1)))
            {x = b + (bi + 1)} {y = b + bi + 1} (omega arith)
            (subst (λ hi. First sb d (b + (bi + 1)) hi (scan_bits n sb d b (bi + 1)))
              {x = b + (bi + 1) + n} {y = b + bi + suc n} (omega arith)
              (scan_bits-First n sb d b (bi + 1) al (omega arith)))))
  ])
]
  where
    here : bit_of sb d (b + bi) ≡ bit (d (bblock sb b) (bi / 8)) (bi % 8)
    here =
        let block : bblock sb (b + bi) ≡ bblock sb b = omega arith in
        let at : (b + bi) % bpb ≡ bi = omega arith in rw (block, at) refl

scan_blocks-First :
    (n : ℕ) (sb : Superblock) (d : Disk) (b : ℕ)
    → b % bpb ≡ 0
    → First sb d b (b + n * bpb) (scan_blocks n sb d b)
unfolding scan_blocks
scan_blocks-First zero sb d b al = λ c le lt s. absurd (omega arith)
scan_blocks-First (suc n) sb d b al =
    go (scan_bits bpb sb d b 0) (scan_bits-First bpb sb d b 0 al (omega arith))
      (scan_blocks n sb d (b + bpb)) (scan_blocks-First n sb d (b + bpb) (omega arith))
  where
    go :
        (o : Option ℕ)
        → First sb d (b + 0) (b + 0 + bpb) o
        → (rest : Option ℕ) → First sb d (b + bpb) (b + bpb + n * bpb) rest
        → First sb d b (b + suc n * bpb) (elim o [ none ↦ rest | some r ↦ some r ])
    go (some r) (le, lt, s, free, before) rest h =
        (omega arith, omega arith, s, free, λ c le' lt'. before c (omega arith) lt')
    go none used none h = λ c le lt s. elim (Bool-cases (ltb c (b + bpb))) [
      | inl low ↦ used c (omega arith) (ground arith) s
      | inr high ↦ h c (ground arith) (omega arith) s
    ]
    go none used (some r) (le, lt, s, free, before) = (
      omega arith,
      omega arith,
      s,
      free,
      λ c le' lt'. elim (Bool-cases (ltb c (b + bpb))) [
        | inl low ↦ used c (omega arith) (ground arith) (omega arith)
        | inr high ↦ before c (ground arith) lt'
      ],
    )

-- The blocks that hold the bitmap are in use.
abbrev pub MapInUse : Superblock → Disk → Type 0
MapInUse sb d = (b : ℕ) → b < sb.size → bit_of sb d (bblock sb b) ≢ 0

-- How balloc may end.
abbrev pub Allocates : Superblock → Disk → Option (ℕ × Disk) → Type 0
Allocates sb d none = (c : ℕ) → c < sb.size → bit_of sb d c ≢ 0
Allocates sb d (some (r, d')) =
    (r < sb.size)
    × (bit_of sb d r ≡ 0)
    × ((c : ℕ) → c < r → bit_of sb d c ≢ 0)
    × ((c : ℕ) → c < sb.size → bit_of sb d' c ≡ (if r == c then 1 else bit_of sb d c))
    × ((i : ℕ) → d' r i ≡ 0)
    × ((bno i : ℕ) → bno ≢ r → bno ≢ bblock sb r → d' bno i ≡ d bno i)

bit_of-bzero :
    (sb : Superblock) (d : Disk) (r c : ℕ)
    → bblock sb c ≢ r
    → bit_of sb (bzero d r) c ≡ bit_of sb d c
unfolding bzero
bit_of-bzero sb d r c ne =
    let other : (r == bblock sb c) ≡ false = ground (arith, ne) in
    ap (λ b. bit ((if b then (λ i. 0) else d (bblock sb c)) (c % bpb / 8)) (c % bpb % 8)) other

bzero_self : (d : Disk) (r i : ℕ) → bzero d r r i ≡ 0
unfolding bzero
bzero_self d r i =
    let same : (r == r) ≡ true = ground arith in ap (λ b. (if b then (λ j. 0) else d r) i) same

bzero_ne : (d : Disk) (r bno i : ℕ) → bno ≢ r → bzero d r bno i ≡ d bno i
unfolding bzero
bzero_ne d r bno i ne =
    let other : (r == bno) ≡ false = ground (arith, ne) in
    ap (λ b. (if b then (λ j. 0) else d bno) i) other

mark_elsewhere :
    (sb : Superblock) (d : Disk) (b bno i : ℕ) → bno ≢ bblock sb b → mark sb d b bno i ≡ d bno i
unfolding mark
mark_elsewhere sb d b bno i ne =
    let other : (bblock sb b == bno) ≡ false = ground (arith, ne) in rw other refl

-- If the blocks of the bitmap itself are marked, as mkfs leaves them, balloc returns the first
-- block that is free, having marked it and no other, filled it with zeros, and changed no block but
-- it and the one of the bitmap that has its bit; it panics just when no block is free.
pub balloc-Allocates : (sb : Superblock) (d : Disk) → MapInUse sb d → Allocates sb d (balloc sb d)
unfolding balloc
balloc-Allocates sb d maps =
    go (scan_blocks ((sb.size + bpb - 1) / bpb) sb d 0)
      (scan_blocks-First ((sb.size + bpb - 1) / bpb) sb d 0 refl)
  where
    go :
        (o : Option ℕ)
        → First sb d 0 (0 + (sb.size + bpb - 1) / bpb * bpb) o
        → Allocates sb d (elim o [ none ↦ none | some r ↦ some (r, bzero (mark sb d r) r) ])
    go none h = λ c lt. h c (omega arith) (omega arith) lt
    go (some r) (le, lt, s, free, before) = (
      s,
      free,
      λ c h. before c (omega arith) h,
      λ c h.
          bit_of-bzero sb (mark sb d r) r c (λ e. maps c h (ap (bit_of sb d) e ∙ free))
          ∙ bit_of-mark sb d r c free,
      λ i. bzero_self (mark sb d r) r i,
      λ bno i n n'. bzero_ne (mark sb d r) r bno i n ∙ mark_elsewhere sb d r bno i n',
    )

-- How bfree may end.
abbrev pub Frees : Superblock → Disk → ℕ → Option Disk → Type 0
Frees sb d b none = bit_of sb d b ≡ 0
Frees sb d b (some d') =
    (bit_of sb d b ≢ 0)
    × ((c : ℕ) → bit_of sb d' c ≡ (if b == c then 0 else bit_of sb d c))
    × ((bno i : ℕ) → bno ≢ bblock sb b → d' bno i ≡ d bno i)

unmark_elsewhere :
    (sb : Superblock) (d : Disk) (b bno i : ℕ) → bno ≢ bblock sb b → unmark sb d b bno i ≡ d bno i
unfolding unmark
unmark_elsewhere sb d b bno i ne =
    let other : (bblock sb b == bno) ≡ false = ground (arith, ne) in rw other refl

-- bfree clears the bit of its block and no other, and panics just when it was clear.
pub bfree-Frees : (sb : Superblock) (d : Disk) (b : ℕ) → Frees sb d b (bfree sb d b)
unfolding bfree
bfree-Frees sb d b = elim (Bool-cases (bit_of sb d b == 0)) [
  | inl z ↦ rw z ((==_iff _ _).0 z)
  | inr n ↦ rw n (
    ground arith,
    λ c. bit_of-unmark sb d b c (ground arith),
    λ bno i h. unmark_elsewhere sb d b bno i h,
  )
]

back :
    (sb : Superblock) (d d' : Disk) (r c : ℕ)
    → bit_of sb d r ≡ 0
    → bit_of sb d' c ≡ (if r == c then 1 else bit_of sb d c)
    → (if r == c then 0 else bit_of sb d' c) ≡ bit_of sb d c
back sb d d' r c free h = elim (Bool-cases (r == c)) [
  | inl e ↦ rw e (sym free ∙ ap (bit_of sb d) ((==_iff r c).0 e))
  | inr n ↦ rw n (h ∙ ap (λ b. if b then 1 else bit_of sb d c) n)
]

-- bfree of the block that balloc gave does not panic, and leaves the bitmap as it was before.
pub bfree-balloc :
    (sb : Superblock) (d d' : Disk) (r : ℕ)
    → MapInUse sb d
    → balloc sb d ≡ some (r, d')
    → (d'' : Disk) × (bfree sb d' r ≡ some d'')
      × ((c : ℕ) → c < sb.size → bit_of sb d'' c ≡ bit_of sb d c)
unfolding bfree
bfree-balloc sb d d' r maps e =
    let h : Allocates sb d (some (r, d')) = subst (Allocates sb d) e (balloc-Allocates sb d maps) in
    let marked : bit_of sb d' r ≡ 1 = ground (arith, h.3 r h.0) in
    let test : (bit_of sb d' r == 0) ≡ false = ground (arith, marked) in
    (
      unmark sb d' r,
      rw test refl,
      λ c lt.
          bit_of-unmark sb d' r c (λ z. absurd (omega (arith, marked, z)))
          ∙ back sb d d' r c h.1 (h.3 c lt),
    )
