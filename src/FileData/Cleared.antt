-- ===== src/FileData/Cleared.antt =====
-- Bits of the bitmap that bfree clears, one after the other.
use computer_system.Prelude.{
  ℕ, zero, suc, ◌+◌, ◌≤◌, ◌<◌, ◌≡◌, ◌≢◌, refl, ◌∙◌, sym, ap, inl, inr, Bool, true, false, not, ◌&&◌,
  ◌||◌, Option, none, some, ◌==◌, if◌then◌else◌, Bool-cases, arith,
}
use computer_system.Bitmap.{Disk, Superblock, bblock, bit_of, bfree}
use computer_system.Bitmap.Alloc.{Frees, bfree-Frees}
use computer_system.Inode.Blocks.{IsKept}

-- The bits of some blocks are clear, the others as before, and only blocks of the bitmap are changed.
pub record Cleared (sb : Superblock) (d d' : Disk) (gone : ℕ → Bool) : Type 0 where
  pub bits : (c : ℕ) → bit_of sb d' c ≡ (if gone c then 0 else bit_of sb d c)
  pub rest : (x : ℕ) → ((b : ℕ) → b < sb.size → bblock sb b ≢ x) → (i : ℕ) → d' x i ≡ d x i

pub Cleared-refl : (sb : Superblock) (d : Disk) → Cleared sb d d (λ c. false)
Cleared-refl sb d = record { bits = λ c. refl; rest = λ x h i. refl }

pub Cleared-trans :
    (sb : Superblock) (d d1 d2 : Disk) (g h : ℕ → Bool)
    → Cleared sb d d1 g
    → Cleared sb d1 d2 h
    → Cleared sb d d2 (λ c. g c || h c)
Cleared-trans sb d d1 d2 g h a b = record {
  bits = λ c. b.bits c ∙ both (g c) (h c) (bit_of sb d c) (bit_of sb d1 c) (a.bits c);
  rest = λ x apart i. b.rest x apart i ∙ a.rest x apart i;
}
  where
    both :
        (p q : Bool) (old mid : ℕ)
        → mid ≡ (if p then 0 else old)
        → (if q then 0 else mid) ≡ (if p || q then 0 else old)
    both true true old mid e = refl
    both true false old mid e = e
    both false true old mid e = refl
    both false false old mid e = e

pub Cleared-IsKept :
    (sb : Superblock) (d d' : Disk) (gone : ℕ → Bool) (x : ℕ)
    → Cleared sb d d' gone
    → gone x ≡ false
    → IsKept sb d x
    → IsKept sb d' x
Cleared-IsKept sb d d' gone x c still k = record {
  inside = k.inside;
  used = λ z. k.used (ap (λ b. if b then 0 else bit_of sb d x) (sym still) ∙ sym (c.bits x) ∙ z);
  apart = k.apart;
}

-- A block in use can be freed.
pub bfree-Cleared :
    (sb : Superblock) (d : Disk) (b : ℕ)
    → IsKept sb d b
    → (d' : Disk) × (bfree sb d b ≡ some d') × Cleared sb d d' (λ c. b == c)
bfree-Cleared sb d b k = go (bfree sb d b) refl (bfree-Frees sb d b)
  where
    go :
        (o : Option Disk)
        → bfree sb d b ≡ o
        → Frees sb d b o
        → (d' : Disk) × (bfree sb d b ≡ some d') × Cleared sb d d' (λ c. b == c)
    go none e h = absurd (k.used h)
    go (some d') e (used, bits, rest) = (
      d',
      e,
      record { bits = bits; rest = λ x apart i. rest x i (λ q. apart b k.inside (sym q)) },
    )

-- c is one of n numbers of a from place i on, and not 0.
abbrev pub listed : (ℕ → ℕ) → ℕ → ℕ → ℕ → Bool
listed a i zero c = false
listed a i (suc n) c = not (a i == 0) && a i == c || listed a (i + 1) n c

pub not_listed :
    (a : ℕ → ℕ) (i n c : ℕ)
    → ((k : ℕ) → i ≤ k → k < i + n → a k ≢ 0 → a k ≢ c)
    → listed a i n c ≡ false
not_listed a i zero c h = refl
not_listed a i (suc n) c h =
    let rest : listed a (i + 1) n c ≡ false =
      not_listed a (i + 1) n c (λ k l r. h k (omega arith) (omega arith)) in
    elim (Bool-cases (a i == 0)) [
      | inl z ↦ rw (z, rest) refl
      | inr nz ↦
          let other : (a i == c) ≡ false =
            differs (a i) c (h i (omega arith) (omega arith) (there (a i) nz)) in
          rw (nz, other, rest) refl
    ]
  where
    differs : (x y : ℕ) → x ≢ y → (x == y) ≡ false
    differs x y ne = ground (arith, ne)

    there : (x : ℕ) → (x == 0) ≡ false → x ≢ 0
    there x e = ground (arith, e)

-- The numbers to free: in use, and each at one place.
pub record IsFreeable (sb : Superblock) (d : Disk) (a : ℕ → ℕ) (i n : ℕ) : Type 0 where
  pub kept : (k : ℕ) → i ≤ k → k < i + n → a k ≢ 0 → IsKept sb d (a k)
  pub once : (k k' : ℕ) → i ≤ k → k < i + n → i ≤ k' → k' < i + n → k ≢ k' → a k ≢ 0 → a k ≢ a k'

pub Cleared-same :
    (sb : Superblock) (d d' : Disk) (g h : ℕ → Bool)
    → ((c : ℕ) → g c ≡ h c)
    → Cleared sb d d' g
    → Cleared sb d d' h
Cleared-same sb d d' g h e k = record {
  bits = λ c. k.bits c ∙ ap (λ b. if b then 0 else bit_of sb d c) (e c);
  rest = k.rest;
}
