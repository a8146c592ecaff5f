-- ===== src/Bcache/Scan.antt =====
-- The two scans of bget.
use computer_system.Prelude.{
  ℕ, ◌≡◌, ◌≢◌, ap, ◌⊎◌, inl, inr, none, some, List, [], ◌∷◌, ◌++◌, All, Bool-cases, Option-cases,
  arith,
}
use computer_system.Bcache.{Buf, Bcache, holds, find_cached, find_free}

-- Slot s stands in the list.
abbrev pub Among : ℕ → List ℕ → Type 0
Among s [] = ⊥
Among s (x ∷ xs) = (x ≡ s) ⊎ Among s xs

abbrev pub Holds : Buf → ℕ → ℕ → Type 0
Holds b dev blockno = (b.dev ≡ dev) × (b.blockno ≡ blockno)

-- No two slots of the list hold one block of a device. Device 0 is that of the slots that have
-- held no block yet.
abbrev pub Unique : Bcache → Type 0
Unique c =
    (i j dev blockno : ℕ)
    → Among i c.order
    → Among j c.order
    → dev ≢ 0
    → Holds (c.slot i) dev blockno
    → Holds (c.slot j) dev blockno
    → i ≡ j

pub find_cached-some :
    (slot : ℕ → Buf) (dev blockno : ℕ) (ss : List ℕ) {s : ℕ}
    → find_cached slot dev blockno ss ≡ some s
    → Among s ss × Holds (slot s) dev blockno
unfolding find_cached
find_cached-some slot dev blockno [] e = cc
find_cached-some slot dev blockno (x ∷ xs) {s} e = elim (Bool-cases (holds (slot x) dev blockno)) [
  | inl h ↦ (inl (ground arith), ground arith)
  | inr n ↦ let (a, b) = find_cached-some slot dev blockno xs {s = s} (ground arith) in (inr a, b)
]

pub find_cached-none :
    (slot : ℕ → Buf) (dev blockno : ℕ) (ss : List ℕ)
    → find_cached slot dev blockno ss ≡ none
    → (s : ℕ) → Among s ss
    → ¬ Holds (slot s) dev blockno
unfolding find_cached
find_cached-none slot dev blockno [] e s a = absurd a
find_cached-none slot dev blockno (x ∷ xs) e s (inl p) = λ h. ground (arith, ap slot p)
find_cached-none slot dev blockno (x ∷ xs) e s (inr a) =
    find_cached-none slot dev blockno xs (ground arith) s a

-- The list from slot s on has no other free slot behind it.
pub record LastFree (slot : ℕ → Buf) (s : ℕ) (ss : List ℕ) : Type 0 where
  pub before : List ℕ
  pub behind : List ℕ
  pub split : ss ≡ before ++ (s ∷ behind)
  pub free : (slot s).refcnt ≡ 0
  pub busy : All (λ x. (slot x).refcnt ≢ 0) behind

pub find_free-none :
    (slot : ℕ → Buf) (ss : List ℕ) → find_free slot ss ≡ none → All (λ x. (slot x).refcnt ≢ 0) ss
unfolding find_free
find_free-none slot [] e = tt
find_free-none slot (x ∷ xs) e = elim (Option-cases (find_free slot xs)) [
  | inl n ↦ (ground arith, find_free-none slot xs n)
  | inr (r, m) ↦ absurd (ground arith)
]

pub find_free-LastFree :
    (slot : ℕ → Buf) (ss : List ℕ) {s : ℕ} → find_free slot ss ≡ some s → LastFree slot s ss
unfolding find_free
find_free-LastFree slot [] e = absurd (ground arith)
find_free-LastFree slot (x ∷ xs) {s} e = elim (Option-cases (find_free slot xs)) [
  | inl n ↦ record {
    before = [];
    behind = xs;
    split = ground arith;
    free = ground arith;
    busy = find_free-none slot xs n;
  }
  | inr (r, m) ↦
      let l = find_free-LastFree slot xs {s = s} (ground arith) in
      record {
        before = x ∷ l.before;
        behind = l.behind;
        split = ap (λ q. x ∷ q) l.split;
        free = l.free;
        busy = l.busy;
      }
]
