-- ===== src/Bcache/Get.antt =====
-- bget, bread and brelse: one buffer for a block, and the least recently used one recycled.
use mathlib.Core.Path.{subst, subst₂}
use computer_system.Prelude.{
  ℕ, ◌+◌, ◌%◌, ◌≡◌, ◌≢◌, refl, ap, ◌⊎◌, inl, inr, true, false, Option, none, some, All, ◌==◌,
  ==_iff, Bool-cases, Option-cases, arith,
}
use computer_system.Bcache.{
  word_mod, Disk, Buf, Bcache, find_cached, find_free, with_buf, recycle, bget_from, bget, fill,
  bread,
}
use computer_system.Bcache.Scan.{
  Among, Holds, Unique, LastFree, find_cached-some, find_cached-none, find_free-none,
  find_free-LastFree,
}

-- The slots other than s are as they were, and the list too.
abbrev pub OnlySlot : Bcache → ℕ → Bcache → Type 0
OnlySlot c s c' = (c'.order ≡ c.order) × ((i : ℕ) → s ≢ i → c'.slot i ≡ c.slot i)

-- How bget may end.
abbrev pub Gets : Bcache → ℕ → ℕ → Option (ℕ × Bcache) → Type 0
Gets c dev blockno none =
    ((i : ℕ) → Among i c.order → ¬ Holds (c.slot i) dev blockno)
    × All (λ x. (c.slot x).refcnt ≢ 0) c.order
Gets c dev blockno (some (s, c')) =
    OnlySlot c s c'
    × ((Among s c.order
          × Holds (c.slot s) dev blockno
          × (c'.slot s ≡ record (c.slot s) { refcnt = ((c.slot s).refcnt + 1) % word_mod }))
        ⊎ (((i : ℕ) → Among i c.order → ¬ Holds (c.slot i) dev blockno)
            × LastFree c.slot s c.order
            × (c'.slot s
                ≡ record (c.slot s) { dev = dev; blockno = blockno; valid = false; refcnt = 1 })))

OnlySlot-with_buf : (c : Bcache) (s : ℕ) (b : Buf) → OnlySlot c s (with_buf c s b)
OnlySlot-with_buf c s b = (refl, λ i n. ground arith)

-- bget takes a reference to the buffer that holds the block, if there is one; else it recycles for
-- the block the free buffer that comes last in the recency list, with one reference and contents
-- not valid; it panics only if no buffer holds the block and none is free. It changes no other
-- buffer and not the list.
pub bget_finds : (c : Bcache) (dev blockno : ℕ) → Gets c dev blockno (bget c dev blockno)
unfolding bget bget_from recycle
bget_finds c dev blockno = go (find_cached c.slot dev blockno c.order) refl
  where
    miss :
        (o : Option ℕ)
        → find_free c.slot c.order ≡ o
        → ((i : ℕ) → Among i c.order → ¬ Holds (c.slot i) dev blockno)
        → Gets c dev blockno (recycle c dev blockno o)
    miss none e absent = (absent, find_free-none c.slot c.order e)
    miss (some s) e absent =
        (OnlySlot-with_buf c s _, inr (absent, find_free-LastFree c.slot c.order e, ground arith))

    go :
        (o : Option ℕ)
        → find_cached c.slot dev blockno c.order ≡ o
        → Gets c dev blockno (bget_from c dev blockno o)
    go none e = miss (find_free c.slot c.order) refl (find_cached-none c.slot dev blockno c.order e)
    go (some s) e =
        let (a, h) = find_cached-some c.slot dev blockno c.order e in
        (OnlySlot-with_buf c s _, inl (a, h, ground arith))

-- bget keeps one buffer for each block of a device.
pub bget-Unique :
    (c : Bcache) (dev blockno : ℕ) {s : ℕ} {c' : Bcache}
    → Unique c
    → bget c dev blockno ≡ some (s, c')
    → Unique c'
bget-Unique c dev blockno {s} {c'} u e i j d b ai aj nz hi hj = elim how [
  | inl hit ↦
      u i j d b (among i ai) (among j aj) nz (same_hit hit.1 hit.2 i hi) (same_hit hit.1 hit.2 j hj)
  | inr miss ↦ elim (Bool-cases (s == i)) [
    | inl si ↦ elim (Bool-cases (s == j)) [
      | inl sj ↦ ground arith
      | inr nj ↦ absurd (clash miss.0 miss.2 i j (ground arith) (ground arith) (among j aj) hi hj)
    ]
    | inr ni ↦ elim (Bool-cases (s == j)) [
      | inl sj ↦ absurd (clash miss.0 miss.2 j i (ground arith) (ground arith) (among i ai) hj hi)
      | inr nj ↦
          u i j d b (among i ai) (among j aj) nz
            (subst (λ z. Holds z d b) (only.1 i (ground arith)) hi)
            (subst (λ z. Holds z d b) (only.1 j (ground arith)) hj)
    ]
  ]
]
  where
    gets : Gets c dev blockno (some (s, c'))
    gets = subst (Gets c dev blockno) e (bget_finds c dev blockno)

    only : OnlySlot c s c'
    only = gets.0

    how :
        (Among s c.order
          × Holds (c.slot s) dev blockno
          × (c'.slot s ≡ record (c.slot s) { refcnt = ((c.slot s).refcnt + 1) % word_mod }))
        ⊎ (((i : ℕ) → Among i c.order → ¬ Holds (c.slot i) dev blockno)
            × LastFree c.slot s c.order
            × (c'.slot s
                ≡ record (c.slot s) { dev = dev; blockno = blockno; valid = false; refcnt = 1 }))
    how = gets.1

    among : (x : ℕ) → Among x c'.order → Among x c.order
    among x = subst (Among x) only.0

    same_hit :
        Holds (c.slot s) dev blockno
        → c'.slot s ≡ record (c.slot s) { refcnt = ((c.slot s).refcnt + 1) % word_mod }
        → (x : ℕ) → Holds (c'.slot x) d b
        → Holds (c.slot x) d b
    same_hit held now x h = elim (Bool-cases (s == x)) [
      | inl sx ↦ ground (arith, ap c'.slot ((==_iff s x).0 sx), ap c.slot ((==_iff s x).0 sx))
      | inr nx ↦ subst (λ z. Holds z d b) (only.1 x (ground arith)) h
    ]

    clash :
        ((x : ℕ) → Among x c.order → ¬ Holds (c.slot x) dev blockno)
        → c'.slot s ≡ record (c.slot s) { dev = dev; blockno = blockno; valid = false; refcnt = 1 }
        → (x y : ℕ) → s ≡ x
        → s ≢ y
        → Among y c.order
        → Holds (c'.slot x) d b
        → Holds (c'.slot y) d b
        → ⊥
    clash absent now x y sx ny ay hx hy = absent y ay (ground (arith, ap c'.slot sx, only.1 y ny))

-- Slot s holds the block, and its contents are those of a valid buffer before or of the disk.
abbrev pub Reads : Disk → Bcache → ℕ → ℕ → ℕ → Bcache → Type 0
Reads disk c dev blockno s c' =
    Holds (c'.slot s) dev blockno
    × ((c'.slot s).valid ≡ true)
    × (((c'.slot s).contents ≡ disk dev blockno)
        ⊎ (Holds (c.slot s) dev blockno
            × ((c.slot s).valid ≡ true)
            × ((c'.slot s).contents ≡ (c.slot s).contents)))

fill-Reads :
    (disk : Disk) (c : Bcache) (dev blockno s : ℕ) (c0 : Bcache)
    → Gets c dev blockno (some (s, c0))
    → Reads disk c dev blockno s (fill disk s c0)
unfolding fill
fill-Reads disk c dev blockno s c0 (only, inl (a, h, now)) = elim (Bool-cases (c0.slot s).valid) [
  | inl v ↦ rw v (ground (arith, now), v, inr (h, ground (arith, now), ground (arith, now)))
  | inr w ↦ rw w (ground (arith, now), ground arith, inl (ground (arith, now, h)))
]
fill-Reads disk c dev blockno s c0 (only, inr (a, l, now)) = elim (Bool-cases (c0.slot s).valid) [
  | inl v ↦ absurd (ground (arith, now))
  | inr w ↦ rw w (ground (arith, now), ground arith, inl (ground (arith, now)))
]

-- bread returns a valid buffer for the block; its contents are those that a valid buffer of the
-- block had, or the disk's.
pub bread_contents :
    (disk : Disk) (c : Bcache) (dev blockno : ℕ) {s : ℕ} {c' : Bcache}
    → bread disk c dev blockno ≡ some (s, c')
    → Reads disk c dev blockno s c'
unfolding bread
bread_contents disk c dev blockno {s} {c'} e = elim (Option-cases (bget c dev blockno)) [
  | inl n ↦ absurd (ground arith)
  | inr ((s0, c0), g) ↦
      subst₂ (Reads disk c dev blockno) {x = s0} {y = s} {u = fill disk s0 c0} {v = c'}
        (ground arith) (ground arith)
        (fill-Reads disk c dev blockno s0 c0
          (subst (Gets c dev blockno) g (bget_finds c dev blockno)))
]
