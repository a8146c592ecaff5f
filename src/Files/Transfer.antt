-- ===== src/Files/Transfer.antt =====
-- filewrite over an inode, in chunks that fit a transaction.
use computer_system.Prelude.{
  ℕ, zero, suc, ◌+◌, ◌-◌, ◌%◌, ◌^◌, ◌≤◌, ◌<◌, ◌≡◌, ◌≢◌, refl, ◌∙◌, ap, inl, inr, true, false,
  Option, List, if◌then◌else◌, ltb, ◌==◌, arith, Bool-cases, ==_iff,
}
use mathlib.Core.Path.{subst}
use computer_system.Prelude.Int.{ℤ, pos, negsuc}
use computer_system.Files.{
  File, fd_inode, Writei, Result, returns, panics, out_of_fuel, max_write, advance, write_chunks,
  filewrite,
}

-- What the loop asks for at byte i.
abbrev pub asked : ℕ → ℕ → ℕ
asked n i = if ltb max_write (n - i) then max_write else n - i

-- What writei answers for the chunk at byte j of a call for n bytes that began byte i at offset
-- `off`.
abbrev pub chunk : Writei → ℕ → ℕ → ℕ → ℕ → ℤ
chunk writei n off i j = writei ((off + (j - i)) % 2 ^ 32) j (asked n j)

-- From byte i up to byte j, writei was asked for one chunk behind the other, and wrote each whole.
abbrev pub Whole : Writei → ℕ → ℕ → ℕ → ℕ → Type 0
Whole writei n off i j =
    (h : ℕ) → i ≤ h → h < j → (h - i) % max_write ≡ 0 → chunk writei n off i h ≡ pos (asked n h)

-- How a write may end that has written `i` of `n` bytes.
abbrev pub Writes : Writei → ℕ → File → ℕ → Result → Type 0
Writes writei n f i (returns (pos r) f') =
    (r ≡ n) × (f'.off ≡ (f.off + (n - i)) % 2 ^ 32) × Whole writei n f.off i n
Writes writei n f i (returns (negsuc e) f') =
    (e ≡ 0)
    × (j : ℕ) × (k : ℕ) × (i ≤ j)
    × (j < n)
    × ((j - i) % max_write ≡ 0)
    × (chunk writei n f.off i j ≡ negsuc k)
    × (f'.off ≡ (f.off + (j - i)) % 2 ^ 32)
    × Whole writei n f.off i j
Writes writei n f i panics =
    (j : ℕ) × (k : ℕ) × (i ≤ j)
    × (j < n)
    × ((j - i) % max_write ≡ 0)
    × (chunk writei n f.off i j ≡ pos k)
    × (k ≢ asked n j)
    × Whole writei n f.off i j
Writes writei n f i out_of_fuel = ⊥

-- A chunk ends at the last byte, or has max_write bytes.
asked_next :
    (n i j k : ℕ)
    → k ≡ asked n i
    → i < j
    → j < n
    → (j - i) % max_write ≡ 0
    → (i + k ≤ j) × ((j - (i + k)) % max_write ≡ 0)
asked_next n i j k same lt le al = elim (Bool-cases (ltb max_write (n - i))) [
  | inl e ↦
      let m : k ≡ max_write = ground (arith, same, e) in
      let far : max_write < n - i = ground (arith, e) in (omega arith, omega arith)
  | inr e ↦
      let m : k ≡ n - i = ground (arith, same, e) in
      let near : n - i ≤ max_write = ground (arith, e) in absurd (omega arith)
]

asked_before :
    (n i j k : ℕ)
    → k ≡ asked n i
    → i + k ≤ j
    → j < n
    → (j - (i + k)) % max_write ≡ 0
    → (j - i) % max_write ≡ 0
asked_before n i j k same le lt al = elim (Bool-cases (ltb max_write (n - i))) [
  | inl e ↦ let m : k ≡ max_write = ground (arith, same, e) in omega arith
  | inr e ↦ let m : k ≡ n - i = ground (arith, same, e) in absurd (omega arith)
]

-- One chunk written whole, and the rest.
module _ (writei : Writei) (n : ℕ) (f : File) (i k : ℕ) (lt : i < n) (o : f.off < 2 ^ 32)
    (same : k ≡ asked n i) (le : i + k ≤ n) (first : chunk writei n f.off i i ≡ pos k) where
  Whole-chunk :
      (j : ℕ) → j ≤ n → Whole writei n (advance f (pos k)).off (i + k) j → Whole writei n f.off i j
  Whole-chunk j short rest h ge below al = elim (Bool-cases (i == h)) [
    | inl e ↦
        subst (λ q. chunk writei n f.off i q ≡ pos (asked n q)) ((==_iff i h).0 e)
          (first ∙ ap pos same)
    | inr ne ↦
        let past : i < h = ground (arith, ne) in
        let (after, al') = asked_next n i h k same past (omega arith) al in
        ap (λ q. writei q h (asked n h)) (omega arith) ∙ rest h after below al'
  ]

  Writes-chunk :
      (r : Result) → Writes writei n (advance f (pos k)) (i + k) r → Writes writei n f i r
  Writes-chunk (returns (pos r) f') (e, off, all) =
      (e, omega arith, Whole-chunk n (omega arith) all)
  Writes-chunk (returns (negsuc e) f') (z', j, c, a, b, al, w, off, all) = (
    z',
    j,
    c,
    omega arith,
    b,
    asked_before n i j k same a b al,
    ap (λ q. writei q j (asked n j)) (omega arith) ∙ w,
    omega arith,
    Whole-chunk j (omega arith) all,
  )
  Writes-chunk panics (j, c, a, b, al, w, ne, all) = (
    j,
    c,
    omega arith,
    b,
    asked_before n i j k same a b al,
    ap (λ q. writei q j (asked n j)) (omega arith) ∙ w,
    ne,
    Whole-chunk j (omega arith) all,
  )
  Writes-chunk out_of_fuel w = absurd w

asked_bounds : (n i : ℕ) → i < n → (0 < asked n i) × (i + asked n i ≤ n)
asked_bounds n i lt = ground arith

-- A round of the loop, given the rest of it.
round-Writes :
    (fuel : ℕ) (writei : Writei) (n : ℕ) (f : File) (i : ℕ) (r : ℤ)
    → i < n
    → f.off < 2 ^ 32
    → chunk writei n f.off i i ≡ r
    → ((k : ℕ)
        → k ≡ asked n i
        → Writes writei n
            (advance f (pos k))
            (i + k)
            (write_chunks fuel writei n (advance f (pos k)) (i + k)))
    → Writes writei n f i (elim r [
      | pos k ↦
          if k == asked n i then write_chunks fuel writei n (advance f (pos k)) (i + k) else panics
      | negsuc k ↦ returns (if i == n then pos n else negsuc 0) f
    ])
round-Writes fuel writei n f i (pos k) lt o e rest = elim (Bool-cases (k == asked n i)) [
  | inl whole ↦
      let same = (==_iff k (asked n i)).0 whole in
      rw whole (
        Writes-chunk writei n f i k lt o same (omega (arith, asked_bounds n i lt)) e _
          (rest k same))
  | inr short ↦
      rw short
        (i, k, omega arith, lt, omega arith, e, ground arith, λ h a b al. absurd (omega arith))
]
round-Writes fuel writei n f i (negsuc k) lt o e rest =
    rw other
      (refl, i, k, omega arith, lt, omega arith, e, omega arith, λ h a b al. absurd (omega arith))
  where
    other : (i == n) ≡ false
    other = ground arith

write_chunks-Writes :
    (fuel : ℕ) (writei : Writei) (n : ℕ) (f : File) (i : ℕ)
    → i ≤ n
    → n - i < fuel
    → f.off < 2 ^ 32
    → Writes writei n f i (write_chunks fuel writei n f i)
unfolding write_chunks
write_chunks-Writes zero writei n f i le enough o = absurd (omega arith)
write_chunks-Writes (suc fuel) writei n f i le enough o = elim (Bool-cases (ltb i n)) [
  | inl more ↦
      let lt : i < n = ground arith in
      rw more (
        round-Writes fuel writei n f i (writei f.off i (asked n i)) lt o
          (ap (λ q. writei q i (asked n i)) (omega arith))
          (λ k e.
            write_chunks-Writes fuel writei n (advance f (pos k)) (i + k)
              (omega (arith, asked_bounds n i lt)) (omega (arith, asked_bounds n i lt))
              (omega arith)))
  | inr done ↦
      let same : (i == n) ≡ true = ground arith in
      let end : i ≡ n = (==_iff i n).0 same in
      rw (done, same) (refl, omega arith, λ h a b al. absurd (omega arith))
]

-- filewrite to a file of the file system that is open for writing, with more fuel than bytes, ends
-- in one of three ways: it returns n with the offset moved by n, after writei was asked for chunks
-- of max_write bytes, the last one for what is left, each from the byte behind the one before, and
-- wrote each whole; or it returns -1 at a chunk that writei refuses, or panics at one that writei
-- cuts short, after it wrote the chunks before that one whole, with the offset behind those.
pub filewrite-Writes :
    (fuel : ℕ) (piped : ℤ) (devs : List (Option ℤ)) (writei : Writei) (f : File) (n : ℕ)
    → f.writable ≡ true
    → f.type ≡ fd_inode
    → f.off < 2 ^ 32
    → n < fuel
    → Writes writei n f 0 (filewrite fuel piped devs writei f n)
unfolding filewrite
filewrite-Writes fuel piped devs writei f n w t o enough =
    subst (Writes writei n f 0) {x = write_chunks fuel writei n f 0} (ground (arith, w, t))
      (write_chunks-Writes fuel writei n f 0 (omega arith) (omega arith) o)
