-- ===== src/Memory/Strings.antt =====
-- The string functions: what they copy, compare and measure.
use computer_system.Prelude.{
  ℕ, zero, suc, ◌+◌, ◌-◌, ◌≤◌, ◌<◌, ◌≡◌, ◌≢◌, refl, ◌∙◌, sym, ap, ◌⊎◌, true, false, some, update,
  ltb, if◌then◌else◌, arith,
}
use native.Mathlib.Nat.{add_assoc, add-zero}
use computer_system.Prelude.Int.{pos}
use computer_system.Memory.{Memory, strncmp, pad, strncpy, safe_copy, safestrcpy, strlen}
use computer_system.Memory.Move.{within}

-- The string at t has k bytes before its nul, or at least n.
abbrev pub IsString : Memory → ℕ → ℕ → ℕ → Type 0
IsString mem t k n = ((i : ℕ) → i < k → mem (t + i) ≢ 0) × (k < n → mem (t + k) ≡ 0) × (k ≤ n)

-- The n bytes at s and the n bytes at t share none.
abbrev pub Apart : ℕ → ℕ → ℕ → Type 0
Apart s t n = (s + n ≤ t) ⊎ (t + n ≤ s)

pad_lem : (mem : Memory) (s n x : ℕ) → pad mem s n x ≡ (if within s n x then 0 else mem x)
unfolding pad
pad_lem mem s zero x = ground arith
pad_lem mem s (suc n) x = pad_lem (update mem s 0) (s + 1) n x ∙ ground arith

IsString-tail :
    (mem : Memory) (s t k n v : ℕ)
    → Apart s t (suc n)
    → IsString mem t (suc k) (suc n)
    → IsString (update mem s v) (t + 1) k n
IsString-tail mem s t k n v a h = (
  λ i p. ground (arith, h.0 (suc i), add_assoc t 1 i),
  λ p. ground (arith, h.1, add_assoc t 1 k),
  omega arith,
)

-- strncpy copies the string and pads it with zero bytes up to n, changing nothing else, if source
-- and destination do not overlap.
pub strncpy_lem :
    (mem : Memory) (s t k n x : ℕ)
    → Apart s t n
    → IsString mem t k n
    → strncpy mem s t n x
      ≡ (if within s n x then if ltb (x - s) k then mem (t + (x - s)) else 0 else mem x)
unfolding strncpy
strncpy_lem mem s t k zero x a h = ground arith
strncpy_lem mem s t zero (suc n) x a h =
    ground (arith, h.1, pad_lem (update mem s (mem t)) (s + 1) n x)
strncpy_lem mem s t (suc k) (suc n) x a h = ground (
  arith,
  h.0 0,
  strncpy_lem (update mem s (mem t)) (s + 1) (t + 1) k n x (omega arith)
      (IsString-tail mem s t k n (mem t) a h),
)

safe_copy_lem :
    (mem : Memory) (s t k n x : ℕ)
    → Apart s t (suc n)
    → IsString mem t k n
    → (within s k x ≡ true → safe_copy mem s t n x ≡ mem (t + (x - s)))
      × (x ≡ s + k → safe_copy mem s t n x ≡ 0)
      × (within s (suc n) x ≡ false → safe_copy mem s t n x ≡ mem x)
unfolding safe_copy
safe_copy_lem mem s t zero zero x a h = (ground arith, ground arith, ground arith)
safe_copy_lem mem s t zero (suc n) x a h = (ground arith, ground (arith, h.1), ground (arith, h.1))
safe_copy_lem mem s t (suc k) zero x a h = absurd (omega arith)
safe_copy_lem mem s t (suc k) (suc n) x a h =
    let rest =
      safe_copy_lem (update mem s (mem t)) (s + 1) (t + 1) k n x (omega arith)
        (IsString-tail mem s t k n (mem t) (omega arith) h) in
    (
      ground (arith, h.0 0, rest.0, rest.2),
      ground (arith, h.0 0, rest.1),
      ground (arith, h.0 0, rest.2),
    )

-- safestrcpy, for n > 0 and arrays that do not overlap, copies the string or its first n - 1 bytes,
-- puts a nul behind them, inside the n bytes, and changes no byte outside them.
pub safestrcpy_lem :
    (mem : Memory) (s t k n x : ℕ)
    → Apart s t (suc n)
    → IsString mem t k n
    → (within s k x ≡ true → safestrcpy mem s t (suc n) x ≡ mem (t + (x - s)))
      × (x ≡ s + k → safestrcpy mem s t (suc n) x ≡ 0)
      × (within s (suc n) x ≡ false → safestrcpy mem s t (suc n) x ≡ mem x)
unfolding safestrcpy
safestrcpy_lem = safe_copy_lem

strlen_from :
    (mem : Memory) (s k fuel n : ℕ)
    → ((i : ℕ) → i < n + k → mem (s + i) ≢ 0)
    → mem (s + (n + k)) ≡ 0
    → k < fuel
    → strlen fuel mem s n ≡ some (n + k)
unfolding strlen
strlen_from mem s k zero n h e f = absurd (omega arith)
strlen_from mem s zero (suc fuel) n h e f = ground (arith, add-zero n)
strlen_from mem s (suc k) (suc fuel) n h e f = ground (
  arith,
  h n,
  strlen_from mem s k fuel (n + 1) (λ i p. h i (omega arith))
      (ap (λ j. mem (s + j)) {x = n + 1 + k} {y = n + suc k} (omega arith) ∙ e) (omega arith),
)

-- strlen ends, and returns the number of bytes before the first nul, with any fuel above it.
pub strlen_lem :
    (mem : Memory) (s k fuel : ℕ)
    → ((i : ℕ) → i < k → mem (s + i) ≢ 0)
    → mem (s + k) ≡ 0
    → k < fuel
    → strlen fuel mem s 0 ≡ some k
strlen_lem mem s k fuel h e f =
    strlen_from mem s k fuel 0 (λ i p. h i (omega arith))
      (ap (λ j. mem (s + j)) {x = 0 + k} {y = k} (omega arith) ∙ e) f
    ∙ ap some (omega arith)

-- The strings at p and q agree up to the first nul, or in n bytes.
abbrev pub Agree : Memory → ℕ → ℕ → ℕ → Type 0
Agree mem p q n = (i : ℕ) → i < n → ((j : ℕ) → j < i → mem (p + j) ≢ 0) → mem (p + i) ≡ mem (q + i)

next_byte : (mem : Memory) (p i : ℕ) → mem (p + suc i) ≡ mem (p + 1 + i)
next_byte mem p i = ap mem {x = p + suc i} {y = p + 1 + i} (omega arith)

Agree-head : (mem : Memory) (p q n : ℕ) → Agree mem p q (suc n) → mem p ≡ mem q
Agree-head mem p q n a =
    ground (arith, a 0 (omega arith) (λ j h. absurd (omega arith)), add-zero p, add-zero q)

Agree-tail :
    (mem : Memory) (p q n : ℕ) → Agree mem p q (suc n) → mem p ≢ 0 → Agree mem (p + 1) (q + 1) n
Agree-tail mem p q n a ne i lt before =
    sym (next_byte mem p i) ∙ a (suc i) (omega arith) each ∙ next_byte mem q i
  where
    each : (j : ℕ) → j < suc i → mem (p + j) ≢ 0
    each zero h = ground (arith, add-zero p)
    each (suc j) h = λ e. before j (omega arith) (sym (next_byte mem p j) ∙ e)

Agree-cons :
    (mem : Memory) (p q n : ℕ)
    → mem p ≡ mem q
    → (mem p ≢ 0 → Agree mem (p + 1) (q + 1) n)
    → Agree mem p q (suc n)
Agree-cons mem p q n e rest zero lt before = ground (arith, add-zero p, add-zero q)
Agree-cons mem p q n e rest (suc i) lt before =
    next_byte mem p i
    ∙ rest (λ z. before 0 (omega arith) (ap mem {x = p + 0} {y = p} (omega arith) ∙ z)) i
        (omega arith) (λ j h z. before (suc j) (omega arith) (next_byte mem p j ∙ z))
    ∙ sym (next_byte mem q i)

-- strncmp returns zero exactly for two strings that agree in n bytes or up to a nul in both.
pub strncmp_iff :
    (mem : Memory) (p q n : ℕ)
    → (strncmp mem p q n ≡ pos 0 → Agree mem p q n) × (Agree mem p q n → strncmp mem p q n ≡ pos 0)
unfolding strncmp
strncmp_iff mem p q zero = (λ e i h. absurd (omega arith), λ a. refl)
strncmp_iff mem p q (suc n) =
    let rest = strncmp_iff mem (p + 1) (q + 1) n in
    (
      λ e. Agree-cons mem p q n (ground arith) (λ ne. rest.0 (ground arith)),
      λ a.
          ground
            (arith, Agree-head mem p q n a, λ (ne : mem p ≢ 0). rest.1 (Agree-tail mem p q n a ne)),
    )
