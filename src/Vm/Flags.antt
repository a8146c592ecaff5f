-- ===== src/Vm/Flags.antt =====
-- An entry that mappages makes: the page's number above the flags.
use computer_system.Prelude.{
  ℕ, zero, suc, ◌+◌, ◌*◌, ◌/◌, ◌%◌, ◌^◌, ◌<◌, ◌≡◌, ◌∙◌, ap, ◌==◌, ◌||◌, if◌then◌else◌, arith,
}
use computer_system.Vm.{pa2pte, with_v, bit_or, pte_of}

abbrev shifted_up : ℕ → ℕ → ℕ
shifted_up zero c = c
shifted_up (suc k) c = 2 * shifted_up k c

abbrev more : ℕ → ℕ → ℕ
more zero n = n
more (suc k) n = suc (more k n)

abbrev power : ℕ → ℕ
power zero = 1
power (suc k) = 2 * power k

one_bit : (a b : ℕ) → a % 2 ≡ 0 → (if a % 2 == 1 || b % 2 == 1 then 1 else 0) ≡ b % 2
one_bit a b e = ground arith

bit_or-zero : (n a : ℕ) → a < power n → bit_or n a 0 ≡ a
unfolding bit_or
bit_or-zero zero a lt = omega arith
bit_or-zero (suc n) a lt =
    let rest : bit_or n (a / 2) 0 ≡ a / 2 = bit_or-zero n (a / 2) (omega arith) in
    let bit : (if a % 2 == 1 || 0 == 1 then 1 else 0) ≡ a % 2 = ground arith in
    rw (bit, rest) (omega arith)

bit_or-shifted :
    (k n c b : ℕ)
    → b < power k
    → bit_or (more k n) (shifted_up k c) b ≡ shifted_up k (bit_or n c 0) + b
unfolding bit_or
bit_or-shifted zero n c b lt =
    let z : b ≡ 0 = omega arith in
    let plus : bit_or n c 0 ≡ bit_or n c 0 + b = omega arith in ap (bit_or n c) z ∙ plus
bit_or-shifted (suc k) n c b lt =
    let half : 2 * shifted_up k c / 2 ≡ shifted_up k c = omega arith in
    let even : 2 * shifted_up k c % 2 ≡ 0 = omega arith in
    let rest = bit_or-shifted k n c (b / 2) (omega arith) in
    rw (one_bit (2 * shifted_up k c) b even, half, rest) (omega arith)

-- The flags are the permissions and PTE_V, and the rest is the number of the page.
pte_of_lem : (pa perm : ℕ) → pa < 2 ^ 64 → perm < 1024 → pte_of pa perm ≡ pa2pte pa + with_v perm
unfolding pte_of
pte_of_lem pa perm small flags =
    let at : pa2pte pa ≡ shifted_up 10 (pa / 4096) = omega arith in
    ap (λ q. bit_or 64 q (with_v perm)) at
    ∙ bit_or-shifted 10 54 (pa / 4096) (with_v perm) (omega arith)
    ∙ ap (λ q. shifted_up 10 q + with_v perm) (bit_or-zero 54 (pa / 4096) (omega arith))
    ∙ omega arith
