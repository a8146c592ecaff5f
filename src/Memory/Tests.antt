-- ===== src/Memory/Tests.antt =====
-- Runs of kernel/string.c's functions on a small memory, and the theorems at them.
use computer_system.Prelude.{
  ℕ, zero, suc, ◌+◌, ◌-◌, ◌%◌, ◌≤◌, ◌<◌, ◌≡◌, ◌≢◌, refl, [], ◌∷◌, get_or, arith, if◌then◌else◌,
}
use computer_system.Prelude.Int.{negsuc}
use computer_system.Memory.{Memory, memset, memmove, copy_up, copy_down, strncmp}
use computer_system.Memory.Move.{within, memset_lem, memmove_lem}
use computer_system.Memory.Strings.{IsString}

-- "abc" at 0, "abd" at 4.
abbrev letters : Memory
letters a = get_or (97 ∷ 98 ∷ 99 ∷ 0 ∷ 97 ∷ 98 ∷ 100 ∷ 0 ∷ []) a 1

abc-no_nul : (i : ℕ) → i < 3 → letters (0 + i) ≢ 0
abc-no_nul zero h = omega arith
abc-no_nul (suc zero) h = omega arith
abc-no_nul (suc (suc zero)) h = omega arith
abc-no_nul (suc (suc (suc i))) h = absurd (omega arith)

abc-IsString : (n : ℕ) → 3 ≤ n → IsString letters 0 3 n
abc-IsString n h = (abc-no_nul, λ p. refl, h)

memset_keeps_the_low_byte :
    memset letters 2 300 3 4 ≡ (if within 2 3 4 then 300 % 256 else letters 4)
memset_keeps_the_low_byte = memset_lem letters 2 300 3 4

memmove_lem_example :
    memmove letters 1 0 3 2 ≡ (if within 1 3 2 then letters (0 + (2 - 1)) else letters 2)
memmove_lem_example = memmove_lem letters 1 0 3 2

abc_before_abd : strncmp letters 0 4 3 ≡ negsuc 0
unfolding strncmp
abc_before_abd = refl

memmove_overlapping : memmove letters 1 0 3 3 ≡ 99
unfolding memmove copy_down copy_up
memmove_overlapping = refl
