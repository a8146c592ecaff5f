-- ===== src/Memory.antt =====
-- kernel/string.c over a flat memory of bytes. Pointers are numbers; the callers' arrays lie in the
-- address space, so that no pointer wraps.
pub mod Move
pub mod Strings
mod Tests
use computer_system.Prelude.{
  ℕ, zero, suc, ◌+◌, ◌-◌, ◌%◌, Bool, true, false, ◌&&◌, Option, none, some, update, ltb, ◌==◌,
  if◌then◌else◌,
}
use computer_system.Prelude.Int.{ℤ, pos, sub_ℕ}

-- A byte at each address.
abbrev pub Memory : Type 0
Memory = ℕ → ℕ

-- c is an int, stored as a char.
unfoldable pub memset : Memory → ℕ → ℕ → ℕ → Memory
memset mem dst c zero = mem
memset mem dst c (suc n) = memset (update mem dst (c % 256)) (dst + 1) c n

unfoldable pub memcmp : Memory → ℕ → ℕ → ℕ → ℤ
memcmp mem s1 s2 zero = pos 0
memcmp mem s1 s2 (suc n) =
    let rest = memcmp mem (s1 + 1) (s2 + 1) n in
    if mem s1 == mem s2 then rest else sub_ℕ (mem s1) (mem s2)

-- while(n-- > 0) *d++ = *s++;
unfoldable pub copy_up : Memory → ℕ → ℕ → ℕ → Memory
copy_up mem d s zero = mem
copy_up mem d s (suc n) = copy_up (update mem d (mem s)) (d + 1) (s + 1) n

-- while(n-- > 0) *--d = *--s; from d + n and s + n
unfoldable pub copy_down : Memory → ℕ → ℕ → ℕ → Memory
copy_down mem d s zero = mem
copy_down mem d s (suc n) = copy_down (update mem (d + n) (mem (s + n))) d s n

unfoldable pub memmove : Memory → ℕ → ℕ → ℕ → Memory
memmove mem dst src n =
    if ltb src dst && ltb dst (src + n) then copy_down mem dst src n else copy_up mem dst src n

unfoldable pub memcpy : Memory → ℕ → ℕ → ℕ → Memory
memcpy mem dst src n = memmove mem dst src n

unfoldable pub strncmp : Memory → ℕ → ℕ → ℕ → ℤ
strncmp mem p q zero = pos 0
strncmp mem p q (suc n) =
    let rest = strncmp mem (p + 1) (q + 1) n in
    if mem p == 0
    then sub_ℕ (mem p) (mem q)
    else if mem p == mem q
    then rest
    else sub_ℕ (mem p) (mem q)

-- while(n-- > 0) *s++ = 0;
unfoldable pub pad : Memory → ℕ → ℕ → Memory
pad mem s zero = mem
pad mem s (suc n) = pad (update mem s 0) (s + 1) n

unfoldable pub strncpy : Memory → ℕ → ℕ → ℕ → Memory
strncpy mem s t zero = mem
strncpy mem s t (suc n) =
    let mem' = update mem s (mem t) in
    let rest = strncpy mem' (s + 1) (t + 1) n in if mem t == 0 then pad mem' (s + 1) n else rest

-- while(--n > 0 && (*s++ = *t++) != 0); *s = 0;  with `n` bytes left before the last. A nul that is
-- copied leaves s behind it, where the final store puts another.
unfoldable pub safe_copy : Memory → ℕ → ℕ → ℕ → Memory
safe_copy mem s t zero = update mem s 0
safe_copy mem s t (suc n) =
    let mem' = update mem s (mem t) in
    let rest = safe_copy mem' (s + 1) (t + 1) n in
    if mem t == 0 then update mem' (s + 1) 0 else rest

-- n <= 0 copies nothing.
unfoldable pub safestrcpy : Memory → ℕ → ℕ → ℕ → Memory
unfolding safe_copy
safestrcpy mem s t zero = mem
safestrcpy mem s t (suc n) = safe_copy mem s t n

-- The loop of strlen; none when the fuel runs out before a nul.
unfoldable pub strlen : ℕ → Memory → ℕ → ℕ → Option ℕ
strlen zero mem s n = none
strlen (suc fuel) mem s n =
    let rest = strlen fuel mem s (n + 1) in if mem (s + n) == 0 then some n else rest
