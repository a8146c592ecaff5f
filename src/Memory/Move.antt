-- ===== src/Memory/Move.antt =====
-- memset and memmove: which byte stands where afterwards, for arrays that overlap too.
use computer_system.Prelude.{
  ℕ, zero, suc, ◌+◌, ◌-◌, ◌%◌, ◌≤◌, ◌<◌, ◌≡◌, ◌∙◌, ◌⊎◌, inl, inr, Bool, ◌&&◌, update, ltb, leb,
  if◌then◌else◌, Bool-cases, arith,
}
use computer_system.Memory.{Memory, memset, memmove, copy_up, copy_down}

-- dst <= x < dst + n
abbrev pub within : ℕ → ℕ → ℕ → Bool
within dst n x = leb dst x && ltb x (dst + n)

-- memset stores the byte at each of the n addresses and changes no other.
pub memset_lem :
    (mem : Memory) (dst c n x : ℕ)
    → memset mem dst c n x ≡ (if within dst n x then c % 256 else mem x)
unfolding memset
memset_lem mem dst c zero x = ground arith
memset_lem mem dst c (suc n) x =
    memset_lem (update mem dst (c % 256)) (dst + 1) c n x ∙ ground arith

copy_up_lem :
    (mem : Memory) (d s n x : ℕ)
    → (d ≤ s) ⊎ (s + n ≤ d)
    → copy_up mem d s n x ≡ (if within d n x then mem (s + (x - d)) else mem x)
unfolding copy_up
copy_up_lem mem d s zero x h = ground arith
copy_up_lem mem d s (suc n) x h =
    copy_up_lem (update mem d (mem s)) (d + 1) (s + 1) n x (omega arith) ∙ ground arith

copy_down_lem :
    (mem : Memory) (d s n x : ℕ)
    → s < d
    → copy_down mem d s n x ≡ (if within d n x then mem (s + (x - d)) else mem x)
unfolding copy_down
copy_down_lem mem d s zero x h = ground arith
copy_down_lem mem d s (suc n) x h =
    copy_down_lem (update mem (d + n) (mem (s + n))) d s n x h ∙ ground arith

-- memmove is exact whether or not the two arrays overlap, either way round: afterwards each of the
-- n bytes from dst on is what the byte at its place from src on was before, and no other changed.
pub memmove_lem :
    (mem : Memory) (dst src n x : ℕ)
    → memmove mem dst src n x ≡ (if within dst n x then mem (src + (x - dst)) else mem x)
unfolding memmove
memmove_lem mem dst src n x = elim (Bool-cases (ltb src dst && ltb dst (src + n))) [
  | inl overlap ↦ rw overlap (copy_down_lem mem dst src n x (ground arith))
  | inr apart ↦ rw apart (copy_up_lem mem dst src n x (ground arith))
]
