-- ===== src/UserCopy.antt =====
-- kernel/vm.c: copyin, copyout and copyinstr, between the kernel's arrays, as lists of bytes, and
-- a user's memory through a page table. `true` is `return 0`.
pub mod Bytes
pub mod Str
pub mod Out
pub mod Round
mod Tests
use computer_system.Prelude.{
  ℕ, zero, suc, ◌+◌, ◌-◌, ◌%◌, ◌^◌, min, Bool, true, false, List, [], ◌∷◌, ◌++◌, update, ◌==◌,
  if◌then◌else◌, length, take, drop,
}
use computer_system.Kalloc.{page_size}
use computer_system.Vm.{Memory, page_round_down, walkaddr, Outcome, ok, panics, out_of_fuel}

-- memmove's effect: from user memory, ...
abbrev pub bytes_from : (ℕ → ℕ) → ℕ → ℕ → List ℕ
bytes_from byte p zero = []
bytes_from byte p (suc n) = byte p ∷ bytes_from byte (p + 1) n

-- ... and to it.
abbrev pub write_bytes : (ℕ → ℕ) → ℕ → List ℕ → ℕ → ℕ
write_bytes byte p [] = byte
write_bytes byte p (b ∷ bs) = write_bytes (update byte p b) (p + 1) bs

-- The bytes stored before those of the following rounds.
abbrev pub prepend : List ℕ → Outcome (List ℕ × Bool) → Outcome (List ℕ × Bool)
prepend bs (ok (cs, done)) = ok (bs ++ cs, done)
prepend bs panics = panics
prepend bs out_of_fuel = out_of_fuel

-- The bytes stored to dst, and the result.
unfoldable pub copyin : ℕ → Memory → ℕ → ℕ → ℕ → Outcome (List ℕ × Bool)
copyin zero m pt srcva len = out_of_fuel
copyin (suc fuel) m pt srcva len =
    let va0 = page_round_down srcva in
    let pa0 = walkaddr m pt va0 in
    let n = min (page_size - (srcva - va0)) len in
    let rest = copyin fuel m pt ((va0 + page_size) % 2 ^ 64) (len - n) in
    if len == 0
    then ok ([], true)
    else if pa0 == 0
    then ok ([], false)
    else prepend (bytes_from m.byte (pa0 + (srcva - va0)) n) rest

-- The memory afterwards, and the result.
unfoldable pub copyout : ℕ → Memory → ℕ → ℕ → List ℕ → Outcome (Memory × Bool)
copyout zero m pt dstva src = out_of_fuel
copyout (suc fuel) m pt dstva src =
    let va0 = page_round_down dstva in
    let pa0 = walkaddr m pt va0 in
    let n = min (page_size - (dstva - va0)) (length src) in
    let m' = record m { byte = write_bytes m.byte (pa0 + (dstva - va0)) (take n src) } in
    let rest = copyout fuel m' pt ((va0 + page_size) % 2 ^ 64) (drop n src) in
    if length src == 0 then ok (m, true) else if pa0 == 0 then ok (m, false) else rest

-- The inner loop of copyinstr: the bytes stored, and got_null.
unfoldable pub scan_page : (ℕ → ℕ) → ℕ → ℕ → List ℕ × Bool
scan_page byte p zero = ([], false)
scan_page byte p (suc n) =
    let (bs, got) = scan_page byte (p + 1) n in
    if byte p == 0 then (0 ∷ [], true) else (byte p ∷ bs, got)

-- A round of copyinstr, and the following ones if they run.
abbrev pub then_scan : List ℕ × Bool → Outcome (List ℕ × Bool) → Outcome (List ℕ × Bool)
then_scan (bs, true) rest = ok (bs, true)
then_scan (bs, false) rest = prepend bs rest

unfoldable pub copyinstr : ℕ → Memory → ℕ → ℕ → ℕ → Outcome (List ℕ × Bool)
unfolding scan_page
copyinstr zero m pt srcva max = out_of_fuel
copyinstr (suc fuel) m pt srcva max =
    let va0 = page_round_down srcva in
    let pa0 = walkaddr m pt va0 in
    let n = min (page_size - (srcva - va0)) max in
    let rest = copyinstr fuel m pt ((va0 + page_size) % 2 ^ 64) (max - n) in
    if max == 0
    then ok ([], false)
    else if pa0 == 0
    then ok ([], false)
    else then_scan (scan_page m.byte (pa0 + (srcva - va0)) n) rest
