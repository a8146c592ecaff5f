-- ===== src/Uvm.antt =====
-- kernel/vm.c: the address space of a process: mapping, growing, shrinking, copying and freeing it,
-- and the kernel's own mappings. The addresses and sizes of the loops do not wrap.
pub mod Pages
pub mod Unmap
pub mod Range
mod Tests
use computer_system.Prelude.{
  ℕ, zero, suc, ◌+◌, ◌-◌, ◌*◌, ◌/◌, ◌%◌, ◌^◌, Bool, true, false, not, ◌&&◌, ◌||◌, Option, none,
  some, List, [], ◌∷◌, update, ltb, leb, ◌==◌, if◌then◌else◌, length,
}
use computer_system.Kalloc.{page_size, page_round_up}
use computer_system.UserCopy.{bytes_from, write_bytes}
use computer_system.Vm.{
  Memory, page_round_down, pte2pa, pa2pte, pte_flags, is_valid, user_page, fill_page, kalloc, kfree,
  set_pte, walk, mappages, Outcome, ok, panics, out_of_fuel,
}

-- Goes on where the call returned.
abbrev pub and_then : {A : Type 0} {B : Type 0} → Outcome A → (A → Outcome B) → Outcome B
and_then (ok a) f = f a
and_then panics f = panics
and_then out_of_fuel f = out_of_fuel

-- What uvmunmap does with the entry that walk found.
unfoldable pub unmap_at : Bool → Option (ℕ × ℕ) × Memory → Outcome Memory
unfolding kfree set_pte
unmap_at do_free (none, m) = panics
unmap_at do_free (some (t, i), m) =
    let pte = m.table t i in
    if not (is_valid pte)
    then panics
    else if pte_flags pte == 1
    then panics
    else and_then (if do_free then kfree m (pte2pa pte) else ok m) (λ m'. ok (set_pte m' t i 0))

-- The loop of uvmunmap, over the pages left.
unfoldable pub unmap_from : ℕ → Memory → ℕ → ℕ → Bool → Outcome Memory
unfolding walk unmap_at
unmap_from zero m pt a do_free = ok m
unmap_from (suc n) m pt a do_free =
    and_then (and_then (walk m pt a false) (unmap_at do_free))
      (λ m'. unmap_from n m' pt (a + page_size) do_free)

unfoldable pub uvmunmap : Memory → ℕ → ℕ → ℕ → Bool → Outcome Memory
unfolding unmap_from
uvmunmap m pt va npages do_free =
    if not (va % page_size == 0) then panics else unmap_from npages m pt va do_free

-- kalloc(), and memset(pa, 0, PGSIZE) where it gave a page: 0 is the null pointer.
unfoldable pub zeroed : Memory → ℕ × Memory
unfolding kalloc fill_page
zeroed m = let (pa, m1) = kalloc m in if pa == 0 then (0, m1) else (pa, fill_page m1 pa 0)

unfoldable pub uvmcreate : Memory → ℕ × Memory
unfolding zeroed
uvmcreate m = zeroed m

-- The new process size, and the memory.
unfoldable pub uvmdealloc : Memory → ℕ → ℕ → ℕ → Outcome (ℕ × Memory)
unfolding uvmunmap
uvmdealloc m pt oldsz newsz =
    if leb oldsz newsz
    then ok (oldsz, m)
    else if ltb (page_round_up newsz) (page_round_up oldsz)
    then and_then
        (uvmunmap m pt (page_round_up newsz)
          ((page_round_up oldsz - page_round_up newsz) / page_size) true)
        (λ m'. ok (newsz, m'))
    else ok (newsz, m)

-- What uvmalloc does on an error: 0 is its result.
unfoldable pub give_up : Memory → ℕ → ℕ → ℕ → Outcome (ℕ × Memory)
unfolding uvmdealloc
give_up m pt a oldsz = and_then (uvmdealloc m pt a oldsz) (λ r. ok (0, r.1))

-- The loop of uvmalloc, over the pages left.
unfoldable pub grow_from : ℕ → Memory → ℕ → ℕ → ℕ → ℕ → Outcome (ℕ × Memory)
unfolding zeroed mappages kfree give_up
grow_from zero m pt a oldsz newsz = ok (newsz, m)
grow_from (suc n) m pt a oldsz newsz =
    let (mem, m1) = zeroed m in
    if mem == 0
    then give_up m1 pt a oldsz
    else and_then (mappages 3 m1 pt a page_size mem user_page) (λ r.
      if r.0
      then grow_from n r.1 pt (a + page_size) oldsz newsz
      else and_then (kfree r.1 mem) (λ m'. give_up m' pt a oldsz))

unfoldable pub uvmalloc : Memory → ℕ → ℕ → ℕ → Outcome (ℕ × Memory)
unfolding grow_from
uvmalloc m pt oldsz newsz =
    if ltb newsz oldsz
    then ok (oldsz, m)
    else grow_from ((newsz - page_round_up oldsz + 4095) / page_size) m pt (page_round_up oldsz)
        (page_round_up oldsz) newsz

-- src is the initcode's bytes.
unfoldable pub uvminit : Memory → ℕ → List ℕ → Outcome Memory
unfolding kalloc fill_page mappages
uvminit m pt src =
    let (mem, m1) = kalloc m in
    if leb page_size (length src)
    then panics
    else and_then (mappages 3 (fill_page m1 mem 0) pt 0 page_size mem user_page)
        (λ r. ok (record (r.1) { byte = write_bytes ((r.1).byte) mem src }))

-- memmove(dst, src, PGSIZE), seen as bytes and as words.
unfoldable pub copy_page : Memory → ℕ → ℕ → Memory
copy_page m dst src = record m {
  table = update m.table dst (m.table src);
  byte = write_bytes m.byte dst (bytes_from m.byte src page_size);
}

-- The label err of uvmcopy: false is `return -1`.
unfoldable pub copy_error : Memory → ℕ → ℕ → Outcome (Bool × Memory)
unfolding uvmunmap
copy_error m pt i = and_then (uvmunmap m pt 0 (i / page_size) true) (λ m'. ok (false, m'))

-- A page of uvmcopy: true where the loop goes on.
unfoldable pub copy_at : ℕ → ℕ → Option (ℕ × ℕ) × Memory → Outcome (Bool × Memory)
unfolding kalloc kfree mappages copy_page copy_error
copy_at new i (none, m) = panics
copy_at new i (some (t, j), m) =
    let pte = m.table t j in
    let (mem, m1) = kalloc m in
    if not (is_valid pte)
    then panics
    else if mem == 0
    then copy_error m1 new i
    else and_then (mappages 3 (copy_page m1 mem (pte2pa pte)) new i page_size mem (pte_flags pte))
        (λ r. if r.0 then ok (true, r.1) else and_then (kfree r.1 mem) (λ m'. copy_error m' new i))

-- The loop of uvmcopy, over the pages left.
unfoldable pub copy_from : ℕ → Memory → ℕ → ℕ → ℕ → Outcome (Bool × Memory)
unfolding walk copy_at
copy_from zero m old new i = ok (true, m)
copy_from (suc n) m old new i =
    and_then (and_then (walk m old i false) (copy_at new i))
      (λ r. if r.0 then copy_from n r.1 old new (i + page_size) else ok r)

-- true is `return 0`.
unfoldable pub uvmcopy : Memory → ℕ → ℕ → ℕ → Outcome (Bool × Memory)
unfolding copy_from
uvmcopy m old new sz = copy_from ((sz + 4095) / page_size) m old new 0

-- The entries of a table from the last `n` on, given the call for a table below.
unfoldable pub free_entries : (Memory → ℕ → Outcome Memory) → ℕ → Memory → ℕ → Outcome Memory
unfolding set_pte
free_entries below zero m pt = ok m
free_entries below (suc n) m pt =
    let i = 512 - suc n in
    let pte = m.table pt i in
    let rest = free_entries below n m pt in
    if is_valid pte && (pte / 2 % 8 == 0)
    then and_then (below m (pte2pa pte)) (λ m'. free_entries below n (set_pte m' pt i 0) pt)
    else if is_valid pte
    then panics
    else rest

-- The fuel is the depth of the recursion.
unfoldable pub freewalk : ℕ → Memory → ℕ → Outcome Memory
unfolding free_entries kfree
freewalk zero m pt = out_of_fuel
freewalk (suc fuel) m pt = and_then (free_entries (freewalk fuel) 512 m pt) (λ m'. kfree m' pt)

unfoldable pub uvmfree : ℕ → Memory → ℕ → ℕ → Outcome Memory
unfolding uvmunmap freewalk
uvmfree fuel m pt sz =
    and_then (if ltb 0 sz then uvmunmap m pt 0 (page_round_up sz / page_size) true else ok m)
      (λ m'. freewalk fuel m' pt)

-- *pte &= ~PTE_U
unfoldable pub clear_at : Option (ℕ × ℕ) × Memory → Outcome Memory
unfolding set_pte
clear_at (none, m) = panics
clear_at (some (t, i), m) =
    let pte = m.table t i in ok (set_pte m t i (if pte / 16 % 2 == 1 then pte - 16 else pte))

unfoldable pub uvmclear : Memory → ℕ → ℕ → Outcome Memory
unfolding walk clear_at
uvmclear m pt va = and_then (walk m pt va false) clear_at

-- kernel_pagetable is an argument.
unfoldable pub kvmmap : ℕ → Memory → ℕ → ℕ → ℕ → ℕ → ℕ → Outcome Memory
unfolding mappages
kvmmap fuel m kernel va pa sz perm =
    and_then (mappages fuel m kernel va sz pa perm) (λ r. if r.0 then ok (r.1) else panics)

unfoldable pub kvmpa_at : ℕ → Option (ℕ × ℕ) × Memory → Outcome ℕ
kvmpa_at off (none, m) = panics
kvmpa_at off (some (t, i), m) =
    let pte = m.table t i in if not (is_valid pte) then panics else ok (pte2pa pte + off)

unfoldable pub kvmpa : Memory → ℕ → ℕ → Outcome ℕ
unfolding walk kvmpa_at
kvmpa m kernel va = and_then (walk m kernel va false) (kvmpa_at (va % page_size))
