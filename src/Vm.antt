-- ===== src/Vm.antt =====
-- kernel/vm.c: Sv39 page tables and what the kernel does with them. A page-table page is the
-- function from an index to its entry; the allocator is its list of free pages, as Kalloc's theorems
-- describe it. Data pages are bytes by physical address.
pub mod Tree
pub mod Hung
pub mod Walk
pub mod Page
pub mod Map
pub mod Flags
pub mod Sample
mod Tests
use computer_system.Prelude.{
  ℕ, zero, suc, ◌+◌, ◌-◌, ◌*◌, ◌/◌, ◌%◌, ◌^◌, Bool, true, false, not, ◌&&◌, ◌||◌, Option, none,
  some, List, [], ◌∷◌, ◌++◌, update, ltb, leb, ◌==◌, if◌then◌else◌,
}
use computer_system.Kalloc.{page_size, page_round_up, phys_stop}

abbrev pub page_round_down : ℕ → ℕ
page_round_down a = a / page_size * page_size

-- MAXVA
abbrev pub max_va : ℕ
max_va = 2 ^ 38

-- va >> (PGSHIFT + 9 * level)
abbrev pub shifted : ℕ → ℕ → ℕ
shifted zero va = va / page_size
shifted (suc level) va = shifted level va / 512

-- PX(level, va)
abbrev pub px : ℕ → ℕ → ℕ
px level va = shifted level va % 512

abbrev pub pa2pte : ℕ → ℕ
pa2pte pa = pa / page_size * 1024

abbrev pub pte2pa : ℕ → ℕ
pte2pa pte = pte / 1024 * page_size

abbrev pub pte_flags : ℕ → ℕ
pte_flags pte = pte % 1024

-- pte & PTE_V
abbrev pub is_valid : ℕ → Bool
is_valid pte = pte % 2 == 1

-- pte & PTE_U
abbrev pub is_user : ℕ → Bool
is_user pte = pte / 16 % 2 == 1

-- perm | PTE_V
abbrev pub with_v : ℕ → ℕ
with_v perm = perm / 2 * 2 + 1

-- a | b, of n bits.
unfoldable pub bit_or : ℕ → ℕ → ℕ → ℕ
bit_or zero a b = 0
bit_or (suc n) a b = (if a % 2 == 1 || b % 2 == 1 then 1 else 0) + 2 * bit_or n (a / 2) (b / 2)

-- PA2PTE(pa) | perm | PTE_V
unfoldable pub pte_of : ℕ → ℕ → ℕ
unfolding bit_or
pte_of pa perm = bit_or 64 (pa2pte pa) (with_v perm)

-- PTE_W|PTE_X|PTE_R|PTE_U
abbrev pub user_page : ℕ
user_page = 2 + 4 + 8 + 16

-- How a call that may stop the kernel ends. `out_of_fuel` is no panic.
pub data Outcome (A : Type 0) : Type 0 where
  ok : A → Outcome A
  panics : Outcome A
  out_of_fuel : Outcome A

-- `end` is the linker's symbol: the first address behind the kernel.
pub record Memory : Type 0 where
  pub end : ℕ
  pub table : ℕ → ℕ → ℕ
  pub byte : ℕ → ℕ
  pub free : List ℕ

-- memset(pa, c, PGSIZE), seen as bytes and as words.
unfoldable pub fill_page : Memory → ℕ → ℕ → Memory
fill_page m pa c = record m {
  table = update m.table pa (λ i. c * 0x0101010101010101);
  byte = λ a. if leb pa a && ltb a (pa + page_size) then c else m.byte a;
}

-- 0 is the null pointer.
unfoldable pub take_page : Memory → List ℕ → ℕ × Memory
unfolding fill_page
take_page m [] = (0, m)
take_page m (pa ∷ rest) = (pa, fill_page (record m { free = rest }) pa 5)

unfoldable pub kalloc : Memory → ℕ × Memory
unfolding take_page
kalloc m = take_page m m.free

-- kfree from its memset on.
unfoldable pub free_page : Memory → ℕ → Memory
unfolding fill_page
free_page m pa = let m' = fill_page m pa 1 in record m' { free = pa ∷ m'.free }

unfoldable pub kfree : Memory → ℕ → Outcome Memory
unfolding free_page
kfree m pa =
    if not (pa % page_size == 0) || ltb pa m.end || leb phys_stop pa
    then panics
    else ok (free_page m pa)

-- *pte = v
unfoldable pub set_pte : Memory → ℕ → ℕ → ℕ → Memory
set_pte m pt i v = record m { table = update m.table pt (update (m.table pt) i v) }

-- The rounds of walk's loop that are left: the page of the last level, or none for `return 0`.
unfoldable pub walk_from : ℕ → Memory → ℕ → ℕ → Bool → Option ℕ × Memory
unfolding kalloc fill_page set_pte
walk_from zero m pt va alloc = (some pt, m)
walk_from (suc level) m pt va alloc =
    let pte = m.table pt (px (suc level) va) in
    let below = walk_from level m (pte2pa pte) va alloc in
    let (pa, m1) = kalloc m in
    let m2 = set_pte (fill_page m1 pa 0) pt (px (suc level) va) (pa2pte pa + 1) in
    let grown = walk_from level m2 pa va alloc in
    if is_valid pte
    then below
    else if not alloc
    then (none, m)
    else if pa == 0
    then (none, m1)
    else grown

-- &pagetable[PX(0, va)], as its page and index.
abbrev pub entry_at : ℕ → Option ℕ × Memory → Option (ℕ × ℕ) × Memory
entry_at va (none, m) = (none, m)
entry_at va (some t, m) = (some (t, px 0 va), m)

unfoldable pub walk : Memory → ℕ → ℕ → Bool → Outcome (Option (ℕ × ℕ) × Memory)
unfolding walk_from
walk m pt va alloc = if leb max_va va then panics else ok (entry_at va (walk_from 2 m pt va alloc))

unfoldable pub walkaddr : Memory → ℕ → ℕ → ℕ
unfolding walk_from
walkaddr m pt va =
    let entry : ℕ = elim ((walk_from 2 m pt va false).0) [
      | none ↦ 0
      | some t ↦ m.table t (px 0 va)
    ] in
    if leb max_va va
    then 0
    else if not (is_valid entry)
    then 0
    else if not (is_user entry)
    then 0
    else pte2pa entry

-- What mappages does with the entry that walk found: false is `return -1`.
unfoldable pub map_at : ℕ → ℕ → Outcome (Option (ℕ × ℕ) × Memory) → Outcome (Bool × Memory)
unfolding set_pte
map_at pa perm (ok (none, m)) = ok (false, m)
map_at pa perm (ok (some (t, i), m)) =
    if is_valid (m.table t i) then panics else ok (true, set_pte m t i (pte_of pa perm))
map_at pa perm panics = panics
map_at pa perm out_of_fuel = out_of_fuel

-- One page of mappages.
unfoldable pub map_page : Memory → ℕ → ℕ → ℕ → ℕ → Outcome (Bool × Memory)
unfolding walk map_at
map_page m pt a pa perm = map_at pa perm (walk m pt a true)

-- The loop of mappages: one page, and the rest of them if it is not the last.
unfoldable pub map_from : ℕ → Memory → ℕ → ℕ → ℕ → ℕ → ℕ → Outcome (Bool × Memory)
unfolding map_page
map_from zero m pt a last pa perm = out_of_fuel
map_from (suc fuel) m pt a last pa perm = elim (map_page m pt a pa perm) [
  | ok (done, m1) ↦
      let rest = map_from fuel m1 pt (a + page_size) last (pa + page_size) perm in
      if not done || a == last then ok (done, m1) else rest
  | panics ↦ panics
  | out_of_fuel ↦ out_of_fuel
]

-- true is `return 0`.
unfoldable pub mappages : ℕ → Memory → ℕ → ℕ → ℕ → ℕ → ℕ → Outcome (Bool × Memory)
mappages fuel m pt va size pa perm =
    map_from fuel m pt (page_round_down va) (page_round_down ((va + size + 2 ^ 64 - 1) % 2 ^ 64)) pa
      perm
