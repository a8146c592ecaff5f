-- ===== src/Kalloc.antt =====
-- kernel/kalloc.c: the free list of physical pages, threaded through the pages themselves.
pub mod Chain
pub mod Init
mod Tests
use computer_system.Prelude.{
  ℕ, zero, suc, ◌+◌, ◌-◌, ◌*◌, ◌/◌, ◌%◌, Bool, ◌||◌, Option, none, some, update, ltb, leb, ◌==◌,
  not, if◌then◌else◌,
}

abbrev pub page_size : ℕ
page_size = 4096

-- KERNBASE + 128*1024*1024
abbrev pub phys_stop : ℕ
phys_stop = 0x80000000 + 128 * 1024 * 1024

-- PGROUNDUP: adds PGSIZE - 1 and clears the low bits.
abbrev pub page_round_up : ℕ → ℕ
page_round_up sz = (sz + page_size - 1) / page_size * page_size

-- kmem, with the first word of each page (struct run's `next`), and the byte that fills the rest
-- of it once memset has run.
pub record Kmem : Type 0 where
  pub freelist : ℕ
  pub next : ℕ → ℕ
  pub fill : ℕ → ℕ

-- memset(pa, c, PGSIZE): the word at pa is eight bytes c.
unfoldable pub fill_page : Kmem → ℕ → ℕ → Kmem
fill_page k pa c = record k {
  next = update k.next pa (c * 0x0101010101010101);
  fill = update k.fill pa c;
}

-- none is panic("kfree"). `end` is the first address behind the kernel.
unfoldable pub kfree : ℕ → Kmem → ℕ → Option Kmem
unfolding fill_page
kfree end k pa =
    if not (pa % page_size == 0) || ltb pa end || leb phys_stop pa
    then none
    else let k' = fill_page k pa 1 in
      some (record k' { next = update k'.next pa k'.freelist; freelist = pa })

-- The address 0 is the null pointer.
unfoldable pub kalloc : Kmem → ℕ × Kmem
unfolding fill_page
kalloc k =
    let r = k.freelist in
    let k' = if r == 0 then k else record k { freelist = k.next r } in
    (r, if r == 0 then k' else fill_page k' r 5)

-- for(; p + PGSIZE <= pa_end; p += PGSIZE) kfree(p); none is a panic, or the fuel running out.
unfoldable pub free_pages : ℕ → ℕ → Kmem → ℕ → ℕ → Option Kmem
free_pages zero end k p pa_end = none
free_pages (suc fuel) end k p pa_end =
    let rest : Option Kmem = elim (kfree end k p) [
      | none ↦ none
      | some k' ↦ free_pages fuel end k' (p + page_size) pa_end
    ] in
    if leb (p + page_size) pa_end then rest else some k

unfoldable pub freerange : ℕ → ℕ → Kmem → ℕ → ℕ → Option Kmem
unfolding free_pages
freerange fuel end k pa_start pa_end = free_pages fuel end k (page_round_up pa_start) pa_end

unfoldable pub kinit : ℕ → ℕ → Kmem → Option Kmem
unfolding freerange
kinit fuel end k = freerange fuel end k end phys_stop
