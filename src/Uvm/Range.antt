-- ===== src/Uvm/Range.antt =====
-- uvmunmap and uvmdealloc: which entries of a range they clear, and which pages they free.
use computer_system.Prelude.{
  ℕ, zero, suc, ◌+◌, ◌-◌, ◌*◌, ◌/◌, ◌%◌, ◌≤◌, ◌<◌, ◌≡◌, refl, ◌∙◌, ap, inl, inr, Bool, true, false,
  List, ◌∷◌, ◌&&◌, ltb, leb, ◌==◌, if◌then◌else◌, Bool-cases, arith, min, leb→le, ltb→lt,
}
use mathlib.Core.Path.{subst}
use computer_system.Kalloc.{page_size, page_round_up}
use computer_system.Vm.{Memory, max_va, pte2pa, walk, Outcome, ok, panics, out_of_fuel}
use computer_system.Vm.Page.{entry}
use computer_system.Uvm.{and_then, unmap_at, unmap_from, uvmunmap, uvmdealloc}
use computer_system.Uvm.Pages.{UserPages}
use computer_system.Uvm.Unmap.{CannotUnmap, UnmapsPage, unmap_page-Unmaps}

-- The pages of the n entries from a on, the last first, before those of a list.
abbrev pub pages_from : Memory → ℕ → ℕ → ℕ → List ℕ → List ℕ
pages_from m root a zero ps = ps
pages_from m root a (suc n) ps = pages_from m root (a + page_size) n (pte2pa (entry m root a) ∷ ps)

pages_from-same :
    (m m' : Memory) (root a n : ℕ) (ps : List ℕ)
    → ((va : ℕ) → a ≤ va → va < a + n * page_size → entry m' root va ≡ entry m root va)
    → pages_from m' root a n ps ≡ pages_from m root a n ps
pages_from-same m m' root a zero ps same = refl
pages_from-same m m' root a (suc n) ps same =
    ap (λ e. pages_from m' root (a + page_size) n (pte2pa e ∷ ps))
      (same a (omega arith) (omega arith))
    ∙ pages_from-same m m' root (a + page_size) n _ (λ va h h'. same va (omega arith) (omega arith))

abbrev pub in_pages : ℕ → ℕ → ℕ → Bool
in_pages a n va = leb a va && ltb va (a + n * page_size)

-- How uvmunmap may end.
abbrev pub Unmaps : Memory → ℕ → ℕ → ℕ → Bool → Outcome Memory → Type 0
Unmaps m root a n d panics =
    (i : ℕ) × (i < n) × CannotUnmap m.end d (entry m root (a + i * page_size))
Unmaps m root a n d out_of_fuel = ⊥
Unmaps m root a n d (ok m') =
    UserPages m' root
    × ((va : ℕ) → va < max_va → entry m' root va ≡ (if in_pages a n va then 0 else entry m root va))
    × (m'.free ≡ (if d then pages_from m root a n m.free else m.free))

free_next :
    (m m1 : Memory) (root a n : ℕ) (d : Bool)
    → m1.free ≡ (if d then pte2pa (entry m root a) ∷ m.free else m.free)
    → ((va : ℕ)
        → a + page_size ≤ va
        → va < a + page_size + n * page_size
        → entry m1 root va ≡ entry m root va)
    → (if d then pages_from m1 root (a + page_size) n m1.free else m1.free)
      ≡ (if d then pages_from m root a (suc n) m.free else m.free)
free_next m m1 root a n true e same =
    pages_from-same m m1 root (a + page_size) n m1.free same
    ∙ ap (pages_from m root (a + page_size) n) e
free_next m m1 root a n false e same = e

Unmaps-next :
    (m m1 : Memory) (root a n : ℕ) (d : Bool)
    → a % page_size ≡ 0
    → a + suc n * page_size ≤ max_va
    → UnmapsPage m root a d (ok m1)
    → (o : Outcome Memory) → Unmaps m1 root (a + page_size) n d o
    → Unmaps m root a (suc n) d o
Unmaps-next m m1 root a n d al fits (u, v, now, free, stays) (ok m') (u', now', free') = (
  u',
  λ va h. now' va h ∙ ground (arith, now va h),
  free' ∙ free_next m m1 root a n d free (λ q h h'. now q (omega arith) ∙ ground arith),
)
Unmaps-next m m1 root a n d al fits (u, v, now, free, stays) panics (i, lt, why) = (
  suc i,
  omega arith,
  subst (λ z. CannotUnmap z d (entry m root (a + suc i * page_size))) stays
      (subst (CannotUnmap m1.end d) (now (a + page_size + i * page_size) (omega arith) ∙ same i)
        why),
)
  where
    same :
        (i : ℕ)
        → (if a / page_size == (a + page_size + i * page_size) / page_size
            then 0
            else entry m root (a + page_size + i * page_size))
          ≡ entry m root (a + suc i * page_size)
    same i =
        let apart : (a / page_size == (a + page_size + i * page_size) / page_size) ≡ false =
          ground arith in
        let at : a + page_size + i * page_size ≡ a + suc i * page_size = omega arith in
        rw apart (ap (entry m root) at)
Unmaps-next m m1 root a n d al fits first out_of_fuel h = h

unmap_from-Unmaps :
    (n : ℕ) (m : Memory) (root a : ℕ) (d : Bool)
    → UserPages m root
    → a % page_size ≡ 0
    → a + n * page_size ≤ max_va
    → Unmaps m root a n d (unmap_from n m root a d)
unfolding unmap_from
unmap_from-Unmaps zero m root a d u al fits = (u, λ va h. ground arith, ground arith)
unmap_from-Unmaps (suc n) m root a d u al fits =
    go (and_then (walk m root a false) (unmap_at d)) (unmap_page-Unmaps m root a d u (omega arith))
      (λ m1 u1. unmap_from-Unmaps n m1 root (a + page_size) d u1 (omega arith) (omega arith))
  where
    go :
        (o : Outcome Memory)
        → UnmapsPage m root a d o
        → ((m1 : Memory)
            → UserPages m1 root
            → Unmaps m1 root (a + page_size) n d (unmap_from n m1 root (a + page_size) d))
        → Unmaps m root a (suc n) d (and_then o (λ m'. unmap_from n m' root (a + page_size) d))
    go (ok m1) first rest = Unmaps-next m m1 root a n d al fits first _ (rest m1 first.0)
    go panics why rest = (
      0,
      omega arith,
      subst (λ x. CannotUnmap m.end d (entry m root x)) {x = a} {y = a + 0 * page_size}
          (omega arith) why,
    )
    go out_of_fuel v rest = v

-- uvmunmap of pages below MAXVA, from a page-aligned address on, in an address space whose pages
-- are its own, always ends. It returns with the entries of the range cleared and no other changed,
-- and with do_free their pages have gone to the free list, in turn; it panics only if an entry of
-- the range is not valid or names no page, or names a page to be freed that is not between end and
-- PHYSTOP. The pages of the address space stay its own, apart from its tables and from the free
-- ones.
pub uvmunmap-Unmaps :
    (m : Memory) (root va npages : ℕ) (do_free : Bool)
    → UserPages m root
    → va % page_size ≡ 0
    → va + npages * page_size ≤ max_va
    → Unmaps m root va npages do_free (uvmunmap m root va npages do_free)
unfolding uvmunmap
uvmunmap-Unmaps m root va npages do_free u al fits =
    rw al (unmap_from-Unmaps npages m root va do_free u al fits)

Unmaps-none :
    (m : Memory) (root a n : ℕ) (d : Bool) → UserPages m root → n ≡ 0 → Unmaps m root a n d (ok m)
Unmaps-none m root a zero d u e = (u, λ va h. ground arith, ground arith)
Unmaps-none m root a (suc n) d u e = absurd (omega arith)

-- How uvmdealloc may end: with the new size, and Unmaps on the pages above it.
abbrev pub Shrinks : Memory → ℕ → ℕ → ℕ → ℕ → ℕ → Outcome (ℕ × Memory) → Type 0
Shrinks m root a n size size' (ok (sz, m')) = (sz ≡ size') × Unmaps m root a n true (ok m')
Shrinks m root a n size size' panics = Unmaps m root a n true panics
Shrinks m root a n size size' out_of_fuel = ⊥

-- uvmdealloc to a smaller size returns it, with the entries of the pages above it cleared and their
-- pages freed, as uvmunmap leaves them, and panics only where uvmunmap does; to a size that is
-- not smaller it returns the old size and changes nothing.
pub uvmdealloc-Shrinks :
    (m : Memory) (root oldsz newsz : ℕ)
    → UserPages m root
    → page_round_up oldsz ≤ max_va
    → Shrinks m root
        (page_round_up newsz)
        ((page_round_up oldsz - page_round_up newsz) / page_size)
        oldsz
        (min oldsz newsz)
        (uvmdealloc m root oldsz newsz)
unfolding uvmdealloc
uvmdealloc-Shrinks m root oldsz newsz u fits = elim (Bool-cases (leb oldsz newsz)) [
  | inl stays ↦ rw stays (
    omega (arith, leb→le oldsz newsz stays),
    Unmaps-none m root _ _ true u (omega (arith, leb→le oldsz newsz stays)),
  )
  | inr less ↦ rw less (
      let newsz_lt : newsz < oldsz = ground arith in
      elim (Bool-cases (ltb (page_round_up newsz) (page_round_up oldsz))) [
        | inl more ↦ rw more (
            go (omega arith) _ (
              uvmunmap-Unmaps m root (page_round_up newsz) _ true u (omega arith)
                (omega (arith, ltb→lt _ _ more))))
        | inr same ↦ rw same (omega arith, Unmaps-none m root _ _ true u (ground arith))
      ])
]
  where
    go :
        newsz ≡ min oldsz newsz
        → (o : Outcome Memory)
        → Unmaps m root
            (page_round_up newsz)
            ((page_round_up oldsz - page_round_up newsz) / page_size)
            true
            o
        → Shrinks m root
            (page_round_up newsz)
            ((page_round_up oldsz - page_round_up newsz) / page_size)
            oldsz
            (min oldsz newsz)
            (and_then o (λ m'. ok (newsz, m')))
    go e (ok m') h = (e, h)
    go e panics h = h
    go e out_of_fuel h = h
