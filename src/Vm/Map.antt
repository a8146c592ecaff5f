-- ===== src/Vm/Map.antt =====
-- mappages and walkaddr: a page table as a map from pages of addresses to entries.
use computer_system.Prelude.{
  ℕ, zero, suc, ◌+◌, ◌-◌, ◌/◌, ◌%◌, ◌^◌, ◌≤◌, ◌<◌, ◌≡◌, refl, ◌∙◌, sym, inl, inr, Bool, true, false,
  not, none, some, [], ◌&&◌, ◌||◌, ltb, leb, ◌==◌, ==_iff, if◌then◌else◌, Bool-cases, arith,
}
use mathlib.Core.Path.{subst}
use computer_system.Kalloc.{page_size}
use computer_system.Vm.{
  Memory, px, max_va, page_round_down, pte2pa, is_valid, is_user, pte_of, walk_from, walkaddr,
  map_page, map_from, mappages, Outcome, ok, panics, out_of_fuel,
}
use computer_system.Vm.Tree.{leaf, bottom}
use computer_system.Vm.Page.{Rooted, entry, MapsPage, map_page-Maps}

-- The page of va lies between those of a and last.
abbrev pub spans : ℕ → ℕ → ℕ → Bool
spans a last va = leb (a / page_size) (va / page_size) && leb (va / page_size) (last / page_size)

-- How the loop of mappages may end, from page a to page last.
abbrev pub Maps : Memory → ℕ → ℕ → ℕ → ℕ → ℕ → Outcome (Bool × Memory) → Type 0
Maps m root a last pa perm panics =
    (va : ℕ) × (va < max_va) × (spans a last va ≡ true) × (is_valid (entry m root va) ≡ true)
Maps m root a last pa perm out_of_fuel = ⊥
Maps m root a last pa perm (ok (false, m')) =
    Rooted m' root
    × ((va : ℕ) → va < max_va → spans a last va ≡ false → entry m' root va ≡ entry m root va)
    × (m'.free ≡ [])
Maps m root a last pa perm (ok (true, m')) =
    Rooted m' root
    × ((va : ℕ)
        → va < max_va
        → entry m' root va ≡ (
            if spans a last va
            then pte_of (pa + (page_round_down va - a)) perm
            else entry m root va))

module _ (m m1 : Memory) (root a last pa perm : ℕ) (order : a < last) (aligned : a % page_size ≡ 0)
    (aligned' : last % page_size ≡ 0)
    (first : (va : ℕ)
      → va < max_va
      → entry m1 root va
        ≡ (if a / page_size == va / page_size then pte_of pa perm else entry m root va)) where
  -- The first page, and then the rest.
  Maps-next :
      (r : Outcome (Bool × Memory))
      → Maps m1 root (a + page_size) last (pa + page_size) perm r
      → Maps m root a last pa perm r
  Maps-next panics (va, lt, inside, v) =
      (va, lt, ground arith, subst (λ n. is_valid n ≡ true) (first va lt ∙ ground arith) v)
  Maps-next out_of_fuel h = h
  Maps-next (ok (false, m')) (t, same, full) =
      (t, λ va lt out. same va lt (ground arith) ∙ first va lt ∙ ground arith, full)
  Maps-next (ok (true, m')) (t, now) = (t, λ va lt. now va lt ∙ ground (arith, first va lt))

-- One page is all.
Maps-last :
    (m m1 : Memory) (root a pa perm : ℕ)
    → a % page_size ≡ 0
    → ((va : ℕ)
        → va < max_va
        → entry m1 root va
          ≡ (if a / page_size == va / page_size then pte_of pa perm else entry m root va))
    → (va : ℕ) → va < max_va
    → entry m1 root va
      ≡ (if spans a a va then pte_of (pa + (page_round_down va - a)) perm else entry m root va)
Maps-last m m1 root a pa perm aligned first va lt = first va lt ∙ ground arith

map_from-Maps :
    (fuel : ℕ) (m : Memory) (root a last pa perm : ℕ)
    → Rooted m root
    → a % page_size ≡ 0
    → last % page_size ≡ 0
    → a ≤ last
    → last < max_va
    → (last - a) / page_size < fuel
    → Maps m root a last pa perm (map_from fuel m root a last pa perm)
unfolding map_from
map_from-Maps zero m root a last pa perm t al al' le lt enough = absurd (omega arith)
map_from-Maps (suc fuel) m root a last pa perm t al al' le lt enough =
    go (map_page m root a pa perm) (map_page-Maps m root a pa perm t (omega arith)) (λ m1 t1 n.
      map_from-Maps fuel m1 root (a + page_size) last (pa + page_size) perm t1 (omega arith) al'
        (omega arith) lt (omega arith))
  where
    go :
        (o : Outcome (Bool × Memory))
        → MapsPage m root a pa perm o
        → ((m1 : Memory)
            → Rooted m1 root
            → a < last
            → Maps m1 root
                (a + page_size)
                last
                (pa + page_size)
                perm
                (map_from fuel m1 root (a + page_size) last (pa + page_size) perm))
        → Maps m root a last pa perm (elim o [
          | ok (done, m1) ↦
              if not done || a == last
              then ok (done, m1)
              else map_from fuel m1 root (a + page_size) last (pa + page_size) perm
          | panics ↦ panics
          | out_of_fuel ↦ out_of_fuel
        ])
    go panics v rest = (a, omega arith, ground arith, v)
    go (ok (false, m1)) (t1, same, full) rest = (t1, λ va h out. same va h, full)
    go (ok (true, m1)) (t1, n, first) rest = elim (Bool-cases (a == last)) [
      | inl e ↦ rw e (
        t1,
        subst
            (λ l.
              (va : ℕ)
              → va < max_va
              → entry m1 root va ≡ (
                  if spans a l va
                  then pte_of (pa + (page_round_down va - a)) perm
                  else entry m root va))
            ((==_iff a last).0 e) (Maps-last m m1 root a pa perm al first),
      )
      | inr ne ↦ rw ne (
          Maps-next m m1 root a last pa perm (ground arith) al al' first _
            (rest m1 t1 (ground arith)))
    ]
    go out_of_fuel v rest = v

-- mappages from address va, for a size that ends below MAXVA: with fuel above the number of pages
-- it ends. It returns 0 with the entries of the pages from va to va + size - 1 set to the physical
-- pages from pa on, in order, with the permissions, and every other entry as it was; it returns -1
-- only when no page is free, with the entries of other pages as they were; it panics only if
-- a page of the range is mapped already. The tree stays well formed.
pub mappages-Maps :
    (fuel : ℕ) (m : Memory) (root va size pa perm : ℕ)
    → Rooted m root
    → 0 < size
    → va + size ≤ max_va
    → size / page_size + 2 ≤ fuel
    → Maps m root
        (page_round_down va)
        (page_round_down (va + size - 1))
        pa
        perm
        (mappages fuel m root va size pa perm)
unfolding mappages
mappages-Maps fuel m root va size pa perm t pos fits enough =
    let last : (va + size + 2 ^ 64 - 1) % 2 ^ 64 ≡ va + size - 1 = omega arith in
    rw last (
      map_from-Maps fuel m root (page_round_down va) (page_round_down (va + size - 1)) pa perm t
        (omega arith) (omega arith) (omega arith) (omega arith) (omega arith))

walk_from_lem :
    (level : ℕ) (m : Memory) (pt va : ℕ) → (walk_from level m pt va false).0 ≡ bottom level m pt va
unfolding walk_from bottom
walk_from_lem zero m pt va = refl
walk_from_lem (suc level) m pt va = elim (Bool-cases (is_valid (m.table pt (px (suc level) va)))) [
  | inl e ↦ rw e (walk_from_lem level m _ va)
  | inr e ↦ rw e refl
]

pub leaf_lem :
    (level : ℕ) (m : Memory) (pt va : ℕ)
    → leaf level m pt va ≡ (elim (bottom level m pt va) [ none ↦ 0 | some t ↦ m.table t (px 0 va) ])
unfolding leaf bottom
leaf_lem zero m pt va = refl
leaf_lem (suc level) m pt va = elim (Bool-cases (is_valid (m.table pt (px (suc level) va)))) [
  | inl e ↦ rw e (leaf_lem level m _ va)
  | inr e ↦ rw e refl
]

-- walkaddr returns the physical page of an address below MAXVA whose entry is valid and a user's,
-- and 0 for every other.
pub walkaddr_lem :
    (m : Memory) (root va : ℕ)
    → walkaddr m root va ≡ (
        if ltb va max_va && is_valid (entry m root va) && is_user (entry m root va)
        then pte2pa (entry m root va)
        else 0)
unfolding walkaddr
walkaddr_lem m root va = rw (walk_from_lem 2 m root va, sym (leaf_lem 2 m root va)) (ground arith)
