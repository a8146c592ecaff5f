-- ===== src/Vm/Page.antt =====
-- A page that is mapped: map_page, and the entry of an address.
use computer_system.Prelude.{
  ℕ, zero, suc, ◌/◌, ◌<◌, ◌≡◌, refl, ◌∙◌, sym, ap, inl, inr, Bool, true, false, Option, none, some,
  some-injective, [], leb, ◌==◌, if◌then◌else◌, Bool-cases, arith,
}
use computer_system.Kalloc.{page_size}
use computer_system.Vm.{
  Memory, px, max_va, is_valid, pte_of, walk_from, walk, entry_at, map_at, map_page, Outcome, ok,
  panics, out_of_fuel,
}
use computer_system.Vm.Tree.{Place, IsTree, Leads, leaf, bottom, leaf-set_pte, set_pte-IsTree}
use computer_system.Vm.Walk.{Walked, walk_from-Walked}

-- A tree with its root table.
pub record Rooted (m : Memory) (root : ℕ) : Type 0 where
  pub place : ℕ → Option Place
  pub tree : IsTree m place
  pub top : place root ≡ some (2, 0)

-- The entry of an address, or 0.
abbrev pub entry : Memory → ℕ → ℕ → ℕ
entry m root va = leaf 2 m root va

-- Every address has the entry that it had.
abbrev pub SameEntries : ℕ → Memory → Memory → Type 0
SameEntries root m m' = (va : ℕ) → va < max_va → entry m' root va ≡ entry m root va

pub Leads-root :
    (place : ℕ → Option Place) (root va : ℕ)
    → place root ≡ some (2, 0)
    → va < max_va
    → Leads place 2 root va
Leads-root place root va h lt = h ∙ ap (λ n. some (2, n)) (omega arith)

-- An entry of the last table on the way is the address's.
pub leaf-bottom :
    (level : ℕ) (m : Memory) (pt va t : ℕ)
    → bottom level m pt va ≡ some t
    → leaf level m pt va ≡ m.table t (px 0 va)
unfolding leaf bottom
leaf-bottom zero m pt va t e = ap (λ q. m.table q (px 0 va)) (some-injective _ _ e)
leaf-bottom (suc level) m pt va t e =
    elim (Bool-cases (is_valid (m.table pt (px (suc level) va)))) [
      | inl v ↦ rw v (leaf-bottom level m _ va t (ground arith))
      | inr n ↦ absurd (ground arith)
    ]

-- How map_page may end.
abbrev pub MapsPage : Memory → ℕ → ℕ → ℕ → ℕ → Outcome (Bool × Memory) → Type 0
MapsPage m root a pa perm panics = is_valid (entry m root a) ≡ true
MapsPage m root a pa perm out_of_fuel = ⊥
MapsPage m root a pa perm (ok (false, m')) = Rooted m' root × SameEntries root m m' × (m'.free ≡ [])
MapsPage m root a pa perm (ok (true, m')) =
    Rooted m' root
    × (is_valid (entry m root a) ≡ false)
    × ((va : ℕ)
        → va < max_va
        → entry m' root va
          ≡ (if a / page_size == va / page_size then pte_of pa perm else entry m root va))

-- The store, at the entry that the walk found.
map_at-Maps :
    (m m1 : Memory) (root a pa perm q : ℕ) (t : Rooted m root)
    → a < max_va
    → Walked t.place 2 root a true m (some q, m1)
    → MapsPage m root a pa perm (map_at pa perm (ok (some (q, px 0 a), m1)))
unfolding map_at
map_at-Maps m m1 root a pa perm q t lt w = elim (Bool-cases (is_valid (m1.table q (px 0 a)))) [
  | inl v ↦ rw v (rw here v)
  | inr n ↦ rw n (
    record {
      place = w.place';
      tree = set_pte-IsTree m1 w.place' q _ (px 0 a) _ w.tree ends.0;
      top = top1;
    },
    rw here n,
    λ va h.
        leaf-set_pte m1 w.place' q a _ w.tree ends.0 2 root va (Leads-root w.place' root a top1 lt)
          (Leads-root w.place' root va top1 h) ends.1
        ∙ ap (λ n. if a / page_size == va / page_size then pte_of pa perm else n)
            (w.leaves 2 root va (Leads-root t.place root va t.top h)),
  )
]
  where
    ends : Leads w.place' 0 q a × (bottom 2 m1 root a ≡ some q)
    ends = w.ends q refl

    top1 : w.place' root ≡ some (2, 0)
    top1 = w.placed root (2, 0) t.top

    here : entry m root a ≡ m1.table q (px 0 a)
    here =
        sym (w.leaves 2 root a (Leads-root t.place root a t.top lt))
        ∙ leaf-bottom 2 m1 root a q ends.1

pub map_page-Maps :
    (m : Memory) (root a pa perm : ℕ)
    → Rooted m root
    → a < max_va
    → MapsPage m root a pa perm (map_page m root a pa perm)
unfolding map_page walk
map_page-Maps m root a pa perm t lt = rw low (
    go (walk_from 2 m root a true)
      (walk_from-Walked 2 m t.place root a true t.tree (Leads-root t.place root a t.top lt)))
  where
    low : leb max_va a ≡ false
    low = ground arith

    go :
        (r : Option ℕ × Memory)
        → Walked t.place 2 root a true m r
        → MapsPage m root a pa perm (map_at pa perm (ok (entry_at a r)))
    go (none, m1) w = (
      record { place = w.place'; tree = w.tree; top = w.placed root (2, 0) t.top },
      λ va h. w.leaves 2 root va (Leads-root t.place root va t.top h),
      ground (arith, w.fails refl),
    )
    go (some q, m1) w = map_at-Maps m m1 root a pa perm q t lt w
