-- ===== src/Vm/Hung.antt =====
-- A new table below one of the tree, and what an address leads to then.
use computer_system.Prelude.{
  ℕ, zero, suc, ◌+◌, ◌*◌, ◌%◌, ◌<◌, ◌≡◌, ◌≢◌, refl, ◌∙◌, sym, ap, inl, inr, true, false, Option,
  none, some, some-injective, List, [], ◌∷◌, All, update, ◌&&◌, ◌==◌, ==_iff, if◌then◌else◌,
  Bool-cases, arith,
}
use mathlib.Core.Path.{subst}
use computer_system.Kalloc.{page_size}
use computer_system.Kalloc.Chain.{NotIn, Distinct}
use computer_system.Vm.{Memory, px, pte2pa, pa2pte, is_valid}
use computer_system.Vm.Tree.{Place, IsFresh, IsTree, Leads, Leads-below, leaf}

-- A new table of zeros, the first free page r, hangs at entry i of the table p.
pub record Grown (m m' : Memory) (p i r : ℕ) : Type 0 where
  pub zeros : (j : ℕ) → m'.table r j ≡ 0
  pub hung : m'.table p i ≡ pa2pte r + 1
  pub others : (q j : ℕ) → q ≢ r → ((q ≡ p) → j ≢ i) → m'.table q j ≡ m.table q j
  pub rest : m.free ≡ r ∷ m'.free

-- The entry for a table.
pub entry_of :
    (pa : ℕ)
    → pa % page_size ≡ 0
    → (is_valid (pa2pte pa + 1) ≡ true) × (pte2pa (pa2pte pa + 1) ≡ pa)
entry_of pa h = (ground arith, omega arith)

leaf_zeros :
    (m : Memory) (r : ℕ) → ((j : ℕ) → m.table r j ≡ 0) → (level va : ℕ) → leaf level m r va ≡ 0
unfolding leaf
leaf_zeros m r z zero va = z (px 0 va)
leaf_zeros m r z (suc level) va = rw (z (px (suc level) va)) refl

module _ (m m' : Memory) (place : ℕ → Option Place) (p i r level0 x : ℕ) (tree : IsTree m place)
    (g : Grown m m' p i r) (at : place p ≡ some (suc level0, x)) (small : i < 512)
    (missing : is_valid (m.table p i) ≡ false) where
  r_fresh : (place r ≡ none) × (r % page_size ≡ 0) × (r ≢ 0)
  r_fresh = (subst (All (IsFresh place)) g.rest tree.fresh).0

  placed_ne : (q : ℕ) {y : Place} → place q ≡ some y → q ≢ r
  placed_ne q {y} h e = ground (arith, ap place e, r_fresh.0)

  abbrev pub place' : ℕ → Option Place
  place' = update place r (some (level0, x * 512 + i))

  pub place'_placed : (q : ℕ) {y : Place} → place q ≡ some y → place' q ≡ some y
  place'_placed q {y} h = ground (arith, placed_ne q h)

  pub leaf-Grown :
      (level q va : ℕ) → Leads place level q va → leaf level m' q va ≡ leaf level m q va
  unfolding leaf
  leaf-Grown zero q va h =
      g.others q (px 0 va) (placed_ne q h) (λ e. absurd (ground (arith, ap place e)))
  leaf-Grown (suc level) q va h = elim (Bool-cases (q == p && px (suc level) va == i)) [
    | inl here ↦
        let eq : q ≡ p = ground arith in
        let ei : px (suc level) va ≡ i = ground arith in
        rw (eq, ei, g.hung, missing)
          (subst (λ n. (if is_valid (pa2pte r + 1) then n else 0) ≡ 0) {x = 0}
            (sym (
              subst (λ n. leaf level m' n va ≡ 0) {x = r} (omega (arith, r_fresh.1))
                (leaf_zeros m' r g.zeros level va)))
            (ground arith))
    | inr away ↦
        rw (g.others q (px (suc level) va) (placed_ne q h) (λ e. ground arith))
          (elim (Bool-cases (is_valid (m.table q (px (suc level) va)))) [
            | inl e ↦ rw e (leaf-Grown level _ va (Leads-below level q va tree h e))
            | inr e ↦ rw e refl
          ])
  ]

  r_others : (q : ℕ) → q ≢ r → place' q ≡ place q
  r_others q n = ground arith

  -- Which entries there are now.
  children_now :
      (q level y j : ℕ)
      → place' q ≡ some (suc level, y)
      → j < 512
      → is_valid (m'.table q j) ≡ true
      → place' (pte2pa (m'.table q j)) ≡ some (level, y * 512 + j)
  children_now q level y j h lt e = elim (Bool-cases (q == r)) [
    | inl eq ↦ absurd (
        ground
          (arith, g.zeros j, subst (λ n. is_valid (m'.table n j) ≡ true) ((==_iff q r).0 eq) e))
    | inr ne ↦ elim (Bool-cases (q == p && j == i)) [
      | inl here ↦
          let eq : q ≡ p = ground arith in
          let ej : j ≡ i = ground arith in
          let entry : m'.table q j ≡ pa2pte r + 1 = rw (eq, ej) g.hung in
          let target : pte2pa (m'.table q j) ≡ r = rw entry (omega (arith, r_fresh.1)) in
          let old : place q ≡ some (suc level, y) = sym (r_others q (ground arith)) ∙ h in
          let same : place q ≡ some (suc level0, x) = ap place eq ∙ at in
          let ends : place' r ≡ some (level0, x * 512 + i) = ground arith in
          ap place' target ∙ ends ∙ ground (arith, some-injective _ _ (sym same ∙ old))
      | inr away ↦
          let entry : m'.table q j ≡ m.table q j =
            g.others q j (ground arith) (λ eq. ground arith) in
          let old : place (pte2pa (m.table q j)) ≡ some (level, y * 512 + j) =
            tree.child q level y j (sym (r_others q (ground arith)) ∙ h) lt
              (subst (λ n. is_valid n ≡ true) entry e) in
          rw entry (place'_placed _ old)
    ]
  ]

  NotIn-fresh : (fs : List ℕ) → NotIn r fs → All (IsFresh place) fs → All (IsFresh place') fs
  NotIn-fresh [] n h = tt
  NotIn-fresh (q ∷ fs) n h = ((ground (arith, n.0, h.0), h.0.1, h.0.2), NotIn-fresh fs n.1 h.1)

  pub Grown-IsTree : IsTree m' place'
  Grown-IsTree = record {
    child = children_now;
    fresh =
        NotIn-fresh m'.free (subst Distinct g.rest tree.once).0
          (subst (All (IsFresh place)) g.rest tree.fresh).1;
    once = (subst Distinct g.rest tree.once).1;
  }
