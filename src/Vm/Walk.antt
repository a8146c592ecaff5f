-- ===== src/Vm/Walk.antt =====
-- walk: where it leads, and that the tables it adds change nothing that an address leads to.
use computer_system.Prelude.{
  ℕ, zero, suc, ◌+◌, ◌%◌, ◌≡◌, ◌≢◌, refl, ◌∙◌, sym, ap, ◌⊎◌, inl, inr, Bool, true, false, Option,
  none, some, some-injective, List, [], ◌∷◌, All, ◌==◌, ==_iff, Bool-cases, arith, update_self,
}
use mathlib.Core.Path.{subst}
use computer_system.Kalloc.{page_size}
use computer_system.Vm.{
  Memory, px, pte2pa, pa2pte, is_valid, set_pte, fill_page, take_page, kalloc, walk_from,
}
use computer_system.Vm.Tree.{Place, IsFresh, IsTree, Leads, Leads-below, leaf, bottom}
use computer_system.Vm.Hung.{Grown, entry_of, place', place'_placed, leaf-Grown, Grown-IsTree}

-- What walk leaves: the tree with perhaps more tables, in which every address leads to what it led
-- to before; and, where it returns a table, the one of the last level for this address.
pub record Walked (place : ℕ → Option Place) (level pt va : ℕ) (alloc : Bool) (m : Memory)
    (r : Option ℕ × Memory) : Type 0 where
  pub place' : ℕ → Option Place
  pub tree : IsTree r.1 place'
  pub placed : (q : ℕ) (y : Place) → place q ≡ some y → place' q ≡ some y
  pub leaves :
      (level' q va' : ℕ) → Leads place level' q va' → leaf level' r.1 q va' ≡ leaf level' m q va'
  pub entries :
      (q level' y j : ℕ)
      → place q ≡ some (suc level', y)
      → is_valid (m.table q j) ≡ true
      → r.1.table q j ≡ m.table q j
  pub ends : (t : ℕ) → r.0 ≡ some t → Leads place' 0 t va × (bottom level r.1 pt va ≡ some t)
  pub fails : r.0 ≡ none → (alloc ≡ false) ⊎ (r.1.free ≡ [])

-- Nothing done.
Walked-none :
    (place : ℕ → Option Place) (level pt va : ℕ) (alloc : Bool) (m : Memory)
    → IsTree m place
    → (alloc ≡ false) ⊎ (m.free ≡ [])
    → Walked place level pt va alloc m (none, m)
Walked-none place level pt va alloc m tree why = record {
  place' = place;
  tree = tree;
  placed = λ q y h. h;
  leaves = λ level' q va' h. refl;
  entries = λ q level' y j h e. refl;
  ends = λ t e. cc;
  fails = λ e. why;
}

module _ (m : Memory) (place : ℕ → Option Place) (level pt va : ℕ) (alloc : Bool)
    (tree : IsTree m place) (at : Leads place (suc level) pt va) where
  -- The walk below an entry that is there.
  Walked-below :
      (r : Option ℕ × Memory)
      → is_valid (m.table pt (px (suc level) va)) ≡ true
      → Walked place level (pte2pa (m.table pt (px (suc level) va))) va alloc m r
      → Walked place (suc level) pt va alloc m r
  unfolding bottom
  Walked-below r e w = record {
    place' = w.place';
    tree = w.tree;
    placed = w.placed;
    leaves = w.leaves;
    entries = w.entries;
    ends = λ t h. ((w.ends t h).0, rw (w.entries pt level _ _ at e, e) (w.ends t h).1);
    fails = w.fails;
  }

  -- The walk below a new table.
  Walked-Grown :
      (m2 : Memory) (pa : ℕ) (r : Option ℕ × Memory)
      → Grown m m2 pt (px (suc level) va) pa
      → is_valid (m.table pt (px (suc level) va)) ≡ false
      → (place2 : ℕ → Option Place) → ((q : ℕ) (y : Place) → place q ≡ some y → place2 q ≡ some y)
      → ((level' q va' : ℕ) → Leads place level' q va' → leaf level' m2 q va' ≡ leaf level' m q va')
      → pa % page_size ≡ 0
      → place pa ≡ none
      → Walked place2 level pa va alloc m2 r
      → Walked place (suc level) pt va alloc m r
  unfolding bottom
  Walked-Grown m2 pa r g missing place2 more leaves aligned new w = record {
    place' = w.place';
    tree = w.tree;
    placed = λ q y h. w.placed q y (more q y h);
    leaves = λ level' q va' h. w.leaves level' q va' (more q _ h) ∙ leaves level' q va' h;
    entries = λ q level' y j h e.
        let old : m2.table q j ≡ m.table q j =
          g.others q j (λ eq. ground (arith, ap place eq))
            (λ eq ej. ground (arith, ap (λ k. m.table k j) eq, ap (m.table pt) ej)) in
        w.entries q level' y j (more q _ h) (rw old e) ∙ old;
    ends = λ t h.
        let entry : r.1.table pt (px (suc level) va) ≡ pa2pte pa + 1 =
          w.entries pt level _ _ (more pt _ at) (rw g.hung (entry_of pa aligned).0) ∙ g.hung in
        (
          (w.ends t h).0,
          rw (entry, (entry_of pa aligned).0)
              (subst (λ n. bottom level r.1 n va ≡ some t) (sym (entry_of pa aligned).1)
                (w.ends t h).1),
        );
    fails = w.fails;
  }

abbrev hang : Memory → ℕ → ℕ → ℕ → List ℕ → Memory
hang m p i r rest = set_pte (fill_page (take_page m (r ∷ rest)).1 r 0) p i (pa2pte r + 1)

take_page-Grown :
    (m : Memory) (p i r : ℕ) (rest : List ℕ)
    → m.free ≡ r ∷ rest
    → p ≢ r
    → Grown m (hang m p i r rest) p i r
unfolding take_page fill_page set_pte
take_page-Grown m p i r rest e ne = record {
  zeros = λ j. ground arith;
  hung = ground arith;
  others = λ q j n k. elim (Bool-cases (p == q)) [
    | inl eq ↦
        let same : p ≡ q = (==_iff p q).0 eq in
        ground (arith, k (sym same), ap (λ x. m.table x j) same)
    | inr away ↦ ground arith
  ];
  rest = e;
}

kalloc-cons :
    (m : Memory) (r : ℕ) (rest : List ℕ)
    → m.free ≡ r ∷ rest
    → kalloc m ≡ (r, (take_page m (r ∷ rest)).1)
unfolding kalloc take_page
kalloc-cons m r rest e = ap (take_page m) e

kalloc-nil : (m : Memory) → m.free ≡ [] → kalloc m ≡ (0, m)
unfolding kalloc take_page
kalloc-nil m e = ap (take_page m) e

List-cases : (xs : List ℕ) → (xs ≡ []) ⊎ ((x : ℕ) × (rest : List ℕ) × (xs ≡ x ∷ rest))
List-cases [] = inl refl
List-cases (x ∷ rest) = inr (x, rest, refl)

-- The tree with a new table, the first free page, and how a walk from there is one from here.
Walked-new :
    (place : ℕ → Option Place) (level pt va : ℕ) (m : Memory)
    → IsTree m place
    → Leads place (suc level) pt va
    → is_valid (m.table pt (px (suc level) va)) ≡ false
    → (r : ℕ) (rest : List ℕ) → m.free ≡ r ∷ rest
    → (place2 : ℕ → Option Place) × ((r == 0) ≡ false)
      × IsTree (hang m pt (px (suc level) va) r rest) place2
      × Leads place2 level r va
      × ((o : Option ℕ × Memory)
          → Walked place2 level r va true (hang m pt (px (suc level) va) r rest) o
          → Walked place (suc level) pt va true m o)
Walked-new place level pt va m tree at missing r rest e =
    let i = px (suc level) va in
    let new = (subst (All (IsFresh place)) e tree.fresh).0 in
    let g = take_page-Grown m pt i r rest e (ground (arith, λ (q : pt ≡ r). ap place q)) in
    let m2 = hang m pt i r rest in
    (
      place' m m2 place pt i r level _ tree g at (omega arith) missing,
      ground (arith, new),
      Grown-IsTree m m2 place pt i r level _ tree g at (omega arith) missing,
      update_self place r _ ∙ ap (λ n. some (level, n)) (omega arith),
      λ o.
          Walked-Grown m place level pt va true tree at m2 r o g missing
            (place' m m2 place pt i r level _ tree g at (omega arith) missing)
            (λ q y h. place'_placed m m2 place pt i r level _ tree g at (omega arith) missing q h)
            (leaf-Grown m m2 place pt i r level _ tree g at (omega arith) missing) new.1 new.0,
    )

-- walk, with or without alloc, keeps the tree and what every address leads to, and returns the table
-- of the last level for this address; it returns none only without alloc or out of memory.
pub walk_from-Walked :
    (level : ℕ) (m : Memory) (place : ℕ → Option Place) (pt va : ℕ) (alloc : Bool)
    → IsTree m place
    → Leads place level pt va
    → Walked place level pt va alloc m (walk_from level m pt va alloc)
unfolding walk_from bottom
walk_from-Walked zero m place pt va alloc tree at = record {
  place' = place;
  tree = tree;
  placed = λ q y h. h;
  leaves = λ level' q va' h. refl;
  entries = λ q level' y j h e. refl;
  ends = λ t e. (subst (λ q. Leads place 0 q va) (some-injective _ _ e) at, e);
  fails = λ e. cc;
}
walk_from-Walked (suc level) m place pt va alloc tree at =
    elim (Bool-cases (is_valid (m.table pt (px (suc level) va)))) [
      | inl e ↦ rw e (
          Walked-below m place level pt va alloc tree at _ e
            (walk_from-Walked level m place _ va alloc tree (Leads-below level pt va tree at e)))
      | inr missing ↦ rw missing (elim (Bool-cases alloc) [
        | inr no_alloc ↦ rw no_alloc (Walked-none place (suc level) pt va false m tree (inl refl))
        | inl yes_alloc ↦ elim (List-cases m.free) [
          | inl empty ↦
              rw (yes_alloc, kalloc-nil m empty)
                (Walked-none place (suc level) pt va true m tree (inr empty))
          | inr (r, rest, e) ↦
              let (place2, new, tree2, at2, up) =
                Walked-new place level pt va m tree at missing r rest e in
              rw (yes_alloc, kalloc-cons m r rest e, new)
                (up _ (walk_from-Walked level _ place2 r va true tree2 at2))
        ]
      ])
    ]
