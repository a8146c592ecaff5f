-- ===== src/Vm/Tree.antt =====
-- Page tables as a radix tree: what an address leads to, and what one store or one new page changes.
use computer_system.Prelude.{
  ℕ, zero, suc, ◌+◌, ◌*◌, ◌/◌, ◌%◌, ◌<◌, ◌≡◌, ◌≢◌, refl, ◌∙◌, sym, ap, inl, inr, true, Option, none,
  some, some-injective, All, ◌==◌, ==_iff, if◌then◌else◌, Bool-cases, arith,
}
use mathlib.Core.Path.{subst}
use computer_system.Kalloc.{page_size}
use computer_system.Kalloc.Chain.{Distinct}
use computer_system.Vm.{Memory, shifted, px, pte2pa, is_valid, set_pte}

-- The entry that `va` leads to from the table `pt` of a level, or 0 where a table is missing.
unfoldable pub leaf : ℕ → Memory → ℕ → ℕ → ℕ
leaf zero m pt va = m.table pt (px zero va)
leaf (suc level) m pt va =
    let pte = m.table pt (px (suc level) va) in
    let below = leaf level m (pte2pa pte) va in if is_valid pte then below else 0

-- The place of a table: its level, and the address bits that lead to it.
abbrev pub Place : Type 0
Place = ℕ × ℕ

-- A page of its own, which is no table.
abbrev pub IsFresh : (ℕ → Option Place) → ℕ → Type 0
IsFresh place p = (place p ≡ none) × (p % page_size ≡ 0) × (p ≢ 0)

-- Each table has one place in the tree, and the free pages are distinct pages that have none.
pub record IsTree (m : Memory) (place : ℕ → Option Place) : Type 0 where
  pub child :
      (p level x i : ℕ)
      → place p ≡ some (suc level, x)
      → i < 512
      → is_valid (m.table p i) ≡ true
      → place (pte2pa (m.table p i)) ≡ some (level, x * 512 + i)
  pub fresh : All (IsFresh place) m.free
  pub once : Distinct m.free

-- The table `pt` is where addresses like va come by at this level.
abbrev pub Leads : (ℕ → Option Place) → ℕ → ℕ → ℕ → Type 0
Leads place level pt va = place pt ≡ some (level, shifted (suc level) va)

pub Leads-below :
    {m : Memory} {place : ℕ → Option Place} (level pt va : ℕ)
    → IsTree m place
    → Leads place (suc level) pt va
    → is_valid (m.table pt (px (suc level) va)) ≡ true
    → Leads place level (pte2pa (m.table pt (px (suc level) va))) va
Leads-below {m} {place} level pt va v h e =
    v.child pt level (shifted (suc (suc level)) va) (px (suc level) va) h (omega arith) e
    ∙ ap (λ x. some (level, x)) (omega arith)

-- Two places of one table are the same.
Leads-eq :
    (place : ℕ → Option Place) (level level' pt va va' : ℕ)
    → Leads place level pt va
    → Leads place level' pt va'
    → (level ≡ level') × (shifted (suc level) va ≡ shifted (suc level') va')
Leads-eq place level level' pt va va' h k =
    let e = some-injective _ _ (sym h ∙ k) in (ap (λ q. q.0) e, ap (λ q. q.1) e)

-- The table of the last level that va leads to.
unfoldable pub bottom : ℕ → Memory → ℕ → ℕ → Option ℕ
bottom zero m pt va = some pt
bottom (suc level) m pt va =
    let pte = m.table pt (px (suc level) va) in
    let below = bottom level m (pte2pa pte) va in if is_valid pte then below else none

-- A store elsewhere than at the entry of va' leaves alone what va' leads to.
pub leaf-set_pte_ne :
    (m : Memory) (place : ℕ → Option Place) (t va v : ℕ)
    → IsTree m place
    → Leads place 0 t va
    → (level pt va' : ℕ) → va / page_size ≢ va' / page_size
    → Leads place level pt va'
    → leaf level (set_pte m t (px 0 va) v) pt va' ≡ leaf level m pt va'
unfolding leaf set_pte
leaf-set_pte_ne m place t va v tree h zero pt va' ne k = elim (Bool-cases (t == pt)) [
  | inl e ↦
      let same =
        Leads-eq place 0 0 pt va va' (subst (λ q. Leads place 0 q va) ((==_iff t pt).0 e) h) k in
      ground (arith, same)
  | inr n ↦ rw n refl
]
leaf-set_pte_ne m place t va v tree h (suc level) pt va' ne k = elim (Bool-cases (t == pt)) [
  | inl e ↦
      let same =
        Leads-eq place 0 (suc level) pt va va'
          (subst (λ q. Leads place 0 q va) ((==_iff t pt).0 e) h) k in
      absurd (omega (arith, same.0))
  | inr n ↦ rw n (elim (Bool-cases (is_valid (m.table pt (px (suc level) va')))) [
    | inl e ↦
        rw e
          (leaf-set_pte_ne m place t va v tree h level _ va' ne (Leads-below level pt va' tree k e))
    | inr e ↦ rw e refl
  ])
]

-- At the entry of va it changes that to the new entry.
pub leaf-set_pte_self :
    (m : Memory) (place : ℕ → Option Place) (t va v : ℕ)
    → IsTree m place
    → Leads place 0 t va
    → (level pt : ℕ) → Leads place level pt va
    → bottom level m pt va ≡ some t
    → leaf level (set_pte m t (px 0 va) v) pt va ≡ v
unfolding leaf set_pte bottom
leaf-set_pte_self m place t va v tree h zero pt k b = ground arith
leaf-set_pte_self m place t va v tree h (suc level) pt k b = elim (Bool-cases (t == pt)) [
  | inl e ↦
      let same =
        Leads-eq place 0 (suc level) pt va va
          (subst (λ q. Leads place 0 q va) ((==_iff t pt).0 e) h) k in
      absurd (omega (arith, same.0))
  | inr n ↦ rw n (elim (Bool-cases (is_valid (m.table pt (px (suc level) va)))) [
    | inl e ↦ rw e (
        leaf-set_pte_self m place t va v tree h level _ (Leads-below level pt va tree k e)
          (ground arith))
    | inr e ↦ absurd (ground arith)
  ])
]

shifted-eq :
    (level va va' : ℕ) → va / page_size ≡ va' / page_size → shifted level va ≡ shifted level va'
shifted-eq zero va va' e = e
shifted-eq (suc level) va va' e = ap (λ n. n / 512) (shifted-eq level va va' e)

leaf-eq :
    (level : ℕ) (m : Memory) (pt va va' : ℕ)
    → va / page_size ≡ va' / page_size
    → leaf level m pt va ≡ leaf level m pt va'
unfolding leaf
leaf-eq zero m pt va va' e = ap (λ n. m.table pt (n % 512)) e
leaf-eq (suc level) m pt va va' e =
    ap
      (λ n.
        if is_valid (m.table pt (n % 512))
        then leaf level m (pte2pa (m.table pt (n % 512))) va
        else 0)
      (shifted-eq (suc level) va va' e)
    ∙ ap (λ n. if is_valid (m.table pt (px (suc level) va')) then n else 0)
        (leaf-eq level m (pte2pa (m.table pt (px (suc level) va'))) va va' e)

-- A store to an entry of the last level changes what one page of addresses leads to, and no other.
pub leaf-set_pte :
    (m : Memory) (place : ℕ → Option Place) (t va v : ℕ)
    → IsTree m place
    → Leads place 0 t va
    → (level pt va' : ℕ) → Leads place level pt va
    → Leads place level pt va'
    → bottom level m pt va ≡ some t
    → leaf level (set_pte m t (px 0 va) v) pt va'
      ≡ (if va / page_size == va' / page_size then v else leaf level m pt va')
leaf-set_pte m place t va v tree h level pt va' k k' b =
    elim (Bool-cases (va / page_size == va' / page_size)) [
      | inl e ↦ rw e (
          sym (leaf-eq level (set_pte m t (px 0 va) v) pt va va' ((==_iff _ _).0 e))
          ∙ leaf-set_pte_self m place t va v tree h level pt k b)
      | inr n ↦ rw n (leaf-set_pte_ne m place t va v tree h level pt va' (ground arith) k')
    ]

-- Such a store keeps the tree, whatever it stores.
pub set_pte-IsTree :
    (m : Memory) (place : ℕ → Option Place) (t x i v : ℕ)
    → IsTree m place
    → place t ≡ some (0, x)
    → IsTree (set_pte m t i v) place
unfolding set_pte
set_pte-IsTree m place t x i v tree h = record {
  child = λ p level y j k lt e. elim (Bool-cases (t == p)) [
    | inl same ↦ absurd (ground (arith, ap place ((==_iff t p).0 same)))
    | inr n ↦
        subst (λ q. place (pte2pa q) ≡ some (level, y * 512 + j)) {x = m.table p j} (rw n refl)
          (tree.child p level y j k lt
            (subst (λ q. is_valid q ≡ true) {y = m.table p j} (rw n refl) e))
  ];
  fresh = tree.fresh;
  once = tree.once;
}
