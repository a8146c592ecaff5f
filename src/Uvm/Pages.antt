-- ===== src/Uvm/Pages.antt =====
-- The pages of an address space: each mapped page is its own, no table and not free.
use computer_system.Prelude.{
  ℕ, zero, suc, ◌+◌, ◌*◌, ◌/◌, ◌<◌, ◌≡◌, refl, sym, ap, inl, inr, true, false, Option, some,
  some-injective, All, leb, Bool-cases, arith,
}
use mathlib.Core.Path.{subst}
use computer_system.Kalloc.{page_size}
use computer_system.Kalloc.Chain.{NotIn, Distinct}
use computer_system.Vm.{Memory, px, max_va, pte2pa, is_valid, walk_from, walk, entry_at, ok}
use computer_system.Vm.Tree.{Place, IsFresh, IsTree, Leads, Leads-below, leaf, bottom}
use computer_system.Vm.Page.{Rooted, entry}

-- The mapped pages of an address space.
pub record UserPages (m : Memory) (root : ℕ) : Type 0 where
  pub rooted : Rooted m root
  pub owned :
      (va : ℕ)
      → va < max_va
      → is_valid (entry m root va) ≡ true
      → IsFresh rooted.place (pte2pa (entry m root va)) × NotIn (pte2pa (entry m root va)) m.free
  pub apart :
      (va va' : ℕ)
      → va < max_va
      → va' < max_va
      → is_valid (entry m root va) ≡ true
      → is_valid (entry m root va') ≡ true
      → pte2pa (entry m root va) ≡ pte2pa (entry m root va')
      → va / page_size ≡ va' / page_size

-- walk without alloc changes nothing.
walk_from-bottom :
    (level : ℕ) (m : Memory) (pt va : ℕ) → walk_from level m pt va false ≡ (bottom level m pt va, m)
unfolding walk_from bottom
walk_from-bottom zero m pt va = refl
walk_from-bottom (suc level) m pt va =
    elim (Bool-cases (is_valid (m.table pt (px (suc level) va)))) [
      | inl e ↦ rw e (walk_from-bottom level m _ va)
      | inr e ↦ rw e refl
    ]

pub walk-bottom :
    (m : Memory) (root va : ℕ)
    → va < max_va
    → walk m root va false ≡ ok (entry_at va (bottom 2 m root va, m))
unfolding walk
walk-bottom m root va lt =
    let low : leb max_va va ≡ false = ground arith in
    rw low (ap (λ r. ok (entry_at va r)) (walk_from-bottom 2 m root va))

pub Leads-bottom :
    (level : ℕ) (m : Memory) (place : ℕ → Option Place) (pt va t : ℕ)
    → IsTree m place
    → Leads place level pt va
    → bottom level m pt va ≡ some t
    → Leads place 0 t va
unfolding bottom
Leads-bottom zero m place pt va t tree h e =
    subst (λ q. Leads place 0 q va) (some-injective _ _ e) h
Leads-bottom (suc level) m place pt va t tree h e =
    elim (Bool-cases (is_valid (m.table pt (px (suc level) va)))) [
      | inl v ↦
          Leads-bottom level m place _ va t tree (Leads-below level pt va tree h v) (ground arith)
      | inr n ↦ absurd (ground arith)
    ]

-- Tables that are the same lead to the same.
pub leaf-same :
    (m m' : Memory) (place : ℕ → Option Place)
    → IsTree m place
    → ((q : ℕ) (y : Place) → place q ≡ some y → (j : ℕ) → m'.table q j ≡ m.table q j)
    → (level pt va : ℕ) → Leads place level pt va
    → leaf level m' pt va ≡ leaf level m pt va
unfolding leaf
leaf-same m m' place tree same zero pt va h = same pt _ h (px 0 va)
leaf-same m m' place tree same (suc level) pt va h =
    rw (same pt _ h (px (suc level) va))
      (elim (Bool-cases (is_valid (m.table pt (px (suc level) va)))) [
        | inl v ↦
            rw v (leaf-same m m' place tree same level _ va (Leads-below level pt va tree h v))
        | inr n ↦ rw n refl
      ])

pub bottom-same :
    (m m' : Memory) (place : ℕ → Option Place)
    → IsTree m place
    → ((q : ℕ) (y : Place) → place q ≡ some y → (j : ℕ) → m'.table q j ≡ m.table q j)
    → (level pt va : ℕ) → Leads place level pt va
    → bottom level m' pt va ≡ bottom level m pt va
unfolding bottom
bottom-same m m' place tree same zero pt va h = refl
bottom-same m m' place tree same (suc level) pt va h =
    rw (same pt _ h (px (suc level) va))
      (elim (Bool-cases (is_valid (m.table pt (px (suc level) va)))) [
        | inl v ↦
            rw v (bottom-same m m' place tree same level _ va (Leads-below level pt va tree h v))
        | inr n ↦ rw n refl
      ])

pub IsTree-same :
    (m m' : Memory) (place : ℕ → Option Place)
    → IsTree m place
    → ((q : ℕ) (y : Place) → place q ≡ some y → (j : ℕ) → m'.table q j ≡ m.table q j)
    → All (IsFresh place) m'.free
    → Distinct m'.free
    → IsTree m' place
IsTree-same m m' place tree same fresh once = record {
  child = λ p level x i h lt v.
      let e : m'.table p i ≡ m.table p i = same p _ h i in
      subst (λ q. place (pte2pa q) ≡ some (level, x * 512 + i)) (sym e)
        (tree.child p level x i h lt (subst (λ q. is_valid q ≡ true) e v));
  fresh = fresh;
  once = once;
}
