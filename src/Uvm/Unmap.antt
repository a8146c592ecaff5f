-- ===== src/Uvm/Unmap.antt =====
-- One page of uvmunmap: the entry that it clears, and the page that it frees.
use computer_system.Prelude.{
  ltb, leb, ◌%◌, ◌≤◌, ℕ, ◌/◌, ◌<◌, ◌≡◌, ◌≢◌, refl, ◌∙◌, sym, ap, ◌⊎◌, inl, inr, Bool, true, false,
  Option, none, some, ◌∷◌, All, ◌==◌, ==_iff, if◌then◌else◌, Bool-cases, Option-cases, arith,
}
use mathlib.Core.Path.{subst}
use computer_system.Kalloc.{page_size, phys_stop}
use computer_system.Kalloc.Chain.{NotIn, Distinct}
use computer_system.Vm.{
  Memory, px, max_va, pte2pa, pte_flags, is_valid, fill_page, free_page, kfree, set_pte, walk,
  Outcome, ok, panics, out_of_fuel,
}
use computer_system.Vm.Tree.{Place, IsFresh, IsTree, Leads, bottom, leaf-set_pte, set_pte-IsTree}
use computer_system.Vm.Page.{entry, Leads-root, leaf-bottom}
use computer_system.Vm.Map.{leaf_lem}
use computer_system.Uvm.{and_then, unmap_at}
use computer_system.Uvm.Pages.{
  UserPages, walk-bottom, Leads-bottom, leaf-same, bottom-same, IsTree-same,
}

-- Freed or not, the tables are the same.
abbrev freed : Memory → ℕ → Bool → Memory
freed m pa d = if d then free_page m pa else m

freed-same :
    (m : Memory) (place : ℕ → Option Place) (pa : ℕ) (d : Bool)
    → place pa ≡ none
    → (q : ℕ) (y : Place) → place q ≡ some y
    → (j : ℕ) → (freed m pa d).table q j ≡ m.table q j
unfolding free_page fill_page
freed-same m place pa true bare q y h j = elim (Bool-cases (pa == q)) [
  | inl e ↦ absurd (ground (arith, bare, h, ap place ((==_iff pa q).0 e)))
  | inr n ↦ ground arith
]
freed-same m place pa false bare q y h j = refl

freed-free :
    (m : Memory) (pa : ℕ) (d : Bool) → (freed m pa d).free ≡ (if d then pa ∷ m.free else m.free)
unfolding free_page fill_page
freed-free m pa true = refl
freed-free m pa false = refl

freed-Distinct :
    (m : Memory) (place : ℕ → Option Place) (pa : ℕ) (d : Bool)
    → IsTree m place
    → IsFresh place pa
    → NotIn pa m.free
    → All (IsFresh place) ((freed m pa d).free) × Distinct ((freed m pa d).free)
unfolding free_page fill_page
freed-Distinct m place pa true tree fresh new = ((fresh, tree.fresh), (new, tree.once))
freed-Distinct m place pa false tree fresh new = (tree.fresh, tree.once)

freed-NotIn :
    (m : Memory) (pa q : ℕ) (d : Bool) → pa ≢ q → NotIn q m.free → NotIn q ((freed m pa d).free)
unfolding free_page fill_page
freed-NotIn m pa q true ne new = (ne, new)
freed-NotIn m pa q false ne new = new

freed-end : (m : Memory) (pa : ℕ) (d : Bool) → (freed m pa d).end ≡ m.end
unfolding free_page fill_page
freed-end m pa true = refl
freed-end m pa false = refl

-- An entry on which uvmunmap panics: one that is not valid, one of no page, or, if its page is to be
-- freed, one of a page that is not in the memory behind the kernel.
abbrev pub CannotUnmap : ℕ → Bool → ℕ → Type 0
CannotUnmap end do_free pte =
    (is_valid pte ≡ false)
    ⊎ ((pte_flags pte ≡ 1) ⊎ ((do_free ≡ true) × ((pte2pa pte < end) ⊎ (phys_stop ≤ pte2pa pte))))

-- How unmapping one page may end.
abbrev pub UnmapsPage : Memory → ℕ → ℕ → Bool → Outcome Memory → Type 0
UnmapsPage m root a d panics = CannotUnmap m.end d (entry m root a)
UnmapsPage m root a d out_of_fuel = ⊥
UnmapsPage m root a d (ok m') =
    UserPages m' root
    × (is_valid (entry m root a) ≡ true)
    × ((va : ℕ)
        → va < max_va
        → entry m' root va ≡ (if a / page_size == va / page_size then 0 else entry m root va))
    × (m'.free ≡ (if d then pte2pa (entry m root a) ∷ m.free else m.free))
    × (m'.end ≡ m.end)

module _ (m : Memory) (root a t : ℕ) (d : Bool) (u : UserPages m root) (lt : a < max_va)
    (e : bottom 2 m root a ≡ some t) (v : is_valid (m.table t (px 0 a)) ≡ true) where
  abbrev pa : ℕ
  pa = pte2pa (m.table t (px 0 a))

  here : entry m root a ≡ m.table t (px 0 a)
  here = leaf-bottom 2 m root a t e

  page : IsFresh u.rooted.place pa × NotIn pa m.free
  page =
      subst (λ q. IsFresh u.rooted.place (pte2pa q) × NotIn (pte2pa q) m.free) here
        (u.owned a lt (subst (λ q. is_valid q ≡ true) (sym here) v))

  abbrev m_freed : Memory
  m_freed = freed m pa d

  same : (q : ℕ) (y : Place) → u.rooted.place q ≡ some y → (j : ℕ) → m_freed.table q j ≡ m.table q j
  same = freed-same m u.rooted.place pa d page.0.0

  tree1 : IsTree m_freed u.rooted.place
  tree1 =
      let fresh = freed-Distinct m u.rooted.place pa d u.rooted.tree page.0 page.1 in
      IsTree-same m m_freed u.rooted.place u.rooted.tree same fresh.0 fresh.1

  entry_after :
      (va : ℕ)
      → va < max_va
      → entry (set_pte m_freed t (px 0 a) 0) root va
        ≡ (if a / page_size == va / page_size then 0 else entry m root va)
  entry_after va h =
      let top : Leads u.rooted.place 2 root a = Leads-root u.rooted.place root a u.rooted.top lt in
      let top' : Leads u.rooted.place 2 root va =
        Leads-root u.rooted.place root va u.rooted.top h in
      leaf-set_pte m_freed u.rooted.place t a 0 tree1
        (Leads-bottom 2 m _ root a t u.rooted.tree top e) 2 root va top top'
        (bottom-same m m_freed u.rooted.place u.rooted.tree same 2 root a top ∙ e)
      ∙ ap (λ n. if a / page_size == va / page_size then 0 else n)
          (leaf-same m m_freed u.rooted.place u.rooted.tree same 2 root va top')

  abbrev m_cleared : Memory
  m_cleared = set_pte m_freed t (px 0 a) 0

  -- A valid entry is another page's, as it was.
  away :
      (va : ℕ)
      → va < max_va
      → is_valid (entry m_cleared root va) ≡ true
      → (a / page_size ≢ va / page_size) × (entry m_cleared root va ≡ entry m root va)
  away va h v' = elim (Bool-cases (a / page_size == va / page_size)) [
    | inl eq ↦
        let cleared : entry m_cleared root va ≡ 0 =
          entry_after va h ∙ ap (λ b. if b then 0 else entry m root va) eq in
        absurd (ground (arith, subst (λ q. is_valid q ≡ true) cleared v'))
    | inr ne ↦ (ground arith, entry_after va h ∙ ap (λ b. if b then 0 else entry m root va) ne)
  ]

  m_cleared_free : m_cleared.free ≡ m_freed.free
  unfolding set_pte
  m_cleared_free = refl

  m_cleared_end : m_cleared.end ≡ m.end
  unfolding set_pte
  m_cleared_end = freed-end m pa d

  UserPages-after : UserPages m_cleared root
  UserPages-after = record {
    rooted = record {
      place = u.rooted.place;
      tree = set_pte-IsTree m_freed u.rooted.place t _ (px 0 a) 0 tree1 (
          Leads-bottom 2 m u.rooted.place root a t u.rooted.tree
            (Leads-root u.rooted.place root a u.rooted.top lt) e);
      top = u.rooted.top;
    };
    owned = λ va h v'.
        let w = away va h v' in
        let old = u.owned va h (subst (λ q. is_valid q ≡ true) w.1 v') in
        let other : pa ≢ pte2pa (entry m root va) = λ q. w.0 (
          u.apart a va lt h (subst (λ n. is_valid n ≡ true) (sym here) v)
            (subst (λ n. is_valid n ≡ true) w.1 v') (ap pte2pa here ∙ q)) in
        (
          subst (λ n. IsFresh u.rooted.place (pte2pa n)) (sym w.1) old.0,
          subst (λ n. NotIn (pte2pa n) m_cleared.free) (sym w.1)
              (subst (λ l. NotIn (pte2pa (entry m root va)) l) (sym m_cleared_free)
                (freed-NotIn m pa (pte2pa (entry m root va)) d other old.1)),
        );
    apart = λ va va' h h' v1 v2 q.
        let w = away va h v1 in
        let w' = away va' h' v2 in
        u.apart va va' h h' (subst (λ n. is_valid n ≡ true) w.1 v1)
          (subst (λ n. is_valid n ≡ true) w'.1 v2) (ap pte2pa (sym w.1) ∙ q ∙ ap pte2pa w'.1);
  }

  unmap_at-Unmaps : UnmapsPage m root a d (ok (set_pte m_freed t (px 0 a) 0))
  unmap_at-Unmaps = (
    UserPages-after,
    subst (λ n. is_valid n ≡ true) (sym here) v,
    entry_after,
    m_cleared_free
        ∙ freed-free m pa d
        ∙ ap (λ n. if d then pte2pa n ∷ m.free else m.free) (sym here),
    m_cleared_end,
  )

-- kfree of the page of an entry.
kfree_page :
    (m : Memory) (pte : ℕ)
    → ((kfree m (pte2pa pte) ≡ panics) × ((pte2pa pte < m.end) ⊎ (phys_stop ≤ pte2pa pte)))
      ⊎ (kfree m (pte2pa pte) ≡ ok (free_page m (pte2pa pte)))
unfolding kfree
kfree_page m pte =
    let whole : (pte2pa pte % page_size == 0) ≡ true = ground arith in
    elim (Bool-cases (ltb (pte2pa pte) m.end)) [
      | inl low ↦ inl (rw (whole, low) refl, inl (ground (arith, low)))
      | inr n ↦ elim (Bool-cases (leb phys_stop (pte2pa pte))) [
        | inl high ↦ inl (rw (whole, n, high) refl, inr (ground (arith, high)))
        | inr n' ↦ inr (rw (whole, n, n') refl)
      ]
    ]

-- One round of the loop.
pub unmap_page-Unmaps :
    (m : Memory) (root a : ℕ) (d : Bool)
    → UserPages m root
    → a < max_va
    → UnmapsPage m root a d (and_then (walk m root a false) (unmap_at d))
unfolding unmap_at
unmap_page-Unmaps m root a d u lt =
    rw (walk-bottom m root a lt) (elim (Option-cases (bottom 2 m root a)) [
      | inl missing ↦
          let cleared : entry m root a ≡ 0 =
            leaf_lem 2 m root a
            ∙ ap (λ o. elim o [ none ↦ 0 | some t ↦ m.table t (px 0 a) ]) missing in
          rw missing (inl (ap is_valid cleared))
      | inr (t, e) ↦ rw e (elim (Bool-cases (is_valid (m.table t (px 0 a)))) [
        | inr free ↦ rw free (inl (ap is_valid (leaf-bottom 2 m root a t e) ∙ free))
        | inl v ↦ rw v (elim (Bool-cases (pte_flags (m.table t (px 0 a)) == 1)) [
          | inl bare ↦
              rw bare (inr (inl (ap pte_flags (leaf-bottom 2 m root a t e) ∙ (==_iff _ _).0 bare)))
          | inr whole ↦ rw whole (free_it t d e v)
        ])
      ])
    ])
  where
    free_it :
        (t : ℕ) (d : Bool)
        → bottom 2 m root a ≡ some t
        → is_valid (m.table t (px 0 a)) ≡ true
        → UnmapsPage m root a d (
            and_then
              (if d then kfree m (pte2pa (m.table t (px 0 a))) else ok m)
              (λ m'. ok (set_pte m' t (px 0 a) 0)))
    free_it t false e v = unmap_at-Unmaps m root a t false u lt e v
    free_it t true e v = elim (kfree_page m (m.table t (px 0 a))) [
      | inr k ↦ rw k (unmap_at-Unmaps m root a t true u lt e v)
      | inl (k, why) ↦ rw k (
          subst (CannotUnmap m.end true) (sym (leaf-bottom 2 m root a t e)) (inr (inr (refl, why))))
    ]
