-- ===== src/Vm/Sample.antt =====
-- A small page table, for the runs of kernel/vm.c's functions.
use computer_system.Prelude.{
  ℕ, suc, ◌+◌, ◌*◌, ◌%◌, ◌≡◌, refl, ◌∙◌, sym, ap, inl, inr, true, false, not, Option, none, some,
  some-injective, [], ◌∷◌, ◌==◌, ==_iff, if◌then◌else◌, Bool-cases, arith,
}
use computer_system.Vm.{Memory, pte2pa, is_valid}
use computer_system.Vm.Tree.{Place, IsTree}
use computer_system.Vm.Page.{Rooted}

-- Tables at 0x80201000, 0x80202000 and 0x80203000; address 0 is the page at 0x80205000.
abbrev pub one_page : Memory
one_page = record {
  end = 0x80022000;
  table = λ p i.
      if not (i == 0)
      then 0
      else if p == 0x80201000
      then 0x80202 * 1024 + 1
      else if p == 0x80202000
      then 0x80203 * 1024 + 1
      else if p == 0x80203000
      then 0x80205 * 1024 + 31
      else 0;
  byte = λ a. a % 7;
  free = 0x80206000 ∷ [];
}

abbrev pub places : ℕ → Option Place
places p =
    if p == 0x80201000
    then some (2, 0)
    else if p == 0x80202000
    then some (1, 0)
    else if p == 0x80203000
    then some (0, 0)
    else none

below :
    (p q l l' level x i : ℕ)
    → places p ≡ some (suc level, x)
    → p ≡ q
    → places q ≡ some (suc l', 0)
    → i ≡ 0
    → places (pte2pa (one_page.table q 0)) ≡ some (l', 0)
    → places (pte2pa (one_page.table p i)) ≡ some (level, x * 512 + i)
below p q l l' level x i h ep hq ei next =
    let same = some-injective _ _ (sym h ∙ ap places ep ∙ hq) in
    let el : level ≡ l' = omega (arith, ap (λ r. r.0) same) in
    let ex : x ≡ 0 = ap (λ r. r.1) same in rw (ep, ei, el, ex) next

last :
    (p level x : ℕ)
    → places p ≡ some (suc level, x)
    → (p == 0x80201000) ≡ false
    → (p == 0x80202000) ≡ false
    → ⊥
last p level x h n n' = ground (arith, h)

child :
    (p level x i : ℕ)
    → places p ≡ some (suc level, x)
    → is_valid (one_page.table p i) ≡ true
    → places (pte2pa (one_page.table p i)) ≡ some (level, x * 512 + i)
child p level x i h v = elim (Bool-cases (i == 0)) [
  | inl z ↦ elim (Bool-cases (p == 0x80201000)) [
    | inl e ↦
        below p 0x80201000 2 1 level x i h ((==_iff p 0x80201000).0 e) refl ((==_iff i 0).0 z) refl
    | inr n ↦ elim (Bool-cases (p == 0x80202000)) [
      | inl e ↦
          below p 0x80202000 1 0 level x i h ((==_iff p 0x80202000).0 e) refl ((==_iff i 0).0 z)
            refl
      | inr n' ↦ absurd (last p level x h n n')
    ]
  ]
  | inr n ↦ absurd (ground (arith, v))
]

pub one_page-IsTree : IsTree one_page places
one_page-IsTree = record {
  child = λ p level x i h lt v. child p level x i h v;
  fresh = ((refl, refl, λ e. absurd (omega arith)), tt);
  once = (tt, tt);
}

pub one_page-Rooted : Rooted one_page 0x80201000
one_page-Rooted = record { place = places; tree = one_page-IsTree; top = refl }
