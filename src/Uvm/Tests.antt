-- ===== src/Uvm/Tests.antt =====
-- An address space with one page, through vm.c's operations.
use computer_system.Prelude.{
  ℕ, ◌+◌, ◌*◌, ◌/◌, ◌<◌, ◌≡◌, refl, ◌∙◌, sym, ap, inl, inr, true, false, [], ◌∷◌, ◌==◌, ==_iff,
  if◌then◌else◌, Bool-cases, arith,
}
use computer_system.Kalloc.{page_size}
use mathlib.Core.Path.{subst}
use computer_system.Kalloc.Chain.{NotIn}
use computer_system.Vm.{px, max_va, pte2pa, is_valid}
use computer_system.Vm.Tree.{IsFresh, leaf}
use computer_system.Vm.Page.{entry}
use computer_system.Uvm.{uvmunmap}
use computer_system.Uvm.Pages.{UserPages}
use computer_system.Uvm.Range.{Unmaps, uvmunmap-Unmaps}
use computer_system.Vm.Sample.{one_page, places, one_page-IsTree}

one_page-entry :
    (va : ℕ)
    → va < max_va
    → entry one_page 0x80201000 va ≡ (if va / page_size == 0 then 0x80205 * 1024 + 31 else 0)
unfolding leaf
one_page-entry va lt = elim (Bool-cases (px 2 va == 0)) [
  | inl z2 ↦ rw z2 (elim (Bool-cases (px 1 va == 0)) [
    | inl z1 ↦ rw z1 (elim (Bool-cases (px 0 va == 0)) [
      | inl z0 ↦ let q : (va / page_size == 0) ≡ true = ground arith in rw (z0, q) refl
      | inr n0 ↦ let q : (va / page_size == 0) ≡ false = ground arith in rw (n0, q) refl
    ])
    | inr n1 ↦ let q : (va / page_size == 0) ≡ false = ground arith in rw (n1, q) refl
  ])
  | inr n2 ↦ let q : (va / page_size == 0) ≡ false = ground arith in rw (n2, q) refl
]

one_page_zero :
    (va : ℕ) → va < max_va → is_valid (entry one_page 0x80201000 va) ≡ true → va / page_size ≡ 0
one_page_zero va lt v = elim (Bool-cases (va / page_size == 0)) [
  | inl z ↦ (==_iff _ _).0 z
  | inr n ↦
      let none_there : entry one_page 0x80201000 va ≡ 0 =
        one_page-entry va lt ∙ ap (λ b. if b then 0x80205 * 1024 + 31 else 0) n in
      absurd (ground (arith, subst (λ e. is_valid e ≡ true) none_there v))
]

one_page-UserPages : UserPages one_page 0x80201000
one_page-UserPages = record {
  rooted = record { place = places; tree = one_page-IsTree; top = refl };
  owned = λ va lt v.
      let z : (va / page_size == 0) ≡ true = ground (arith, one_page_zero va lt v) in
      let e : entry one_page 0x80201000 va ≡ 0x80205 * 1024 + 31 =
        one_page-entry va lt ∙ ap (λ b. if b then 0x80205 * 1024 + 31 else 0) z in
      subst (λ n. IsFresh places (pte2pa n) × NotIn (pte2pa n) (0x80206000 ∷ [])) (sym e)
        ((refl, refl, λ q. absurd (omega arith)), (λ q. absurd (omega arith), tt));
  apart = λ va va' lt lt' v v' same. one_page_zero va lt v ∙ sym (one_page_zero va' lt' v');
}

uvmunmap-Unmaps_example :
    Unmaps one_page 0x80201000 0 1 true (uvmunmap one_page 0x80201000 0 1 true)
uvmunmap-Unmaps_example =
    uvmunmap-Unmaps one_page 0x80201000 0 1 true one_page-UserPages refl (omega arith)
