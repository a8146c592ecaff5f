-- ===== src/Proc/Tracks.antt =====
-- Process tables compared slot by slot.
use computer_system.Prelude.{
  ℕ, zero, suc, ◌+◌, ◌≡◌, refl, ap, inl, inr, true, some, List, [], ◌∷◌, get_elem?, set, Bool-cases,
  arith,
}
use mathlib.Core.Path.{subst}
use computer_system.Proc.{Proc, is_unused, find_unused}

module _ (R : Proc → Proc → Type 0) where
  -- Each slot of the second table is related to the same slot of the first.
  abbrev pub Tracks : List Proc → List Proc → Type 0
  Tracks [] [] = Unit
  Tracks [] (q ∷ qs) = ⊥
  Tracks (p ∷ ps) [] = ⊥
  Tracks (p ∷ ps) (q ∷ qs) = R p q × Tracks ps qs

  pub Tracks-refl : ((p : Proc) → R p p) → (ps : List Proc) → Tracks ps ps
  Tracks-refl r [] = tt
  Tracks-refl r (p ∷ ps) = (r p, Tracks-refl r ps)

  pub Tracks-trans :
      ((p q s : Proc) → R p q → R q s → R p s)
      → (ps qs ss : List Proc) → Tracks ps qs
      → Tracks qs ss
      → Tracks ps ss
  Tracks-trans t [] [] [] h k = tt
  Tracks-trans t [] [] (s ∷ ss) h k = absurd k
  Tracks-trans t [] (q ∷ qs) ss h k = absurd h
  Tracks-trans t (p ∷ ps) [] ss h k = absurd h
  Tracks-trans t (p ∷ ps) (q ∷ qs) [] h k = absurd k
  Tracks-trans t (p ∷ ps) (q ∷ qs) (s ∷ ss) h k = (t p q s h.0 k.0, Tracks-trans t ps qs ss h.1 k.1)

  pub Tracks-set :
      ((p : Proc) → R p p)
      → (ps : List Proc) (i : ℕ) (p q : Proc) → get_elem? ps i ≡ some p
      → R p q
      → Tracks ps (set ps i q)
  Tracks-set r [] i p q e h = tt
  Tracks-set r (x ∷ ps) zero p q e h = (subst (λ y. R y q) (cc) h, Tracks-refl r ps)
  Tracks-set r (x ∷ ps) (suc i) p q e h = (r x, Tracks-set r ps i p q e h)

  pub Tracks-get :
      (ps qs : List Proc) (i : ℕ) (q : Proc)
      → Tracks ps qs
      → get_elem? qs i ≡ some q
      → (p : Proc) × (get_elem? ps i ≡ some p) × R p q
  Tracks-get [] [] i q h e = cc
  Tracks-get [] (y ∷ qs) i q h e = absurd h
  Tracks-get (x ∷ ps) [] i q h e = absurd h
  Tracks-get (x ∷ ps) (y ∷ qs) zero q h e = (x, refl, subst (R x) (cc) h.0)
  Tracks-get (x ∷ ps) (y ∷ qs) (suc i) q h e = Tracks-get ps qs i q h.1 e

pub Tracks-map :
    (R S : Proc → Proc → Type 0)
    → ((p q : Proc) → R p q → S p q)
    → (ps qs : List Proc) → Tracks R ps qs
    → Tracks S ps qs
Tracks-map R S f [] [] h = tt
Tracks-map R S f [] (q ∷ qs) h = absurd h
Tracks-map R S f (p ∷ ps) [] h = absurd h
Tracks-map R S f (p ∷ ps) (q ∷ qs) h = (f p q h.0, Tracks-map R S f ps qs h.1)

-- The slot of a related table.
pub Tracks-get_forth :
    (R : Proc → Proc → Type 0) (ps qs : List Proc) (i : ℕ) (p : Proc)
    → Tracks R ps qs
    → get_elem? ps i ≡ some p
    → (q : Proc) × (get_elem? qs i ≡ some q) × R p q
Tracks-get_forth R [] [] i p h e = cc
Tracks-get_forth R [] (y ∷ qs) i p h e = absurd h
Tracks-get_forth R (x ∷ ps) [] i p h e = absurd h
Tracks-get_forth R (x ∷ ps) (y ∷ qs) zero p h e = (y, refl, subst (λ z. R z y) (cc) h.0)
Tracks-get_forth R (x ∷ ps) (y ∷ qs) (suc i) p h e = Tracks-get_forth R ps qs i p h.1 e

pub set-set : (ps : List Proc) (i : ℕ) (p q : Proc) → set (set ps i p) i q ≡ set ps i q
set-set [] i p q = refl
set-set (x ∷ ps) zero p q = refl
set-set (x ∷ ps) (suc i) p q = ap (λ l. x ∷ l) (set-set ps i p q)

-- What the scan of allocproc finds.
pub find_unused_lem :
    (ps : List Proc) (j i : ℕ) (p : Proc)
    → find_unused ps j ≡ some (i, p)
    → (k : ℕ) × (i ≡ j + k) × (get_elem? ps k ≡ some p) × (is_unused p.state ≡ true)
unfolding find_unused
find_unused_lem [] j i p e = cc
find_unused_lem (x ∷ ps) j i p e = elim (Bool-cases (is_unused x.state)) [
  | inl u ↦ (0, ground arith, ground arith, ground arith)
  | inr n ↦
      let (k, a, b, c) = find_unused_lem ps (j + 1) i p (ground arith) in (suc k, omega arith, b, c)
]
