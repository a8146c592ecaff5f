-- ===== src/Proc/Pids.antt =====
-- Process ids: no two processes have the same one, and none has one not yet given out.
use computer_system.Prelude.{
  ℕ, ◌+◌, ◌^◌, ◌<◌, ◌≡◌, ◌≢◌, refl, ◌∙◌, sym, ap, ◌⊎◌, inl, inr, false, Option, none, some,
  get_elem?, get_elem?-set, arith,
}
use mathlib.Core.Path.{subst}
use computer_system.Proc.{Proc, Table, is_unused}
use computer_system.Proc.Tracks.{Tracks, Tracks-get}
use computer_system.Proc.Moves.{Keeps}
use computer_system.Proc.Fork.{Takes, Forks}
use computer_system.Proc.Steps.{Step, Step-Keeps}

-- Slot i holds the process p, which is in use.
abbrev pub Uses : Table → ℕ → Proc → Type 0
Uses t i p = (get_elem? t.procs i ≡ some p) × (is_unused p.state ≡ false)

pub record PidsUnique (t : Table) : Type 0 where
  pub given : (i : ℕ) (p : Proc) → Uses t i p → p.pid < t.nextpid
  pub unique : (i j : ℕ) (p q : Proc) → Uses t i p → Uses t j q → p.pid ≡ q.pid → i ≡ j

PidsUnique-Keeps :
    {t t' : Table}
    → PidsUnique t
    → t'.nextpid ≡ t.nextpid
    → Tracks Keeps t.procs t'.procs
    → PidsUnique t'
PidsUnique-Keeps {t} {t'} v n k = record {
  given = λ i q u.
      let (p, g, r) = back i q u in omega (arith, (r.1 u.1).1, n, v.given i p (g, (r.1 u.1).0));
  unique = λ i j p q u w e.
      let (p', gp, rp) = back i p u in
      let (q', gq, rq) = back j q w in
      v.unique i j p' q' (gp, (rp.1 u.1).0) (gq, (rq.1 w.1).0)
        (sym (rp.1 u.1).1 ∙ e ∙ (rq.1 w.1).1);
}
  where
    back :
        (i : ℕ) (q : Proc) → Uses t' i q → (p : Proc) × (get_elem? t.procs i ≡ some p) × Keeps p q
    back i q u = Tracks-get Keeps t.procs t'.procs i q k u.0

module _ {t t' : Table} {i : ℕ} {np child : Proc} (v : PidsUnique t)
    (below : t.nextpid + 1 < 2 ^ 31) (k : Takes t t' i np child)
    (fresh : is_unused child.state ≡ false → child.pid ≡ t.nextpid) where
  split :
      (j : ℕ) (q : Proc) → Uses t' j q → ((i ≡ j) × (q.pid ≡ t.nextpid)) ⊎ ((i ≢ j) × Uses t j q)
  split j q u =
      elim (get_elem?-set t.procs i j child q (subst (λ ps. get_elem? ps j ≡ some q) k.only u.0)) [
        | inl (e, same) ↦
            inl (e, ap (λ z. z.pid) same ∙ fresh (subst (λ z. is_unused z.state ≡ false) same u.1))
        | inr (ne, old) ↦ inr (ne, (old, u.1))
      ]

  given_after : (j : ℕ) (q : Proc) → Uses t' j q → q.pid < t'.nextpid
  given_after j q u = elim (split j q u) [
    | inl (e, new) ↦ omega (arith, k.counted)
    | inr (ne, old) ↦ omega (arith, k.counted, v.given j q old)
  ]

  unique_after : (a b : ℕ) (p q : Proc) → Uses t' a p → Uses t' b q → p.pid ≡ q.pid → a ≡ b
  unique_after a b p q u w e = elim (split a p u) [
    | inl (ea, new) ↦ elim (split b q w) [
      | inl (eb, new_b) ↦ omega arith
      | inr (ne, old_b) ↦ absurd (omega (arith, v.given b q old_b))
    ]
    | inr (ne, old) ↦ elim (split b q w) [
      | inl (eb, new_b) ↦ absurd (omega (arith, v.given a p old))
      | inr (ne_b, old_b) ↦ v.unique a b p q old old_b e
    ]
  ]

  PidsUnique-Takes : PidsUnique t'
  PidsUnique-Takes = record { given = given_after; unique = unique_after }

PidsUnique-Forks :
    (t : Table) (cur : ℕ) (p : Proc) (r : Option ℕ) (t' : Table)
    → PidsUnique t
    → t.nextpid + 1 < 2 ^ 31
    → Forks t cur p r t'
    → PidsUnique t'
PidsUnique-Forks t cur p none t' v below (inl e) = subst PidsUnique (sym e) v
PidsUnique-Forks t cur p none t' v below (inr (i, np, left, k, u, tf, pt)) =
    PidsUnique-Takes v below k (λ f. cc)
PidsUnique-Forks t cur p (some pid) t' v below (e, (i, np, k)) =
    PidsUnique-Takes v below k (λ f. refl)

-- While nextpid does not overflow its int, every call keeps the process ids apart: no two slots in
-- use hold the same pid, and every pid in use is below nextpid.
pub Step-PidsUnique :
    {t t' : Table} → PidsUnique t → t.nextpid + 1 < 2 ^ 31 → Step t t' → PidsUnique t'
Step-PidsUnique {t} {t'} v below st = elim (Step-Keeps st) [
  | inl (n, k) ↦ PidsUnique-Keeps v n k
  | inr (cur, p, r, f) ↦ PidsUnique-Forks t cur p r t' v below f
]
