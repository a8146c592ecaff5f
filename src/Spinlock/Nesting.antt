-- ===== src/Spinlock/Nesting.antt =====
-- push_off and pop_off in pairs.
use computer_system.Prelude.{
  ℕ, zero, suc, ◌<◌, ◌≡◌, refl, sym, false, Option, Option-cases, inl, inr, none, some, arith,
}
use mathlib.Core.Path.{subst}
use computer_system.Spinlock.{Cpu, push_off, pop_off}

abbrev pub pushed : ℕ → Cpu → Cpu
pushed zero c = c
pushed (suc n) c = pushed n (push_off c)

-- none is a panic.
abbrev pub popped : ℕ → Cpu → Option Cpu
popped zero c = some c
popped (suc n) c = elim (pop_off c) [ none ↦ none | some c' ↦ popped n c' ]

popped-snoc :
    (n : ℕ) (c d e : Cpu) → popped n c ≡ some d → pop_off d ≡ some e → popped (suc n) c ≡ some e
popped-snoc zero c d e h k = ground arith
popped-snoc (suc n) c d e h k = elim (Option-cases (pop_off c)) [
  | inl panic ↦ absurd (ground arith)
  | inr (c', p) ↦
      subst (λ o. (elim o [ none ↦ none | some x ↦ popped (suc n) x ]) ≡ some e) (sym p)
        (popped-snoc n c' d e (ground arith) k)
]

-- Inside a push_off the pairs change nothing at all.
popped-pushed_inside :
    (n : ℕ) (c : Cpu) → 0 < c.noff → c.intr ≡ false → popped n (pushed n c) ≡ some c
unfolding push_off pop_off
popped-pushed_inside zero c p e = refl
popped-pushed_inside (suc n) c p e =
    popped-snoc n (pushed n (push_off c)) (push_off c) c
      (popped-pushed_inside n (push_off c) (omega arith) refl) (ground arith)

-- As many pop_offs as push_offs never panic, and leave the count and the interrupts as they were;
-- interrupts are off in between, if a CPU with a count above zero has them off.
pub popped-pushed :
    (n : ℕ) (c : Cpu)
    → (0 < c.noff → c.intr ≡ false)
    → (c' : Cpu) × (popped n (pushed n c) ≡ some c') × (c'.noff ≡ c.noff) × (c'.intr ≡ c.intr)
unfolding push_off pop_off
popped-pushed zero c h = (c, refl, refl, refl)
popped-pushed (suc n) c h = (
  record (push_off c) { noff = c.noff; intr = c.intr },
  popped-snoc n (pushed n (push_off c)) (push_off c) _
      (popped-pushed_inside n (push_off c) (omega arith) refl) (ground arith),
  refl,
  refl,
)
