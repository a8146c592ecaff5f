-- ===== src/Spinlock/Exclusion.antt =====
-- The lock under every interleaving of the CPUs.
use computer_system.Prelude.{
  ℕ, ◌<◌, ◌≡◌, refl, inl, inr, Bool, true, false, Option, some, none, update, arith, Bool-cases,
  Option-cases,
}
use mathlib.Core.Path.{subst}
use mathlib.Core.Option.{some-injective}
use computer_system.Spinlock.{
  Cpu, Machine, Stage, initlock, outside, spins, won, holds, clearing, unlocked, push_off, pop_off,
  holding, turn, acquire_enter, acquire_swap, acquire_record, release_enter, release_unlock,
  release_leave,
}
use computer_system.Spinlock.Safe.{
  is_inside, is_outside, is_holds, IsSafe, enter-IsSafe, swap-IsSafe, record-IsSafe, release-IsSafe,
  unlock-IsSafe, leave-IsSafe, cpu-IsSafe,
}

-- One instruction of a CPU: at the lock, or a push_off and a pop_off around anything else that the
-- CPU does, where a pop_off leaves the count of this lock alone; or interrupts go on or off while
-- nothing has pushed.
pub data Step (m : Machine) : Machine → Type 0 where
  turns : (i : ℕ) {m' : Machine} → turn m i ≡ some m' → Step m m'
  pushes : (i : ℕ) → Step m (record m { cpu = update m.cpu i (push_off (m.cpu i)) })
  pops :
      (i : ℕ) {c : Cpu}
      → (is_outside (m.stage i) ≡ false → 1 < (m.cpu i).noff)
      → pop_off (m.cpu i) ≡ some c
      → Step m (record m { cpu = update m.cpu i c })
  switches :
      (i : ℕ) (b : Bool)
      → (m.cpu i).noff ≡ 0
      → Step m (record m { cpu = update m.cpu i (record (m.cpu i) { intr = b }) })

turn-IsSafe : (m : Machine) (i : ℕ) {m' : Machine} → IsSafe m → turn m i ≡ some m' → IsSafe m'
unfolding turn
turn-IsSafe m i {m'} v e = go (m.stage i) refl e
  where
    go :
        (st : Stage)
        → m.stage i ≡ st
        → (elim st [
          | outside ↦ acquire_enter m i
          | spins ↦ some (acquire_swap m i)
          | won ↦ some (acquire_record m i)
          | holds ↦ release_enter m i
          | clearing ↦ some (release_unlock m i)
          | unlocked ↦ release_leave m i
        ])
          ≡ some m'
        → IsSafe m'
    go outside s h = enter-IsSafe m i v s h
    go spins s h = subst IsSafe (some-injective (acquire_swap m i) m' h) (swap-IsSafe m i v s)
    go won s h = subst IsSafe (some-injective (acquire_record m i) m' h) (record-IsSafe m i v s)
    go holds s h = release-IsSafe m i v s h
    go clearing s h =
        subst IsSafe (some-injective (release_unlock m i) m' h) (unlock-IsSafe m i v s)
    go unlocked s h = leave-IsSafe m i v s h

pub Step-IsSafe : {m m' : Machine} → IsSafe m → Step m m' → IsSafe m'
unfolding push_off pop_off
Step-IsSafe {m} v (turns i e) = turn-IsSafe m i v e
Step-IsSafe {m} v (pushes i) = cpu-IsSafe m i (push_off (m.cpu i)) v (λ o. omega arith) (λ p. refl)
Step-IsSafe {m} v (pops i {c} nested e) =
    cpu-IsSafe m i c v (λ o. ground (arith, nested o)) (λ p. ground (arith, v.masked i))
Step-IsSafe {m} v (switches i b z) =
    cpu-IsSafe m i (record (m.cpu i) { intr = b }) v (λ o. omega (arith, v.counted i o))
      (λ p. absurd (omega arith))

-- After initlock, with no CPU at the lock and none that runs interrupts inside a push_off.
pub initlock-IsSafe :
    (m : Machine)
    → ((i : ℕ) → m.stage i ≡ outside)
    → ((i : ℕ) → 0 < (m.cpu i).noff → (m.cpu i).intr ≡ false)
    → IsSafe (initlock m)
unfolding initlock
initlock-IsSafe m h k = record {
  alone = λ i j p q. ground (arith, h i);
  taken = λ i p. ground (arith, h i);
  owned = λ i p. cc;
  recorded = λ i p. ground (arith, h i);
  counted = λ i p. ground (arith, h i);
  masked = k;
}

pub data Reach (m : Machine) : Machine → Type 0 where
  here : Reach m m
  next : {t u : Machine} → Reach m t → Step t u → Reach m u

Reach-IsSafe : {m m' : Machine} → IsSafe m → Reach m m' → IsSafe m'
Reach-IsSafe v here = v
Reach-IsSafe v (next r st) = Step-IsSafe (Reach-IsSafe v r) st

-- In every state reached, however the CPUs interleave, from a safe one (as after initlock): two
-- CPUs between the swap that takes the lock and the store that gives it back are the same, and
-- such a CPU has its interrupts off.
pub lock_excludes :
    {m m' : Machine}
    → IsSafe m
    → Reach m m'
    → ((i j : ℕ) → is_inside (m'.stage i) ≡ true → is_inside (m'.stage j) ≡ true → i ≡ j)
      × ((i : ℕ) → is_inside (m'.stage i) ≡ true → (m'.cpu i).intr ≡ false)
lock_excludes {m' = m'} v r =
    let w = Reach-IsSafe v r in (w.alone, λ i p. w.masked i (w.counted i (ground arith)))

-- An option that is not none.
some_of : (o : Option Machine) → ¬ (o ≡ none) → (m : Machine) × (o ≡ some m)
some_of none h = absurd (h refl)
some_of (some m) h = (m, refl)

holding_lem : (m : Machine) (i : ℕ) → IsSafe m → holding m i ≡ is_holds (m.stage i)
unfolding holding
holding_lem m i v = elim (Bool-cases (is_holds (m.stage i))) [
  | inl h ↦ ground (arith, v.recorded i h, v.taken i)
  | inr n ↦ elim (Option-cases m.owner) [
    | inl none_holds ↦ ground arith
    | inr (j, e) ↦ ground (arith, v.owned i)
  ]
]

turn_total : (m : Machine) (i : ℕ) → IsSafe m → (m' : Machine) × (turn m i ≡ some m')
unfolding turn acquire_enter release_enter release_leave pop_off push_off holding
turn_total m i v = go (m.stage i) refl
  where
    go :
        (st : Stage)
        → m.stage i ≡ st
        → (m' : Machine) × ((elim st [
          | outside ↦ acquire_enter m i
          | spins ↦ some (acquire_swap m i)
          | won ↦ some (acquire_record m i)
          | holds ↦ release_enter m i
          | clearing ↦ some (release_unlock m i)
          | unlocked ↦ release_leave m i
        ])
            ≡ some m')
    go outside s = some_of (acquire_enter m i) (λ e. ground (arith, holding_lem m i v))
    go spins s = (_, refl)
    go won s = (_, refl)
    go holds s = some_of (release_enter m i) (λ e. ground (arith, holding_lem m i v))
    go clearing s = (_, refl)
    go unlocked s = some_of (release_leave m i) (λ e. ground (arith, v.counted i, v.masked i))

-- In every state reached from a safe one, holding tells a CPU exactly whether it is between its
-- acquire and its release, and neither of the two panics: every CPU has a next instruction.
pub lock_never_panics :
    {m m' : Machine}
    → IsSafe m
    → Reach m m'
    → (i : ℕ) → (holding m' i ≡ is_holds (m'.stage i)) × ((m'' : Machine) × (turn m' i ≡ some m''))
lock_never_panics {m' = m'} v r i =
    let w = Reach-IsSafe v r in (holding_lem m' i w, turn_total m' i w)
