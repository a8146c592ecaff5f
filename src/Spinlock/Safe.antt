-- ===== src/Spinlock/Safe.antt =====
-- Mutual exclusion, and interrupts off inside the lock.
use computer_system.Prelude.{ℕ, ◌<◌, ◌≡◌, Bool, true, false, some, update, arith}
use computer_system.Spinlock.{
  Cpu, Machine, Stage, outside, spins, won, holds, clearing, unlocked, push_off, pop_off, holding,
  acquire_enter, acquire_swap, acquire_record, release_enter, release_unlock, release_leave,
}

-- Between the swap that took the lock and the store that gives it back.
abbrev pub is_inside : Stage → Bool
is_inside won = true
is_inside holds = true
is_inside clearing = true
is_inside _ = false

abbrev pub is_outside : Stage → Bool
is_outside outside = true
is_outside _ = false

abbrev pub is_holds : Stage → Bool
is_holds holds = true
is_holds _ = false

pub record IsSafe (m : Machine) : Type 0 where
  pub alone : (i j : ℕ) → is_inside (m.stage i) ≡ true → is_inside (m.stage j) ≡ true → i ≡ j
  pub taken : (i : ℕ) → is_inside (m.stage i) ≡ true → m.locked ≡ true
  pub owned : (i : ℕ) → m.owner ≡ some i → is_holds (m.stage i) ≡ true
  pub recorded : (i : ℕ) → is_holds (m.stage i) ≡ true → m.owner ≡ some i
  pub counted : (i : ℕ) → is_outside (m.stage i) ≡ false → 0 < (m.cpu i).noff
  pub masked : (i : ℕ) → 0 < (m.cpu i).noff → (m.cpu i).intr ≡ false

pub swap-IsSafe : (m : Machine) (i : ℕ) → IsSafe m → m.stage i ≡ spins → IsSafe (acquire_swap m i)
unfolding acquire_swap
swap-IsSafe m i v e = record {
  alone = λ a b p q. ground (arith, v.alone a b, v.taken a, v.taken b);
  taken = λ a p. ground (arith, v.taken a);
  owned = λ a p. ground (arith, v.owned a);
  recorded = λ a p. ground (arith, v.recorded a);
  counted = λ a p. ground (arith, v.counted a, v.counted i);
  masked = λ a p. ground (arith, v.masked a);
}

pub enter-IsSafe :
    (m : Machine) (i : ℕ) {m' : Machine}
    → IsSafe m
    → m.stage i ≡ outside
    → acquire_enter m i ≡ some m'
    → IsSafe m'
unfolding acquire_enter push_off holding
enter-IsSafe m i v e h = record {
  alone = λ a b p q. ground (arith, v.alone a b);
  taken = λ a p. ground (arith, v.taken a);
  owned = λ a p. ground (arith, v.owned a);
  recorded = λ a p. ground (arith, v.recorded a);
  counted = λ a p. ground (arith, v.counted a);
  masked = λ a p. ground (arith, v.masked a);
}

pub record-IsSafe : (m : Machine) (i : ℕ) → IsSafe m → m.stage i ≡ won → IsSafe (acquire_record m i)
unfolding acquire_record
record-IsSafe m i v e = record {
  alone = λ a b p q. ground (arith, v.alone a b, v.alone a i, v.alone i b);
  taken = λ a p. ground (arith, v.taken a, v.taken i);
  owned = λ a p. ground arith;
  recorded = λ a p. ground (arith, v.alone a i);
  counted = λ a p. ground (arith, v.counted a, v.counted i);
  masked = λ a p. ground (arith, v.masked a);
}

pub release-IsSafe :
    (m : Machine) (i : ℕ) {m' : Machine}
    → IsSafe m
    → m.stage i ≡ holds
    → release_enter m i ≡ some m'
    → IsSafe m'
unfolding release_enter holding
release-IsSafe m i v e h = record {
  alone = λ a b p q. ground (arith, v.alone a b, v.alone a i, v.alone i b);
  taken = λ a p. ground (arith, v.taken a, v.taken i);
  owned = λ a p. ground arith;
  recorded = λ a p. ground (arith, v.alone a i);
  counted = λ a p. ground (arith, v.counted a, v.counted i);
  masked = λ a p. ground (arith, v.masked a);
}

pub unlock-IsSafe :
    (m : Machine) (i : ℕ) → IsSafe m → m.stage i ≡ clearing → IsSafe (release_unlock m i)
unfolding release_unlock
unlock-IsSafe m i v e = record {
  alone = λ a b p q. ground (arith, v.alone a b);
  taken = λ a p. ground (arith, v.alone a i);
  owned = λ a p. ground (arith, v.owned a);
  recorded = λ a p. ground (arith, v.recorded a);
  counted = λ a p. ground (arith, v.counted a, v.counted i);
  masked = λ a p. ground (arith, v.masked a);
}

-- Any new value for a CPU that keeps its count for the lock and its interrupts off.
pub cpu-IsSafe :
    (m : Machine) (i : ℕ) (c : Cpu)
    → IsSafe m
    → (is_outside (m.stage i) ≡ false → 0 < c.noff)
    → (0 < c.noff → c.intr ≡ false)
    → IsSafe (record m { cpu = update m.cpu i c })
cpu-IsSafe m i c v h k = record {
  alone = v.alone;
  taken = v.taken;
  owned = v.owned;
  recorded = v.recorded;
  counted = λ a p. ground (arith, v.counted a);
  masked = λ a p. ground (arith, v.masked a);
}

pub leave-IsSafe :
    (m : Machine) (i : ℕ) {m' : Machine}
    → IsSafe m
    → m.stage i ≡ unlocked
    → release_leave m i ≡ some m'
    → IsSafe m'
unfolding release_leave pop_off
leave-IsSafe m i v e h = record {
  alone = λ a b p q. ground (arith, v.alone a b);
  taken = λ a p. ground (arith, v.taken a);
  owned = λ a p. ground (arith, v.owned a);
  recorded = λ a p. ground (arith, v.recorded a);
  counted = λ a p. ground (arith, v.counted a);
  masked = λ a p. ground (arith, v.masked a, v.masked i);
}
