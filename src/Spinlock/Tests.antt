-- ===== src/Spinlock/Tests.antt =====
-- Two CPUs at a lock, and the lock's theorems at them.
use computer_system.Prelude.{ℕ, ◌≡◌, refl, true, false, none, some, arith, update}
use computer_system.Spinlock.{
  Cpu, Machine, outside, spins, won, initlock, push_off, holding, turn, acquire_enter, acquire_swap,
}
use computer_system.Spinlock.Safe.{IsSafe, is_inside, is_holds}
use computer_system.Spinlock.Exclusion.{
  turns, here, next, initlock-IsSafe, lock_excludes, lock_never_panics,
}

abbrev calm : Cpu
calm = record { noff = 0; intena = false; intr = true }

abbrev booted : Machine
booted = record { locked = false; owner = none; cpu = λ i. calm; stage = λ i. outside }

booted-IsSafe : IsSafe booted
unfolding initlock
booted-IsSafe = initlock-IsSafe booted (λ i. refl) (λ i p. absurd (omega arith))

-- CPU 1 has taken the lock.
abbrev after_swap : Machine
after_swap = record booted {
  locked = true;
  cpu = update booted.cpu 1 (record { noff = 1; intena = true; intr = false });
  stage = update (update booted.stage 1 spins) 1 won;
}

abbrev before_swap : Machine
before_swap = record booted {
  cpu = update booted.cpu 1 (record { noff = 1; intena = true; intr = false });
  stage = update booted.stage 1 spins;
}

first_turn : turn booted 1 ≡ some before_swap
unfolding turn acquire_enter push_off holding
first_turn = refl

second_turn : turn before_swap 1 ≡ some after_swap
unfolding turn acquire_swap
second_turn = refl

lock_excludes_example :
    ((i j : ℕ)
      → is_inside (after_swap.stage i) ≡ true
      → is_inside (after_swap.stage j) ≡ true
      → i ≡ j)
    × ((i : ℕ) → is_inside (after_swap.stage i) ≡ true → (after_swap.cpu i).intr ≡ false)
lock_excludes_example =
    lock_excludes booted-IsSafe (next (next here (turns 1 first_turn)) (turns 1 second_turn))

lock_never_panics_example :
    (holding after_swap 2 ≡ is_holds (after_swap.stage 2))
    × ((m'' : Machine) × (turn after_swap 2 ≡ some m''))
lock_never_panics_example =
    lock_never_panics booted-IsSafe (next (next here (turns 1 first_turn)) (turns 1 second_turn)) 2
