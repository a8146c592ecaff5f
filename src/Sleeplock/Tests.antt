-- ===== src/Sleeplock/Tests.antt =====
-- Process 1 has the lock and process 2 waits for it.
use computer_system.Prelude.{ℕ, ◌+◌, ◌≡◌, ◌⊎◌, refl, true, false, ◌↔◌, arith}
use computer_system.Sleeplock.{
  Sleepers, asks, inside, initsleeplock, to_place, acquiresleep, releasesleep, holdingsleep,
}
use computer_system.Sleeplock.Waiting.{
  all_outside, Reached, at_start, then_step, comes, runs, waits, GetsIn, sleeplock_excludes,
  waiting-GetsIn,
}

abbrev pids : ℕ → ℕ
pids i = i + 1

abbrev contended : Sleepers
contended = acquiresleep (to_place (acquiresleep (to_place (all_outside pids) 1 asks) 1) 2 asks) 2

contended-Reached : Reached contended
unfolding acquiresleep initsleeplock
contended-Reached =
    then_step
      (then_step (then_step (then_step (at_start pids) (comes 1 refl)) (runs 1 refl))
        (comes 2 refl))
      (runs 2 refl)

pids_apart : (i j : ℕ) → contended.pid_of i ≡ contended.pid_of j → i ≡ j
unfolding acquiresleep initsleeplock
pids_apart i j e = omega (arith, e)

sleeplock_excludes_example :
    ((i j : ℕ) → contended.stage i ≡ inside → contended.stage j ≡ inside → i ≡ j)
    × ((i : ℕ) → (holdingsleep contended i ≡ true) ↔ (contended.stage i ≡ inside))
sleeplock_excludes_example = sleeplock_excludes pids_apart contended-Reached

two_waits : waits (contended.stage 2) ≡ true
unfolding acquiresleep initsleeplock
two_waits = refl

waiting-GetsIn_example :
    (((contended.lock).locked ≡ false) × GetsIn contended 2)
    ⊎ ((j : ℕ) × (contended.stage j ≡ inside) × GetsIn (releasesleep contended j) 2)
waiting-GetsIn_example = waiting-GetsIn 2 contended-Reached two_waits
