-- ===== src/Sleeplock.antt =====
-- kernel/sleeplock.c: the lock that a process may hold while it waits for the disk. What a call does
-- between acquire(&lk->lk) and the release of it, or the sleep that lets go of it, is one step: Spinlock is
-- about those. Processes are indices.
pub mod Waiting
mod Tests
use computer_system.Prelude.{ℕ, ◌≡◌, Bool, true, false, ◌&&◌, ◌==◌, if◌then◌else◌, update}

-- struct sleeplock, without its spin lock and its name
pub record SleepLock : Type 0 where
  pub locked : Bool
  pub pid : ℕ

unfoldable pub initsleeplock : SleepLock
initsleeplock = record { locked = false; pid = 0 }

-- Where a process is: not at the lock, in acquiresleep before it has lk->lk, asleep on the lock there, or
-- behind acquiresleep.
pub data Place : Type 0 where
  outside : Place
  asks : Place
  asleep : Place
  inside : Place

-- The lock, and each process's stage and p->pid.
pub record Sleepers : Type 0 where
  pub lock : SleepLock
  pub stage : ℕ → Place
  pub pid_of : ℕ → ℕ

abbrev pub to_place : Sleepers → ℕ → Place → Sleepers
to_place s i st = record s { stage = update s.stage i st }

-- From acquire(&lk->lk), or the return of sleep, to the sleep or the release.
unfoldable pub acquiresleep : Sleepers → ℕ → Sleepers
acquiresleep s i =
    if (s.lock).locked
    then to_place s i asleep
    else to_place (record s { lock = record { locked = true; pid = s.pid_of i } }) i inside

-- wakeup(lk), of one process
abbrev pub awakened : Place → Place
awakened asleep = asks
awakened st = st

unfoldable pub releasesleep : Sleepers → ℕ → Sleepers
releasesleep s i =
    to_place
      (record s { lock = record { locked = false; pid = 0 }; stage = λ j. awakened (s.stage j) }) i
      outside

unfoldable pub holdingsleep : Sleepers → ℕ → Bool
holdingsleep s i = (s.lock).locked && (s.lock).pid == s.pid_of i
