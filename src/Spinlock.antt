-- ===== src/Spinlock.antt =====
-- kernel/spinlock.c for one lock and any number of CPUs. The hardware's atomic swap and each
-- store to the lock is a step of its own, so that CPUs interleave inside acquire and release.
pub mod Safe
pub mod Exclusion
pub mod Nesting
mod Tests
use computer_system.Prelude.{
  ℕ, ◌+◌, ◌-◌, Bool, true, false, not, ◌&&◌, ◌||◌, Option, none, some, update, ltb, ◌==◌,
  if◌then◌else◌,
}

-- struct cpu's noff and intena, and sstatus.SIE, which intr_get reads.
pub record Cpu : Type 0 where
  pub noff : ℕ
  pub intena : Bool
  pub intr : Bool

unfoldable pub push_off : Cpu → Cpu
push_off c = record {
  noff = c.noff + 1;
  intena = if c.noff == 0 then c.intr else c.intena;
  intr = false;
}

-- none is a panic: interrupts are on, or there was no push_off.
unfoldable pub pop_off : Cpu → Option Cpu
pop_off c =
    if c.intr || ltb c.noff 1
    then none
    else some (record c {
      noff = c.noff - 1;
      intr = if (c.noff - 1 == 0) && c.intena then true else c.intr;
    })

-- Where a CPU stands: before acquire's swap, behind it, behind the store to lk->cpu, in release
-- behind the one that erases it, behind the release of `locked`, or in none of them.
pub data Stage : Type 0 where
  outside spins won holds clearing unlocked : Stage

-- struct spinlock, the CPUs, and where each stands.
pub record Machine : Type 0 where
  pub locked : Bool
  pub owner : Option ℕ
  pub cpu : ℕ → Cpu
  pub stage : ℕ → Stage

unfoldable pub initlock : Machine → Machine
initlock m = record m { locked = false; owner = none }

abbrev pub owned_by : Option ℕ → ℕ → Bool
owned_by none i = false
owned_by (some j) i = j == i

unfoldable pub holding : Machine → ℕ → Bool
holding m i = m.locked && owned_by m.owner i

abbrev pub to_stage : Machine → ℕ → Stage → Machine
to_stage m i st = record m { stage = update m.stage i st }

-- acquire up to its loop; none is panic("acquire").
unfoldable pub acquire_enter : Machine → ℕ → Option Machine
unfolding push_off holding
acquire_enter m i =
    let m' = record m { cpu = update m.cpu i (push_off (m.cpu i)) } in
    if holding m' i then none else some (to_stage m' i spins)

-- One round of the loop: the atomic swap.
unfoldable pub acquire_swap : Machine → ℕ → Machine
acquire_swap m i = if m.locked then m else to_stage (record m { locked = true }) i won

-- lk->cpu = mycpu()
unfoldable pub acquire_record : Machine → ℕ → Machine
acquire_record m i = to_stage (record m { owner = some i }) i holds

-- release up to its fence; none is panic("release").
unfoldable pub release_enter : Machine → ℕ → Option Machine
unfolding holding
release_enter m i =
    if not (holding m i) then none else some (to_stage (record m { owner = none }) i clearing)

unfoldable pub release_unlock : Machine → ℕ → Machine
release_unlock m i = to_stage (record m { locked = false }) i unlocked

unfoldable pub release_leave : Machine → ℕ → Option Machine
unfolding pop_off
release_leave m i = elim (pop_off (m.cpu i)) [
  | none ↦ none
  | some c ↦ some (to_stage (record m { cpu = update m.cpu i c }) i outside)
]

-- The next instruction of CPU i, where it has one of this lock's to do: `outside` calls acquire and
-- `holds` calls release.
unfoldable pub turn : Machine → ℕ → Option Machine
unfolding acquire_enter acquire_swap acquire_record release_enter release_unlock release_leave
turn m i = elim (m.stage i) [
  | outside ↦ acquire_enter m i
  | spins ↦ some (acquire_swap m i)
  | won ↦ some (acquire_record m i)
  | holds ↦ release_enter m i
  | clearing ↦ some (release_unlock m i)
  | unlocked ↦ release_leave m i
]
