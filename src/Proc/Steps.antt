-- ===== src/Proc/Steps.antt =====
-- Every move of the process table: legal changes of state, and pids that name one process.
use computer_system.Prelude.{
  ℕ, ◌≡◌, refl, sym, ◌⊎◌, inl, inr, Bool, true, false, Option, none, some, List, get_elem?,
  Bool-cases, arith,
}
use mathlib.Core.Path.{subst}
use computer_system.Prelude.Int.{ℤ}
use computer_system.Proc.{
  unused, sleeping, runnable, running, Chan, Proc, Table, Trapframe, fork, exit, wait, schedule,
  yield, sleep, awake, wakeup, kill, Scan, wait_for, is_runnable, wait_for, scan_children, found,
  children,
}
use computer_system.Proc.Tracks.{Tracks, Tracks-map, Tracks-refl, Tracks-set}
use computer_system.Proc.Moves.{
  legal, Wakes, Keeps, Keeps-refl, Wakes-Keeps, Tracks-wakeup, Tracks-kill, Tracks-at, Tracks-wait,
  Tracks-exit, exit-procs,
}
use computer_system.Proc.Fork.{Takes, Forks, fork_child}

-- One call, by the process in slot `cur` where there is one: it is the one that runs.
pub data Step (t : Table) : Table → Type 0 where
  forks :
      (tf : Option Trapframe) (pt copied : Bool) (cur : ℕ) (p : Proc)
      → get_elem? t.procs cur ≡ some p
      → p.state ≡ running
      → Step t (fork tf pt copied t cur p).1
  exits :
      (cur : ℕ) (p : Proc) (status : ℤ) {t' : Table}
      → get_elem? t.procs cur ≡ some p
      → p.state ≡ running
      → exit t cur p status ≡ some t'
      → Step t t'
  waits :
      (stored : Bool) (cur : ℕ) (p : Proc)
      → get_elem? t.procs cur ≡ some p
      → p.state ≡ running
      → Step t (wait stored t cur p).1
  schedules : (i : ℕ) (p : Proc) → get_elem? t.procs i ≡ some p → Step t (schedule t i p)
  yields :
      (cur : ℕ) (p : Proc)
      → get_elem? t.procs cur ≡ some p
      → p.state ≡ running
      → Step t (yield t cur p)
  sleeps :
      (cur : ℕ) (p : Proc) (chan : Chan)
      → get_elem? t.procs cur ≡ some p
      → p.state ≡ running
      → Step t (sleep t cur p chan)
  awakes :
      (cur : ℕ) (p : Proc)
      → get_elem? t.procs cur ≡ some p
      → p.state ≡ running
      → Step t (awake t cur p)
  wakes : (chan : Chan) → Step t (record t { procs = wakeup chan t.procs })
  kills : (pid : ℕ) → Step t (record t { procs = (kill pid t.procs).0 })

-- The state of every process changes by the state machine.
abbrev pub LegalMove : Proc → Proc → Type 0
LegalMove p q = legal p.state q.state ≡ true

legal-Tracks : (ps qs : List Proc) → Tracks Keeps ps qs → Tracks LegalMove ps qs
legal-Tracks = Tracks-map Keeps LegalMove (λ p q h. h.0)

LegalMove-Takes :
    {t t' : Table} {i : ℕ} {np child : Proc}
    → Takes t t' i np child
    → legal unused child.state ≡ true
    → Tracks LegalMove t.procs t'.procs
LegalMove-Takes {t} {t'} {i} {np} {child} k l = subst (Tracks LegalMove t.procs) (sym k.only) (
    Tracks-set LegalMove (λ p. (Keeps-refl p).0) t.procs i np child k.free
      (ground (arith, k.was_unused, l)))

LegalMove-Forks :
    (t : Table) (cur : ℕ) (p : Proc) (r : Option ℕ) (t' : Table)
    → Forks t cur p r t'
    → Tracks LegalMove t.procs t'.procs
LegalMove-Forks t cur p none t' (inl e) =
    subst (λ u. Tracks LegalMove t.procs u.procs) (sym e)
      (Tracks-refl LegalMove (λ q. (Keeps-refl q).0) t.procs)
LegalMove-Forks t cur p none t' (inr (i, np, left, k, u, tf, pt)) =
    LegalMove-Takes k (ground (arith, u))
LegalMove-Forks t cur p (some pid) t' (e, (i, np, k)) = LegalMove-Takes k refl

Keeps-schedule : (p : Proc) → is_runnable p.state ≡ true → Keeps p (record p { state = running })
Keeps-schedule p r = (ground arith, λ u. (ground arith, refl))

nextpid-wait :
    (stored : Bool) (t : Table) (cur : ℕ) (p : Proc) → (wait stored t cur p).1.nextpid ≡ t.nextpid
unfolding wait wait_for
nextpid-wait stored t cur p = go (scan_children cur t.procs 0 false)
  where
    go : (s : Scan) → (wait_for stored t cur p s).1.nextpid ≡ t.nextpid
    go (found i np) = ground arith
    go (children b) = ground arith

-- A step keeps the pids of the processes, or it is a fork.
pub Step-Keeps :
    {t t' : Table}
    → Step t t'
    → ((t'.nextpid ≡ t.nextpid) × Tracks Keeps t.procs t'.procs)
      ⊎ ((cur : ℕ) × (p : Proc) × (r : Option ℕ) × Forks t cur p r t')
unfolding yield sleep awake schedule
Step-Keeps {t} (forks tf pt copied cur p e r) =
    inr (cur, p, (fork tf pt copied t cur p).0, fork_child tf pt copied t cur p)
Step-Keeps {t} (exits cur p status e r x) =
    inl ((exit-procs t cur p status x).1, Tracks-exit t cur p status e r x)
Step-Keeps {t} (waits stored cur p e r) =
    inl (nextpid-wait stored t cur p, Tracks-wait stored t cur p e r)
Step-Keeps {t} (schedules i p e) = inl (elim (Bool-cases (is_runnable p.state)) [
  | inl run ↦ rw run (refl, Tracks-at t i p (record p { state = running }) e (Keeps-schedule p run))
  | inr stay ↦ rw stay (refl, Tracks-refl Keeps Keeps-refl t.procs)
])
Step-Keeps {t} (yields cur p e r) = inl (
  refl,
  Tracks-at t cur p (record p { state = runnable }) e (ground arith, λ u. (ground arith, refl)),
)
Step-Keeps {t} (sleeps cur p chan e r) = inl (
  refl,
  Tracks-at t cur p (record p { chan = chan; state = sleeping }) e
      (ground arith, λ u. (ground arith, refl)),
)
Step-Keeps {t} (awakes cur p e r) =
    inl (refl, Tracks-at t cur p (record p { chan = Chan.null }) e (Keeps-refl p))
Step-Keeps {t} (wakes chan) = inl (
  refl,
  Tracks-map Wakes Keeps Wakes-Keeps t.procs (wakeup chan t.procs) (Tracks-wakeup chan t.procs),
)
Step-Keeps {t} (kills pid) = inl (
  refl,
  Tracks-map Wakes Keeps Wakes-Keeps t.procs (kill pid t.procs).0 (Tracks-kill pid t.procs),
)

-- Every call changes the state of every process only along the arrows UNUSED to RUNNABLE to RUNNING,
-- RUNNING to RUNNABLE, SLEEPING or ZOMBIE, SLEEPING to RUNNABLE, and ZOMBIE to UNUSED, where the
-- calls of a process are made while it is RUNNING.
pub Step-LegalMove : {t t' : Table} → Step t t' → Tracks LegalMove t.procs t'.procs
Step-LegalMove {t} {t'} st = elim (Step-Keeps st) [
  | inl (n, k) ↦ legal-Tracks t.procs t'.procs k
  | inr (cur, p, r, f) ↦ LegalMove-Forks t cur p r t' f
]
