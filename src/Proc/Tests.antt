-- ===== src/Proc/Tests.antt =====
-- Runs of kernel/proc.c's operations on a table of four slots, and the process theorems at them.
use computer_system.Prelude.{
  ℕ, ◌<◌, ◌≡◌, ◌≢◌, refl, ◌⊎◌, true, false, some, none, [], ◌∷◌, get_elem?, arith,
}
use computer_system.Prelude.Int.{pos}
use computer_system.Proc.{
  unused, sleeping, running, zombie, null, of_proc, Proc, Table, fork, exit, wait, kill, allocproc,
  allocpid, find_unused, init_proc, fork_into,
}
use computer_system.Proc.Tracks.{Tracks}
use computer_system.Proc.Steps.{forks, LegalMove, Step-LegalMove}
use computer_system.Proc.Pids.{Uses, PidsUnique, Step-PidsUnique}
use computer_system.Proc.Exit.{NoChild, Waits, exit_orphans, wait_reaps}

abbrev blank : Proc
blank = record {
  state = unused;
  parent = none;
  chan = null;
  killed = false;
  xstate = pos 0;
  pid = 0;
  sz = 0;
  trapframe = none;
  pagetable = false;
  ofile = none ∷ none ∷ [];
  cwd = none;
  name = [];
}

-- init sleeps, its child (pid 2) runs, and a child of that (pid 3) is a zombie.
abbrev init : Proc
init = record blank { state = sleeping; chan = of_proc 0; pid = 1; pagetable = true }

abbrev shell : Proc
shell = record blank {
  state = running;
  parent = some 0;
  pid = 2;
  sz = 4096;
  trapframe = some (λ i. i);
  pagetable = true;
  ofile = some 5 ∷ none ∷ [];
}

abbrev dead : Proc
dead = record blank { state = zombie; parent = some 1; xstate = pos 9; pid = 3; pagetable = true }

abbrev table : Table
table = record { procs = init ∷ shell ∷ dead ∷ blank ∷ []; nextpid = 4; initproc = 0 }

table-PidsUnique : PidsUnique table
table-PidsUnique = record { given = given_ids; unique = unique_ids }
  where
    given_ids : (i : ℕ) (p : Proc) → Uses table i p → p.pid < table.nextpid
    given_ids i p u = ground arith

    unique_ids : (i j : ℕ) (p q : Proc) → Uses table i p → Uses table j q → p.pid ≡ q.pid → i ≡ j
    unique_ids i j p q u w e = ground arith

Step-LegalMove_example :
    Tracks LegalMove table.procs (fork (some (λ i. 0)) true true table 1 shell).1.procs
Step-LegalMove_example =
    Step-LegalMove {t = table} (forks (some (λ i. 0)) true true 1 shell refl refl)

Step-PidsUnique_example : PidsUnique (fork (some (λ i. 0)) true true table 1 shell).1
Step-PidsUnique_example =
    Step-PidsUnique table-PidsUnique (omega arith)
      (forks (some (λ i. 0)) true true 1 shell refl refl)

exit_orphans_example :
    ((1 ≡ table.initproc) × (exit table 1 shell (pos 5) ≡ none))
    ⊎ ((1 ≢ table.initproc)
        × (t' : Table) × (q : Proc) × (exit table 1 shell (pos 5) ≡ some t')
        × (get_elem? t'.procs 1 ≡ some q)
        × (q.state ≡ zombie)
        × (q.xstate ≡ pos 5)
        × NoChild 1 t'.procs)
exit_orphans_example = exit_orphans table 1 shell (pos 5) refl refl

wait_reaps_example : let (r, t') = wait true table 1 shell in Waits true table 1 shell r t'
wait_reaps_example = wait_reaps true table 1 shell

fork_returns_4 : (fork (some (λ i. 0)) true true table 1 shell).0 ≡ some 4
unfolding fork allocproc find_unused init_proc allocpid fork_into
fork_returns_4 = refl

-- No process has pid 0, yet the pass over the table finds the free slots by it.
kill_finds_free_slot : (kill 0 table.procs).1 ≡ true
unfolding kill
kill_finds_free_slot = refl
