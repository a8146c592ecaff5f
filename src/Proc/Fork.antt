-- ===== src/Proc/Fork.antt =====
-- fork: what the child is, and what a failed fork leaves.
use mathlib.Core.Option
use computer_system.Prelude.{
  ℕ, ◌+◌, ◌%◌, ◌^◌, ◌≡◌, refl, ◌⊎◌, inl, inr, Bool, true, false, Option, none, some, get_elem?, set,
  update, arith,
}
use mathlib.Core.Path.{subst}
use computer_system.Proc.{
  Proc, Table, Trapframe, a0, runnable, is_unused, find_unused, init_proc, fork_into, allocproc,
  freeproc, dup_files, fork,
}
use computer_system.Proc.Tracks.{set-set, find_unused_lem}

-- Slot i was free, and is the only one that changed.
pub record Takes (t t' : Table) (i : ℕ) (np child : Proc) : Type 0 where
  pub free : get_elem? t.procs i ≡ some np
  pub was_unused : is_unused np.state ≡ true
  pub only : t'.procs ≡ set t.procs i child
  pub counted : t'.nextpid ≡ (t.nextpid + 1) % 2 ^ 32
  pub same_init : t'.initproc ≡ t.initproc

-- The child of the process `p` in slot `cur`, made from the free slot `np`.
abbrev pub child_of : Table → ℕ → Proc → Proc → Proc
child_of t cur p np = record np {
  state = runnable;
  parent = some cur;
  pid = t.nextpid;
  sz = p.sz;
  trapframe = Option.map (λ regs. update regs a0 0) p.trapframe;
  pagetable = true;
  ofile = dup_files p.ofile np.ofile;
  cwd = p.cwd;
  name = p.name;
}

-- How a fork may end.
abbrev pub Forks : Table → ℕ → Proc → Option ℕ → Table → Type 0
Forks t cur p none t' =
    (t' ≡ t)
    ⊎ ((i : ℕ) × (np : Proc) × (left : Proc) × Takes t t' i np left
        × (is_unused left.state ≡ true)
        × (left.trapframe ≡ none)
        × ((left.pagetable ≡ false) ⊎ (left.pagetable ≡ np.pagetable)))
Forks t cur p (some pid) t' =
    (pid ≡ t.nextpid) × ((i : ℕ) × (np : Proc) × Takes t t' i np (child_of t cur p np))

module _ (t : Table) (cur : ℕ) (p : Proc) (i : ℕ) (np : Proc) where
  Forks-init_proc :
      (tf : Option Trapframe) (pt copied : Bool)
      → get_elem? t.procs i ≡ some np
      → is_unused np.state ≡ true
      → let (r, t1) = init_proc tf pt t (some (i, np)) in
        let (pid, t') = fork_into copied cur p r t1 in Forks t cur p pid t'
  unfolding init_proc fork_into
  Forks-init_proc none pt copied g u = inr (
    i,
    np,
    record np { pid = t.nextpid; trapframe = none },
    record { free = g; was_unused = u; only = refl; counted = refl; same_init = refl },
    u,
    refl,
    inr refl,
  )
  Forks-init_proc (some regs) false copied g u = inr (
    i,
    np,
    freeproc np,
    record { free = g; was_unused = u; only = refl; counted = refl; same_init = refl },
    refl,
    refl,
    inl refl,
  )
  Forks-init_proc (some regs) true false g u = inr (
    i,
    np,
    freeproc np,
    record {
      free = g;
      was_unused = u;
      only = set-set t.procs i _ (freeproc np);
      counted = refl;
      same_init = refl;
    },
    refl,
    refl,
    inl refl,
  )
  Forks-init_proc (some regs) true true g u = (
    refl,
    (
      i,
      np,
      record {
        free = g;
        was_unused = u;
        only = set-set t.procs i _ (child_of t cur p np);
        counted = refl;
        same_init = refl;
      },
    ),
  )

-- fork that succeeds returns the next unused pid and turns one free slot into a runnable child of
-- the caller with its memory size, files, directory, name and registers, but for a0, which is 0;
-- no other slot changes. A fork that fails changes nothing, or leaves one free slot free, with no
-- trapframe and no page table more than before, and no other slot changed.
pub fork_child :
    (tf : Option Trapframe) (pt copied : Bool) (t : Table) (cur : ℕ) (p : Proc)
    → let (r, t') = fork tf pt copied t cur p in Forks t cur p r t'
unfolding fork allocproc init_proc fork_into
fork_child tf pt copied t cur p = go (find_unused t.procs 0) refl
  where
    go :
        (o : Option (ℕ × Proc))
        → find_unused t.procs 0 ≡ o
        → let (r, t1) = init_proc tf pt t o in
          let (pid, t') = fork_into copied cur p r t1 in Forks t cur p pid t'
    go none e = inl refl
    go (some (i, np)) e =
        let (k, a, b, c) = find_unused_lem t.procs 0 i np e in
        Forks-init_proc t cur p i np tf pt copied
          (subst (λ j. get_elem? t.procs j ≡ some np) (omega arith) b) c
