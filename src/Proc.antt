-- ===== src/Proc.antt =====
-- kernel/proc.c: the process table and what moves a process from one state to another. Each
-- function runs whole, as under the locks that it takes; where a call sleeps it ends here, and its
-- next pass is a call of its own. What the callees in other files return is an argument.
pub mod Tracks
pub mod Fork
pub mod Moves
pub mod Steps
pub mod Pids
pub mod Wake
pub mod Exit
mod Tests
use computer_system.Prelude.{
  ℕ, zero, suc, ◌+◌, ◌%◌, ◌^◌, Bool, true, false, not, ◌&&◌, ◌||◌, Option, none, some, List, [],
  ◌∷◌, map, length, get_elem?, get_or, set, update, ◌==◌, if◌then◌else◌,
}
use mathlib.Core.Option
use computer_system.Prelude.Int.{ℤ, pos, negsuc}

pub data ProcState : Type 0 where
  unused sleeping runnable running zombie : ProcState

-- A sleep channel: an address in the kernel; that of a struct proc is written by its index.
pub data Chan : Type 0 where
  null : Chan
  of_proc : ℕ → Chan
  address : ℕ → Chan

-- struct trapframe by 64-bit words, in the order of its fields.
abbrev pub Trapframe : Type 0
Trapframe = ℕ → ℕ

-- p->trapframe->a0
abbrev pub a0 : ℕ
a0 = 14

-- struct proc. `pagetable` tells whether there is one; `ofile` and `cwd` name files and inodes by
-- their slots; `pid` is an int by its 32 bits.
pub record Proc : Type 0 where
  pub state : ProcState
  pub parent : Option ℕ
  pub chan : Chan
  pub killed : Bool
  pub xstate : ℤ
  pub pid : ℕ
  pub sz : ℕ
  pub trapframe : Option Trapframe
  pub pagetable : Bool
  pub ofile : List (Option ℕ)
  pub cwd : Option ℕ
  pub name : List ℕ

-- The table, with nextpid, an int by its 32 bits.
pub record Table : Type 0 where
  pub procs : List Proc
  pub nextpid : ℕ
  pub initproc : ℕ

abbrev pub is_unused : ProcState → Bool
is_unused unused = true
is_unused _ = false

abbrev pub is_sleeping : ProcState → Bool
is_sleeping sleeping = true
is_sleeping _ = false

abbrev pub is_runnable : ProcState → Bool
is_runnable runnable = true
is_runnable _ = false

abbrev pub is_zombie : ProcState → Bool
is_zombie zombie = true
is_zombie _ = false

abbrev pub same_chan : Chan → Chan → Bool
same_chan null null = true
same_chan (of_proc i) (of_proc j) = i == j
same_chan (address a) (address b) = a == b
same_chan _ _ = false

-- pp->parent == p
abbrev pub is_child : ℕ → Proc → Bool
is_child i p = elim (p.parent) [ none ↦ false | some j ↦ j == i ]

-- The assignment proc[i] = p.
abbrev pub with_proc : Table → ℕ → Proc → Table
with_proc t i p = record t { procs = set t.procs i p }

unfoldable pub allocpid : Table → ℕ × Table
allocpid t = (t.nextpid, record t { nextpid = (t.nextpid + 1) % 2 ^ 32 })

unfoldable pub freeproc : Proc → Proc
freeproc p = record p {
  trapframe = none;
  pagetable = false;
  sz = 0;
  pid = 0;
  parent = none;
  name = [];
  chan = null;
  killed = false;
  xstate = pos 0;
  state = unused;
}

-- The scan of allocproc.
unfoldable pub find_unused : List Proc → ℕ → Option (ℕ × Proc)
find_unused [] i = none
find_unused (p ∷ ps) i = if is_unused p.state then some (i, p) else find_unused ps (i + 1)

-- allocproc from `found:` on. `tf` is what fills the page that kalloc found for the trapframe, and
-- `pt` tells whether proc_pagetable made a page table.
unfoldable pub init_proc :
    Option Trapframe → Bool → Table → Option (ℕ × Proc) → Option (ℕ × Proc) × Table
unfolding allocpid freeproc
init_proc tf pt t none = (none, t)
init_proc none pt t (some (i, p)) =
    let (pid, t1) = allocpid t in (none, with_proc t1 i (record p { pid = pid; trapframe = none }))
init_proc (some regs) false t (some (i, p)) =
    let (pid, t1) = allocpid t in
    (
      none,
      with_proc t1 i (freeproc (record p { pid = pid; trapframe = some regs; pagetable = false })),
    )
init_proc (some regs) true t (some (i, p)) =
    let (pid, t1) = allocpid t in
    let p1 = record p { pid = pid; trapframe = some regs; pagetable = true } in
    (some (i, p1), with_proc t1 i p1)

-- The slot and the process that allocproc returns.
unfoldable pub allocproc : Option Trapframe → Bool → Table → Option (ℕ × Proc) × Table
allocproc tf pt t = init_proc tf pt t (find_unused t.procs 0)

-- The loop of fork over the open files: a slot that is empty in the parent is left alone.
unfoldable pub dup_files : List (Option ℕ) → List (Option ℕ) → List (Option ℕ)
dup_files [] new = new
dup_files (f ∷ fs) [] = []
dup_files (f ∷ fs) (x ∷ new) = elim f [ none ↦ x | some g ↦ some g ] ∷ dup_files fs new

-- fork by the process `p` in slot `cur`; `copied` is whether uvmcopy succeeds. The result is the
-- child's pid, or none for -1.
unfoldable pub fork_into : Bool → ℕ → Proc → Option (ℕ × Proc) → Table → Option ℕ × Table
unfolding freeproc dup_files
fork_into copied cur p none t1 = (none, t1)
fork_into false cur p (some (i, np)) t1 = (none, with_proc t1 i (freeproc np))
fork_into true cur p (some (i, np)) t1 = (
  some np.pid,
  with_proc t1 i (record np {
    sz = p.sz;
    parent = some cur;
    trapframe = Option.map (λ regs. update regs a0 0) p.trapframe;
    ofile = dup_files p.ofile np.ofile;
    cwd = p.cwd;
    name = p.name;
    state = runnable;
  }),
)

unfoldable pub fork : Option Trapframe → Bool → Bool → Table → ℕ → Proc → Option ℕ × Table
fork tf pt copied t cur p = let (r, t1) = allocproc tf pt t in fork_into copied cur p r t1

unfoldable pub reparent : ℕ → ℕ → List Proc → List Proc
reparent initproc cur [] = []
reparent initproc cur (pp ∷ ps) =
    (if is_child cur pp then record pp { parent = some initproc } else pp)
    ∷ reparent initproc cur ps

-- wakeup1 of the process in slot i.
unfoldable pub wakeup1 : ℕ → Proc → Proc
wakeup1 i p =
    if same_chan p.chan (of_proc i) && is_sleeping p.state then record p { state = runnable } else p

unfoldable pub wakeup1_at : ℕ → List Proc → List Proc
unfolding wakeup1
wakeup1_at i ps = elim (get_elem? ps i) [ none ↦ ps | some p ↦ set ps i (wakeup1 i p) ]

unfoldable pub close_files : List (Option ℕ) → List (Option ℕ)
close_files [] = []
close_files (f ∷ fs) = none ∷ close_files fs

-- wakeup1 of the parent, if there is one.
unfoldable pub wake_parent : Option ℕ → List Proc → List Proc
wake_parent none ps = ps
wake_parent (some up) ps = wakeup1_at up ps

-- What exit does before it becomes a zombie: files and directory given up, init woken, the children
-- passed to init, the parent woken.
unfoldable pub exit_others : Table → ℕ → Proc → List Proc
exit_others t cur p =
    let p1 = record p { ofile = close_files p.ofile; cwd = none } in
    let ps1 = wakeup1_at t.initproc (set t.procs cur p1) in
    let ps2 = reparent t.initproc cur ps1 in wake_parent p.parent ps2

-- exit up to its call of sched; none is panic("init exiting").
unfoldable pub exit : Table → ℕ → Proc → ℤ → Option Table
exit t cur p status =
    let ps = exit_others t cur p in
    let dead = record (get_or ps cur p) { xstate = status; state = zombie } in
    if cur == t.initproc then none else some (record t { procs = set ps cur dead })

-- The scan of wait: a zombie child, or whether there are children at all.
pub data Scan : Type 0 where
  found : ℕ → Proc → Scan
  children : Bool → Scan

unfoldable pub scan_children : ℕ → List Proc → ℕ → Bool → Scan
scan_children cur [] i havekids = children havekids
scan_children cur (np ∷ ps) i havekids =
    let rest = scan_children cur ps (i + 1) (is_child cur np || havekids) in
    if is_child cur np && is_zombie np.state then found i np else rest

-- One pass of wait: a child's pid and exit status, -1, or asleep on the process itself.
pub data Waited : Type 0 where
  child : ℕ → ℤ → Waited
  failed : Waited
  waits : Waited

-- `stored` is whether the status has no address to go to, or copyout succeeds.
unfoldable pub wait_for : Bool → Table → ℕ → Proc → Scan → Waited × Table
unfolding freeproc
wait_for stored t cur p (found i np) =
    if stored then (child np.pid np.xstate, with_proc t i (freeproc np)) else (failed, t)
wait_for stored t cur p (children havekids) =
    if not havekids || p.killed
    then (failed, t)
    else (waits, with_proc t cur (record p { chan = of_proc cur; state = sleeping }))

unfoldable pub wait : Bool → Table → ℕ → Proc → Waited × Table
wait stored t cur p = wait_for stored t cur p (scan_children cur t.procs 0 false)

-- The scheduler's choice of the process in slot i.
unfoldable pub schedule : Table → ℕ → Proc → Table
schedule t i p = if is_runnable p.state then with_proc t i (record p { state = running }) else t

unfoldable pub yield : Table → ℕ → Proc → Table
yield t cur p = with_proc t cur (record p { state = runnable })

-- sleep up to its call of sched, and what it does when the scheduler comes back.
unfoldable pub sleep : Table → ℕ → Proc → Chan → Table
sleep t cur p chan = with_proc t cur (record p { chan = chan; state = sleeping })

unfoldable pub awake : Table → ℕ → Proc → Table
awake t cur p = with_proc t cur (record p { chan = null })

unfoldable pub wakeup : Chan → List Proc → List Proc
wakeup chan [] = []
wakeup chan (p ∷ ps) =
    (if is_sleeping p.state && same_chan p.chan chan then record p { state = runnable } else p)
    ∷ wakeup chan ps

-- The table, and whether the pid was found; not so is -1.
unfoldable pub kill : ℕ → List Proc → List Proc × Bool
kill pid [] = ([], false)
kill pid (p ∷ ps) =
    let (rest, done) = kill pid ps in
    if p.pid == pid
    then (
      record p { killed = true; state = if is_sleeping p.state then runnable else p.state } ∷ ps,
      true,
    )
    else (p ∷ rest, done)
