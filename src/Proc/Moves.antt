-- ===== src/Proc/Moves.antt =====
-- What each function does to every slot of the process table.
use computer_system.Prelude.{
  ℕ, zero, suc, ◌+◌, ◌≡◌, refl, ◌∙◌, sym, ap, ◌⊎◌, inl, inr, Bool, true, false, not, ◌&&◌, ◌||◌,
  Option, none, some, List, [], ◌∷◌, get_elem?, get_or, set, ◌==◌, Bool-cases, Option-cases, arith,
}
use mathlib.Core.Path.{subst}
use computer_system.Prelude.Int.{ℤ}
use computer_system.Proc.{
  ProcState, unused, sleeping, runnable, running, zombie, Chan, Proc, Table, is_unused, exit, wait,
  wakeup, kill, reparent, wakeup1, Scan, is_child, wakeup1_at, exit_others, wake_parent, of_proc,
  wait_for, close_files, scan_children, found, children, freeproc, is_zombie,
}
use computer_system.Proc.Tracks.{
  Tracks, Tracks-map, Tracks-get_forth, Tracks-refl, Tracks-trans, Tracks-set,
}

-- The changes of a process's state that the kernel makes.
abbrev pub legal : ProcState → ProcState → Bool
legal unused unused = true
legal unused runnable = true
legal sleeping sleeping = true
legal sleeping runnable = true
legal runnable runnable = true
legal runnable running = true
legal running running = true
legal running runnable = true
legal running sleeping = true
legal running zombie = true
legal zombie zombie = true
legal zombie unused = true
legal _ _ = false

-- A process at most wakes up.
abbrev pub Wakes : Proc → Proc → Type 0
Wakes p q = (q.pid ≡ p.pid) × ((q.state ≡ p.state) ⊎ ((p.state ≡ sleeping) × (q.state ≡ runnable)))

Wakes-refl : (p : Proc) → Wakes p p
Wakes-refl p = (refl, inl refl)

Wakes-trans : (p q s : Proc) → Wakes p q → Wakes q s → Wakes p s
Wakes-trans p q s h k = ground arith

pub Tracks-wakeup : (chan : Chan) (ps : List Proc) → Tracks Wakes ps (wakeup chan ps)
unfolding wakeup
Tracks-wakeup chan [] = tt
Tracks-wakeup chan (p ∷ ps) = (ground arith, Tracks-wakeup chan ps)

pub Tracks-reparent : (i cur : ℕ) (ps : List Proc) → Tracks Wakes ps (reparent i cur ps)
unfolding reparent
Tracks-reparent i cur [] = tt
Tracks-reparent i cur (p ∷ ps) = (ground arith, Tracks-reparent i cur ps)

pub Tracks-kill : (pid : ℕ) (ps : List Proc) → Tracks Wakes ps (kill pid ps).0
unfolding kill
Tracks-kill pid [] = tt
Tracks-kill pid (p ∷ ps) = elim (Bool-cases (p.pid == pid)) [
  | inl e ↦ rw e ((refl, ground arith), Tracks-refl Wakes Wakes-refl ps)
  | inr ne ↦ rw ne (Wakes-refl p, Tracks-kill pid ps)
]

Tracks-wakeup1_at : (i : ℕ) (ps : List Proc) → Tracks Wakes ps (wakeup1_at i ps)
unfolding wakeup1_at
Tracks-wakeup1_at i ps = elim (Option-cases (get_elem? ps i)) [
  | inl none_there ↦ rw (none_there, wakeup1_at) (Tracks-refl Wakes Wakes-refl ps)
  | inr (p, e) ↦
      rw (e, wakeup1_at) (Tracks-set Wakes Wakes-refl ps i p (wakeup1 i p) e (ground arith))
]

-- A slot keeps its process, with its pid, or is freed, by a legal change of state.
abbrev pub Keeps : Proc → Proc → Type 0
Keeps p q =
    (legal p.state q.state ≡ true)
    × (is_unused q.state ≡ false → (is_unused p.state ≡ false) × (q.pid ≡ p.pid))

legal_refl : (s : ProcState) → legal s s ≡ true
legal_refl unused = refl
legal_refl sleeping = refl
legal_refl runnable = refl
legal_refl running = refl
legal_refl zombie = refl

pub Keeps-refl : (p : Proc) → Keeps p p
Keeps-refl p = (legal_refl p.state, λ u. (u, refl))

pub Wakes-Keeps : (p q : Proc) → Wakes p q → Keeps p q
Wakes-Keeps p q h = (ground (arith, legal_refl p.state), λ u. (ground arith, h.0))

-- Slot i changes and no other.
pub Tracks-at :
    (t : Table) (i : ℕ) (p q : Proc)
    → get_elem? t.procs i ≡ some p
    → Keeps p q
    → Tracks Keeps t.procs (set t.procs i q)
Tracks-at t i p q = Tracks-set Keeps Keeps-refl t.procs i p q

pub scan_children_lem :
    (cur : ℕ) (ps : List Proc) (j : ℕ) (b : Bool) {i : ℕ} {p : Proc}
    → scan_children cur ps j b ≡ found i p
    → (k : ℕ) × (i ≡ j + k)
      × (get_elem? ps k ≡ some p)
      × (is_zombie p.state ≡ true)
      × (is_child cur p ≡ true)
unfolding scan_children
scan_children_lem cur [] j b e = cc
scan_children_lem cur (x ∷ ps) j b {i} {p} e =
    elim (Bool-cases (is_child cur x && is_zombie x.state)) [
      | inl z ↦ (0, ground arith, ground arith, ground arith, ground arith)
      | inr n ↦
          let (k, a, g, z, c) =
            scan_children_lem cur ps (j + 1) (is_child cur x || b) {i = i} {p = p} (ground arith) in
          (suc k, omega arith, g, z, c)
    ]

freed : (np : Proc) → is_zombie np.state ≡ true → Keeps np (freeproc np)
unfolding freeproc
freed np z = (ground arith, λ u. cc)

pub Tracks-wait :
    (stored : Bool) (t : Table) (cur : ℕ) (p : Proc)
    → get_elem? t.procs cur ≡ some p
    → p.state ≡ running
    → Tracks Keeps t.procs (wait stored t cur p).1.procs
unfolding wait wait_for
Tracks-wait stored t cur p e r = go (scan_children cur t.procs 0 false) refl
  where
    go :
        (s : Scan)
        → scan_children cur t.procs 0 false ≡ s
        → Tracks Keeps t.procs (wait_for stored t cur p s).1.procs
    go (found i np) e' =
        let (k, a, g, z, c) = scan_children_lem cur t.procs 0 false {i = i} {p = np} e' in
        elim (Bool-cases stored) [
          | inl ok ↦ rw ok (
              Tracks-at t i np (freeproc np)
                (subst (λ j. get_elem? t.procs j ≡ some np) (omega arith) g) (freed np z))
          | inr fault ↦ rw fault (Tracks-refl Keeps Keeps-refl t.procs)
        ]
    go (children b) e' = elim (Bool-cases (not b || p.killed)) [
      | inl back ↦ rw back (Tracks-refl Keeps Keeps-refl t.procs)
      | inr asleep ↦ rw asleep (
          Tracks-at t cur p (record p { chan = of_proc cur; state = sleeping }) e
            (ground arith, λ u. (ground arith, refl)))
    ]

get_or-some : (ps : List Proc) (i : ℕ) (p q : Proc) → get_elem? ps i ≡ some q → get_or ps i p ≡ q
get_or-some [] i p q e = cc
get_or-some (x ∷ ps) zero p q e = cc
get_or-some (x ∷ ps) (suc i) p q e = get_or-some ps i p q e

pub Tracks-wake_parent : (up : Option ℕ) (ps : List Proc) → Tracks Wakes ps (wake_parent up ps)
unfolding wake_parent
Tracks-wake_parent none ps = Tracks-refl Wakes Wakes-refl ps
Tracks-wake_parent (some up) ps = Tracks-wakeup1_at up ps

pub Tracks-exit_others :
    (t : Table) (cur : ℕ) (p : Proc)
    → get_elem? t.procs cur ≡ some p
    → Tracks Wakes t.procs (exit_others t cur p)
unfolding exit_others
Tracks-exit_others t cur p e =
    Tracks-trans Wakes Wakes-trans t.procs ps2 (wake_parent p.parent ps2) upto
      (Tracks-wake_parent p.parent ps2)
  where
    p1 : Proc
    p1 = record p { ofile = close_files p.ofile; cwd = none }

    ps1 : List Proc
    ps1 = wakeup1_at t.initproc (set t.procs cur p1)

    ps2 : List Proc
    ps2 = reparent t.initproc cur ps1

    upto : Tracks Wakes t.procs ps2
    upto =
        Tracks-trans Wakes Wakes-trans t.procs ps1 ps2
          (Tracks-trans Wakes Wakes-trans t.procs (set t.procs cur p1) ps1
            (Tracks-set Wakes Wakes-refl t.procs cur p p1 e (refl, inl refl))
            (Tracks-wakeup1_at t.initproc (set t.procs cur p1)))
          (Tracks-reparent t.initproc cur ps1)

Keeps-zombie :
    (p q d : Proc) → p.state ≡ running → Wakes p q → d.state ≡ zombie → d.pid ≡ q.pid → Keeps p d
Keeps-zombie p q d r w z n = (ground arith, λ u. (ground arith, n ∙ w.0))

-- A change of slot i after others.
pub Tracks-then_at :
    (ps qs : List Proc) (i : ℕ) (p q d : Proc)
    → Tracks Wakes ps qs
    → get_elem? ps i ≡ some p
    → Keeps p d
    → Tracks Keeps ps (set qs i d)
Tracks-then_at [] [] i p q d h e k = tt
Tracks-then_at [] (y ∷ qs) i p q d h e k = absurd h
Tracks-then_at (x ∷ ps) [] i p q d h e k = absurd h
Tracks-then_at (x ∷ ps) (y ∷ qs) zero p q d h e k =
    (subst (λ z. Keeps z d) {x = p} {y = x} (cc) k, Tracks-map Wakes Keeps Wakes-Keeps ps qs h.1)
Tracks-then_at (x ∷ ps) (y ∷ qs) (suc i) p q d h e k =
    (Wakes-Keeps x y h.0, Tracks-then_at ps qs i p q d h.1 e k)

pub exit-procs :
    (t : Table) (cur : ℕ) (p : Proc) (status : ℤ) {t' : Table}
    → exit t cur p status ≡ some t'
    → let ps = exit_others t cur p in
      (t'.procs ≡ set ps cur (record (get_or ps cur p) { xstate = status; state = zombie }))
      × (t'.nextpid ≡ t.nextpid)
unfolding exit
exit-procs t cur p status x = ground arith

pub Tracks-exit :
    (t : Table) (cur : ℕ) (p : Proc) (status : ℤ) {t' : Table}
    → get_elem? t.procs cur ≡ some p
    → p.state ≡ running
    → exit t cur p status ≡ some t'
    → Tracks Keeps t.procs t'.procs
Tracks-exit t cur p status {t'} e r x =
    let (q, g, w) = Tracks-get_forth Wakes t.procs ps cur p (Tracks-exit_others t cur p e) e in
    subst (Tracks Keeps t.procs) (sym (exit-procs t cur p status x).0) (
      Tracks-then_at t.procs ps cur p q dead (Tracks-exit_others t cur p e) e
        (Keeps-zombie p q dead r w refl (ap (λ z. z.pid) (get_or-some ps cur p q g))))
  where
    ps : List Proc
    ps = exit_others t cur p

    dead : Proc
    dead = record (get_or ps cur p) { xstate = status; state = zombie }
