-- ===== src/Proc/Exit.antt =====
-- exit and wait: what becomes of a process, of its children and of its exit status.
use mathlib.Core.Path.{subst}
use computer_system.Prelude.{
  ℕ, zero, suc, ◌+◌, ◌≡◌, ◌≢◌, refl, ◌⊎◌, inl, inr, Bool, true, false, not, ◌&&◌, ◌||◌, Option,
  none, some, List, [], ◌∷◌, All, get_elem?, get_or, set, get_elem?-set_at, ◌==◌, Bool-cases,
  Option-cases, arith,
}
use computer_system.Prelude.Int.{ℤ}
use computer_system.Proc.{
  zombie, sleeping, is_zombie, is_child, of_proc, Proc, Table, with_proc, exit, exit_others,
  reparent, wakeup1, wakeup1_at, wake_parent, wait, wait_for, Scan, found, children, scan_children,
  Waited, child, failed, waits, freeproc,
}
use computer_system.Proc.Moves.{scan_children_lem, Wakes, Tracks-exit_others}
use computer_system.Proc.Tracks.{Tracks-get_forth}

-- No process in the list is a child of slot i.
abbrev pub NoChild : ℕ → List Proc → Type 0
NoChild i = All (λ p. is_child i p ≡ false)

NoChild-reparent :
    (init cur : ℕ) (ps : List Proc) → (init == cur) ≡ false → NoChild cur (reparent init cur ps)
unfolding reparent
NoChild-reparent init cur [] h = tt
NoChild-reparent init cur (p ∷ ps) h = (ground arith, NoChild-reparent init cur ps h)

All-set :
    (P : Proc → Type 0) (ps : List Proc) (i : ℕ) (q : Proc) → P q → All P ps → All P (set ps i q)
All-set P [] i q h k = tt
All-set P (x ∷ ps) zero q h k = (h, k.1)
All-set P (x ∷ ps) (suc i) q h k = (k.0, All-set P ps i q h k.1)

All-get :
    (P : Proc → Type 0) (ps : List Proc) (i : ℕ) (q : Proc)
    → get_elem? ps i ≡ some q
    → All P ps
    → P q
All-get P [] i q e h = cc
All-get P (x ∷ ps) zero q e h = subst P {x = x} {y = q} (cc) h.0
All-get P (x ∷ ps) (suc i) q e h = All-get P ps i q e h.1

All-get_or :
    (P : Proc → Type 0) (ps : List Proc) (i : ℕ) (d : Proc) → P d → All P ps → P (get_or ps i d)
All-get_or P [] i d h k = h
All-get_or P (x ∷ ps) zero d h k = k.0
All-get_or P (x ∷ ps) (suc i) d h k = All-get_or P ps i d h k.1

NoChild-wakeup1_at : (cur i : ℕ) (ps : List Proc) → NoChild cur ps → NoChild cur (wakeup1_at i ps)
unfolding wakeup1_at
NoChild-wakeup1_at cur i ps h = elim (Option-cases (get_elem? ps i)) [
  | inl e ↦ rw (e, wakeup1_at) h
  | inr (p, e) ↦
      rw (e, wakeup1_at)
        (All-set (λ q. is_child cur q ≡ false) ps i (wakeup1 i p)
          (ground (arith, All-get (λ q. is_child cur q ≡ false) ps i p e h)) h)
]

NoChild-wake_parent :
    (cur : ℕ) (up : Option ℕ) (ps : List Proc) → NoChild cur ps → NoChild cur (wake_parent up ps)
unfolding wake_parent
NoChild-wake_parent cur none ps h = h
NoChild-wake_parent cur (some up) ps h = NoChild-wakeup1_at cur up ps h

NoChild-exit_others :
    (t : Table) (cur : ℕ) (p : Proc)
    → (cur == t.initproc) ≡ false
    → NoChild cur (exit_others t cur p)
unfolding exit_others
NoChild-exit_others t cur p h =
    NoChild-wake_parent cur p.parent _ (NoChild-reparent t.initproc cur _ (ground arith))

-- exit panics exactly for the first process, init. Any other process becomes a zombie with its exit
-- status, and no process is its child any more; the process stands in its slot and is not its own
-- parent.
pub exit_orphans :
    (t : Table) (cur : ℕ) (p : Proc) (status : ℤ)
    → get_elem? t.procs cur ≡ some p
    → is_child cur p ≡ false
    → ((cur ≡ t.initproc) × (exit t cur p status ≡ none))
      ⊎ ((cur ≢ t.initproc)
          × (t' : Table) × (q : Proc) × (exit t cur p status ≡ some t')
          × (get_elem? t'.procs cur ≡ some q)
          × (q.state ≡ zombie)
          × (q.xstate ≡ status)
          × NoChild cur t'.procs)
unfolding exit
exit_orphans t cur p status e own = elim (Bool-cases (cur == t.initproc)) [
  | inl init ↦ inl (ground arith, ground arith)
  | inr other ↦
      let ps = exit_others t cur p in
      let dead = record (get_or ps cur p) { xstate = status; state = zombie } in
      let (x, g) = there in
      inr (
        ground arith,
        record t { procs = set ps cur dead },
        dead,
        ground arith,
        get_elem?-set_at ps cur dead x g,
        refl,
        refl,
        All-set (λ q. is_child cur q ≡ false) ps cur dead
            (All-get_or (λ q. is_child cur q ≡ false) ps cur p own
              (NoChild-exit_others t cur p other))
            (NoChild-exit_others t cur p other),
      )
]
  where
    there : (x : Proc) × (get_elem? (exit_others t cur p) cur ≡ some x)
    there =
        let (q, g, w) =
          Tracks-get_forth Wakes t.procs (exit_others t cur p) cur p (Tracks-exit_others t cur p e)
            e in
        (q, g)

-- What one pass of wait by the process p in slot `cur` may do.
abbrev pub Waits : Bool → Table → ℕ → Proc → Waited → Table → Type 0
Waits stored t cur p (child pid status) t' =
    (i : ℕ) × (np : Proc) × (get_elem? t.procs i ≡ some np)
    × (is_child cur np ≡ true)
    × (np.state ≡ zombie)
    × (pid ≡ np.pid)
    × (status ≡ np.xstate)
    × (t' ≡ with_proc t i (freeproc np))
Waits stored t cur p failed t' =
    (t' ≡ t) × ((stored ≡ false) ⊎ (NoChild cur t.procs ⊎ (p.killed ≡ true)))
Waits stored t cur p waits t' =
    (t' ≡ with_proc t cur (record p { chan = of_proc cur; state = sleeping }))
    × (p.killed ≡ false)
    × All (λ q. (is_child cur q && is_zombie q.state) ≡ false) t.procs

scan_children_none :
    (cur : ℕ) (ps : List Proc) (j : ℕ) (b havekids : Bool)
    → scan_children cur ps j b ≡ children havekids
    → All (λ q. (is_child cur q && is_zombie q.state) ≡ false) ps
      × (havekids ≡ false → (b ≡ false) × NoChild cur ps)
unfolding scan_children
scan_children_none cur [] j b havekids e = (tt, λ n. (ground arith, tt))
scan_children_none cur (x ∷ ps) j b havekids e =
    elim (Bool-cases (is_child cur x && is_zombie x.state)) [
      | inl z ↦ absurd (ground arith)
      | inr n ↦
          let (l, r) =
            scan_children_none cur ps (j + 1) (is_child cur x || b) havekids (ground arith) in
          ((n, l), λ h. (ground (arith, (r h).0), (ground (arith, (r h).0), (r h).1)))
    ]

-- A pass of wait returns a pid and an exit status only of a zombie child, whose slot it frees,
-- changing no other; it fails, changing nothing, only if the status cannot be stored, there is no
-- child or the caller is killed; and it sleeps on the caller itself only if no child is a
-- zombie and the caller is not killed.
pub wait_reaps :
    (stored : Bool) (t : Table) (cur : ℕ) (p : Proc)
    → let (r, t') = wait stored t cur p in Waits stored t cur p r t'
unfolding wait wait_for
wait_reaps stored t cur p = go (scan_children cur t.procs 0 false) refl
  where
    go :
        (s : Scan)
        → scan_children cur t.procs 0 false ≡ s
        → let (r, t') = wait_for stored t cur p s in Waits stored t cur p r t'
    go (found i np) e =
        let (k, a, g, z, c) = scan_children_lem cur t.procs 0 false {i = i} {p = np} e in
        elim (Bool-cases stored) [
          | inl ok ↦ rw ok (
            i,
            np,
            subst (λ j. get_elem? t.procs j ≡ some np) (omega arith) g,
            c,
            ground arith,
            refl,
            refl,
            refl,
          )
          | inr fault ↦ rw fault (refl, inl refl)
        ]
    go (children b) e =
        let (l, r) = scan_children_none cur t.procs 0 false b e in
        elim (Bool-cases (not b || p.killed)) [
          | inl back ↦ rw back (
            refl,
            elim (Bool-cases b) [
              | inl kids ↦ inr (inr (ground arith))
              | inr no_kids ↦ inr (inl (r no_kids).1)
            ],
          )
          | inr asleep ↦ rw asleep (refl, ground arith, l)
        ]
