-- ===== src/Proc/Wake.antt =====
-- wakeup, kill and the scan of wait: which processes they touch.
use mathlib.Core.Option
use computer_system.Prelude.{
  ℕ, zero, suc, ◌≡◌, ◌≢◌, refl, ap, inl, inr, Bool, true, false, ◌&&◌, some, List, [], ◌∷◌, All,
  get_elem?, set, ◌==◌, ==_iff, if◌then◌else◌, Bool-cases, arith,
}
use computer_system.Proc.{runnable, is_sleeping, same_chan, Chan, Proc, wakeup, kill}

-- wakeup makes exactly the processes that sleep on the channel runnable, in every slot, and changes
-- nothing else of any process.
pub get_elem?-wakeup :
    (chan : Chan) (ps : List Proc) (i : ℕ)
    → get_elem? (wakeup chan ps) i
      ≡ Option.map
          (λ p.
            if is_sleeping p.state && same_chan p.chan chan
            then record p { state = runnable }
            else p)
          (get_elem? ps i)
unfolding wakeup
get_elem?-wakeup chan [] i = refl
get_elem?-wakeup chan (p ∷ ps) zero = refl
get_elem?-wakeup chan (p ∷ ps) (suc i) = get_elem?-wakeup chan ps i

-- No process in the list has the pid.
abbrev pub NoPid : ℕ → List Proc → Type 0
NoPid pid = All (λ p. p.pid ≢ pid)

-- How kill may end: at the first process with the pid, which is marked and, if it sleeps, made
-- runnable, or with the table as it was.
abbrev pub Kills : ℕ → List Proc → List Proc → Bool → Type 0
Kills pid ps ps' false = (ps' ≡ ps) × NoPid pid ps
Kills pid ps ps' true =
    (i : ℕ) × (p : Proc) × (get_elem? ps i ≡ some p)
    × (p.pid ≡ pid)
    × (ps'
        ≡ set ps i
            (record p { killed = true; state = if is_sleeping p.state then runnable else p.state }))

Kills-cons :
    (pid : ℕ) (p : Proc) (ps ps' : List Proc) (done : Bool)
    → p.pid ≢ pid
    → Kills pid ps ps' done
    → Kills pid (p ∷ ps) (p ∷ ps') done
Kills-cons pid p ps ps' false ne (e, absent) = (ap (λ l. p ∷ l) e, (ne, absent))
Kills-cons pid p ps ps' true ne (i, q, g, e, s) = (suc i, q, g, e, ap (λ l. p ∷ l) s)

-- kill returns 0 exactly when some process has the pid; it then marks one such process as killed,
-- wakes it if it sleeps, and changes no other; else it changes nothing.
pub kill_one : (pid : ℕ) (ps : List Proc) → let (ps', done) = kill pid ps in Kills pid ps ps' done
unfolding kill
kill_one pid [] = (refl, tt)
kill_one pid (p ∷ ps) = elim (Bool-cases (p.pid == pid)) [
  | inl e ↦ rw e (0, p, refl, (==_iff p.pid pid).0 e, refl)
  | inr ne ↦
      rw ne (Kills-cons pid p ps (kill pid ps).0 (kill pid ps).1 (ground arith) (kill_one pid ps))
]
