-- ===== src/Sleeplock/Waiting.antt =====
-- The lock under every interleaving of the processes: who is inside, and who waits.
use computer_system.Prelude.{
  ℕ, ◌≡◌, ◌≢◌, refl, ◌∙◌, sym, ap, ◌⊎◌, inl, inr, Bool, true, false, update_self, update_ne, ◌↔◌,
  Bool-cases, arith,
}
use computer_system.Sleeplock.{
  initsleeplock, Place, outside, asks, asleep, inside, Sleepers, to_place, acquiresleep, awakened,
  releasesleep, holdingsleep,
}

abbrev pub all_outside : (ℕ → ℕ) → Sleepers
all_outside pid_of = record { lock = initsleeplock; stage = λ i. outside; pid_of = pid_of }

-- A process comes to the lock, runs in acquiresleep, or leaves; kill makes a sleeping one run.
pub data Step (s : Sleepers) : Sleepers → Type 0 where
  comes : (i : ℕ) → s.stage i ≡ outside → Step s (to_place s i asks)
  runs : (i : ℕ) → s.stage i ≡ asks → Step s (acquiresleep s i)
  leaves : (i : ℕ) → s.stage i ≡ inside → Step s (releasesleep s i)
  killed : (i : ℕ) → s.stage i ≡ asleep → Step s (to_place s i asks)

pub data Reached : Sleepers → Type 0 where
  at_start : (pid_of : ℕ → ℕ) → Reached (all_outside pid_of)
  then_step : {s s' : Sleepers} → Reached s → Step s s' → Reached s'

abbrev is_inside : Place → Bool
is_inside inside = true
is_inside _ = false

abbrev is_asleep : Place → Bool
is_asleep asleep = true
is_asleep _ = false

awakened_inside : (st : Place) → is_inside (awakened st) ≡ is_inside st
awakened_inside outside = refl
awakened_inside asks = refl
awakened_inside asleep = refl
awakened_inside inside = refl

awakened_asleep : (st : Place) → is_asleep (awakened st) ≡ false
awakened_asleep outside = refl
awakened_asleep asks = refl
awakened_asleep asleep = refl
awakened_asleep inside = refl

record IsSafe (s : Sleepers) : Type 0 where
  alone : (i j : ℕ) → is_inside (s.stage i) ≡ true → is_inside (s.stage j) ≡ true → i ≡ j
  taken : (i : ℕ) → is_inside (s.stage i) ≡ true → (s.lock).locked ≡ true
  named : (i : ℕ) → is_inside (s.stage i) ≡ true → (s.lock).pid ≡ s.pid_of i
  held : (s.lock).locked ≡ true → (i : ℕ) × (is_inside (s.stage i) ≡ true)
  awake : (s.lock).locked ≡ false → (i : ℕ) → is_asleep (s.stage i) ≡ false

-- A move between the stages that are neither inside nor asleep.
moves-IsSafe :
    (s : Sleepers) (i : ℕ) → IsSafe s → is_inside (s.stage i) ≡ false → IsSafe (to_place s i asks)
moves-IsSafe s i v e = record {
  alone = λ a b p q. ground (arith, v.alone a b);
  taken = λ a p. ground (arith, v.taken a);
  named = λ a p. ground (arith, v.named a);
  held = λ h. let (j, p) = v.held h in (j, ground (arith, p));
  awake = λ h a. ground (arith, v.awake h a);
}

acquiresleep-IsSafe :
    (s : Sleepers) (i : ℕ) → IsSafe s → is_inside (s.stage i) ≡ false → IsSafe (acquiresleep s i)
unfolding acquiresleep
acquiresleep-IsSafe s i v e = elim (Bool-cases (s.lock).locked) [
  | inl taken ↦ rw taken (record {
    alone = λ a b p q. ground (arith, v.alone a b);
    taken = λ a p. refl;
    named = λ a p. ground (arith, v.named a);
    held = λ h. let (j, p) = v.held taken in (j, ground (arith, p));
    awake = λ h a. ground (arith, h);
  })
  | inr free ↦ rw free (record {
    alone = λ a b p q. ground (arith, v.taken a, v.taken b);
    taken = λ a p. refl;
    named = λ a p. ground (arith, v.taken a);
    held = λ h. (i, ground arith);
    awake = λ h a. ground (arith, h);
  })
]

releasesleep-IsSafe :
    (s : Sleepers) (i : ℕ) → IsSafe s → is_inside (s.stage i) ≡ true → IsSafe (releasesleep s i)
unfolding releasesleep
releasesleep-IsSafe s i v e = record {
  alone = λ a b p q.
      ground (arith, v.alone a b, awakened_inside (s.stage a), awakened_inside (s.stage b));
  taken = λ a p. ground (arith, v.alone a i, awakened_inside (s.stage a));
  named = λ a p. ground (arith, v.alone a i, awakened_inside (s.stage a));
  held = λ h. ground (arith, h);
  awake = λ h a. ground (arith, awakened_asleep (s.stage a));
}

Step-IsSafe : {s s' : Sleepers} → IsSafe s → Step s s' → IsSafe s'
Step-IsSafe {s} v (comes i e) = moves-IsSafe s i v (ap is_inside e)
Step-IsSafe {s} v (runs i e) = acquiresleep-IsSafe s i v (ap is_inside e)
Step-IsSafe {s} v (leaves i e) = releasesleep-IsSafe s i v (ap is_inside e)
Step-IsSafe {s} v (killed i e) = moves-IsSafe s i v (ap is_inside e)

Reached-IsSafe : {s : Sleepers} → Reached s → IsSafe s
unfolding initsleeplock
Reached-IsSafe (at_start pid_of) = record {
  alone = λ i j p q. ground (arith, p);
  taken = λ i p. ground (arith, p);
  named = λ i p. ground (arith, p);
  held = λ h. ground (arith, h);
  awake = λ h i. refl;
}
Reached-IsSafe (then_step r st) = Step-IsSafe (Reached-IsSafe r) st

inside_of : (st : Place) → is_inside st ≡ true → st ≡ inside
inside_of outside e = ground (arith, e)
inside_of asks e = ground (arith, e)
inside_of asleep e = ground (arith, e)
inside_of inside e = refl

-- In every state reached from initsleeplock, with processes of different pids: at most one process is behind
-- acquiresleep, and holdingsleep is true for it and false for every other.
pub sleeplock_excludes :
    {s : Sleepers}
    → ((i j : ℕ) → s.pid_of i ≡ s.pid_of j → i ≡ j)
    → Reached s
    → ((i j : ℕ) → s.stage i ≡ inside → s.stage j ≡ inside → i ≡ j)
      × ((i : ℕ) → (holdingsleep s i ≡ true) ↔ (s.stage i ≡ inside))
unfolding holdingsleep
sleeplock_excludes {s} apart r =
    let v = Reached-IsSafe r in
    (
      λ i j p q. v.alone i j (ap is_inside p) (ap is_inside q),
      λ i. (
        λ h.
            let taken : (s.lock).locked ≡ true = ground (arith, h) in
            let mine : (s.lock).pid ≡ s.pid_of i = ground (arith, h) in
            let (j, p) = v.held taken in
            let eq : j ≡ i = apart j i (sym (v.named j p) ∙ mine) in
            ap s.stage (sym eq) ∙ inside_of (s.stage j) p,
        λ e.
            let taken = v.taken i (ap is_inside e) in
            let mine = v.named i (ap is_inside e) in ground (arith, taken, mine),
      ),
    )

-- A process that wants the lock, in acquiresleep.
abbrev pub waits : Place → Bool
waits asks = true
waits asleep = true
waits _ = false

-- It can go on, and has the lock after its next turn.
abbrev pub GetsIn : Sleepers → ℕ → Type 0
GetsIn s i = (s.stage i ≡ asks) × ((acquiresleep s i).stage i ≡ inside)

free-GetsIn : (s : Sleepers) (i : ℕ) → (s.lock).locked ≡ false → s.stage i ≡ asks → GetsIn s i
unfolding acquiresleep
free-GetsIn s i free e = (e, rw free (update_self s.stage i inside))

waits-cases :
    (st : Place) → waits st ≡ true → (awakened st ≡ asks) × (is_asleep st ≡ false → st ≡ asks)
waits-cases outside h = ground (arith, h)
waits-cases asks h = (refl, λ n. refl)
waits-cases asleep h = (refl, λ n. ground (arith, n))
waits-cases inside h = ground (arith, h)

-- No process waits for ever for a wake-up: in every state reached, one in acquiresleep can take the lock
-- with its next turn, if the lock is free; else a process is inside, and one that waits can take the lock
-- with its next turn after that process's releasesleep.
pub waiting-GetsIn :
    {s : Sleepers} (i : ℕ)
    → Reached s
    → waits (s.stage i) ≡ true
    → (((s.lock).locked ≡ false) × GetsIn s i)
      ⊎ ((j : ℕ) × (s.stage j ≡ inside) × GetsIn (releasesleep s j) i)
unfolding releasesleep
waiting-GetsIn {s} i r w =
    let v = Reached-IsSafe r in
    let (woken, running) = waits-cases (s.stage i) w in
    elim (Bool-cases (s.lock).locked) [
      | inr free ↦ inl (free, free-GetsIn s i free (running (v.awake free i)))
      | inl taken ↦
          let (j, p) = v.held taken in
          let at : s.stage j ≡ inside = inside_of (s.stage j) p in
          let other : i ≢ j = λ e. ground (arith, w, ap s.stage e, at) in
          inr (
            j,
            at,
            free-GetsIn (releasesleep s j) i refl
                (update_ne (λ k. awakened (s.stage k)) j outside i (λ e. other (sym e)) ∙ woken),
          )
    ]
