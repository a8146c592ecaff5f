-- ===== src/Log/Reserve.antt =====
-- Log space: what begin_op reserves, against what log_write and end_op panic on.
use computer_system.Prelude.{
  refl, ◌⊎◌, leb, ltb, ℕ, suc, ◌+◌, ◌-◌, ◌*◌, ◌≤◌, ◌<◌, ◌≡◌, ap, Bool, true, false, inl, inr, All,
  ◌==◌, some, List, [], ◌∷◌, ◌++◌, length, length-append, Bool-cases, arith,
}
use mathlib.Core.Path.{subst}
use computer_system.Buffers.{Buffers, bpin}
use computer_system.Log.{
  max_op_blocks, log_size, Log, ok, too_big, begin_op, end_op_enter, end_op_commit, commit,
  log_write, logged,
}

abbrev pub sum : List ℕ → ℕ
sum [] = 0
sum (x ∷ xs) = x + sum xs

pub sum-append : (xs ys : List ℕ) → sum (xs ++ ys) ≡ sum xs + sum ys
sum-append [] ys = omega arith
sum-append (x ∷ xs) ys = omega (arith, sum-append xs ys)

-- The log, the buffers, and for each file system call in progress the number of blocks that it
-- may still add to the log: each promises to write MAXOPBLOCKS different blocks at most.
pub record System : Type 0 where
  pub log : Log
  pub io : Buffers
  pub ops : List ℕ

pub data Step (s : System) : System → Type 0 where
  begins :
      {l' : Log}
      → begin_op s.log ≡ some l'
      → Step s (record s { log = l'; ops = max_op_blocks ∷ s.ops })
  -- A block that the log has already is absorbed.
  absorbs :
      (b : ℕ) {l' : Log} {m' : Buffers}
      → 0 < length s.ops
      → logged b s.log.lh ≡ true
      → log_write s.log s.io b ≡ ok (l', m')
      → Step s (record s { log = l'; io = m' })
  writes :
      (b k : ℕ) (xs ys : List ℕ) {l' : Log} {m' : Buffers}
      → s.ops ≡ xs ++ (suc k ∷ ys)
      → logged b s.log.lh ≡ false
      → log_write s.log s.io b ≡ ok (l', m')
      → Step s (record { log = l'; io = m'; ops = xs ++ (k ∷ ys) })
  ends :
      (k : ℕ) (xs ys : List ℕ) {l' : Log} {do_commit : Bool}
      → s.ops ≡ xs ++ (k ∷ ys)
      → end_op_enter s.log ≡ ok (l', do_commit)
      → Step s (record s { log = l'; ops = xs ++ ys })
  commits :
      {l' : Log} {m' : Buffers}
      → s.log.committing ≡ true
      → end_op_commit s.log s.io ≡ (l', m')
      → Step s (record s { log = l'; io = m' })

-- Every call in progress can still write the blocks that it promised.
pub record IsReserved (s : System) : Type 0 where
  pub each : All (λ k. k ≤ max_op_blocks) s.ops
  pub counted : s.log.outstanding ≡ length s.ops
  pub room : length s.log.lh + sum s.ops ≤ log_size
  pub space : log_size ≤ s.log.size
  pub quiet : s.log.committing ≡ true → s.log.outstanding ≡ 0

sum-le : (xs : List ℕ) → All (λ k. k ≤ max_op_blocks) xs → sum xs ≤ length xs * max_op_blocks
sum-le [] h = omega arith
sum-le (x ∷ xs) h = omega (arith, sum-le xs h.1, h.0)

-- One member of the list, or all but it.
All-replace :
    (P : ℕ → Type 0) (xs ys zs : List ℕ)
    → (All P ys → All P zs)
    → All P (xs ++ ys)
    → All P (xs ++ zs)
All-replace P [] ys zs f h = f h
All-replace P (x ∷ xs) ys zs f h = (h.0, All-replace P xs ys zs f h.1)

pub commit-log :
    (l : Log) (m : Buffers)
    → (length (commit l m).0.lh ≡ 0)
      × ((commit l m).0.size ≡ l.size)
      × ((commit l m).0.outstanding ≡ l.outstanding)
unfolding commit
commit-log l m = ground arith

module _ (s : System) (v : IsReserved s) where
  begins-IsReserved :
      {l' : Log}
      → begin_op s.log ≡ some l'
      → IsReserved (record s { log = l'; ops = max_op_blocks ∷ s.ops })
  unfolding begin_op
  begins-IsReserved e = ground (arith, v.each, v.counted, v.room, v.space, sum-le s.ops v.each)

  absorbs-IsReserved :
      (b : ℕ) {l' : Log} {m' : Buffers}
      → logged b s.log.lh ≡ true
      → log_write s.log s.io b ≡ ok (l', m')
      → IsReserved (record s { log = l'; io = m' })
  unfolding log_write
  absorbs-IsReserved b t e = ground (arith, v.each, v.counted, v.room, v.space, v.quiet)

  writes-IsReserved :
      (b k : ℕ) (xs ys : List ℕ) {l' : Log} {m' : Buffers}
      → s.ops ≡ xs ++ (suc k ∷ ys)
      → logged b s.log.lh ≡ false
      → log_write s.log s.io b ≡ ok (l', m')
      → IsReserved (record { log = l'; io = m'; ops = xs ++ (k ∷ ys) })
  unfolding log_write
  writes-IsReserved b k xs ys p f e = ground (
    arith,
    All-replace (λ j. j ≤ max_op_blocks) xs (suc k ∷ ys) (k ∷ ys) (λ h. (omega arith, h.1))
        (subst (All (λ j. j ≤ max_op_blocks)) p v.each),
    v.counted,
    v.room,
    v.space,
    v.quiet,
    ap length p,
    ap sum p,
    length-append xs (suc k ∷ ys),
    length-append xs (k ∷ ys),
    sum-append xs (suc k ∷ ys),
    sum-append xs (k ∷ ys),
    length-append s.log.lh (b ∷ []),
  )

  ends-IsReserved :
      (k : ℕ) (xs ys : List ℕ) {l' : Log} {do_commit : Bool}
      → s.ops ≡ xs ++ (k ∷ ys)
      → end_op_enter s.log ≡ ok (l', do_commit)
      → IsReserved (record s { log = l'; ops = xs ++ ys })
  unfolding end_op_enter
  ends-IsReserved k xs ys p e = ground (
    arith,
    All-replace (λ j. j ≤ max_op_blocks) xs (k ∷ ys) ys (λ h. h.1)
        (subst (All (λ j. j ≤ max_op_blocks)) p v.each),
    v.counted,
    v.room,
    v.space,
    v.quiet,
    ap length p,
    ap sum p,
    length-append xs (k ∷ ys),
    length-append xs ys,
    sum-append xs (k ∷ ys),
    sum-append xs ys,
  )

  commits-IsReserved :
      {l' : Log} {m' : Buffers}
      → s.log.committing ≡ true
      → end_op_commit s.log s.io ≡ (l', m')
      → IsReserved (record s { log = l'; io = m' })
  unfolding end_op_commit
  commits-IsReserved t e =
      ground (arith, v.each, v.counted, v.room, v.space, v.quiet, commit-log s.log s.io)

-- The last block of all that the calls reserved, in a log whose header takes its place.
abbrev pub LastBlock : System → Type 0
LastBlock s = (s.log.size ≡ log_size) × (length s.log.lh ≡ log_size - 1) × (sum s.ops ≡ 1)

-- What log_write of a block does.
abbrev pub WritesOne : System → ℕ → Type 0
WritesOne s b =
    ((r : Log × Buffers) × (log_write s.log s.io b ≡ ok r))
    ⊎ (LastBlock s × (log_write s.log s.io b ≡ too_big))

sum_there : (s : System) (k : ℕ) (xs ys : List ℕ) → s.ops ≡ xs ++ (suc k ∷ ys) → 0 < sum s.ops
sum_there s k xs ys p = omega (arith, ap sum p, sum-append xs (suc k ∷ ys))

can_write :
    (s : System)
    → IsReserved s
    → (b k : ℕ) (xs ys : List ℕ) → s.ops ≡ xs ++ (suc k ∷ ys)
    → WritesOne s b
unfolding log_write
can_write s v b k xs ys p =
    let some_left = sum_there s k xs ys p in
    let room = v.room in
    let space = v.space in
    let fits : leb log_size (length s.log.lh) ≡ false = ground arith in
    let calls = length-append xs (suc k ∷ ys) in
    let called = ap length p in
    let counted = v.counted in
    let in_call : ltb s.log.outstanding 1 ≡ false = ground arith in
    elim (Bool-cases (leb (s.log.size - 1) (length s.log.lh))) [
      | inl full ↦
          let at : s.log.size - 1 ≤ length s.log.lh = ground (arith, full) in
          inr ((omega arith, omega arith, omega arith), rw (fits, full) refl)
      | inr free ↦ elim (Bool-cases (logged b s.log.lh)) [
        | inl t ↦ inl ((s.log, s.io), rw (fits, free, in_call, t) refl)
        | inr n ↦ inl (
          (record s.log { lh = s.log.lh ++ b ∷ [] }, bpin s.io b),
          rw (fits, free, in_call, n) refl,
        )
      ]
    ]

can_end :
    (s : System)
    → IsReserved s
    → (k : ℕ) (xs ys : List ℕ) → s.ops ≡ xs ++ (k ∷ ys)
    → (r : Log × Bool) × (end_op_enter s.log ≡ ok r)
unfolding end_op_enter
can_end s v k xs ys p = elim (Bool-cases (s.log.outstanding - 1 == 0)) [
  | inl t ↦ (
    (record s.log { outstanding = 0; committing = true }, true),
    ground (arith, v.counted, v.quiet, ap length p, length-append xs (k ∷ ys)),
  )
  | inr f ↦ (
    (record s.log { outstanding = s.log.outstanding - 1 }, false),
    ground (arith, v.counted, v.quiet, ap length p, length-append xs (k ∷ ys)),
  )
]

-- Every step of the calls keeps the reservation.
pub Step-IsReserved : {s s' : System} → IsReserved s → Step s s' → IsReserved s'
Step-IsReserved {s} v (begins e) = begins-IsReserved s v e
Step-IsReserved {s} v (absorbs b some_op t e) = absorbs-IsReserved s v b t e
Step-IsReserved {s} v (writes b k xs ys p f e) = writes-IsReserved s v b k xs ys p f e
Step-IsReserved {s} v (ends k xs ys p e) = ends-IsReserved s v k xs ys p e
Step-IsReserved {s} v (commits t e) = commits-IsReserved s v t e

pub data Reach (s : System) : System → Type 0 where
  here : Reach s s
  next : {t u : System} → Reach s t → Step t u → Reach s u

pub Reach-IsReserved : {s s' : System} → IsReserved s → Reach s s' → IsReserved s'
Reach-IsReserved v here = v
Reach-IsReserved v (next r st) = Step-IsReserved (Reach-IsReserved v r) st

-- In a log of at least LOGSIZE blocks, as mkfs makes it, and in every state that file system calls
-- reach from one with the log space reserved, if each call writes at most MAXOPBLOCKS different
-- blocks: end_op of a call in progress finds no commit under way, on which it would panic, and
-- log_write by a call that has blocks left to write succeeds, but for one case, in which it panics:
-- the log has just LOGSIZE blocks, the first for the header, it lists LOGSIZE - 1 blocks already,
-- and the calls may add just one more between them.
pub reserved_log_fits :
    {s s' : System}
    → IsReserved s
    → Reach s s'
    → ((b k : ℕ) (xs ys : List ℕ) → s'.ops ≡ xs ++ (suc k ∷ ys) → WritesOne s' b)
      × ((k : ℕ) (xs ys : List ℕ)
          → s'.ops ≡ xs ++ (k ∷ ys)
          → (r : Log × Bool) × (end_op_enter s'.log ≡ ok r))
reserved_log_fits {s' = s'} v r = (can_write s' w, can_end s' w)
  where
    w : IsReserved s'
    w = Reach-IsReserved v r
