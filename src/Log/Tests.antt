-- ===== src/Log/Tests.antt =====
-- Runs of kernel/log.c's operations on small logs, and the log theorems at them.
use computer_system.Prelude.{
  ◌-◌, replicate, ℕ, suc, ◌≡◌, refl, inr, true, false, some, none, List, [], ◌∷◌, ◌++◌, All, arith,
  if◌then◌else◌, update, Bool,
}
use computer_system.Buffers.{Block, Disk, Buffers, boot, watch}
use computer_system.Log.{
  Log, ok, commit, log_write, begin_op, end_op_enter, recover_from_log, logged, words,
  max_op_blocks, log_size, too_big, outside_of_trans,
}
use computer_system.Log.Header.{header_list}
use computer_system.Log.Recover.{reboot, Replays}
use computer_system.Log.Crash.{Home, Ready, committed, IsAtomic}
use computer_system.Log.Atomic.{commit_crash-IsAtomic, commit_durable, recover_crash_idempotent}
use computer_system.Log.Reserve.{
  System, begins, IsReserved, WritesOne, here, next, reserved_log_fits,
}
use computer_system.Log.Pins.{Fits, Distinct, dropped, commit_unpins}

abbrev empty_log : Log
empty_log = record { start = 2; size = 31; outstanding = 0; committing = false; lh = [] }

-- A transaction of the blocks 40 and 41, about to be committed.
abbrev two_blocks : Log
two_blocks = record { start = 2; size = 31; outstanding = 0; committing = true; lh = 40 ∷ 41 ∷ [] }

abbrev zeros : Disk
zeros b i = 0

-- Blocks 40 and 41 are in memory, pinned, with words 7 and 8.
abbrev cached : Buffers
cached = record {
  disk = zeros;
  copy = update (update (λ b. none) 40 (some (λ i. 7))) 41 (some (λ i. 8));
  refcnt = update (update (λ b. 0) 40 1) 41 1;
  past = [];
}

cached-Ready : Ready two_blocks cached
cached-Ready = record {
  fits = omega arith;
  home = (inr (omega arith), (inr (omega arith), tt));
  clean = refl;
}

two_blocks-Distinct : Distinct two_blocks.lh
unfolding logged
two_blocks-Distinct = (refl, (refl, tt))

cached-Fits : Fits cached
cached-Fits c = ground arith

commit_crash-IsAtomic_example :
    All (IsAtomic two_blocks cached) (commit two_blocks (watch cached)).1.past
commit_crash-IsAtomic_example = commit_crash-IsAtomic two_blocks cached cached-Ready

commit_durable_example :
    let (l', m') = commit two_blocks cached in
    (l'.lh ≡ [])
    × (m'.disk 2 0 ≡ 0)
    × ((c : ℕ) → Home two_blocks c → m'.disk c ≡ committed two_blocks cached c)
    × ((c : ℕ) → Home two_blocks c → reboot 2 31 m'.disk c ≡ committed two_blocks cached c)
commit_durable_example = commit_durable two_blocks cached cached-Ready

commit_unpins_example :
    (commit two_blocks cached).1.refcnt 41
    ≡ (if logged 41 two_blocks.lh then dropped (cached.refcnt 41) else cached.refcnt 41)
commit_unpins_example = commit_unpins two_blocks cached cached-Fits two_blocks-Distinct 41

-- A disk whose header lists block 40, with its new contents in the log.
abbrev crashed : Disk
crashed = update (update zeros 3 (λ i. 7)) 2 (update (update (λ i. 0) 0 1) 1 40)

abbrev sevens : ℕ → Block
sevens b i = 7

crashed-Replays : Replays sevens 2 31 (40 ∷ []) crashed
unfolding words
crashed-Replays = record { listed = refl; held = (refl, tt) }

recover_crash_idempotent_example :
    All
      (λ d'. (c : ℕ) → Home empty_log c → reboot 2 31 d' c ≡ reboot 2 31 crashed c)
      (recover_from_log empty_log (watch (boot crashed))).1.past
recover_crash_idempotent_example =
    recover_crash_idempotent sevens empty_log crashed (40 ∷ []) (omega arith)
      (inr (omega arith), tt) crashed-Replays

crashed-Distinct : Distinct (header_list (crashed 2))
unfolding words logged
crashed-Distinct = (refl, tt)

-- The log that mkfs makes, of LOGSIZE blocks.
abbrev made_log : Log
made_log = record empty_log { size = log_size }

abbrev idle : System
idle = record { log = made_log; io = boot zeros; ops = [] }

abbrev one_call : System
one_call = record idle { log = record made_log { outstanding = 1 }; ops = max_op_blocks ∷ [] }

idle-IsReserved : IsReserved idle
idle-IsReserved = record {
  each = tt;
  counted = refl;
  room = omega arith;
  space = omega arith;
  quiet = λ e. refl;
}

begun : begin_op made_log ≡ some (record made_log { outstanding = 1 })
unfolding begin_op
begun = refl

reserved_log_fits_example :
    ((b k : ℕ) (xs ys : List ℕ) → one_call.ops ≡ xs ++ (suc k ∷ ys) → WritesOne one_call b)
    × ((k : ℕ) (xs ys : List ℕ)
        → one_call.ops ≡ xs ++ (k ∷ ys)
        → (r : Log × Bool) × (end_op_enter one_call.log ≡ ok r))
reserved_log_fits_example = reserved_log_fits idle-IsReserved (next here (begins begun))

second_write_is_absorbed :
    log_write (record two_blocks { outstanding = 1 }) cached 41
    ≡ ok (record two_blocks { outstanding = 1 }, cached)
unfolding log_write logged
second_write_is_absorbed = refl

write_outside : log_write two_blocks cached 41 ≡ outside_of_trans
unfolding log_write
write_outside = refl

-- The thirtieth block of three calls, in the log that mkfs makes.
abbrev nearly_full : Log
nearly_full = record made_log { outstanding = 3; lh = replicate (log_size - 1) 40 }

write_last : log_write nearly_full cached 41 ≡ too_big
unfolding log_write
write_last = refl
