-- ===== src/Pipe.antt =====
-- kernel/pipe.c: pipealloc's fresh pipe, pipeclose, pipewrite and piperead. A call holds pi->lock
-- from its start, or its wake-up, to its return or its sleep, so it runs here in turns.
pub mod Queue
pub mod Write
pub mod Read
pub mod Close
mod Tests
use computer_system.Prelude.{
  ℕ, zero, suc, ◌+◌, ◌%◌, ◌^◌, Bool, true, false, not, ◌&&◌, ◌||◌, Option, none, some, List, [],
  ◌∷◌, set, get_or, replicate, ◌==◌, if◌then◌else◌,
}

abbrev pub pipe_size : ℕ
pipe_size = 512

-- A pipe's fields are `uint` and a user address is `uint64`.
abbrev pub uint : ℕ → ℕ
uint n = n % 2 ^ 32

abbrev pub address : ℕ → ℕ → ℕ
address addr i = (addr + i) % 2 ^ 64

-- struct pipe; its lock is held for a whole turn.
pub record Pipe : Type 0 where
  pub buf : List ℕ
  pub nread : ℕ
  pub nwrite : ℕ
  pub readopen : Bool
  pub writeopen : Bool

-- The channels of sleep and wakeup: &pi->nread and &pi->nwrite.
pub data Chan : Type 0 where
  nread nwrite : Chan

-- How a turn ends: with a return value, with -1, or asleep. A writer asleep keeps `i` and the
-- number of bytes left.
pub data Call : Type 0 where
  returns : ℕ → Call
  failed : Call
  asleep : ℕ → ℕ → Call

-- `out` is what copyout has stored in user memory, from the address of the call on.
pub record Turn : Type 0 where
  pub pipe : Pipe
  pub woken : List Chan
  pub call : Call
  pub out : List ℕ

-- pipealloc's assignments to the page that kalloc returned, which holds `junk`.
unfoldable pub fresh : List ℕ → Pipe
fresh junk = record { buf = junk; nread = 0; nwrite = 0; readopen = true; writeopen = true }

-- The pipe, the channel that is woken, and whether the page is freed.
unfoldable pub pipeclose : Pipe → Bool → Pipe × Chan × Bool
pipeclose pi writable =
    let pi' =
      if writable then record pi { writeopen = false } else record pi { readopen = false } in
    (pi', if writable then nread else nwrite, not pi'.readopen && not pi'.writeopen)

abbrev pub is_full : Pipe → Bool
is_full pi = pi.nwrite == uint (pi.nread + pipe_size)

-- pi->data[pi->nwrite++ % PIPESIZE] = ch
unfoldable pub put : Pipe → ℕ → Pipe
put pi ch = record pi { buf = set pi.buf (pi.nwrite % pipe_size) ch; nwrite = uint (pi.nwrite + 1) }

-- pi->data[pi->nread % PIPESIZE]
unfoldable pub front : Pipe → ℕ
front pi = get_or pi.buf (pi.nread % pipe_size) 0

-- pi->nread++
unfoldable pub drop_front : Pipe → Pipe
drop_front pi = record pi { nread = uint (pi.nread + 1) }

-- A turn of pipewrite: `i` bytes are written and `left` are not. `user` is copyin of one byte.
unfoldable pub write_turn : Bool → (ℕ → Option ℕ) → ℕ → Pipe → ℕ → ℕ → Turn
write_turn killed user addr pi i zero = record {
  pipe = pi;
  woken = nread ∷ [];
  call = returns i;
  out = [];
}
write_turn killed user addr pi i (suc left) =
    let more : Turn = elim (user (address addr i)) [
      | none ↦ record { pipe = pi; woken = nread ∷ []; call = returns i; out = [] }
      | some ch ↦ write_turn killed user addr (put pi ch) (i + 1) left
    ] in
    if is_full pi
    then if not pi.readopen || killed
      then record { pipe = pi; woken = []; call = failed; out = [] }
      else record { pipe = pi; woken = nread ∷ []; call = asleep i (suc left); out = [] }
    else more

unfoldable pub pipewrite : Bool → (ℕ → Option ℕ) → ℕ → Pipe → ℕ → Turn
pipewrite killed user addr pi n = write_turn killed user addr pi 0 n

-- The copying loop of piperead. `user` tells where copyout of one byte succeeds.
unfoldable pub read_loop : (ℕ → Bool) → ℕ → Pipe → ℕ → ℕ → Turn
read_loop user addr pi i zero = record {
  pipe = pi;
  woken = nwrite ∷ [];
  call = returns i;
  out = [];
}
read_loop user addr pi i (suc left) =
    let t = read_loop user addr (drop_front pi) (i + 1) left in
    if pi.nread == pi.nwrite
    then record { pipe = pi; woken = nwrite ∷ []; call = returns i; out = [] }
    else if user (address addr i)
    then record t { out = front pi ∷ t.out }
    else record { pipe = drop_front pi; woken = nwrite ∷ []; call = returns i; out = [] }

-- A turn of piperead, from its start or a wake-up.
unfoldable pub piperead : Bool → (ℕ → Bool) → ℕ → Pipe → ℕ → Turn
piperead killed user addr pi n =
    if (pi.nread == pi.nwrite) && pi.writeopen
    then if killed
      then record { pipe = pi; woken = []; call = failed; out = [] }
      else record { pipe = pi; woken = []; call = asleep 0 n; out = [] }
    else read_loop user addr pi 0 n
