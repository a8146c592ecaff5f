-- ===== src/Buffers.antt =====
-- The block layer as its clients see it: bread, bwrite, brelse, bpin and bunpin of kernel/bio.c
-- over an in-memory copy of each block and the disk below, less the choice of slots: bread finds a
-- free buffer and the callers hold the locks of theirs, so that none of the panics of bget, bwrite
-- and brelse is here. Bcache has bget's.
use computer_system.Prelude.{ℕ, ◌+◌, ◌-◌, ◌%◌, ◌^◌, Option, none, some, List, [], ◌∷◌, update}

-- The contents of a block by 32-bit words, as the log reads it (struct logheader *).
abbrev pub Block : Type 0
Block = ℕ → ℕ

abbrev pub Disk : Type 0
Disk = ℕ → Block

-- `copy` holds b->data of the valid buffers, `refcnt` their b->refcnt (uint). `past` records
-- every disk that a bwrite has left behind, the latest first: what a crash may find.
pub record Buffers : Type 0 where
  pub disk : Disk
  pub copy : ℕ → Option Block
  pub refcnt : ℕ → ℕ
  pub past : List Disk

abbrev pub word_mod : ℕ
word_mod = 2 ^ 32

-- A machine that starts over this disk: no buffer is valid.
unfoldable pub boot : Disk → Buffers
boot d = record { disk = d; copy = λ b. none; refcnt = λ b. 0; past = [] }

-- Forget the disks left behind before: a crash finds one of those from now on.
unfoldable pub watch : Buffers → Buffers
watch m = record m { past = m.disk ∷ [] }

-- b->data of the buffer that bread returns for this block.
unfoldable pub contents : Buffers → ℕ → Block
contents m b = elim (m.copy b) [ none ↦ m.disk b | some blk ↦ blk ]

unfoldable pub bpin : Buffers → ℕ → Buffers
bpin m b = record m { refcnt = update m.refcnt b ((m.refcnt b + 1) % word_mod) }

unfoldable pub bunpin : Buffers → ℕ → Buffers
bunpin m b = record m { refcnt = update m.refcnt b ((m.refcnt b + word_mod - 1) % word_mod) }

-- Takes a reference, and fills the buffer from the disk if it is not valid.
unfoldable pub bread : Buffers → ℕ → Buffers
unfolding contents bpin
bread m b = let m' = bpin m b in record m' { copy = update m.copy b (some (contents m b)) }

-- An assignment to b->data.
unfoldable pub modify : Buffers → ℕ → Block → Buffers
modify m b blk = record m { copy = update m.copy b (some blk) }

unfoldable pub bwrite : Buffers → ℕ → Buffers
unfolding contents
bwrite m b =
    let disk' = update m.disk b (contents m b) in record m { disk = disk'; past = disk' ∷ m.past }

-- The reference that brelse gives up; the recency list is Bcache's.
unfoldable pub brelse : Buffers → ℕ → Buffers
unfolding bunpin
brelse m b = bunpin m b
