-- ===== src/Log.antt =====
-- The write-ahead log of kernel/log.c: header block, log blocks, commit and recovery.
pub mod Header
pub mod Blocks
pub mod Loops
pub mod Recover
pub mod Crash
pub mod Atomic
pub mod Reserve
pub mod Pins
mod Tests
use computer_system.Prelude.{
  ℕ, zero, suc, ◌+◌, ◌-◌, ◌*◌, Bool, true, false, Option, none, some, List, [], ◌∷◌, ◌++◌, length,
  update, ltb, leb, ◌==◌, if◌then◌else◌, ◌||◌,
}
use computer_system.Buffers.{Block, Buffers, contents, bread, modify, bwrite, brelse, bpin, bunpin}

abbrev pub max_op_blocks : ℕ
max_op_blocks = 10

abbrev pub log_size : ℕ
log_size = max_op_blocks * 3

-- struct log. `lh` is lh.block[0 .. lh.n), so lh.n is its length.
pub record Log : Type 0 where
  pub start : ℕ
  pub size : ℕ
  pub outstanding : ℕ
  pub committing : Bool
  pub lh : List ℕ

-- How a call that may stop the kernel ends. `underflow` is no panic: it is `log.outstanding` going
-- below zero, an end_op with no begin_op.
pub data Outcome (A : Type 0) : Type 0 where
  ok : A → Outcome A
  too_big : Outcome A
  outside_of_trans : Outcome A
  log_committing : Outcome A
  underflow : Outcome A

-- `n` words from index `i` on: the loop of read_head.
unfoldable pub words : Block → ℕ → ℕ → List ℕ
words blk i zero = []
words blk i (suc n) = blk i ∷ words blk (i + 1) n

-- The loop of write_head.
unfoldable pub put_words : Block → ℕ → List ℕ → Block
put_words blk i [] = blk
put_words blk i (b ∷ bs) = put_words (update blk i b) (i + 1) bs

unfoldable pub read_head : Log → Buffers → Log × Buffers
unfolding words contents bread brelse
read_head l m =
    let m1 = bread m l.start in
    let hb = contents m1 l.start in (record l { lh = words hb 1 (hb 0) }, brelse m1 l.start)

unfoldable pub write_head : Log → Buffers → Buffers
unfolding put_words contents bread modify bwrite brelse
write_head l m =
    let m1 = bread m l.start in
    let hb = put_words (update (contents m1 l.start) 0 (length l.lh)) 1 l.lh in
    brelse (bwrite (modify m1 l.start hb) l.start) l.start

-- One round of write_log: the cached block `b` goes to the log block `to`.
unfoldable pub log_block : Buffers → ℕ → ℕ → Buffers
unfolding contents bread modify bwrite brelse
log_block m to b =
    let m1 = bread (bread m to) b in
    let m2 = bwrite (modify m1 to (contents m1 b)) to in brelse (brelse m2 b) to

unfoldable pub write_log_from : Buffers → ℕ → List ℕ → Buffers
unfolding log_block
write_log_from m to [] = m
write_log_from m to (b ∷ bs) = write_log_from (log_block m to b) (to + 1) bs

unfoldable pub write_log : Log → Buffers → Buffers
write_log l m = write_log_from m (l.start + 1) l.lh

-- One round of install_trans: the log block `from` goes home to block `b`.
unfoldable pub install_block : Buffers → ℕ → ℕ → Buffers
unfolding contents bread modify bwrite brelse bunpin
install_block m from b =
    let m1 = bread (bread m from) b in
    let m2 = bwrite (modify m1 b (contents m1 from)) b in brelse (brelse (bunpin m2 b) from) b

unfoldable pub install_from : Buffers → ℕ → List ℕ → Buffers
unfolding install_block
install_from m from [] = m
install_from m from (b ∷ bs) = install_from (install_block m from b) (from + 1) bs

unfoldable pub install_trans : Log → Buffers → Buffers
install_trans l m = install_from m (l.start + 1) l.lh

unfoldable pub recover_from_log : Log → Buffers → Log × Buffers
recover_from_log l m =
    let (l1, m1) = read_head l m in
    let m2 = install_trans l1 m1 in let l2 = record l1 { lh = [] } in (l2, write_head l2 m2)

-- At boot: the fields that the superblock gives, and the recovery. (The test that a log header
-- fits a block is between constants.)
unfoldable pub initlog : ℕ → ℕ → Buffers → Log × Buffers
initlog start size m =
    recover_from_log
      (record { start = start; size = size; outstanding = 0; committing = false; lh = [] }) m

unfoldable pub commit : Log → Buffers → Log × Buffers
commit l m =
    let m1 = write_log l m in
    let m2 = write_head l m1 in
    let m3 = install_trans l m2 in
    let l' = record l { lh = [] } in if ltb 0 (length l.lh) then (l', write_head l' m3) else (l, m)

-- One pass of the loop of begin_op; `none` is its sleep.
unfoldable pub begin_op : Log → Option Log
begin_op l =
    if l.committing
    then none
    else if ltb log_size (length l.lh + (l.outstanding + 1) * max_op_blocks)
    then none
    else some (record l { outstanding = l.outstanding + 1 })

-- end_op up to the first release: the new log, and whether this caller has to commit.
unfoldable pub end_op_enter : Log → Outcome (Log × Bool)
end_op_enter l =
    if l.committing
    then log_committing
    else if l.outstanding == 0
    then underflow
    else if l.outstanding - 1 == 0
    then ok (record l { outstanding = 0; committing = true }, true)
    else ok (record l { outstanding = l.outstanding - 1 }, false)

-- The rest of end_op for the caller that commits.
unfoldable pub end_op_commit : Log → Buffers → Log × Buffers
end_op_commit l m = let (l', m') = commit l m in (record l' { committing = false }, m')

unfoldable pub end_op : Log → Buffers → Outcome (Log × Buffers)
end_op l m = elim (end_op_enter l) [
  | ok (l', do_commit) ↦ if do_commit then ok (end_op_commit l' m) else ok (l', m)
  | too_big ↦ too_big
  | outside_of_trans ↦ outside_of_trans
  | log_committing ↦ log_committing
  | underflow ↦ underflow
]

-- Log absorption: is the block in the header already?
unfoldable pub logged : ℕ → List ℕ → Bool
logged b [] = false
logged b (x ∷ xs) = x == b || logged b xs

unfoldable pub log_write : Log → Buffers → ℕ → Outcome (Log × Buffers)
unfolding logged bpin
log_write l m b =
    if leb log_size (length l.lh) || leb (l.size - 1) (length l.lh)
    then too_big
    else if ltb l.outstanding 1
    then outside_of_trans
    else if logged b l.lh
    then ok (l, m)
    else ok (record l { lh = l.lh ++ b ∷ [] }, bpin m b)
