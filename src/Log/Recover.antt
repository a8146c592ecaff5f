-- ===== src/Log/Recover.antt =====
-- recover_from_log over any disk: what the machine finds after a restart.
use computer_system.Prelude.{
  ℕ, ◌+◌, ◌≤◌, ◌<◌, ◌≡◌, refl, ◌∙◌, ap, inl, inr, false, List, [], All, length, update_self,
  update_ne, Bool-cases, arith, if◌then◌else◌, All-map,
}
use computer_system.Buffers.{Block, Disk, Buffers, contents, boot, bread}
use computer_system.Log.{
  Log, logged, words, read_head, install_from, install_trans, recover_from_log, initlog,
}
use computer_system.Log.Header.{header_list, header_block, header_block-count}
use computer_system.Log.Blocks.{contents-bread, Writes, write_head-Writes}
use computer_system.Log.Loops.{
  Holds, Holds-cong, Away, Away-ne_start, Installs, install_from-Installs,
}

-- The disk after a restart over `d` and the recovery at boot.
unfoldable pub reboot : ℕ → ℕ → Disk → Disk
reboot start size d = (initlog start size (boot d)).1.disk

pub lh-read_head : (l : Log) (m : Buffers) → (read_head l m).0.lh ≡ header_list (contents m l.start)
unfolding read_head
lh-read_head l m = ap header_list (contents-bread m l.start l.start)

pub contents-read_head :
    (l : Log) (m : Buffers) (c : ℕ) → contents (read_head l m).1 c ≡ contents m c
unfolding read_head bread
contents-read_head l m c = ground arith

-- Block c, outside the log at lo .. hi - 1, after the replay of `bs` over `d`.
abbrev pub replayed : (ℕ → Block) → Disk → List ℕ → Disk
replayed C d bs c = if logged c bs then C c else d c

-- The facts about a disk from which its recovery replays `bs`.
pub record Replays (C : ℕ → Block) (start size : ℕ) (bs : List ℕ) (d : Disk) : Type 0 where
  pub listed : header_list (d start) ≡ bs
  pub held : Holds C d (start + 1) bs

module _ (C : ℕ → Block) (l : Log) (m : Buffers) (bs : List ℕ) (fits : length bs < l.size)
    (away : All (Away l.start (l.start + l.size)) bs)
    (listed : header_list (contents m l.start) ≡ bs)
    (held : Holds C (contents m) (l.start + 1) bs) where
  abbrev installed : Buffers
  installed = install_from (read_head l m).1 (l.start + 1) (read_head l m).0.lh

  pub recover-Installs :
      Installs C l.start
        (l.start + l.size)
        (read_head l m).1
        bs
        (install_from (read_head l m).1 (l.start + 1) (read_head l m).0.lh)
  recover-Installs = rw (lh-read_head l m ∙ listed) (
      install_from-Installs C l.start (l.start + l.size) (read_head l m).1 (l.start + 1) bs
        (omega arith) (omega arith) away
        (Holds-cong C C (contents m) (contents (read_head l m).1) (l.start + 1) bs
          (All-map (λ x a. refl) bs away) (λ c p q. contents-read_head l m c) held))

  abbrev last_head : Block
  last_head = header_block (contents installed l.start) []

  recover_from_log-Writes : Writes installed l.start last_head (recover_from_log l m).1
  unfolding recover_from_log install_trans read_head
  recover_from_log-Writes = write_head-Writes (record (read_head l m).0 { lh = [] }) installed

  pub recover_from_log-replayed :
      (c : ℕ)
      → Away l.start (l.start + l.size) c
      → (recover_from_log l m).1.disk c ≡ replayed C m.disk bs c
  unfolding read_head
  recover_from_log-replayed c a =
      recover_from_log-Writes.disk_at c
      ∙ update_ne installed.disk l.start last_head c (Away-ne_start a (omega arith))
      ∙ at
    where
      at : installed.disk c ≡ replayed C m.disk bs c
      at = elim (Bool-cases (logged c bs)) [
        | inl t ↦ rw t (recover-Installs.home c t)
        | inr f ↦ rw f (recover-Installs.other c f)
      ]

  -- The disks that the recovery leaves behind, block by block, and the last one.
  pub recover_from_log-past :
      (P : Disk → Type 0)
      → ((d : Disk)
          → ((c : ℕ) → l.start ≤ c → c < l.start + l.size → d c ≡ m.disk c)
          → ((c : ℕ) → logged c bs ≡ false → d c ≡ m.disk c)
          → P d)
      → P (recover_from_log l m).1.disk
      → All P m.past
      → All P (recover_from_log l m).1.past
  unfolding read_head
  recover_from_log-past P keep end h =
      rw recover_from_log-Writes.past_is (end, recover-Installs.past_all P keep h)

  -- The recovery erases the header.
  pub recover_from_log-count : (recover_from_log l m).1.disk l.start 0 ≡ 0
  recover_from_log-count =
      ap (λ blk. blk 0)
        (recover_from_log-Writes.disk_at l.start ∙ update_self installed.disk l.start last_head)
      ∙ header_block-count (contents installed l.start) []

-- A restart replays the log that it finds.
pub reboot-replayed :
    (C : ℕ → Block) (start size : ℕ) (bs : List ℕ) (d : Disk)
    → length bs < size
    → All (Away start (start + size)) bs
    → Replays C start size bs d
    → (c : ℕ) → Away start (start + size) c
    → reboot start size d c ≡ replayed C d bs c
unfolding reboot initlog boot contents
reboot-replayed C start size bs d fits away r =
    recover_from_log-replayed C
      (record { start = start; size = size; outstanding = 0; committing = false; lh = [] }) (boot d)
      bs fits away r.listed r.held

-- It replays nothing where the header counts no block.
pub reboot-clean :
    (start size : ℕ) (d : Disk)
    → 0 < size
    → d start 0 ≡ 0
    → (c : ℕ) → Away start (start + size) c
    → reboot start size d c ≡ d c
unfolding logged words
reboot-clean start size d pos clean c a =
    reboot-replayed d start size [] d pos tt
      (record { listed = ap (words (d start) 1) clean; held = tt }) c a
