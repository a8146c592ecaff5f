-- ===== src/Log/Crash.antt =====
-- The stages of commit, and what a restart finds after a crash in each of them.
use native.Mathlib.Nat.{le_refl}
use computer_system.Prelude.{
  ℕ, ◌+◌, ◌≤◌, ◌<◌, ◌≡◌, refl, ◌∙◌, ap, ◌⊎◌, inl, inr, false, [], All, All-map, length, update,
  update_self, update_ne, Bool-cases, arith,
}
use computer_system.Buffers.{Block, Disk, Buffers, contents}
use computer_system.Log.{Log, logged, write_head, write_log_from, install_from}
use computer_system.Log.Header.{
  header_list, header_block, header_block-count, header_list-header_block,
}
use computer_system.Log.Blocks.{Writes, write_head-Writes}
use computer_system.Log.Loops.{
  Holds, Holds-cong, Away, Away-ne_start, Logs, Installs, write_log_from-Logs,
  install_from-Installs,
}
use computer_system.Log.Recover.{reboot, replayed, Replays, reboot-replayed, reboot-clean}

-- Block c is no block of the log.
abbrev pub Home : Log → ℕ → Type 0
Home l c = Away l.start (l.start + l.size) c

-- What holds when commit is called: the transaction fits the log and touches no block of it, the
-- header on the disk is erased, and `past` starts with the disk as it is.
pub record Ready (l : Log) (m : Buffers) : Type 0 where
  pub fits : length l.lh < l.size
  pub home : All (Home l) l.lh
  pub clean : m.disk l.start 0 ≡ 0

-- The disk with the whole transaction on it.
abbrev pub committed : Log → Buffers → Disk
committed l m = replayed (contents m) m.disk l.lh

-- A restart over `d` finds the old blocks, or the new ones.
abbrev pub IsAtomic : Log → Buffers → Disk → Type 0
IsAtomic l m d =
    ((c : ℕ) → Home l c → reboot l.start l.size d c ≡ m.disk c)
    ⊎ ((c : ℕ) → Home l c → reboot l.start l.size d c ≡ committed l m c)

module _ (l : Log) (m : Buffers) (r : Ready l m) where
  open l use {start, size, lh}

  abbrev pub m1 : Buffers
  m1 = write_log_from m (start + 1) lh

  abbrev pub m2 : Buffers
  m2 = write_head l m1

  abbrev pub m3 : Buffers
  m3 = install_from m2 (start + 1) lh

  abbrev pub m4 : Buffers
  m4 = write_head (record l { lh = [] }) m3

  logs : Logs (start + size) m (start + 1) lh m1
  logs =
      write_log_from-Logs (start + size) m (start + 1) lh (omega (arith, r.fits))
        (All-map (λ c a. omega arith) lh r.home)

  head : Writes m1 start (header_block (contents m1 start) lh) m2
  head = write_head-Writes l m1

  held_above :
      (d d' : Disk) (blk : Block)
      → ((c : ℕ) → d' c ≡ update d start blk c)
      → Holds (contents m) d (start + 1) lh
      → Holds (contents m) d' (start + 1) lh
  held_above d d' blk e =
      Holds-cong (contents m) (contents m) d d' (start + 1) lh (All-map (λ x a. refl) lh r.home)
        (λ c p q. e c ∙ update_ne d start blk c (omega arith))

  installs : Installs (contents m) start (start + size) m2 lh m3
  installs =
      install_from-Installs (contents m) start (start + size) m2 (start + 1) lh (omega arith)
        (omega (arith, r.fits)) r.home
        (held_above (contents m1) (contents m2) _ head.contents_at logs.in_buffers)

  -- Before the header is written a restart finds the old blocks.
  pub before_head :
      (d : Disk) → ((c : ℕ) → Away (start + 1) (start + size) c → d c ≡ m.disk c) → IsAtomic l m d
  before_head d e = inl (λ c a.
      reboot-clean start size d (omega (arith, r.fits))
        (ap (λ blk. blk 0) (e start (inl (omega arith))) ∙ r.clean) c a
      ∙ e c (omega arith))

  disk-Home : (c : ℕ) → Home l c → m2.disk c ≡ m.disk c
  disk-Home c a =
      head.disk_at c
      ∙ update_ne m1.disk start (header_block (contents m1 start) lh) c
          (Away-ne_start a (omega (arith, r.fits)))
      ∙ logs.disk_away c (omega arith)

  -- From then on, until it is erased, a restart finds the new ones.
  after_head :
      (d : Disk)
      → ((c : ℕ) → start ≤ c → c < start + size → d c ≡ m2.disk c)
      → ((c : ℕ) → logged c lh ≡ false → d c ≡ m2.disk c)
      → IsAtomic l m d
  after_head d e o =
      inr (λ c a. reboot-replayed (contents m) start size lh d r.fits r.home replays c a ∙ same c a)
    where
      replays : Replays (contents m) start size lh d
      replays = record {
        listed =
            ap header_list (
              e start (le_refl start) (omega (arith, r.fits))
              ∙ head.disk_at start
              ∙ update_self m1.disk start (header_block (contents m1 start) lh))
            ∙ header_list-header_block (contents m1 start) lh;
        held =
            Holds-cong (contents m) (contents m) m2.disk d (start + 1) lh
              (All-map (λ x a. refl) lh r.home) (λ c p q. e c (omega arith) (omega (arith, r.fits)))
              (held_above m1.disk m2.disk _ head.disk_at logs.on_disk);
      }

      same : (c : ℕ) → Home l c → replayed (contents m) d lh c ≡ committed l m c
      same c a = elim (Bool-cases (logged c lh)) [
        | inl t ↦ rw t
        | inr f ↦ rw f (o c f ∙ disk-Home c a)
      ]

  erase : Writes m3 start (header_block (contents m3 start) []) m4
  erase = write_head-Writes (record l { lh = [] }) m3

  pub m4-Home : (c : ℕ) → Home l c → m4.disk c ≡ committed l m c
  m4-Home c a =
      erase.disk_at c
      ∙ update_ne m3.disk start (header_block (contents m3 start) []) c
          (Away-ne_start a (omega (arith, r.fits)))
      ∙ at
    where
      at : m3.disk c ≡ committed l m c
      at = elim (Bool-cases (logged c lh)) [
        | inl t ↦ rw t (installs.home c t)
        | inr f ↦ rw f (installs.other c f ∙ disk-Home c a)
      ]

  pub m4_clean : m4.disk start 0 ≡ 0
  m4_clean =
      ap (λ blk. blk 0)
        (erase.disk_at start ∙ update_self m3.disk start (header_block (contents m3 start) []))
      ∙ header_block-count (contents m3 start) []

  pub m4_reboot : (c : ℕ) → Home l c → reboot start size m4.disk c ≡ committed l m c
  m4_reboot c a = reboot-clean start size m4.disk (omega (arith, r.fits)) m4_clean c a ∙ m4-Home c a

  pub m4_past : All (IsAtomic l m) m.past → All (IsAtomic l m) m4.past
  m4_past h = rw erase.past_is (
    inr m4_reboot,
    installs.past_all (IsAtomic l m) after_head (
        rw head.past_is (
          after_head m2.disk (λ c p q. refl) (λ c f. refl),
          logs.past_all (IsAtomic l m) before_head h,
        )),
  )
