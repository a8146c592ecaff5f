-- ===== src/Log/Atomic.antt =====
-- Crash safety of the log: commit and the recovery at boot.
use computer_system.Prelude.{
  ℕ, ◌+◌, ◌≤◌, ◌<◌, ◌≡◌, refl, ◌∙◌, sym, ap, inl, inr, false, List, [], ◌∷◌, All, All-map, length,
  Bool-cases, arith, ltb,
}
use computer_system.Buffers.{Block, Disk, Buffers, contents, boot, watch}
use computer_system.Log.{Log, logged, write_log, install_trans, commit, recover_from_log}
use computer_system.Log.Header.{header_list}
use computer_system.Log.Loops.{Holds-cong}
use computer_system.Log.Recover.{
  reboot, replayed, Replays, reboot-replayed, reboot-clean, recover_from_log-replayed,
  recover_from_log-past, recover_from_log-count,
}
use computer_system.Log.Crash.{
  Home, Ready, committed, IsAtomic, before_head, m4-Home, m4_clean, m4_reboot, m4_past,
}

pub lh_empty : (bs : List ℕ) → ltb 0 (length bs) ≡ false → bs ≡ []
lh_empty [] e = refl
lh_empty (b ∷ bs) e = ground arith

-- A crash at any moment of commit is atomic: whatever disk the machine stops with, the recovery at
-- boot finds every block outside the log as it was before, or every one as the transaction left
-- it, if the transaction fits the log, touches no block of it, and the header was erased.
pub commit_crash-IsAtomic :
    (l : Log) (m : Buffers) → Ready l m → All (IsAtomic l m) (commit l (watch m)).1.past
unfolding commit write_log install_trans contents watch
commit_crash-IsAtomic l m r = elim (Bool-cases (ltb 0 (length l.lh))) [
  | inl some_blocks ↦ rw some_blocks (m4_past l (watch m) ready (first, tt))
  | inr no_blocks ↦ rw no_blocks (first, tt)
]
  where
    ready : Ready l (watch m)
    ready = record { fits = r.fits; home = r.home; clean = r.clean }

    first : IsAtomic l m m.disk
    first = before_head l m r m.disk (λ c a. refl)

-- A commit that returns is durable: its blocks are at their places on the disk and the others
-- unchanged, the list in memory is empty, the header is erased, and a restart finds this disk, if
-- the transaction fits the log, touches no block of it, and the header was erased.
pub commit_durable :
    (l : Log) (m : Buffers)
    → Ready l m
    → let (l', m') = commit l m in
      (l'.lh ≡ [])
      × (m'.disk l.start 0 ≡ 0)
      × ((c : ℕ) → Home l c → m'.disk c ≡ committed l m c)
      × ((c : ℕ) → Home l c → reboot l.start l.size m'.disk c ≡ committed l m c)
unfolding commit write_log install_trans logged
commit_durable l m r = elim (Bool-cases (ltb 0 (length l.lh))) [
  | inl some_blocks ↦ rw some_blocks (refl, m4_clean l m r, m4-Home l m r, m4_reboot l m r)
  | inr no_blocks ↦ rw no_blocks (
    empty no_blocks,
    r.clean,
    λ c a. unchanged no_blocks c,
    λ c a.
        reboot-clean l.start l.size m.disk (omega (arith, r.fits)) r.clean c a
        ∙ unchanged no_blocks c,
  )
]
  where
    empty : ltb 0 (length l.lh) ≡ false → l.lh ≡ []
    empty = lh_empty l.lh

    unchanged : ltb 0 (length l.lh) ≡ false → (c : ℕ) → m.disk c ≡ committed l m c
    unchanged e c = ap (λ bs. replayed (contents m) m.disk bs c) (sym (empty e))

-- A crash in the recovery does no harm: a restart from any disk that the recovery leaves behind
-- finds, outside the log, what a restart from the first disk finds, if the header lists blocks
-- outside the log that fit it and any block that it lists twice has the same contents in both of
-- its log blocks.
pub recover_crash_idempotent :
    (C : ℕ → Block) (l : Log) (d : Disk) (bs : List ℕ)
    → length bs < l.size
    → All (Home l) bs
    → Replays C l.start l.size bs d
    → All
        (λ d'. (c : ℕ) → Home l c → reboot l.start l.size d' c ≡ reboot l.start l.size d c)
        (recover_from_log l (watch (boot d))).1.past
unfolding contents watch boot
recover_crash_idempotent C l d bs fits away r =
    recover_from_log-past C l (watch (boot d)) bs fits away r.listed r.held _ stage
      (λ c a.
        reboot-clean l.start l.size (recover_from_log l (watch (boot d))).1.disk (omega arith)
          (recover_from_log-count C l (watch (boot d)) bs fits away r.listed r.held) c a
        ∙ recover_from_log-replayed C l (watch (boot d)) bs fits away r.listed r.held c a
        ∙ sym (once c a))
      (λ c a. refl, tt)
  where
    once : (c : ℕ) → Home l c → reboot l.start l.size d c ≡ replayed C d bs c
    once = reboot-replayed C l.start l.size bs d fits away r

    stage :
        (d' : Disk)
        → ((c : ℕ) → l.start ≤ c → c < l.start + l.size → d' c ≡ d c)
        → ((c : ℕ) → logged c bs ≡ false → d' c ≡ d c)
        → (c : ℕ) → Home l c
        → reboot l.start l.size d' c ≡ reboot l.start l.size d c
    stage d' e o c a =
        reboot-replayed C l.start l.size bs d' fits away again c a ∙ same ∙ sym (once c a)
      where
        again : Replays C l.start l.size bs d'
        again = record {
          listed = ap header_list (e l.start (omega arith) (omega arith)) ∙ r.listed;
          held =
              Holds-cong C C d d' (l.start + 1) bs (All-map (λ x h. refl) bs away)
                (λ c p q. e c (omega arith) (omega arith)) r.held;
        }

        same : replayed C d' bs c ≡ replayed C d bs c
        same = elim (Bool-cases (logged c bs)) [ inl t ↦ rw t | inr f ↦ rw f (o c f) ]
