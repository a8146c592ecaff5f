-- ===== src/Log/Pins.antt =====
-- The reference counts of the buffers that the log code pins.
use computer_system.Prelude.{
  ℕ, ◌+◌, ◌-◌, ◌%◌, ◌<◌, ◌≡◌, refl, ◌∙◌, sym, ap, inl, inr, true, false, ==_iff, List, [], ◌∷◌,
  length, ◌==◌, if◌then◌else◌, Bool-cases, arith, ltb,
}
use mathlib.Core.Path.{subst}
use computer_system.Buffers.{Disk, Buffers, word_mod, contents, boot, bread}
use computer_system.Log.{
  Log, logged, read_head, write_head, log_block, write_log_from, install_block, install_from,
  install_trans, write_log, recover_from_log, initlog, commit,
}
use computer_system.Log.Header.{header_list}
use computer_system.Log.Recover.{lh-read_head}
use computer_system.Log.Atomic.{lh_empty}

-- Every count is a uint.
abbrev pub Fits : Buffers → Type 0
Fits m = (c : ℕ) → m.refcnt c < word_mod

-- The counts after c has given up a reference.
abbrev pub dropped : ℕ → ℕ
dropped n = (n + word_mod - 1) % word_mod

write_head-refcnt :
    (l : Log) (m : Buffers) → Fits m → (c : ℕ) → (write_head l m).refcnt c ≡ m.refcnt c
unfolding write_head bread
write_head-refcnt l m f c = ground (arith, f c)

read_head-refcnt :
    (l : Log) (m : Buffers) → Fits m → (c : ℕ) → (read_head l m).1.refcnt c ≡ m.refcnt c
unfolding read_head bread
read_head-refcnt l m f c = ground (arith, f c)

log_block-refcnt :
    (m : Buffers) (to b : ℕ) → Fits m → (c : ℕ) → (log_block m to b).refcnt c ≡ m.refcnt c
unfolding log_block bread
log_block-refcnt m to b f c = ground (arith, f c)

install_block-refcnt :
    (m : Buffers) (from b : ℕ)
    → Fits m
    → (c : ℕ)
    → (install_block m from b).refcnt c ≡ (if b == c then dropped (m.refcnt c) else m.refcnt c)
unfolding install_block bread
install_block-refcnt m from b f c = ground (arith, f c)

Fits-log_block : (m : Buffers) (to b : ℕ) → Fits m → Fits (log_block m to b)
Fits-log_block m to b f c = rw (log_block-refcnt m to b f c) (f c)

Fits-install_block : (m : Buffers) (from b : ℕ) → Fits m → Fits (install_block m from b)
Fits-install_block m from b f c = ground (arith, install_block-refcnt m from b f c, f c)

write_log_from-refcnt :
    (m : Buffers) (to : ℕ) (bs : List ℕ)
    → Fits m
    → (c : ℕ) → (write_log_from m to bs).refcnt c ≡ m.refcnt c
unfolding write_log_from
write_log_from-refcnt m to [] f c = refl
write_log_from-refcnt m to (b ∷ bs) f c =
    write_log_from-refcnt (log_block m to b) (to + 1) bs (Fits-log_block m to b f) c
    ∙ log_block-refcnt m to b f c

-- No block stands twice in the list.
abbrev pub Distinct : List ℕ → Type 0
Distinct [] = Unit
Distinct (b ∷ bs) = (logged b bs ≡ false) × Distinct bs

install_from-refcnt :
    (m : Buffers) (from : ℕ) (bs : List ℕ)
    → Fits m
    → Distinct bs
    → (c : ℕ)
    → (install_from m from bs).refcnt c ≡ (if logged c bs then dropped (m.refcnt c) else m.refcnt c)
unfolding install_from logged
install_from-refcnt m from [] f d c = refl
install_from-refcnt m from (b ∷ bs) f d c =
    install_from-refcnt (install_block m from b) (from + 1) bs (Fits-install_block m from b f) d.1 c
    ∙ rw (install_block-refcnt m from b f c)
        (elim (Bool-cases (b == c)) [ inl t ↦ rw (t, absent t) | inr e ↦ rw e ])
  where
    absent : (b == c) ≡ true → logged c bs ≡ false
    absent t = subst (λ x. logged x bs ≡ false) ((==_iff b c).0 t) d.0

-- The counts are the same.
abbrev SameCounts : Buffers → Buffers → Type 0
SameCounts m m' = (c : ℕ) → m'.refcnt c ≡ m.refcnt c

-- install_trans and the write of the header after it, from buffers with the counts of `m`.
installs_drop :
    (l : Log) (m m2 : Buffers) (from : ℕ) (bs : List ℕ)
    → Fits m
    → SameCounts m m2
    → Distinct bs
    → (c : ℕ)
    → (write_head l (install_from m2 from bs)).refcnt c
      ≡ (if logged c bs then dropped (m.refcnt c) else m.refcnt c)
installs_drop l m m2 from bs f e d c =
    write_head-refcnt l (install_from m2 from bs) (λ x. rw (after x) (fits x)) c ∙ after c
  where
    after :
        (x : ℕ)
        → (install_from m2 from bs).refcnt x
          ≡ (if logged x bs then dropped (m.refcnt x) else m.refcnt x)
    after x =
        install_from-refcnt m2 from bs (λ y. rw (e y) (f y)) d x
        ∙ ap (λ n. if logged x bs then dropped n else n) (e x)

    fits : (x : ℕ) → (if logged x bs then dropped (m.refcnt x) else m.refcnt x) < word_mod
    fits x = ground (arith, f x)

-- A commit gives back the pin that log_write took on each block of the transaction, and no other
-- reference, if the list in memory names each block once.
pub commit_unpins :
    (l : Log) (m : Buffers)
    → Fits m
    → Distinct l.lh
    → (c : ℕ)
    → (commit l m).1.refcnt c ≡ (if logged c l.lh then dropped (m.refcnt c) else m.refcnt c)
unfolding commit write_log install_trans logged
commit_unpins l m f d c = elim (Bool-cases (ltb 0 (length l.lh))) [
  | inl t ↦
      rw t (installs_drop (record l { lh = [] }) m (write_head l m1) (l.start + 1) l.lh f same d c)
  | inr e ↦ rw (e, lh_empty l.lh e)
]
  where
    m1 : Buffers
    m1 = write_log_from m (l.start + 1) l.lh

    logs : SameCounts m m1
    logs = write_log_from-refcnt m (l.start + 1) l.lh f

    same : SameCounts m (write_head l m1)
    same x = write_head-refcnt l m1 (λ y. rw (logs y) (f y)) x ∙ logs x

-- The recovery at boot drops a reference to each block that it installs though none was taken: no
-- buffer is pinned, and the count of each such buffer ends at 2^32 - 1, if the header names each
-- block once.
pub recover_drops_pins :
    (start size : ℕ) (d : Disk)
    → Distinct (header_list (d start))
    → (c : ℕ)
    → (initlog start size (boot d)).1.refcnt c
      ≡ (if logged c (header_list (d start)) then word_mod - 1 else 0)
unfolding initlog recover_from_log install_trans contents boot
recover_drops_pins start size d distinct c =
    subst
      (λ bs.
        (write_head erased (install_from (read_head l (boot d)).1 from bs)).refcnt c
        ≡ (if logged c (header_list (d start)) then word_mod - 1 else 0))
      (sym (lh-read_head l (boot d)))
      (installs_drop erased (boot d) (read_head l (boot d)).1 from (header_list (d start))
        (λ x. omega arith) (read_head-refcnt l (boot d) (λ x. omega arith)) distinct c)
  where
    l : Log
    l = record { start = start; size = size; outstanding = 0; committing = false; lh = [] }

    erased : Log
    erased = record (read_head l (boot d)).0 { lh = [] }

    from : ℕ
    from = (read_head l (boot d)).0.start + 1
