-- ===== src/Inode/Map.antt =====
-- bmap: a file's block numbers as a map to disk blocks.
use computer_system.Prelude.{
  ℕ, ◌+◌, ◌-◌, ◌≡◌, ◌≢◌, refl, ◌∙◌, sym, ◌⊎◌, inl, inr, true, Option, none, some, ltb, ◌==◌, ==_iff,
  Bool-cases, Option-cases, arith,
}
use mathlib.Core.Path.{subst}
use computer_system.Bitmap.{Disk, balloc}
use computer_system.Inode.{
  ndirect, nindirect, Fs, Result, ok, panics, sleeps, and_then, or_panic, with_disk, set_addr, word,
  set_word, addr_of, indirect_of, bmap,
}
use computer_system.Inode.Blocks.{IsKept, Gives, balloc-Gives}
use computer_system.Inode.File.{
  addrs_of, block_of, IsFile, Extends, Extends-refl, Extends-trans, block_of_high, block_of_none,
}
use computer_system.Inode.Grown.{Bmaps, grown, grown_self, new_list, Bmaps-direct, Bmaps-listed}

indirect_of-Bmaps :
    (fs : Fs) (ip j : ℕ)
    → IsFile fs ip
    → addrs_of fs ip ndirect ≢ 0
    → Bmaps fs ip (ndirect + j) (indirect_of j (addrs_of fs ip ndirect, fs))
unfolding indirect_of
indirect_of-Bmaps fs ip j file top =
    elim (Bool-cases (word fs.disk (addrs_of fs ip ndirect) j == 0)) [
      | inr there ↦ rw there (
        file,
        ground arith,
        block_of_high fs ip j top,
        λ bn ne. refl,
        inl (λ z. ground (arith, z, block_of_high fs ip j top), refl),
        Extends-refl fs ip,
      )
      | inl missing ↦ rw missing (go (balloc fs.sb fs.disk) refl ((==_iff _ _).0 missing))
    ]
  where
    go :
        (o : Option (ℕ × Disk))
        → balloc fs.sb fs.disk ≡ o
        → word fs.disk (addrs_of fs ip ndirect) j ≡ 0
        → Bmaps fs ip (ndirect + j) (
            and_then
              (or_panic o)
              (λ r. ok (r.0, with_disk fs (set_word r.1 (addrs_of fs ip ndirect) j r.0))))
    go none e z = inr (block_of_high fs ip j top ∙ z, inl e)
    go (some (r, d')) e z =
        Bmaps-listed fs ip j r d' file top z (balloc-Gives fs.sb fs.disk r d' file.sound e)

-- A new list before, which leaves every block's place.
Bmaps-before :
    (fs fs1 : Fs) (ip bn : ℕ) (o : Result (ℕ × Fs))
    → ((bn' : ℕ) → block_of fs1 ip bn' ≡ block_of fs ip bn')
    → block_of fs ip bn ≡ 0
    → addrs_of fs ip ndirect ≡ 0
    → ¬ IsKept fs.sb fs.disk (addrs_of fs1 ip ndirect)
    → addrs_of fs1 ip ndirect ≢ 0
    → Extends fs fs1 ip
    → (balloc fs1.sb fs1.disk ≡ none
        → (r : ℕ) × (d' : Disk) × (balloc fs.sb fs.disk ≡ some (r, d')) × (balloc fs.sb d' ≡ none))
    → Bmaps fs1 ip bn o
    → Bmaps fs ip bn o
Bmaps-before fs fs1 ip bn (ok (a, fs')) same z old free there f full
      (file, ne, at, others, inl (was, q), e) =
    absurd (was (same bn ∙ z))
Bmaps-before fs fs1 ip bn (ok (a, fs')) same z old free there f full
      (file, ne, at, others, inr (was, n), e) =
    (
      file,
      ne,
      at,
      λ bn' d. others bn' d ∙ same bn',
      inr (z, record { kept = n.kept; free = λ k. n.free (f.keep a k); no_list = n.no_list }),
      Extends-trans fs fs1 fs' ip old free (same_list e.top) f e,
    )
  where
    same_list :
        (addrs_of fs' ip ndirect ≡ addrs_of fs1 ip ndirect)
          ⊎ ((addrs_of fs1 ip ndirect ≡ 0) × ¬ IsKept fs1.sb fs1.disk (addrs_of fs' ip ndirect))
        → addrs_of fs' ip ndirect ≡ addrs_of fs1 ip ndirect
    same_list (inl q) = q
    same_list (inr (q, n)) = absurd (there q)
Bmaps-before fs fs1 ip bn panics same z old free there f full (inl h) = inl h
Bmaps-before fs fs1 ip bn panics same z old free there f full (inr (h, inl e)) =
    let (r, d', b, n) = full e in inr (z, inr (old, r, d', b, n))
Bmaps-before fs fs1 ip bn panics same z old free there f full (inr (h, inr (q, r, d', b, n))) =
    absurd (there q)
Bmaps-before fs fs1 ip bn sleeps same z old free there f full h = h

addr_of-cases :
    (fs : Fs) (ip k : ℕ)
    → ((addrs_of fs ip k ≢ 0) × (addr_of fs ip k ≡ ok (addrs_of fs ip k, fs)))
      ⊎ ((addrs_of fs ip k ≡ 0)
          × (((balloc fs.sb fs.disk ≡ none) × (addr_of fs ip k ≡ panics))
              ⊎ ((r : ℕ) × (d' : Disk) × (balloc fs.sb fs.disk ≡ some (r, d'))
                  × (addr_of fs ip k ≡ ok (r, set_addr (with_disk fs d') ip k r)))))
unfolding addr_of
addr_of-cases fs ip k = elim (Bool-cases (addrs_of fs ip k == 0)) [
  | inr there ↦ inl (ground arith, rw there refl)
  | inl missing ↦ inr (
    (==_iff _ _).0 missing,
    elim (Option-cases (balloc fs.sb fs.disk)) [
      | inl full ↦ inl (full, rw (missing, full) refl)
      | inr ((r, d'), e) ↦ inr (r, d', e, rw (missing, e) refl)
    ],
  )
]

-- The first block that a file's list gets.
Bmaps-first :
    (fs : Fs) (ip j r : ℕ) (d' : Disk)
    → IsFile fs ip
    → addrs_of fs ip ndirect ≡ 0
    → balloc fs.sb fs.disk ≡ some (r, d')
    → Gives fs.sb fs.disk r d'
    → Bmaps fs ip (ndirect + j) (indirect_of j (r, grown fs ip ndirect r d'))
Bmaps-first fs ip j r d' file z b g =
    let fs1 : Fs = grown fs ip ndirect r d' in
    let top : addrs_of fs1 ip ndirect ≡ r = grown_self fs ip ndirect r d' file z g in
    let new = new_list fs ip ndirect r d' file z g refl in
    Bmaps-before fs fs1 ip (ndirect + j) _ new.1 (block_of_none fs ip j z) z new.2
      (λ e. g.there (sym top ∙ e)) new.3 (λ e. (r, d', b, e))
      (subst (λ q. Bmaps fs1 ip (ndirect + j) (indirect_of j (q, fs1))) top
        (indirect_of-Bmaps fs1 ip j new.0 (λ e. g.there (sym top ∙ e))))

-- bmap of a block number below MAXFILE, for a file whose list of blocks is in use, returns the disk
-- block that the file has there, changing nothing, or else a new one, not in use before, after
-- which the file has it there. The other blocks of the file stay where they are, a block in use
-- stays in use, with its contents if it is not the list of the blocks of the file, and the other
-- inodes stay as they are. It never returns 0, keeps the bitmap marked, and panics only for a
-- number from MAXFILE on or where the file has no block there and balloc finds no free block, or
-- finds one for the list of the blocks of the file and none after it.
pub bmap-Bmaps : (fs : Fs) (ip bn : ℕ) → IsFile fs ip → Bmaps fs ip bn (bmap fs ip bn)
unfolding bmap
bmap-Bmaps fs ip bn file = elim (Bool-cases (ltb bn ndirect)) [
  | inl low ↦ rw low (elim (addr_of-cases fs ip bn) [
    | inl (ne, e) ↦
        rw e (file, ne, rw low refl, λ bn' n. refl, inl (rw low ne, refl), Extends-refl fs ip)
    | inr (z, inl (full, e)) ↦ rw e (inr (rw low z, inl full))
    | inr (z, inr (r, d', b, e)) ↦ rw e (
        Bmaps-direct fs ip bn r d' file z (balloc-Gives fs.sb fs.disk r d' file.sound b)
          (ground arith))
  ])
  | inr high ↦ rw high (elim (Bool-cases (ltb (bn - ndirect) nindirect)) [
    | inr past ↦ rw past (inl (ground arith))
    | inl inside ↦
        let at : ndirect + (bn - ndirect) ≡ bn = ground arith in
        rw inside (elim (addr_of-cases fs ip ndirect) [
          | inl (ne, e) ↦ rw e (
              subst (λ b. Bmaps fs ip b (indirect_of (bn - ndirect) (addrs_of fs ip ndirect, fs)))
                at (indirect_of-Bmaps fs ip (bn - ndirect) file ne))
          | inr (z, inl (full, e)) ↦
              let none_there : (addrs_of fs ip ndirect == 0) ≡ true = ground arith in
              rw e (inr (rw (high, none_there) refl, inl full))
          | inr (z, inr (r, d', b, e)) ↦ rw e (
              subst (λ q. Bmaps fs ip q (indirect_of (bn - ndirect) (r, grown fs ip ndirect r d')))
                at
                (Bmaps-first fs ip (bn - ndirect) r d' file z b
                  (balloc-Gives fs.sb fs.disk r d' file.sound b)))
        ])
  ])
]
