-- ===== src/Inode/Grown.antt =====
-- The two ways in which bmap gives a file a block: an entry of its inode, and one of its list.
use computer_system.Prelude.{
  ℕ, ◌+◌, ◌-◌, ◌*◌, ◌≤◌, ◌<◌, ◌≡◌, ◌≢◌, refl, ◌∙◌, sym, ap, ◌⊎◌, inl, inr, true, false, none, some,
  update_self, update_ne, ltb, ◌==◌, ==_iff, if◌then◌else◌, Bool-cases, arith,
}
use mathlib.Core.Path.{subst}
use computer_system.Bitmap.{Disk, bit_of, balloc}
use computer_system.Inode.{
  ndirect, nindirect, Fs, Result, ok, panics, sleeps, with_disk, set_addr, word, set_word,
}
use computer_system.Inode.Blocks.{word-set_word, IsKept, Gives}
use computer_system.Inode.File.{
  addrs_of, block_of, IsFile, Extends, IsNew, addrs_of-set_addr, word_same, block_of_high,
  IsDisk-update, IsKept-update,
}

-- balloc finds no free block, or finds one for the file's list, which it had not, and none after it.
abbrev pub NoBlock : Fs → ℕ → Type 0
NoBlock fs ip =
    (balloc fs.sb fs.disk ≡ none)
    ⊎ ((addrs_of fs ip ndirect ≡ 0)
        × (r : ℕ) × (d' : Disk) × (balloc fs.sb fs.disk ≡ some (r, d'))
        × (balloc fs.sb d' ≡ none))

-- How bmap may end.
abbrev pub Bmaps : Fs → ℕ → ℕ → Result (ℕ × Fs) → Type 0
Bmaps fs ip bn (ok (a, fs')) =
    IsFile fs' ip
    × (a ≢ 0)
    × (block_of fs' ip bn ≡ a)
    × ((bn' : ℕ) → bn' ≢ bn → block_of fs' ip bn' ≡ block_of fs ip bn')
    × (((block_of fs ip bn ≢ 0) × (fs' ≡ fs)) ⊎ ((block_of fs ip bn ≡ 0) × IsNew fs fs' ip a))
    × Extends fs fs' ip
Bmaps fs ip bn panics = (ndirect + nindirect ≤ bn) ⊎ ((block_of fs ip bn ≡ 0) × NoBlock fs ip)
Bmaps fs ip bn sleeps = ⊥

abbrev pub grown : Fs → ℕ → ℕ → ℕ → Disk → Fs
grown fs ip k r d' = set_addr (with_disk fs d') ip k r

module _ (fs : Fs) (ip k r : ℕ) (d' : Disk) (file : IsFile fs ip)
    (zero_there : addrs_of fs ip k ≡ 0) (g : Gives fs.sb fs.disk r d') where
  abbrev enlarged : Fs
  enlarged = grown fs ip k r d'

  addrs_grown : (k' : ℕ) → addrs_of enlarged ip k' ≡ (if k == k' then r else addrs_of fs ip k')
  addrs_grown k' = ap (λ f. f k') (addrs_of-set_addr (with_disk fs d') ip k r)

  grown_ne : (k' : ℕ) → k' ≢ k → addrs_of enlarged ip k' ≡ addrs_of fs ip k'
  grown_ne k' ne = addrs_grown k' ∙ ground arith

  pub grown_self : addrs_of enlarged ip k ≡ r
  grown_self = addrs_grown k ∙ ground arith

  Extends-enlarged :
      (addrs_of enlarged ip ndirect ≡ addrs_of fs ip ndirect)
        ⊎ ((addrs_of fs ip ndirect ≡ 0) × ¬ IsKept fs.sb fs.disk (addrs_of enlarged ip ndirect))
      → Extends fs enlarged ip
  Extends-enlarged top = record {
    keep = λ x kept. (g.kept x kept).0;
    same = λ x kept ne. (g.kept x kept).1;
    top = top;
    others = λ i ne. update_ne fs.inode ip _ i (λ e. ne (sym e));
    inum = ap (λ v. v.inum) (update_self fs.inode ip _);
    dev = ap (λ v. v.dev) (update_self fs.inode ip _);
    type = ap (λ v. (v.copy).type) (update_self fs.inode ip _);
    size = ap (λ v. (v.copy).size) (update_self fs.inode ip _);
    dinode = refl;
    sb = refl;
  }

  not-IsKept : ¬ IsKept fs.sb fs.disk r
  not-IsKept kept = kept.used g.free

  -- A new direct block.
  pub Bmaps-direct : k < ndirect → Bmaps fs ip k (ok (r, enlarged))
  Bmaps-direct lt =
      let top : addrs_of enlarged ip ndirect ≡ addrs_of fs ip ndirect =
        grown_ne ndirect (omega arith) in
      let low : ltb k ndirect ≡ true = ground arith in
      (
        record {
          sound = g.sound;
          list =
              λ ne. subst (IsKept fs.sb d') (sym top) (g.kept _ (file.list (λ z. ne (top ∙ z)))).0;
        },
        g.there,
        rw low grown_self,
        λ bn ne. elim (Bool-cases (ltb bn ndirect)) [
          | inl l ↦ rw l (grown_ne bn ne)
          | inr h ↦
              rw (h, top)
                (elim (Bool-cases (addrs_of fs ip ndirect == 0)) [
                  | inl z ↦ rw z refl
                  | inr nz ↦ rw nz (
                      word_same fs.disk d' _ (bn - ndirect) (g.kept _ (file.list (ground arith))).1)
                ])
        ],
        inr (
          rw low zero_there,
          record {
            kept = g.new;
            free = not-IsKept;
            no_list = λ e. elim (Bool-cases (addrs_of fs ip ndirect == 0)) [
              | inl z ↦ g.there (e ∙ top ∙ (==_iff _ _).0 z)
              | inr nz ↦
                  not-IsKept
                    (subst (IsKept fs.sb fs.disk) (sym (e ∙ top)) (file.list (ground arith)))
            ];
          },
        ),
        Extends-enlarged (inl top),
      )

  -- A new indirect block lists nothing.
  pub new_list :
      k ≡ ndirect
      → IsFile enlarged ip
        × ((bn : ℕ) → block_of enlarged ip bn ≡ block_of fs ip bn)
        × (¬ IsKept fs.sb fs.disk (addrs_of enlarged ip ndirect))
        × Extends fs enlarged ip
  new_list e =
      let top : addrs_of enlarged ip ndirect ≡ r = ap (addrs_of enlarged ip) (sym e) ∙ grown_self in
      let old : addrs_of fs ip ndirect ≡ 0 = ap (addrs_of fs ip) (sym e) ∙ zero_there in
      let nz : (r == 0) ≡ false = ground (arith, g.there) in
      (
        record { sound = g.sound; list = λ ne. subst (IsKept fs.sb d') (sym top) g.new },
        λ bn. elim (Bool-cases (ltb bn ndirect)) [
          | inl l ↦ rw l (grown_ne bn (ground arith))
          | inr h ↦
              rw (h, top, old, nz)
                (rw
                  (
                    g.zeros (4 * (bn - ndirect)),
                    g.zeros (4 * (bn - ndirect) + 1),
                    g.zeros (4 * (bn - ndirect) + 2),
                    g.zeros (4 * (bn - ndirect) + 3),
                  )
                  refl)
        ],
        λ kept. not-IsKept (subst (IsKept fs.sb fs.disk) top kept),
        Extends-enlarged (inr (old, λ kept. not-IsKept (subst (IsKept fs.sb fs.disk) top kept))),
      )

module _ (fs : Fs) (ip j r : ℕ) (d' : Disk) (file : IsFile fs ip) (top : addrs_of fs ip ndirect ≢ 0)
    (zero_there : word fs.disk (addrs_of fs ip ndirect) j ≡ 0) (g : Gives fs.sb fs.disk r d') where
  abbrev listed : Fs
  listed = with_disk fs (set_word d' (addrs_of fs ip ndirect) j r)

  words_now :
      (j' : ℕ)
      → word listed.disk (addrs_of fs ip ndirect) j'
        ≡ (if j == j' then r else word fs.disk (addrs_of fs ip ndirect) j')
  words_now j' =
      word-set_word d' (addrs_of fs ip ndirect) j j' r (omega (arith, g.new.inside, g.sound.small))
      ∙ ap (λ w. if j == j' then r else w)
          (word_same fs.disk d' (addrs_of fs ip ndirect) j' (g.kept _ (file.list top)).1)

  -- A new block in the list.
  pub Bmaps-listed : Bmaps fs ip (ndirect + j) (ok (r, listed))
  Bmaps-listed =
      let kept = (g.kept _ (file.list top)).0 in
      (
        record {
          sound = IsDisk-update fs.sb d' (addrs_of fs ip ndirect) _ kept.apart g.sound;
          list = λ ne. IsKept-update fs.sb d' (addrs_of fs ip ndirect) _ kept.apart _ kept;
        },
        g.there,
        block_of_high listed ip j top ∙ words_now j ∙ ground arith,
        λ bn ne. elim (Bool-cases (ltb bn ndirect)) [
          | inl l ↦ rw l refl
          | inr h ↦
              let other : (j == bn - ndirect) ≡ false = ground arith in
              rw h (
                ap (λ w. if addrs_of fs ip ndirect == 0 then 0 else w)
                  (words_now (bn - ndirect)
                    ∙ ap
                        (λ b. if b then r else word fs.disk (addrs_of fs ip ndirect) (bn - ndirect))
                        other))
        ],
        inr (
          block_of_high fs ip j top ∙ zero_there,
          record {
            kept = IsKept-update fs.sb d' (addrs_of fs ip ndirect) _ kept.apart _ g.new;
            free = λ old. old.used g.free;
            no_list = λ e. (file.list top).used (ap (bit_of fs.sb fs.disk) (sym e) ∙ g.free);
          },
        ),
        record {
          keep =
              λ x k. IsKept-update fs.sb d' (addrs_of fs ip ndirect) _ kept.apart x (g.kept x k).0;
          same = λ x k ne i.
              ap (λ f. f i) (update_ne d' (addrs_of fs ip ndirect) _ x (λ e. ne (sym e)))
              ∙ (g.kept x k).1 i;
          top = inl refl;
          others = λ i ne. refl;
          inum = refl;
          dev = refl;
          type = refl;
          size = refl;
          dinode = refl;
          sb = refl;
        },
      )
