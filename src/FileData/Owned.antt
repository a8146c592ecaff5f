-- ===== src/FileData/Owned.antt =====
-- A file whose blocks are its own, under bmap and under a store into one of them.
use computer_system.Prelude.{
  ℕ, ◌+◌, ◌-◌, ◌<◌, ◌≡◌, ◌≢◌, refl, ◌∙◌, sym, ap, inl, inr, update, update_ne, ltb, ◌==◌, ==_iff,
  if◌then◌else◌, Bool-cases, arith,
}
use mathlib.Core.Path.{subst}
use computer_system.Inode.{ndirect, nindirect, Fs, ok, with_disk}
use computer_system.Inode.Blocks.{IsKept}
use computer_system.Inode.File.{
  addrs_of, block_of, IsFile, Extends, IsNew, word_same, IsDisk-update, IsKept-update,
}
use computer_system.Inode.Grown.{Bmaps}

abbrev pub maxfile : ℕ
maxfile = ndirect + nindirect

-- Each block of the file is in use, is not its list of blocks, and stands at one place.
pub record Owns (fs : Fs) (ip : ℕ) : Type 0 where
  pub file : IsFile fs ip
  pub kept :
      (bn : ℕ) → bn < maxfile → block_of fs ip bn ≢ 0 → IsKept fs.sb fs.disk (block_of fs ip bn)
  pub no_list :
      (bn : ℕ) → bn < maxfile → block_of fs ip bn ≢ 0 → block_of fs ip bn ≢ addrs_of fs ip ndirect
  pub apart :
      (bn bn' : ℕ)
      → bn < maxfile
      → bn' < maxfile
      → bn ≢ bn'
      → block_of fs ip bn ≢ 0
      → block_of fs ip bn ≢ block_of fs ip bn'

module _ (fs fs' : Fs) (ip bn a : ℕ) (owns : Owns fs ip) (file : IsFile fs' ip) (there : a ≢ 0)
    (at : block_of fs' ip bn ≡ a)
    (others : (bn' : ℕ) → bn' ≢ bn → block_of fs' ip bn' ≡ block_of fs ip bn')
    (new : IsNew fs fs' ip a) (e : Extends fs fs' ip) where
  old_there : (bn' : ℕ) → bn' ≢ bn → block_of fs' ip bn' ≢ 0 → block_of fs ip bn' ≢ 0
  old_there bn' ne h z = h (others bn' ne ∙ z)

  -- An old block is not the new one.
  not_new : (bn' : ℕ) → bn' < maxfile → block_of fs ip bn' ≢ a
  not_new bn' lt q =
      new.free (subst (IsKept fs.sb fs.disk) q (owns.kept bn' lt (λ z. there (sym q ∙ z))))

  not_top :
      (bn' : ℕ)
      → bn' < maxfile
      → block_of fs ip bn' ≢ 0
      → block_of fs ip bn' ≢ addrs_of fs' ip ndirect
  not_top bn' lt h q = elim (e.top) [
    | inl same ↦ owns.no_list bn' lt h (q ∙ same)
    | inr (z, free) ↦ free (subst (IsKept fs.sb fs.disk) q (owns.kept bn' lt h))
  ]

  Owns-new : Owns fs' ip
  Owns-new = record {
    file = file;
    kept = λ bn' lt h. elim (Bool-cases (bn' == bn)) [
      | inl i ↦
          let q : block_of fs' ip bn' ≡ a = ap (block_of fs' ip) ((==_iff _ _).0 i) ∙ at in
          subst (IsKept fs'.sb fs'.disk) (sym q) new.kept
      | inr n ↦
          let ne : bn' ≢ bn = ground (arith, n) in
          subst (IsKept fs'.sb fs'.disk) (sym (others bn' ne))
            (e.keep _ (owns.kept bn' lt (old_there bn' ne h)))
    ];
    no_list = λ bn' lt h q. elim (Bool-cases (bn' == bn)) [
      | inl i ↦ new.no_list (sym at ∙ ap (block_of fs' ip) (sym ((==_iff _ _).0 i)) ∙ q)
      | inr n ↦
          let ne : bn' ≢ bn = ground (arith, n) in
          not_top bn' lt (old_there bn' ne h) (sym (others bn' ne) ∙ q)
    ];
    apart = λ x y ltx lty d h q. elim (Bool-cases (x == bn)) [
      | inl i ↦
          let xb : x ≡ bn = (==_iff _ _).0 i in
          let ne : y ≢ bn = λ yb. d (xb ∙ sym yb) in
          not_new y lty (sym (others y ne) ∙ sym q ∙ ap (block_of fs' ip) xb ∙ at)
      | inr n ↦
          let ne : x ≢ bn = ground (arith, n) in
          elim (Bool-cases (y == bn)) [
            | inl j ↦
                not_new x ltx (sym (others x ne) ∙ q ∙ ap (block_of fs' ip) ((==_iff _ _).0 j) ∙ at)
            | inr m ↦
                let ne' : y ≢ bn = ground (arith, m) in
                owns.apart x y ltx lty d (old_there x ne h) (sym (others x ne) ∙ q ∙ others y ne')
          ]
    ];
  }

-- bmap keeps the file's blocks, their contents, and that they are its own.
pub Owns-bmap :
    (fs fs' : Fs) (ip bn a : ℕ)
    → Owns fs ip
    → Bmaps fs ip bn (ok (a, fs'))
    → Owns fs' ip
      × ((bn' : ℕ)
          → bn' < maxfile
          → block_of fs ip bn' ≢ 0
          → (block_of fs' ip bn' ≡ block_of fs ip bn')
            × ((i : ℕ) → fs'.disk (block_of fs ip bn') i ≡ fs.disk (block_of fs ip bn') i))
Owns-bmap fs fs' ip bn a owns (file, there, at, others, inl (was, q), e) = (
  subst (λ x. Owns x ip) (sym q) owns,
  λ bn' lt h. (ap (λ x. block_of x ip bn') q, λ i. ap (λ x. x.disk (block_of fs ip bn') i) q),
)
Owns-bmap fs fs' ip bn a owns (file, there, at, others, inr (missing, new), e) = (
  Owns-new fs fs' ip bn a owns file there at others new e,
  λ bn' lt h. (
    others bn' (λ q. h (ap (block_of fs ip) q ∙ missing)),
    e.same _ (owns.kept bn' lt h) (owns.no_list bn' lt h),
  ),
)

-- A store into one of the file's blocks.
module _ (fs : Fs) (ip bn : ℕ) (f : ℕ → ℕ) (owns : Owns fs ip) (inside : bn < maxfile)
    (there : block_of fs ip bn ≢ 0) where
  abbrev stored : Fs
  stored = with_disk fs (update fs.disk (block_of fs ip bn) f)

  pub block_of-stored : (bn' : ℕ) → block_of stored ip bn' ≡ block_of fs ip bn'
  block_of-stored bn' = elim (Bool-cases (ltb bn' ndirect)) [
    | inl l ↦ rw l refl
    | inr h ↦ rw h (
        ap (λ w. if addrs_of fs ip ndirect == 0 then 0 else w)
          (word_same fs.disk stored.disk (addrs_of fs ip ndirect) (bn' - ndirect) (λ i.
            ap (λ g. g i)
              (update_ne fs.disk (block_of fs ip bn) f (addrs_of fs ip ndirect)
                (owns.no_list bn inside there)))))
  ]

  pub Owns-stored : Owns stored ip
  Owns-stored =
      let k = owns.kept bn inside there in
      let still = IsKept-update fs.sb fs.disk (block_of fs ip bn) f k.apart in
      record {
        file = record {
          sound = IsDisk-update fs.sb fs.disk (block_of fs ip bn) f k.apart (owns.file).sound;
          list = λ ne. still _ ((owns.file).list ne);
        };
        kept = λ bn' lt h.
            subst (IsKept fs.sb stored.disk) (sym (block_of-stored bn'))
              (still _ (owns.kept bn' lt (λ z. h (block_of-stored bn' ∙ z))));
        no_list = λ bn' lt h q.
            owns.no_list bn' lt (λ z. h (block_of-stored bn' ∙ z)) (sym (block_of-stored bn') ∙ q);
        apart = λ x y ltx lty d h q.
            owns.apart x y ltx lty d (λ z. h (block_of-stored x ∙ z))
              (sym (block_of-stored x) ∙ q ∙ block_of-stored y);
      }
