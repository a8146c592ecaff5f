-- ===== src/FileData/Discard.antt =====
-- iput: the last reference to a file that no directory names.
use computer_system.Prelude.{
  ℕ, ◌≡◌, ◌≢◌, refl, ◌∙◌, sym, ap, inl, inr, Bool, true, false, not, ◌&&◌, ◌||◌, Option, none, some,
  update, update_self, update_ne, ◌==◌, Bool-cases, arith,
}
use computer_system.Inode.{
  ndirect, nindirect, Inode, Fs, Result, ok, panics, sleeps, and_then, with_inode, with_copy, word,
  acquire_inode, iupdate, unlocked,
}
use computer_system.Inode.Trunc.{itrunc, discard, drop_ref, iput}
use computer_system.FileData.Owned.{Owns}
use computer_system.FileData.Close.{Owns-readdressed}
use computer_system.FileData.Cleared.{Cleared, Cleared-same, listed}
use computer_system.FileData.Truncate.{holds_block, Truncates, itrunc-Truncates}

-- The inode is free, on the disk and in the cache, and so are the blocks of the file, but no others.
pub record Discards (fs fs' : Fs) (ip : ℕ) : Type 0 where
  pub blocks : Cleared fs.sb fs.disk fs'.disk (holds_block fs ip)
  pub on_disk : (fs'.dinode ((fs'.inode ip).inum)).type ≡ 0
  pub unused : (fs'.inode ip).ref ≡ 0
  pub invalid : (fs'.inode ip).valid ≡ false
  pub free : (fs'.inode ip).holder ≡ none
  pub others : (k : ℕ) → k ≢ ip → fs'.inode k ≡ fs.inode k

-- The end of iput, behind itrunc.
abbrev freed : Fs → ℕ → Fs
freed fs2 ip =
    let fs3 = iupdate (with_copy fs2 ip (record ((fs2.inode ip).copy) { type = 0 })) ip in
    unlocked (with_inode fs3 ip (record (fs3.inode ip) { valid = false })) ip

abbrev discarded : Fs → ℕ → Fs
discarded fs2 ip = drop_ref (freed fs2 ip) ip

discarded-Discards :
    (fs fs2 : Fs) (ip : ℕ)
    → Cleared fs.sb fs.disk fs2.disk (holds_block fs ip)
    → (fs2.inode ip).ref ≡ 1
    → ((k : ℕ) → k ≢ ip → fs2.inode k ≡ fs.inode k)
    → Discards fs (discarded fs2 ip) ip
unfolding iupdate
discarded-Discards fs fs2 ip c one others =
    let self : (ip == ip) ≡ true = ground arith in
    let same : ((fs2.inode ip).inum == (fs2.inode ip).inum) ≡ true = ground arith in
    record {
      blocks = c;
      on_disk = rw (self, same) refl;
      unused = rw (self, one) refl;
      invalid = rw self refl;
      free = rw self refl;
      others = λ k ne. let other : (ip == k) ≡ false = ground (arith, ne) in rw other (others k ne);
    }

-- The inode has no links, and the reference is the last one.
abbrev pub is_last : Fs → ℕ → Bool
is_last fs ip = let i = fs.inode ip in i.ref == 1 && i.valid && (i.copy).nlink == 0

-- How iput may end.
abbrev pub Puts : Fs → ℕ → Bool → Result Fs → Type 0
Puts fs ip false o = o ≡ ok (drop_ref fs ip)
Puts fs ip true (ok fs') = Discards fs fs' ip
Puts fs ip true panics = ⊥
Puts fs ip true sleeps = (fs.inode ip).holder ≢ none

locked-Puts :
    (fs : Fs) (pid ip : ℕ) (o : Result Fs)
    → (fs.inode ip).ref ≡ 1
    → Truncates (with_inode fs ip (record (fs.inode ip) { holder = some pid })) ip o
    → Puts fs ip true
        (and_then (and_then o (λ fs2. ok (freed fs2 ip))) (λ fs1. ok (drop_ref fs1 ip)))
locked-Puts fs pid ip panics one t = t
locked-Puts fs pid ip sleeps one t = absurd t
locked-Puts fs pid ip (ok fs2) one (zeros, size, saved, others, ref, c) =
    let i : Inode = record (fs.inode ip) { holder = some pid } in
    let fs1 : Fs = with_inode fs ip i in
    let self : fs1.inode ip ≡ i = update_self fs.inode ip i in
    discarded-Discards fs fs2 ip
      (Cleared-same fs.sb fs.disk fs2.disk (holds_block fs1 ip) (holds_block fs ip)
        (λ x.
          ap
            (λ v.
              let a = (v.copy).addrs in
              listed a 0 ndirect x
              || not (a ndirect == 0)
                && (listed (word fs.disk (a ndirect)) 0 nindirect x || a ndirect == x))
            self)
        c)
      (ref ∙ ap (λ v. v.ref) self ∙ one)
      (λ k ne. others k ne ∙ update_ne fs.inode ip i k (λ q. ne (sym q)))

abbrev locked : Fs → ℕ → ℕ → Fs
locked fs pid ip = with_inode fs ip (record (fs.inode ip) { holder = some pid })

acquire_free :
    (fs : Fs) (pid ip : ℕ)
    → (fs.inode ip).holder ≡ none
    → acquire_inode fs pid ip ≡ ok (locked fs pid ip)
unfolding acquire_inode
acquire_free fs pid ip e = go ((fs.inode ip).holder) e
  where
    go :
        (h : Option ℕ)
        → h ≡ none
        → (elim h [ none ↦ ok (locked fs pid ip) | some p ↦ sleeps ]) ≡ ok (locked fs pid ip)
    go none q = refl
    go (some p) q = ground (arith, q)

acquire_held :
    (fs : Fs) (pid ip p : ℕ) → (fs.inode ip).holder ≡ some p → acquire_inode fs pid ip ≡ sleeps
unfolding acquire_inode
acquire_held fs pid ip p e = go ((fs.inode ip).holder) e
  where
    go :
        (h : Option ℕ)
        → h ≡ some p
        → (elim h [ none ↦ ok (locked fs pid ip) | some r ↦ sleeps ]) ≡ sleeps
    go none q = ground (arith, q)
    go (some r) q = refl

-- iput of an inode whose file owns its blocks never panics. It only takes a reference away, but from an inode
-- with no links and no other reference: it frees the blocks of the file and no others, and the inode on the
-- disk and in the cache; it waits there only where a process holds the inode's lock.
pub iput-Puts : (fs : Fs) (pid ip : ℕ) → Owns fs ip → Puts fs ip (is_last fs ip) (iput fs pid ip)
unfolding iput discard
iput-Puts fs pid ip owns = elim (Bool-cases (is_last fs ip)) [
  | inr n ↦ rw n refl
  | inl y ↦ rw y (go ((fs.inode ip).holder) refl (ground (arith, y)))
]
  where
    go :
        (h : Option ℕ)
        → (fs.inode ip).holder ≡ h
        → (fs.inode ip).ref ≡ 1
        → Puts fs ip true (and_then (discard fs pid ip) (λ fs1. ok (drop_ref fs1 ip)))
    go none e one =
        let i : Inode = record (fs.inode ip) { holder = some pid } in
        let owns1 : Owns (locked fs pid ip) ip =
          Owns-readdressed fs fs ip (update fs.inode ip i) fs.dinode
            (ap (λ v. (v.copy).addrs) (update_self fs.inode ip i)) owns in
        rw (acquire_free fs pid ip e) (
          locked-Puts fs pid ip (itrunc (locked fs pid ip) ip) one
            (itrunc-Truncates (locked fs pid ip) ip owns1))
    go (some p) e one = rw (acquire_held fs pid ip p e) (λ q. ground (arith, sym e ∙ q))
