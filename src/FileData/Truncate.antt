-- ===== src/FileData/Truncate.antt =====
-- itrunc: the blocks of a file are free afterwards, and no others.
use computer_system.Prelude.{
  ℕ, ◌+◌, ◌≤◌, ◌<◌, ◌≡◌, ◌≢◌, refl, ◌∙◌, sym, ap, inl, inr, Bool, true, false, not, ◌&&◌, ◌||◌,
  update, update_self, update_ne, ltb, ◌==◌, ==_iff, Bool-cases, arith,
}
use mathlib.Core.Path.{subst}
use computer_system.Bitmap.{Disk}
use computer_system.Inode.{
  ndirect, nindirect, Inode, Fs, Result, ok, panics, sleeps, with_disk, with_copy, set_addr, word,
  iupdate,
}
use computer_system.Inode.Trunc.{trunc_indirect, itrunc}
use computer_system.Inode.Blocks.{IsKept}
use computer_system.Inode.File.{addrs_of, block_of, block_of_high, addrs_of-set_addr, word_same}
use computer_system.FileData.Owned.{Owns}
use computer_system.FileData.Cleared.{
  Cleared, Cleared-trans, Cleared-IsKept, Cleared-same, bfree-Cleared, listed, not_listed,
  IsFreeable,
}
use computer_system.FileData.Freed.{Emptied, trunc_list-Cleared, trunc_direct-Cleared}

-- The disk block c is one of the file's, or lists them.
abbrev pub holds_block : Fs → ℕ → ℕ → Bool
holds_block fs ip c =
    let top = addrs_of fs ip ndirect in
    listed (addrs_of fs ip) 0 ndirect c
    || not (top == 0) && (listed (word fs.disk top) 0 nindirect c || top == c)

-- How itrunc may end.
abbrev pub Truncates : Fs → ℕ → Result Fs → Type 0
Truncates fs ip (ok fs') =
    ((k : ℕ) → k ≤ ndirect → addrs_of fs' ip k ≡ 0)
    × (((fs'.inode ip).copy).size ≡ 0)
    × (fs'.dinode ((fs'.inode ip).inum) ≡ (fs'.inode ip).copy)
    × ((k : ℕ) → k ≢ ip → fs'.inode k ≡ fs.inode k)
    × ((fs'.inode ip).ref ≡ (fs.inode ip).ref)
    × Cleared fs.sb fs.disk fs'.disk (holds_block fs ip)
Truncates fs ip panics = ⊥
Truncates fs ip sleeps = ⊥

-- The end of itrunc.
closes :
    (fs : Fs) (ip : ℕ) (f' : ℕ → Inode) (d' : Disk)
    → ((k : ℕ) → k ≤ ndirect → ((f' ip).copy).addrs k ≡ 0)
    → ((k : ℕ) → k ≢ ip → f' k ≡ fs.inode k)
    → (f' ip).ref ≡ (fs.inode ip).ref
    → Cleared fs.sb fs.disk d' (holds_block fs ip)
    → Truncates fs ip (
        ok (
          iupdate
            (with_copy
              (record fs { inode = f'; disk = d' })
              ip
              (record ((f' ip).copy) { size = 0 }))
            ip))
unfolding iupdate
closes fs ip f' d' zeros others ref c =
    let self = update_self f' ip (record (f' ip) { copy = record ((f' ip).copy) { size = 0 } }) in
    (
      λ k h. ap (λ v. (v.copy).addrs k) self ∙ zeros k h,
      ap (λ v. (v.copy).size) self,
      update_self fs.dinode _ _,
      λ k ne. update_ne f' ip _ k (λ q. ne (sym q)) ∙ others k ne,
      ap (λ v. v.ref) self ∙ ref,
      c,
    )

-- The blocks of the file, by number and by where they are listed.
module _ (fs : Fs) (ip : ℕ) (owns : Owns fs ip) where
  low : (k : ℕ) → k < ndirect → block_of fs ip k ≡ addrs_of fs ip k
  low k lt = let l : ltb k ndirect ≡ true = ground (arith, lt) in rw l refl

  direct-IsFreeable : IsFreeable fs.sb fs.disk (addrs_of fs ip) 0 ndirect
  direct-IsFreeable = record {
    kept = λ k l r h.
        let at = low k (omega arith) in
        subst (IsKept fs.sb fs.disk) at (owns.kept k (omega arith) (λ z. h (sym at ∙ z)));
    once = λ k k' l r l' r' ne h q.
        let at = low k (omega arith) in
        owns.apart k k' (omega arith) (omega arith) ne (λ z. h (sym at ∙ z))
          (at ∙ q ∙ sym (low k' (omega arith)));
  }

  module _ (top : addrs_of fs ip ndirect ≢ 0) where
    high : (j : ℕ) → block_of fs ip (ndirect + j) ≡ word fs.disk (addrs_of fs ip ndirect) j
    high j = block_of_high fs ip j top

    list-IsFreeable :
        (d1 : Disk)
        → Cleared fs.sb fs.disk d1 (listed (addrs_of fs ip) 0 ndirect)
        → IsFreeable fs.sb d1 (word fs.disk (addrs_of fs ip ndirect)) 0 nindirect
    list-IsFreeable d1 c1 = record {
      kept = λ k l r h.
          Cleared-IsKept fs.sb fs.disk d1 _ (word fs.disk (addrs_of fs ip ndirect) k) c1
            (not_listed (addrs_of fs ip) 0 ndirect _ (λ j l' r' h' q.
              owns.apart j (ndirect + k) (omega arith) (omega arith) (omega arith)
                (λ z. h' (sym (low j (omega arith)) ∙ z)) (low j (omega arith) ∙ q ∙ sym (high k))))
            (subst (IsKept fs.sb fs.disk) (high k)
              (owns.kept (ndirect + k) (omega arith) (λ z. h (sym (high k) ∙ z))));
      once = λ k k' l r l' r' ne h q.
          owns.apart (ndirect + k) (ndirect + k') (omega arith) (omega arith) (omega arith)
            (λ z. h (sym (high k) ∙ z)) (high k ∙ q ∙ sym (high k'));
    }

    -- The list itself is still in use behind the loops.
    list-IsKept :
        (d1 d2 : Disk)
        → Cleared fs.sb fs.disk d1 (listed (addrs_of fs ip) 0 ndirect)
        → Cleared fs.sb d1 d2 (listed (word fs.disk (addrs_of fs ip ndirect)) 0 nindirect)
        → IsKept fs.sb d2 (addrs_of fs ip ndirect)
    list-IsKept d1 d2 c1 c2 =
        Cleared-IsKept fs.sb d1 d2 _ (addrs_of fs ip ndirect) c2
          (not_listed (word fs.disk (addrs_of fs ip ndirect)) 0 nindirect _ (λ j l r h q.
            owns.no_list (ndirect + j) (omega arith) (λ z. h (sym (high j) ∙ z)) (high j ∙ q)))
          (Cleared-IsKept fs.sb fs.disk d1 _ (addrs_of fs ip ndirect) c1
            (not_listed (addrs_of fs ip) 0 ndirect _ (λ j l r h q.
              owns.no_list j (omega arith) (λ z. h (sym (low j (omega arith)) ∙ z))
                (low j (omega arith) ∙ q)))
            ((owns.file).list top))

trunc_indirect-Cleared :
    (fs : Fs) (ip : ℕ) (f' : ℕ → Inode) (d1 : Disk)
    → Owns fs ip
    → Cleared fs.sb fs.disk d1 (listed (addrs_of fs ip) 0 ndirect)
    → Emptied fs f' ip (addrs_of fs ip) 0 ndirect
    → (f'' : ℕ → Inode) × (d' : Disk) × (trunc_indirect (record fs { inode = f'; disk = d1 }) ip
        ≡ ok (record fs { inode = f''; disk = d' }))
      × ((k : ℕ) → k ≤ ndirect → ((f'' ip).copy).addrs k ≡ 0)
      × ((k : ℕ) → k ≢ ip → f'' k ≡ fs.inode k)
      × ((f'' ip).ref ≡ (fs.inode ip).ref)
      × Cleared fs.sb fs.disk d' (holds_block fs ip)
unfolding trunc_indirect
trunc_indirect-Cleared fs ip f' d1 owns c1 m =
    let a : ℕ → ℕ = addrs_of fs ip in
    let w : ℕ → ℕ = word fs.disk (a ndirect) in
    let fs1 : Fs = record fs { inode = f'; disk = d1 } in
    let at : ((f' ip).copy).addrs ndirect ≡ a ndirect = m.same ndirect (omega arith) in
    elim (Bool-cases (a ndirect == 0)) [
      | inl z ↦ (
        f',
        d1,
        rw (at, z) refl,
        λ k h. elim (Bool-cases (k == ndirect)) [
          | inl q ↦ ap (λ x. ((f' ip).copy).addrs x) ((==_iff _ _).0 q) ∙ at ∙ (==_iff _ _).0 z
          | inr q ↦ m.zeros k (omega arith) (ground (arith, q))
        ],
        m.others,
        m.ref,
        Cleared-same fs.sb fs.disk d1 _ _ (λ c. no_top (listed a 0 ndirect c) (a ndirect == 0) _ z)
            c1,
      )
      | inr nz ↦
          let top : a ndirect ≢ 0 = ground (arith, nz) in
          let apart = ((owns.file).list top).apart in
          let (d2, e2, c2) =
            trunc_list-Cleared nindirect fs1 (a ndirect) 0 w apart
              (λ k. word_same fs.disk d1 (a ndirect) k (c1.rest (a ndirect) apart))
              (list-IsFreeable fs ip owns top d1 c1) in
          let (d3, e3, c3) =
            bfree-Cleared fs.sb d2 (a ndirect) (list-IsKept fs ip owns top d1 d2 c1 c2) in
          let fs3 : Fs = set_addr (with_disk fs1 d3) ip ndirect 0 in
          let now : (k : ℕ) → addrs_of fs3 ip k ≡ update (((f' ip).copy).addrs) ndirect 0 k =
            λ k. ap (λ g. g k) (addrs_of-set_addr (with_disk fs1 d3) ip ndirect 0) in
          (
            fs3.inode,
            d3,
            rw (at, nz, e2, e3) refl,
            λ k h. elim (Bool-cases (k == ndirect)) [
              | inl q ↦
                  let eq : k ≡ ndirect = (==_iff _ _).0 q in
                  ap (λ x. addrs_of fs3 ip x) eq
                  ∙ now ndirect
                  ∙ update_self (((f' ip).copy).addrs) ndirect 0
              | inr q ↦
                  let ne : ndirect ≢ k = ground (arith, q) in
                  now k
                  ∙ update_ne (((f' ip).copy).addrs) ndirect 0 k ne
                  ∙ m.zeros k (omega arith) (ground (arith, ne))
            ],
            λ k ne. update_ne f' ip _ k (λ q. ne (sym q)) ∙ m.others k ne,
            ap (λ v. v.ref) (update_self f' ip _) ∙ m.ref,
            Cleared-same fs.sb fs.disk d3 _ _
                (λ c. with_top (listed a 0 ndirect c) (a ndirect == 0) _ nz)
                (Cleared-trans fs.sb fs.disk d1 d3 _ _ c1 (Cleared-trans fs.sb d1 d2 d3 _ _ c2 c3)),
          )
    ]
  where
    no_top : (p z q : Bool) → z ≡ true → p ≡ (p || not z && q)
    no_top true z q e = refl
    no_top false z q e = rw e refl

    with_top : (p z q : Bool) → z ≡ false → (p || q) ≡ (p || not z && q)
    with_top p z q e = rw e refl

-- itrunc of a file that owns its blocks never panics: it frees each block of the file and the list of them,
-- and no other block; the file has no block and size 0, the inode on the disk is the one in memory, its
-- references are as before, and other inodes are untouched. No block is changed but those of the bitmap.
pub itrunc-Truncates : (fs : Fs) (ip : ℕ) → Owns fs ip → Truncates fs ip (itrunc fs ip)
unfolding itrunc
itrunc-Truncates fs ip owns =
    let (f', d1, e1, c1, m) =
      trunc_direct-Cleared ndirect fs ip 0 (addrs_of fs ip) (λ k h. refl)
        (direct-IsFreeable fs ip owns) in
    let (f'', d', e2, zeros, others, ref, c) = trunc_indirect-Cleared fs ip f' d1 owns c1 m in
    rw (e1, e2) (closes fs ip f'' d' zeros others ref c)
