-- ===== src/FileData/Freed.antt =====
-- The loops of itrunc free the blocks that they find.
use computer_system.Prelude.{
  ℕ, zero, suc, ◌+◌, ◌≤◌, ◌<◌, ◌≡◌, ◌≢◌, refl, ◌∙◌, sym, ap, inl, inr, true, false, ◌||◌, update,
  update_self, update_ne, ◌==◌, ==_iff, Bool-cases, arith,
}
use computer_system.Bitmap.{Disk, Superblock, bblock}
use computer_system.Inode.{Inode, Fs, ok, with_disk, set_addr, word}
use computer_system.Inode.Trunc.{trunc_direct, trunc_list}
use computer_system.Inode.File.{addrs_of, addrs_of-set_addr, word_same}
use computer_system.FileData.Cleared.{
  Cleared, Cleared-refl, Cleared-trans, Cleared-IsKept, Cleared-same, bfree-Cleared, listed,
  IsFreeable,
}

-- What is left after the first.
rest-IsFreeable :
    (sb : Superblock) (d d' : Disk) (a : ℕ → ℕ) (i n : ℕ)
    → IsFreeable sb d a i (suc n)
    → a i ≢ 0
    → Cleared sb d d' (λ c. a i == c)
    → IsFreeable sb d' a (i + 1) n
rest-IsFreeable sb d d' a i n f ne c = record {
  kept = λ k l r h.
      Cleared-IsKept sb d d' (λ x. a i == x) (a k) c
        (differs (a i) (a k)
          (f.once i k (omega arith) (omega arith) (omega arith) (omega arith) (omega arith) ne))
        (f.kept k (omega arith) (omega arith) h);
  once =
      λ k k' l r l' r' d h. f.once k k' (omega arith) (omega arith) (omega arith) (omega arith) d h;
}
  where
    differs : (x y : ℕ) → x ≢ y → (x == y) ≡ false
    differs x y ne = ground (arith, ne)

next-IsFreeable :
    (sb : Superblock) (d : Disk) (a : ℕ → ℕ) (i n : ℕ)
    → IsFreeable sb d a i (suc n)
    → IsFreeable sb d a (i + 1) n
next-IsFreeable sb d a i n f = record {
  kept = λ k l r h. f.kept k (omega arith) (omega arith) h;
  once =
      λ k k' l r l' r' d h. f.once k k' (omega arith) (omega arith) (omega arith) (omega arith) d h;
}

listed_none :
    (a : ℕ → ℕ) (i n c : ℕ) → (a i == 0) ≡ true → listed a (i + 1) n c ≡ listed a i (suc n) c
listed_none a i n c z = rw z refl

listed_one :
    (a : ℕ → ℕ) (i n c : ℕ)
    → (a i == 0) ≡ false
    → (a i == c || listed a (i + 1) n c) ≡ listed a i (suc n) c
listed_one a i n c nz = rw nz refl

pub trunc_list-Cleared :
    (n : ℕ) (fs : Fs) (block j : ℕ) (a : ℕ → ℕ)
    → ((b : ℕ) → b < (fs.sb).size → bblock fs.sb b ≢ block)
    → ((k : ℕ) → word fs.disk block k ≡ a k)
    → IsFreeable fs.sb fs.disk a j n
    → (d' : Disk) × (trunc_list n fs block j ≡ ok (with_disk fs d'))
      × Cleared fs.sb fs.disk d' (listed a j n)
unfolding trunc_list
trunc_list-Cleared zero fs block j a apart words f = (fs.disk, refl, Cleared-refl fs.sb fs.disk)
trunc_list-Cleared (suc n) fs block j a apart words f = elim (Bool-cases (a j == 0)) [
  | inl z ↦
      let (d', e, c) =
        trunc_list-Cleared n fs block (j + 1) a apart words
          (next-IsFreeable fs.sb fs.disk a j n f) in
      (d', rw (words j, z) e, Cleared-same fs.sb fs.disk d' _ _ (λ x. listed_none a j n x z) c)
  | inr nz ↦
      let ne : a j ≢ 0 = ground (arith, nz) in
      let (d1, e, c1) =
        bfree-Cleared fs.sb fs.disk (a j) (f.kept j (omega arith) (omega arith) ne) in
      let (d2, e2, c2) =
        trunc_list-Cleared n (with_disk fs d1) block (j + 1) a apart
          (λ k. word_same fs.disk d1 block k (c1.rest block apart) ∙ words k)
          (rest-IsFreeable fs.sb fs.disk d1 a j n f ne c1) in
      (
        d2,
        rw (words j, nz, e) e2,
        Cleared-same fs.sb fs.disk d2 _ _ (λ x. listed_one a j n x nz)
            (Cleared-trans fs.sb fs.disk d1 d2 (λ c. a j == c) (listed a (j + 1) n) c1 c2),
      )
]

-- The inode after its first entries are set to 0.
pub record Emptied (fs : Fs) (f' : ℕ → Inode) (ip : ℕ) (a : ℕ → ℕ) (i n : ℕ) : Type 0 where
  pub zeros : (k : ℕ) → i ≤ k → k < i + n → ((f' ip).copy).addrs k ≡ 0
  pub same : (k : ℕ) → i + n ≤ k → ((f' ip).copy).addrs k ≡ a k
  pub before : (k : ℕ) → k < i → ((f' ip).copy).addrs k ≡ addrs_of fs ip k
  pub others : (k : ℕ) → k ≢ ip → f' k ≡ fs.inode k
  pub ref : (f' ip).ref ≡ (fs.inode ip).ref

pub trunc_direct-Cleared :
    (n : ℕ) (fs : Fs) (ip i : ℕ) (a : ℕ → ℕ)
    → ((k : ℕ) → i ≤ k → addrs_of fs ip k ≡ a k)
    → IsFreeable fs.sb fs.disk a i n
    → (f' : ℕ → Inode) × (d' : Disk) × (trunc_direct n fs ip i
        ≡ ok (record fs { inode = f'; disk = d' }))
      × Cleared fs.sb fs.disk d' (listed a i n)
      × Emptied fs f' ip a i n
unfolding trunc_direct
trunc_direct-Cleared zero fs ip i a at f = (
  fs.inode,
  fs.disk,
  refl,
  Cleared-refl fs.sb fs.disk,
  record {
    zeros = λ k l r. absurd (omega arith);
    same = λ k h. at k (omega arith);
    before = λ k h. refl;
    others = λ k ne. refl;
    ref = refl;
  },
)
trunc_direct-Cleared (suc n) fs ip i a at f = elim (Bool-cases (a i == 0)) [
  | inl z ↦
      let here : addrs_of fs ip i ≡ a i = at i (omega arith) in
      let (f', d', e, c, m) =
        trunc_direct-Cleared n fs ip (i + 1) a (λ k h. at k (omega arith))
          (next-IsFreeable fs.sb fs.disk a i n f) in
      (
        f',
        d',
        rw (here, z) e,
        Cleared-same fs.sb fs.disk d' _ _ (λ x. listed_none a i n x z) c,
        record {
          zeros = λ k l r. elim (Bool-cases (k == i)) [
            | inl q ↦
                let eq : k ≡ i = (==_iff _ _).0 q in
                ap (λ x. ((f' ip).copy).addrs x) eq
                ∙ m.before i (omega arith)
                ∙ here
                ∙ (==_iff _ _).0 z
            | inr q ↦ m.zeros k (ground (arith, q)) (omega arith)
          ];
          same = λ k h. m.same k (omega arith);
          before = λ k h. m.before k (omega arith);
          others = m.others;
          ref = m.ref;
        },
      )
  | inr nz ↦
      let here : addrs_of fs ip i ≡ a i = at i (omega arith) in
      let ne : a i ≢ 0 = ground (arith, nz) in
      let (d1, e, c1) =
        bfree-Cleared fs.sb fs.disk (a i) (f.kept i (omega arith) (omega arith) ne) in
      let fs1 : Fs = set_addr (with_disk fs d1) ip i 0 in
      let now : (k : ℕ) → addrs_of fs1 ip k ≡ update (addrs_of fs ip) i 0 k =
        λ k. ap (λ g. g k) (addrs_of-set_addr (with_disk fs d1) ip i 0) in
      let (f', d', e2, c2, m) =
        trunc_direct-Cleared n fs1 ip (i + 1) a
          (λ k h. now k ∙ update_ne (addrs_of fs ip) i 0 k (omega arith) ∙ at k (omega arith))
          (rest-IsFreeable fs.sb fs.disk d1 a i n f ne c1) in
      (
        f',
        d',
        rw (here, nz, e) e2,
        Cleared-same fs.sb fs.disk d' _ _ (λ x. listed_one a i n x nz)
            (Cleared-trans fs.sb fs.disk d1 d' (λ c. a i == c) (listed a (i + 1) n) c1 c2),
        record {
          zeros = λ k l r. elim (Bool-cases (k == i)) [
            | inl q ↦
                let eq : k ≡ i = (==_iff _ _).0 q in
                ap (λ x. ((f' ip).copy).addrs x) eq
                ∙ m.before i (omega arith)
                ∙ now i
                ∙ update_self (addrs_of fs ip) i 0
            | inr q ↦ m.zeros k (ground (arith, q)) (omega arith)
          ];
          same = λ k h. m.same k (omega arith);
          before = λ k h.
              m.before k (omega arith) ∙ now k ∙ update_ne (addrs_of fs ip) i 0 k (omega arith);
          others = λ k q. m.others k q ∙ update_ne fs.inode ip _ k (λ s. q (sym s));
          ref = m.ref ∙ ap (λ v. v.ref) (update_self fs.inode ip _);
        },
      )
]
