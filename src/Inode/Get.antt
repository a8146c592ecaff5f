-- ===== src/Inode/Get.antt =====
-- iget: each inode has one slot of the cache.
use computer_system.Prelude.{
  ℕ, zero, suc, ◌+◌, ◌≤◌, ◌<◌, ◌≡◌, ◌≢◌, refl, ◌∙◌, sym, ap, ◌⊎◌, inl, inr, Bool, true, false,
  Option, none, some, some-injective, update_self, update_ne, ◌==◌, ==_iff, Bool-cases, arith,
}
use mathlib.Core.Path.{subst}
use computer_system.Inode.{
  ninode, Inode, Fs, Result, ok, panics, sleeps, with_inode, caches, Found, cached, recycled,
  first_of, scan, take_slot, iget,
}

-- What the scan of the n slots from i on finds, after `empty`.
abbrev pub Finds : (ℕ → Inode) → ℕ → ℕ → ℕ → ℕ → Option ℕ → Found → Type 0
Finds inode dev inum i n empty (cached j) = (j < i + n) × (caches (inode j) dev inum ≡ true)
Finds inode dev inum i n empty (recycled none) =
    (empty ≡ none)
    × ((k : ℕ) → i ≤ k → k < i + n → (caches (inode k) dev inum ≡ false) × ((inode k).ref ≢ 0))
Finds inode dev inum i n empty (recycled (some e)) =
    ((empty ≡ some e) ⊎ ((e < i + n) × ((inode e).ref ≡ 0)))
    × ((k : ℕ) → i ≤ k → k < i + n → caches (inode k) dev inum ≡ false)

first_of-none :
    (empty : Option ℕ) (i : ℕ) (free : Bool)
    → first_of empty i free ≡ none
    → (empty ≡ none) × (free ≡ false)
first_of-none none i true e = absurd (ground (arith, e))
first_of-none none i false e = (refl, refl)
first_of-none (some x) i free e = absurd (ground (arith, e))

first_of-some :
    (empty : Option ℕ) (i : ℕ) (free : Bool) (e : ℕ)
    → first_of empty i free ≡ some e
    → (empty ≡ some e) ⊎ ((e ≡ i) × (free ≡ true))
first_of-some none i true e h = inr (sym (some-injective _ _ h), refl)
first_of-some none i false e h = absurd (ground (arith, h))
first_of-some (some x) i free e h = inl h

module _ (inode : ℕ → Inode) (dev inum i n : ℕ) (empty : Option ℕ)
    (absent : caches (inode i) dev inum ≡ false) where
  Finds-step :
      (f : Found)
      → Finds inode dev inum (i + 1) n (first_of empty i ((inode i).ref == 0)) f
      → Finds inode dev inum i (suc n) empty f
  Finds-step (cached j) (lt, h) = (omega arith, h)
  Finds-step (recycled none) (e, h) =
      let (e0, used) = first_of-none empty i ((inode i).ref == 0) e in
      (
        e0,
        λ k le lt. elim (Bool-cases (k == i)) [
          | inl here ↦
              let at : k ≡ i = (==_iff k i).0 here in
              (
                ap (λ q. caches (inode q) dev inum) at ∙ absent,
                λ z. ground (arith, used, ap (λ q. (inode q).ref) at),
              )
          | inr away ↦ h k (ground arith) (omega arith)
        ],
      )
  Finds-step (recycled (some e)) (h, all) = (
    slot h,
    λ k le lt. elim (Bool-cases (k == i)) [
      | inl here ↦ ap (λ q. caches (inode q) dev inum) ((==_iff k i).0 here) ∙ absent
      | inr away ↦ all k (ground arith) (omega arith)
    ],
  )
    where
      slot :
          (first_of empty i ((inode i).ref == 0) ≡ some e) ⊎ ((e < i + 1 + n) × ((inode e).ref ≡ 0))
          → (empty ≡ some e) ⊎ ((e < i + suc n) × ((inode e).ref ≡ 0))
      slot (inr (lt, z)) = inr (omega arith, z)
      slot (inl q) = elim (first_of-some empty i ((inode i).ref == 0) e q) [
        | inl before ↦ inl before
        | inr (at, z) ↦ inr (omega arith, ap (λ j. (inode j).ref) at ∙ (==_iff _ _).0 z)
      ]

scan-Finds :
    (n : ℕ) (inode : ℕ → Inode) (dev inum i : ℕ) (empty : Option ℕ)
    → Finds inode dev inum i n empty (scan n inode dev inum i empty)
unfolding scan
scan-Finds zero inode dev inum i none = (refl, λ k le lt. absurd (omega arith))
scan-Finds zero inode dev inum i (some e) = (inl refl, λ k le lt. absurd (omega arith))
scan-Finds (suc n) inode dev inum i empty = elim (Bool-cases (caches (inode i) dev inum)) [
  | inl here ↦ rw here (omega arith, here)
  | inr other ↦ rw other (
      Finds-step inode dev inum i n empty other _
        (scan-Finds n inode dev inum (i + 1) (first_of empty i ((inode i).ref == 0))))
]

-- No two slots in use are of one inode.
abbrev pub OneSlot : Fs → Type 0
OneSlot fs =
    (i j dev inum : ℕ)
    → i < ninode
    → j < ninode
    → caches (fs.inode i) dev inum ≡ true
    → caches (fs.inode j) dev inum ≡ true
    → i ≡ j

slot_self : (fs : Fs) (i : ℕ) (v : Inode) → (with_inode fs i v).inode i ≡ v
slot_self fs i v = update_self fs.inode i v

slot_ne : (fs : Fs) (i : ℕ) (v : Inode) (k : ℕ) → k ≢ i → (with_inode fs i v).inode k ≡ fs.inode k
slot_ne fs i v k ne = update_ne fs.inode i v k (λ e. ne (sym e))

-- A slot changed to what no other caches.
OneSlot-with_inode :
    (fs : Fs) (i : ℕ) (v : Inode)
    → OneSlot fs
    → ((k d n : ℕ) → k < ninode → k ≢ i → caches v d n ≡ true → caches (fs.inode k) d n ≡ true → ⊥)
    → OneSlot (with_inode fs i v)
OneSlot-with_inode fs i v one new j k d n hj hk cj ck = elim (Bool-cases (j == i)) [
  | inl ej ↦ elim (Bool-cases (k == i)) [
    | inl ek ↦ omega (arith, (==_iff j i).0 ej, (==_iff k i).0 ek)
    | inr nk ↦
        let ne : k ≢ i = ground arith in
        absurd (
          new k d n hk ne
            (subst (λ q. caches q d n ≡ true)
              (ap ((with_inode fs i v).inode) ((==_iff j i).0 ej) ∙ slot_self fs i v) cj)
            (subst (λ q. caches q d n ≡ true) (slot_ne fs i v k ne) ck))
  ]
  | inr nj ↦
      let ne : j ≢ i = ground arith in
      elim (Bool-cases (k == i)) [
        | inl ek ↦ absurd (
            new j d n hj ne
              (subst (λ q. caches q d n ≡ true)
                (ap ((with_inode fs i v).inode) ((==_iff k i).0 ek) ∙ slot_self fs i v) ck)
              (subst (λ q. caches q d n ≡ true) (slot_ne fs i v j ne) cj))
        | inr nk ↦
            let ne' : k ≢ i = ground arith in
            one j k d n hj hk (subst (λ q. caches q d n ≡ true) (slot_ne fs i v j ne) cj)
              (subst (λ q. caches q d n ≡ true) (slot_ne fs i v k ne') ck)
      ]
]

-- How iget may end.
abbrev pub Gets : Fs → ℕ → ℕ → Result (ℕ × Fs) → Type 0
Gets fs dev inum (ok (i, fs')) =
    (i < ninode)
    × (caches (fs'.inode i) dev inum ≡ true)
    × ((caches (fs.inode i) dev inum ≡ true)
          × ((fs'.inode i).ref ≡ (fs.inode i).ref + 1)
          × ((fs'.inode i).valid ≡ (fs.inode i).valid)
        ⊎ ((fs.inode i).ref ≡ 0) × ((fs'.inode i).ref ≡ 1) × ((fs'.inode i).valid ≡ false))
    × ((k : ℕ) → k ≢ i → fs'.inode k ≡ fs.inode k)
    × OneSlot fs'
Gets fs dev inum panics =
    (k : ℕ) → k < ninode → (caches (fs.inode k) dev inum ≡ false) × ((fs.inode k).ref ≢ 0)
Gets fs dev inum sleeps = ⊥

-- One more reference to a slot in use.
abbrev one_more : Inode → Inode
one_more v = record v { ref = v.ref + 1 }

abbrev taken : Inode → ℕ → ℕ → Inode
taken v dev inum = record v { dev = dev; inum = inum; ref = 1; valid = false }

one_more-caches :
    (v : Inode) (dev inum d n : ℕ)
    → caches v dev inum ≡ true
    → caches (one_more v) d n ≡ caches v d n
one_more-caches v dev inum d n h = ground arith

taken-caches :
    (v : Inode) (dev inum d n : ℕ) → caches (taken v dev inum) d n ≡ true → (d ≡ dev) × (n ≡ inum)
taken-caches v dev inum d n h = ground arith

-- iget returns a slot of the inode: the one that caches it, with one more reference, or, where there is
-- none, a free one with one reference, not valid yet. No other slot changes, and still no two are of one
-- inode. It panics just when no slot is of the inode and none is free.
pub iget-Gets : (fs : Fs) (dev inum : ℕ) → OneSlot fs → Gets fs dev inum (iget fs dev inum)
unfolding iget take_slot
iget-Gets fs dev inum one =
    go (scan ninode fs.inode dev inum 0 none) (scan-Finds ninode fs.inode dev inum 0 none)
  where
    go :
        (f : Found)
        → Finds fs.inode dev inum 0 ninode none f
        → Gets fs dev inum (take_slot fs dev inum f)
    go (cached i) (lt, h) = (
      lt,
      ap (λ q. caches q dev inum) (slot_self fs i (one_more (fs.inode i)))
          ∙ one_more-caches (fs.inode i) dev inum dev inum h
          ∙ h,
      inl (
        h,
        ap (λ q. q.ref) (slot_self fs i (one_more (fs.inode i))),
        ap (λ q. q.valid) (slot_self fs i (one_more (fs.inode i))),
      ),
      λ k ne. slot_ne fs i (one_more (fs.inode i)) k ne,
      OneSlot-with_inode fs i (one_more (fs.inode i)) one (λ k d n hk ne c c'.
          ne (one k i d n hk lt c' (sym (one_more-caches (fs.inode i) dev inum d n h) ∙ c))),
    )
    go (recycled none) (e, h) = λ k lt. h k (omega arith) (omega arith)
    go (recycled (some i)) (inl e, h) = absurd (ground (arith, e))
    go (recycled (some i)) (inr (lt, z), h) = (
      omega arith,
      ap (λ q. caches q dev inum) (slot_self fs i (taken (fs.inode i) dev inum)) ∙ ground arith,
      inr (
        z,
        ap (λ q. q.ref) (slot_self fs i (taken (fs.inode i) dev inum)),
        ap (λ q. q.valid) (slot_self fs i (taken (fs.inode i) dev inum)),
      ),
      λ k ne. slot_ne fs i (taken (fs.inode i) dev inum) k ne,
      OneSlot-with_inode fs i (taken (fs.inode i) dev inum) one (λ k d n hk ne c c'.
          clash k d n hk c' (taken-caches (fs.inode i) dev inum d n c)
            (h k (omega arith) (omega arith))),
    )
      where
        clash :
            (k d n : ℕ)
            → k < ninode
            → caches (fs.inode k) d n ≡ true
            → (d ≡ dev) × (n ≡ inum)
            → caches (fs.inode k) dev inum ≡ false
            → ⊥
        clash k d n hk c (ed, en) absent = ground (arith, c, absent, ed, en)
