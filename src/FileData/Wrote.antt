-- ===== src/FileData/Wrote.antt =====
-- What a store of bytes into a file is: the bytes are there, and the others are as before.
use computer_system.Prelude.{
  ℕ, zero, suc, ◌+◌, ◌*◌, ◌/◌, ◌%◌, ◌≤◌, ◌<◌, ◌≡◌, ◌≢◌, refl, ◌∙◌, sym, ap, ap₂, ◌⊎◌, inl, inr,
  List, [], ◌∷◌, ◌++◌, length, length-append, update, update_self, update_ne, ◌==◌, ==_iff, ltb,
  Bool-cases, arith,
}
use computer_system.Bitmap.{bsize}
use computer_system.Inode.{Fs, ok, with_disk}
use computer_system.Inode.File.{block_of}
use computer_system.Inode.Grown.{Bmaps}
use computer_system.FileData.{bytes_at, put_bytes}
use computer_system.FileData.Read.{file_byte, file_bytes, file_bytes-append, file_bytes_block}
use computer_system.FileData.Owned.{maxfile, Owns, Owns-bmap, block_of-stored, Owns-stored}

pub put_bytes_out :
    (f : ℕ → ℕ) (o : ℕ) (xs : List ℕ) (i : ℕ)
    → (i < o) ⊎ (o + length xs ≤ i)
    → put_bytes f o xs i ≡ f i
put_bytes_out f o [] i h = refl
put_bytes_out f o (x ∷ xs) i h =
    put_bytes_out (update f o x) (o + 1) xs i
      (elim h [ inl l ↦ inl (omega arith) | inr r ↦ inr (omega arith) ])
    ∙ update_ne f o x i (elim h [ inl l ↦ omega arith | inr r ↦ omega arith ])

bytes_at-put_bytes :
    (f : ℕ → ℕ) (o : ℕ) (xs : List ℕ) → bytes_at (put_bytes f o xs) o (length xs) ≡ xs
bytes_at-put_bytes f o [] = refl
bytes_at-put_bytes f o (x ∷ xs) =
    ap₂ (λ a b. a ∷ b)
      (put_bytes_out (update f o x) (o + 1) xs o (inl (omega arith)) ∙ update_self f o x)
      (bytes_at-put_bytes (update f o x) (o + 1) xs)

-- Files that agree on a range.
pub file_bytes_same :
    (fs fs' : Fs) (ip off n : ℕ)
    → ((o : ℕ) → off ≤ o → o < off + n → file_byte fs' ip o ≡ file_byte fs ip o)
    → file_bytes fs' ip off n ≡ file_bytes fs ip off n
file_bytes_same fs fs' ip off zero h = refl
file_bytes_same fs fs' ip off (suc n) h =
    ap₂ (λ a b. a ∷ b) (h off (omega arith) (omega arith))
      (file_bytes_same fs fs' ip (off + 1) n (λ o l r. h o (omega arith) (omega arith)))

-- The bytes src stand at off; a byte elsewhere that the file had is the same, and no block is lost.
pub record Wrote (fs fs' : Fs) (ip off : ℕ) (src : List ℕ) : Type 0 where
  pub owns : Owns fs' ip
  pub bytes : file_bytes fs' ip off (length src) ≡ src
  pub others :
      (o : ℕ)
      → o < maxfile * bsize
      → block_of fs ip (o / bsize) ≢ 0
      → (o < off) ⊎ (off + length src ≤ o)
      → file_byte fs' ip o ≡ file_byte fs ip o
  pub stays : (bn : ℕ) → bn < maxfile → block_of fs ip bn ≢ 0 → block_of fs' ip bn ≢ 0
  pub there : (o : ℕ) → off ≤ o → o < off + length src → block_of fs' ip (o / bsize) ≢ 0

pub Wrote-none : (fs : Fs) (ip off : ℕ) → Owns fs ip → Wrote fs fs ip off []
Wrote-none fs ip off owns = record {
  owns = owns;
  bytes = refl;
  others = λ o lt h out. refl;
  stays = λ bn lt h. h;
  there = λ o l r. absurd (omega arith);
}

-- One store after the other.
pub Wrote-append :
    (fs fs1 fs2 : Fs) (ip off mid : ℕ) (xs ys : List ℕ)
    → mid ≡ off + length xs
    → mid ≤ maxfile * bsize
    → Wrote fs fs1 ip off xs
    → Wrote fs1 fs2 ip mid ys
    → Wrote fs fs2 ip off (xs ++ ys)
Wrote-append fs fs1 fs2 ip off mid xs ys m fits a b =
    let len : length (xs ++ ys) ≡ length xs + length ys = length-append xs ys in
    record {
      owns = b.owns;
      bytes =
          ap (file_bytes fs2 ip off) len
          ∙ file_bytes-append fs2 ip off (length xs) (length ys)
          ∙ ap₂ (λ p q. p ++ q)
              (file_bytes_same fs1 fs2 ip off (length xs)
                  (λ o l r. b.others o (omega arith) (a.there o l r) (inl (omega arith)))
                ∙ a.bytes)
              (ap (λ o. file_bytes fs2 ip o (length ys)) (sym m) ∙ b.bytes);
      others = λ o lt h out.
          b.others o lt (a.stays (o / bsize) (omega arith) h)
            (elim out [ inl l ↦ inl (omega arith) | inr r ↦ inr (omega arith) ])
          ∙ a.others o lt h (elim out [ inl l ↦ inl l | inr r ↦ inr (omega arith) ]);
      stays = λ bn lt h. b.stays bn lt (a.stays bn lt h);
      there = λ o l r. elim (Bool-cases (ltb o mid)) [
        | inl e ↦ b.stays (o / bsize) (ground arith) (a.there o l (ground arith))
        | inr e ↦ b.there o (ground arith) (omega arith)
      ];
    }

-- bmap stores nothing.
pub Wrote-bmap :
    (fs fs' : Fs) (ip off bn a : ℕ)
    → Owns fs ip
    → Bmaps fs ip bn (ok (a, fs'))
    → Wrote fs fs' ip off []
Wrote-bmap fs fs' ip off bn a owns h =
    let (owns', old) = Owns-bmap fs fs' ip bn a owns h in
    record {
      owns = owns';
      bytes = refl;
      others = λ o lt there out.
          let (at, same) = old (o / bsize) (omega arith) there in
          ap (λ b. fs'.disk b (o % bsize)) at ∙ same (o % bsize);
      stays = λ bn' lt there z. there (sym (old bn' lt there).0 ∙ z);
      there = λ o l r. absurd (omega arith);
    }

-- Bytes within a block of the file.
pub Wrote-block :
    (fs : Fs) (ip bn o : ℕ) (xs : List ℕ)
    → Owns fs ip
    → bn < maxfile
    → block_of fs ip bn ≢ 0
    → o + length xs ≤ bsize
    → Wrote fs
        (with_disk fs
          (update fs.disk (block_of fs ip bn) (put_bytes (fs.disk (block_of fs ip bn)) o xs)))
        ip
        (bn * bsize + o)
        xs
Wrote-block fs ip bn o xs owns lt h fits =
    let f : ℕ → ℕ = put_bytes (fs.disk (block_of fs ip bn)) o xs in
    let fs' : Fs = with_disk fs (update fs.disk (block_of fs ip bn) f) in
    let at : (bn' : ℕ) → block_of fs' ip bn' ≡ block_of fs ip bn' =
      block_of-stored fs ip bn f owns lt h in
    let here : fs'.disk (block_of fs' ip bn) ≡ f =
      ap fs'.disk (at bn) ∙ update_self fs.disk (block_of fs ip bn) f in
    record {
      owns = Owns-stored fs ip bn f owns lt h;
      bytes =
          file_bytes_block fs' ip bn o (length xs) fits
          ∙ ap (λ g. bytes_at g o (length xs)) here
          ∙ bytes_at-put_bytes (fs.disk (block_of fs ip bn)) o xs;
      others = λ i ilt there out. elim (Bool-cases (i / bsize == bn)) [
        | inl e ↦
            let eq : i / bsize ≡ bn = (==_iff _ _).0 e in
            ap (λ b. fs'.disk (block_of fs' ip b) (i % bsize)) eq
            ∙ ap (λ g. g (i % bsize)) here
            ∙ put_bytes_out _ o xs (i % bsize)
                (elim out [ inl l ↦ inl (omega arith) | inr r ↦ inr (omega arith) ])
            ∙ ap (λ b. fs.disk (block_of fs ip b) (i % bsize)) (sym eq)
        | inr n ↦
            let ne : bn ≢ i / bsize = ground (arith, n) in
            ap (λ b. fs'.disk b (i % bsize)) (at (i / bsize))
            ∙ ap (λ g. g (i % bsize))
                (update_ne fs.disk (block_of fs ip bn) f (block_of fs ip (i / bsize))
                  (owns.apart bn (i / bsize) lt (omega arith) ne h))
      ];
      stays = λ bn' l there z. there (sym (at bn') ∙ z);
      there = λ i l r z.
          let eq : i / bsize ≡ bn = omega arith in
          h (sym (at bn) ∙ ap (block_of fs' ip) (sym eq) ∙ z);
    }
