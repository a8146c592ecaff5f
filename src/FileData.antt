-- ===== src/FileData.antt =====
-- kernel/fs.c: readi and writei, a file's bytes over bmap. What either_copyout and either_copyin do with
-- user memory is UserCopy's; here `fails` says at which count of bytes one of them fails, and for
-- either_copyin how many bytes it has stored in the buffer by then.
pub mod Read
pub mod Owned
pub mod Wrote
pub mod Leaves
pub mod Write
pub mod Close
pub mod Round
pub mod Sample
pub mod Cleared
pub mod Freed
pub mod Truncate
pub mod Discard
mod Tests
use computer_system.Prelude.{
  ℕ, zero, suc, ◌+◌, ◌-◌, ◌*◌, ◌/◌, ◌%◌, ◌^◌, min, Bool, true, false, not, ◌||◌, Option, none, some,
  List, [], ◌∷◌, ◌++◌, update, ltb, ◌==◌, if◌then◌else◌, length, take, drop,
}
use computer_system.Bitmap.{bsize, Disk}
use computer_system.Inode.{
  ndirect, nindirect, Fs, Result, ok, panics, sleeps, and_then, with_disk, with_copy, bmap, iupdate,
}

-- bp->data from an offset on.
abbrev pub bytes_at : (ℕ → ℕ) → ℕ → ℕ → List ℕ
bytes_at bytes o zero = []
bytes_at bytes o (suc n) = bytes o ∷ bytes_at bytes (o + 1) n

abbrev pub put_bytes : (ℕ → ℕ) → ℕ → List ℕ → ℕ → ℕ
put_bytes bytes o [] = bytes
put_bytes bytes o (b ∷ bs) = put_bytes (update bytes o b) (o + 1) bs

-- Bytes stored in the buffer of block b.
abbrev pub store_bytes : Fs → ℕ → ℕ → List ℕ → Fs
store_bytes fs b o bs = with_disk fs (update fs.disk b (put_bytes (fs.disk b) o bs))

-- The bytes delivered before those of the following rounds. `none` is out of fuel.
abbrev pub before : List ℕ → Option (Result (List ℕ × Fs)) → Option (Result (List ℕ × Fs))
before bs none = none
before bs (some (ok (cs, fs))) = some (ok (bs ++ cs, fs))
before bs (some panics) = some panics
before bs (some sleeps) = some sleeps

-- What follows bmap in a round.
abbrev pub on_block :
    {A : Type 0} → Result (ℕ × Fs) → (ℕ → Fs → Option (Result A)) → Option (Result A)
on_block (ok (b, fs)) k = k b fs
on_block panics k = some panics
on_block sleeps k = some sleeps

-- The loop of readi: the bytes delivered; tot of them were before.
unfoldable pub read_from : ℕ → Fs → ℕ → ℕ → ℕ → ℕ → (ℕ → Bool) → Option (Result (List ℕ × Fs))
unfolding bmap
read_from zero fs ip off n tot fails = none
read_from (suc fuel) fs ip off n tot fails =
    let m = min (n - tot) (bsize - off % bsize) in
    if not (ltb tot n)
    then some (ok ([], fs))
    else on_block (bmap fs ip (off / bsize)) (λ b fs1.
      if fails tot
      then some (ok ([], fs1))
      else before (bytes_at (fs1.disk b) (off % bsize) m)
          (read_from fuel fs1 ip (off + m) n (tot + m) fails))

unfoldable pub readi : ℕ → Fs → ℕ → ℕ → ℕ → (ℕ → Bool) → Option (Result (List ℕ × Fs))
unfolding read_from
readi fuel fs ip off n fails =
    let size = ((fs.inode ip).copy).size in
    let end : ℕ = (off + n) % 2 ^ 32 in
    if ltb size off || ltb end off
    then some (ok ([], fs))
    else read_from fuel fs ip off (if ltb size end then size - off else n) 0 fails

-- The loop of writei on the bytes of src: the offset that it reaches. A copy that fails has stored
-- the first bytes of its chunk, those of the user pages before the one that it could not find;
-- they are not logged, and last as long as the buffer.
unfoldable pub write_from : ℕ → Fs → ℕ → ℕ → List ℕ → ℕ → (ℕ → Option ℕ) → Option (Result (ℕ × Fs))
unfolding bmap
write_from zero fs ip off src tot fails = none
write_from (suc fuel) fs ip off src tot fails =
    let m = min (length src) (bsize - off % bsize) in
    if length src == 0
    then some (ok (off, fs))
    else on_block (bmap fs ip (off / bsize)) (λ b fs1. elim (fails tot) [
      | some k ↦ some (ok (off, store_bytes fs1 b (off % bsize) (take (min k m) src)))
      | none ↦
          write_from fuel (store_bytes fs1 b (off % bsize) (take m src)) ip (off + m) (drop m src)
            (tot + m) fails
    ])

-- The end of writei: the size, and the inode written back.
abbrev pub close_write : ℕ → ℕ → ℕ × Fs → ℕ × Fs
close_write ip n (off, fs) =
    let c = (fs.inode ip).copy in
    let fs1 = if ltb c.size off then with_copy fs ip (record c { size = off }) else fs in
    (n, if ltb 0 n then iupdate fs1 ip else fs)

-- The result, none for `return -1`, and the state.
unfoldable pub writei : ℕ → Fs → ℕ → ℕ → List ℕ → (ℕ → Option ℕ) → Option (Result (Option ℕ × Fs))
unfolding write_from iupdate
writei fuel fs ip off src fails =
    let size = ((fs.inode ip).copy).size in
    let n = length src in
    let end : ℕ = (off + n) % 2 ^ 32 in
    if ltb size off || ltb end off
    then some (ok (none, fs))
    else if ltb ((ndirect + nindirect) * bsize) end
    then some (ok (none, fs))
    else elim (write_from fuel fs ip off src 0 fails) [
      | none ↦ none
      | some r ↦ some (and_then r (λ w. let (k, fs1) = close_write ip n w in ok (some k, fs1)))
    ]
