-- ===== src/Files/Tests.antt =====
-- Runs of kernel/file.c's operations on a table of three slots, and its theorems at them.
use computer_system.Prelude.{
  ℕ, zero, suc, ◌≡◌, ◌<◌, refl, true, false, some, List, [], ◌∷◌, get_elem?, arith,
}
use computer_system.Prelude.Int.{pos, negsuc}
use computer_system.Files.{
  File, fd_none, fd_pipe, fd_inode, filealloc, fileread, filewrite, write_chunks, Writei, returns,
}
use computer_system.Files.Refs.{count, IsCounted, allocates, Step-IsCounted}
use computer_system.Files.Transfer.{Writes, filewrite-Writes}

abbrev blank : File
blank = record {
  type = fd_none;
  ref = 0;
  readable = false;
  writable = false;
  pipe = 0;
  ip = 0;
  off = 0;
  major = pos 0;
}

-- The write end of pipe 4, held twice.
abbrev pipe_end : File
pipe_end = record blank { type = fd_pipe; ref = 2; writable = true; pipe = 4 }

abbrev on_disk : File
on_disk = record blank { type = fd_inode; ref = 1; readable = true; writable = true; off = 100 }

abbrev table : List File
table = pipe_end ∷ blank ∷ on_disk ∷ []

abbrev handles : List ℕ
handles = 0 ∷ 2 ∷ 0 ∷ []

table-IsCounted : IsCounted table handles
table-IsCounted = record { counted = counts; there = places }
  where
    counts : (s : ℕ) (f : File) → get_elem? table s ≡ some f → f.ref ≡ count s handles
    counts s f e = ground arith

    places : (s : ℕ) → 0 < count s handles → (f : File) × (get_elem? table s ≡ some f)
    places zero p = (pipe_end, refl)
    places (suc zero) p = (blank, refl)
    places (suc (suc zero)) p = (on_disk, refl)
    places (suc (suc (suc s))) p = absurd (ground arith)

second_slot : filealloc table ≡ some (1, pipe_end ∷ record blank { ref = 1 } ∷ on_disk ∷ [])
unfolding filealloc
second_slot = refl

Step-IsCounted_example :
    IsCounted (pipe_end ∷ record blank { ref = 1 } ∷ on_disk ∷ []) (1 ∷ handles)
Step-IsCounted_example = Step-IsCounted table-IsCounted (allocates 1 second_slot)

-- A disk that takes every chunk whole.
abbrev willing : Writei
willing off i n = pos n

filewrite-Writes_example :
    Writes willing 5000 on_disk 0 (filewrite 5001 (pos 0) [] willing on_disk 5000)
filewrite-Writes_example =
    filewrite-Writes 5001 (pos 0) [] willing on_disk 5000 refl refl (omega arith) (omega arith)

two_chunks :
    filewrite 3 (pos 0) [] willing on_disk 5000 ≡ returns (pos 5000) (record on_disk { off = 5100 })
unfolding filewrite write_chunks
two_chunks = refl

read_of_write_end : fileread (pos 7) [] (λ off. pos 7) pipe_end ≡ returns (negsuc 0) pipe_end
unfolding fileread
read_of_write_end = refl
