-- ===== src/Files.antt =====
-- kernel/file.c: the table of open files and its reference counts, and reading and writing through
-- an open file. A call to a pipe, a device, an inode or copyout is an argument.
pub mod Refs
pub mod Transfer
mod Tests
use computer_system.Prelude.{
  ℕ, zero, suc, ◌+◌, ◌-◌, ◌*◌, ◌/◌, ◌%◌, ◌^◌, Bool, true, false, not, ◌||◌, Option, none, some,
  List, [], ◌∷◌, get_elem?, set, ltb, leb, ◌==◌, if◌then◌else◌,
}
use computer_system.Prelude.Int.{ℤ, pos, negsuc}
use computer_system.Log.{max_op_blocks}

pub data FileType : Type 0 where
  fd_none fd_pipe fd_inode fd_device : FileType

-- struct file; `pipe` and `ip` name a pipe and an inode.
pub record File : Type 0 where
  pub type : FileType
  pub ref : ℕ
  pub readable : Bool
  pub writable : Bool
  pub pipe : ℕ
  pub ip : ℕ
  pub off : ℕ
  pub major : ℤ

-- The slot, and ftable.file with it taken; none is the null pointer.
unfoldable pub filealloc : List File → Option (ℕ × List File)
filealloc [] = none
filealloc (f ∷ fs) =
    if f.ref == 0
    then some (0, record f { ref = 1 } ∷ fs)
    else elim (filealloc fs) [ none ↦ none | some (i, fs') ↦ some (suc i, f ∷ fs') ]

-- none is panic("filedup").
unfoldable pub filedup : List File → ℕ → File → Option (List File)
filedup fs i f = if ltb f.ref 1 then none else some (set fs i (record f { ref = f.ref + 1 }))

-- What fileclose does behind the table: nothing, pipeclose with the end that is closed, or iput in
-- a transaction of its own.
pub data Release : Type 0 where
  nothing : Release
  close_pipe : ℕ → Bool → Release
  put_inode : ℕ → Release

abbrev pub release : File → Release
release f = elim (f.type) [
  | fd_none ↦ nothing
  | fd_pipe ↦ close_pipe f.pipe f.writable
  | fd_inode ↦ put_inode f.ip
  | fd_device ↦ put_inode f.ip
]

-- none is panic("fileclose").
unfoldable pub fileclose : List File → ℕ → File → Option (List File × Release)
fileclose fs i f =
    if ltb f.ref 1
    then none
    else if ltb 0 (f.ref - 1)
    then some (set fs i (record f { ref = f.ref - 1 }), nothing)
    else some (set fs i (record f { ref = 0; type = fd_none }), release f)

-- A read or write returns a C int and the file, or panics; `out_of_fuel` is neither.
pub data Result : Type 0 where
  returns : ℤ → File → Result
  panics : Result
  out_of_fuel : Result

-- f->off += r, for r > 0
abbrev pub advance : File → ℤ → File
advance f (pos r) = record f { off = (f.off + r) % 2 ^ 32 }
advance f (negsuc r) = f

-- NDEV of them; the devices without a read function are none.
abbrev pub device : List (Option ℤ) → ℤ → Option ℤ
device devs (pos i) = elim (get_elem? devs i) [ none ↦ none | some d ↦ d ]
device devs (negsuc i) = none

-- `piped`, `devs` and `readi` are what piperead, the devices' read functions and readi at an offset
-- return for the call's address and count.
unfoldable pub fileread : ℤ → List (Option ℤ) → (ℕ → ℤ) → File → Result
fileread piped devs readi f =
    let by_type : Result = elim (f.type) [
      | fd_none ↦ panics
      | fd_pipe ↦ returns piped f
      | fd_inode ↦ let r = readi f.off in returns r (advance f r)
      | fd_device ↦ elim (device devs f.major) [
        | none ↦ returns (negsuc 0) f
        | some r ↦ returns r f
      ]
    ] in
    if f.readable then by_type else returns (negsuc 0) f

-- ((MAXOPBLOCKS-1-1-2) / 2) * BSIZE
abbrev pub max_write : ℕ
max_write = (max_op_blocks - 1 - 1 - 2) / 2 * 1024

-- writei at an offset of the file, for the bytes of the call from `i` on, so many of them.
abbrev pub Writei : Type 0
Writei = ℕ → ℕ → ℕ → ℤ

-- The loop of filewrite over an inode, with `i` bytes written.
unfoldable pub write_chunks : ℕ → Writei → ℕ → File → ℕ → Result
write_chunks zero writei n f i = out_of_fuel
write_chunks (suc fuel) writei n f i =
    let n1 = if ltb max_write (n - i) then max_write else n - i in
    let r = writei f.off i n1 in
    let more : Result = elim r [
      | pos k ↦ if k == n1 then write_chunks fuel writei n (advance f (pos k)) (i + k) else panics
      | negsuc k ↦ returns (if i == n then pos n else negsuc 0) f
    ] in
    if ltb i n then more else returns (if i == n then pos n else negsuc 0) f

unfoldable pub filewrite : ℕ → ℤ → List (Option ℤ) → Writei → File → ℕ → Result
unfolding write_chunks
filewrite fuel piped devs writei f n =
    let by_type : Result = elim (f.type) [
      | fd_none ↦ panics
      | fd_pipe ↦ returns piped f
      | fd_inode ↦ write_chunks fuel writei n f 0
      | fd_device ↦ elim (device devs f.major) [
        | none ↦ returns (negsuc 0) f
        | some r ↦ returns r f
      ]
    ] in
    if f.writable then by_type else returns (negsuc 0) f
