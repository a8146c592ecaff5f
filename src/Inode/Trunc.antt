-- ===== src/Inode/Trunc.antt =====
-- kernel/fs.c: itrunc, iput and iunlockput.
use computer_system.Prelude.{ℕ, zero, suc, ◌+◌, ◌-◌, false, ◌&&◌, ◌==◌, if◌then◌else◌}
use computer_system.Bitmap.{bfree}
use computer_system.Inode.{
  ndirect, nindirect, Fs, Result, ok, and_then, or_panic, with_inode, with_copy, iupdate,
  acquire_inode, unlocked, iunlock, word, with_disk, set_addr,
}

abbrev pub free_block : Fs → ℕ → Result Fs
free_block fs b = and_then (or_panic (bfree fs.sb fs.disk b)) (λ d. ok (with_disk fs d))

-- The direct blocks of itrunc, n of them from number i on.
unfoldable pub trunc_direct : ℕ → Fs → ℕ → ℕ → Result Fs
trunc_direct zero fs ip i = ok fs
trunc_direct (suc n) fs ip i =
    let addr = ((fs.inode ip).copy).addrs i in
    let rest = trunc_direct n fs ip (i + 1) in
    if addr == 0
    then rest
    else and_then (free_block fs addr) (λ fs1. trunc_direct n (set_addr fs1 ip i 0) ip (i + 1))

-- The blocks that an indirect block lists, n of them from number j on. Its buffer holds the list:
-- what bfree changes is another block.
unfoldable pub trunc_list : ℕ → Fs → ℕ → ℕ → Result Fs
trunc_list zero fs block j = ok fs
trunc_list (suc n) fs block j =
    let addr = word fs.disk block j in
    let rest = trunc_list n fs block (j + 1) in
    if addr == 0
    then rest
    else and_then (free_block fs addr) (λ fs1. trunc_list n fs1 block (j + 1))

unfoldable pub trunc_indirect : Fs → ℕ → Result Fs
trunc_indirect fs ip =
    let addr = ((fs.inode ip).copy).addrs ndirect in
    if addr == 0
    then ok fs
    else and_then (trunc_list nindirect fs addr 0)
        (λ fs1. and_then (free_block fs1 addr) (λ fs2. ok (set_addr fs2 ip ndirect 0)))

unfoldable pub itrunc : Fs → ℕ → Result Fs
itrunc fs ip = and_then (trunc_direct ndirect fs ip 0) (λ fs1.
    and_then (trunc_indirect fs1 ip)
      (λ fs2. ok (iupdate (with_copy fs2 ip (record ((fs2.inode ip).copy) { size = 0 })) ip)))

-- ip->ref--, of a reference that the caller holds, so that ref is at least 1.
abbrev pub drop_ref : Fs → ℕ → Fs
drop_ref fs ip = with_inode fs ip (record (fs.inode ip) { ref = (fs.inode ip).ref - 1 })

-- What iput does to an inode with no links and no other reference.
unfoldable pub discard : Fs → ℕ → ℕ → Result Fs
discard fs pid ip = and_then (acquire_inode fs pid ip) (λ fs1. and_then (itrunc fs1 ip) (λ fs2.
    let fs3 = iupdate (with_copy fs2 ip (record ((fs2.inode ip).copy) { type = 0 })) ip in
    ok (unlocked (with_inode fs3 ip (record (fs3.inode ip) { valid = false })) ip)))

unfoldable pub iput : Fs → ℕ → ℕ → Result Fs
iput fs pid ip =
    let i = fs.inode ip in
    and_then (if i.ref == 1 && i.valid && (i.copy).nlink == 0 then discard fs pid ip else ok fs)
      (λ fs1. ok (drop_ref fs1 ip))

unfoldable pub iunlockput : Fs → ℕ → ℕ → Result Fs
unfolding iunlock iput
iunlockput fs pid ip = and_then (iunlock fs pid ip) (λ fs1. iput fs1 pid ip)
