-- ===== src/Inode.antt =====
-- kernel/fs.c: inodes, in the cache and on the disk, over the blocks of Bitmap. A pointer to an inode
-- is its index in icache, so that none is null; a process is its pid. The calls run between the log's
-- begin_op and end_op; icache.lock is held for the spans that change an inode's reference count.
pub mod Get
pub mod Blocks
pub mod File
pub mod Grown
pub mod Map
pub mod Trunc
mod Tests
use computer_system.Prelude.{
  ℕ, zero, suc, ◌+◌, ◌-◌, ◌*◌, ◌/◌, ◌%◌, ◌^◌, Bool, true, false, not, ◌&&◌, ◌||◌, Option, none,
  some, update, ltb, ◌==◌, if◌then◌else◌,
}
use computer_system.Bitmap.{Disk, Superblock, balloc, bfree}

-- NDIRECT, NINDIRECT and NINODE
abbrev pub ndirect : ℕ
ndirect = 12

abbrev pub nindirect : ℕ
nindirect = 256

abbrev pub ninode : ℕ
ninode = 50

-- struct dinode
pub record Dinode : Type 0 where
  pub type : ℕ
  pub major : ℕ
  pub minor : ℕ
  pub nlink : ℕ
  pub size : ℕ
  pub addrs : ℕ → ℕ

-- struct inode: the copy of the disk's, and the process that holds the lock.
pub record Inode : Type 0 where
  pub dev : ℕ
  pub inum : ℕ
  pub ref : ℕ
  pub holder : Option ℕ
  pub valid : Bool
  pub copy : Dinode

-- icache.inode, the inodes of the inode blocks by number, the other blocks, and the super block.
pub record Fs : Type 0 where
  pub inode : ℕ → Inode
  pub dinode : ℕ → Dinode
  pub disk : Disk
  pub sb : Superblock
  pub ninodes : ℕ

-- How a call ends; `sleeps` where another process holds the lock.
pub data Result (A : Type 0) : Type 0 where
  ok : A → Result A
  panics : Result A
  sleeps : Result A

abbrev pub and_then : {A : Type 0} {B : Type 0} → Result A → (A → Result B) → Result B
and_then (ok a) f = f a
and_then panics f = panics
and_then sleeps f = sleeps

abbrev pub or_panic : {A : Type 0} → Option A → Result A
or_panic none = panics
or_panic (some a) = ok a

abbrev pub with_inode : Fs → ℕ → Inode → Fs
with_inode fs ip v = record fs { inode = update fs.inode ip v }

abbrev pub with_copy : Fs → ℕ → Dinode → Fs
with_copy fs ip d = with_inode fs ip (record (fs.inode ip) { copy = d })

-- ip->ref > 0 && ip->dev == dev && ip->inum == inum
abbrev pub caches : Inode → ℕ → ℕ → Bool
caches i dev inum = ltb 0 i.ref && i.dev == dev && i.inum == inum

-- The scan of iget: the slot that caches the inode, or else the first that is free.
pub data Found : Type 0 where
  cached : ℕ → Found
  recycled : Option ℕ → Found

abbrev pub first_of : Option ℕ → ℕ → Bool → Option ℕ
first_of (some e) i free = some e
first_of none i free = if free then some i else none

unfoldable pub scan : ℕ → (ℕ → Inode) → ℕ → ℕ → ℕ → Option ℕ → Found
scan zero inode dev inum i empty = recycled empty
scan (suc n) inode dev inum i empty =
    let rest = scan n inode dev inum (i + 1) (first_of empty i ((inode i).ref == 0)) in
    if caches (inode i) dev inum then cached i else rest

unfoldable pub take_slot : Fs → ℕ → ℕ → Found → Result (ℕ × Fs)
take_slot fs dev inum (cached i) =
    ok (i, with_inode fs i (record (fs.inode i) { ref = (fs.inode i).ref + 1 }))
take_slot fs dev inum (recycled none) = panics
take_slot fs dev inum (recycled (some i)) =
    ok (i, with_inode fs i (record (fs.inode i) { dev = dev; inum = inum; ref = 1; valid = false }))

unfoldable pub iget : Fs → ℕ → ℕ → Result (ℕ × Fs)
unfolding scan take_slot
iget fs dev inum = take_slot fs dev inum (scan ninode fs.inode dev inum 0 none)

unfoldable pub idup : Fs → ℕ → Fs
idup fs ip = with_inode fs ip (record (fs.inode ip) { ref = (fs.inode ip).ref + 1 })

-- memset(dip, 0, sizeof(*dip)); dip->type = type
abbrev pub fresh_dinode : ℕ → Dinode
fresh_dinode t = record { type = t; major = 0; minor = 0; nlink = 0; size = 0; addrs = λ i. 0 }

-- The search of ialloc, n inodes from number inum on.
unfoldable pub free_inum : ℕ → (ℕ → Dinode) → ℕ → Option ℕ
free_inum zero dinode inum = none
free_inum (suc n) dinode inum =
    let rest = free_inum n dinode (inum + 1) in if (dinode inum).type == 0 then some inum else rest

unfoldable pub ialloc : Fs → ℕ → ℕ → Result (ℕ × Fs)
unfolding free_inum iget
ialloc fs dev t =
    and_then (or_panic (free_inum (fs.ninodes - 1) fs.dinode 1))
      (λ inum. iget (record fs { dinode = update fs.dinode inum (fresh_dinode t) }) dev inum)

unfoldable pub iupdate : Fs → ℕ → Fs
iupdate fs ip = record fs { dinode = update fs.dinode ((fs.inode ip).inum) ((fs.inode ip).copy) }

-- acquiresleep(&ip->lock)
unfoldable pub acquire_inode : Fs → ℕ → ℕ → Result Fs
acquire_inode fs pid ip = elim ((fs.inode ip).holder) [
  | none ↦ ok (with_inode fs ip (record (fs.inode ip) { holder = some pid }))
  | some p ↦ sleeps
]

-- The rest of ilock, once the lock is held.
unfoldable pub read_inode : Fs → ℕ → Result Fs
read_inode fs ip =
    let d = fs.dinode ((fs.inode ip).inum) in
    if (fs.inode ip).valid
    then ok fs
    else if d.type == 0
    then panics
    else ok (with_inode fs ip (record (fs.inode ip) { valid = true; copy = d }))

unfoldable pub ilock : Fs → ℕ → ℕ → Result Fs
unfolding acquire_inode read_inode
ilock fs pid ip =
    if (fs.inode ip).ref == 0
    then panics
    else and_then (acquire_inode fs pid ip) (λ fs1. read_inode fs1 ip)

-- holdingsleep(&ip->lock)
abbrev pub holds : Inode → ℕ → Bool
holds i pid = elim (i.holder) [ none ↦ false | some p ↦ p == pid ]

-- releasesleep(&ip->lock)
abbrev pub unlocked : Fs → ℕ → Fs
unlocked fs ip = with_inode fs ip (record (fs.inode ip) { holder = none })

unfoldable pub iunlock : Fs → ℕ → ℕ → Result Fs
iunlock fs pid ip =
    if not (holds (fs.inode ip) pid) || (fs.inode ip).ref == 0 then panics else ok (unlocked fs ip)

-- a[j] of an indirect block
abbrev pub word : Disk → ℕ → ℕ → ℕ
word d bno j =
    d bno (4 * j)
    + 256 * d bno (4 * j + 1)
    + 65536 * d bno (4 * j + 2)
    + 16777216 * d bno (4 * j + 3)

-- a[j] = v, and log_write
abbrev pub set_word : Disk → ℕ → ℕ → ℕ → Disk
set_word d bno j v = update d bno (
    update
      (update (update (update (d bno) (4 * j) (v % 256)) (4 * j + 1) (v / 256 % 256)) (4 * j + 2)
        (v / 65536 % 256))
      (4 * j + 3) (v / 16777216 % 256))

abbrev pub with_disk : Fs → Disk → Fs
with_disk fs d = record fs { disk = d }

-- ip->addrs[k] = addr
abbrev pub set_addr : Fs → ℕ → ℕ → ℕ → Fs
set_addr fs ip k addr =
    let c = (fs.inode ip).copy in with_copy fs ip (record c { addrs = update c.addrs k addr })

-- ip->addrs[k], allocated if it is 0.
unfoldable pub addr_of : Fs → ℕ → ℕ → Result (ℕ × Fs)
addr_of fs ip k =
    let addr = ((fs.inode ip).copy).addrs k in
    if addr == 0
    then and_then (or_panic (balloc fs.sb fs.disk))
        (λ r. ok (r.0, set_addr (with_disk fs r.1) ip k r.0))
    else ok (addr, fs)

-- a[bn] of the indirect block at addr, allocated if it is 0.
unfoldable pub indirect_of : ℕ → ℕ × Fs → Result (ℕ × Fs)
indirect_of bn (block, fs) =
    let addr = word fs.disk block bn in
    if addr == 0
    then and_then (or_panic (balloc fs.sb fs.disk))
        (λ r. ok (r.0, with_disk fs (set_word r.1 block bn r.0)))
    else ok (addr, fs)

unfoldable pub bmap : Fs → ℕ → ℕ → Result (ℕ × Fs)
unfolding addr_of indirect_of
bmap fs ip bn =
    if ltb bn ndirect
    then addr_of fs ip bn
    else if ltb (bn - ndirect) nindirect
    then and_then (addr_of fs ip ndirect) (indirect_of (bn - ndirect))
    else panics

-- struct stat
pub record Stat : Type 0 where
  pub dev : ℕ
  pub ino : ℕ
  pub type : ℕ
  pub nlink : ℕ
  pub size : ℕ

unfoldable pub stati : Fs → ℕ → Stat
stati fs ip =
    let i = fs.inode ip in
    record {
      dev = i.dev;
      ino = i.inum;
      type = (i.copy).type;
      nlink = (i.copy).nlink;
      size = (i.copy).size;
    }
