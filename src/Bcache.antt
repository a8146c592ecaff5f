-- ===== src/Bcache.antt =====
-- The buffer cache of kernel/bio.c: NBUF slots, the recency list that runs through them, and the
-- recycling of the least recently used. The sleep lock of a buffer is the caller's for the time
-- between bread and brelse.
pub mod Scan
pub mod Get
mod Tests
use computer_system.Prelude.{
  ℕ, zero, suc, ◌+◌, ◌-◌, ◌%◌, ◌^◌, Bool, true, false, ◌&&◌, Option, none, some, List, [], ◌∷◌,
  update, ◌==◌, if◌then◌else◌,
}

abbrev pub word_mod : ℕ
word_mod = 2 ^ 32

-- What a disk holds on a device's block; contents are opaque here.
abbrev pub Disk : Type 0
Disk = ℕ → ℕ → ℕ

pub record Buf : Type 0 where
  pub dev : ℕ
  pub blockno : ℕ
  pub valid : Bool
  pub refcnt : ℕ
  pub contents : ℕ

-- bcache: `slot` is bcache.buf, and `order` the slots from head.next on, the most recent first.
pub record Bcache : Type 0 where
  pub slot : ℕ → Buf
  pub order : List ℕ

abbrev pub holds : Buf → ℕ → ℕ → Bool
holds b dev blockno = b.dev == dev && b.blockno == blockno

-- The list that binit builds from the first n slots: each goes to the front.
unfoldable pub binit_order : ℕ → List ℕ
binit_order zero = []
binit_order (suc n) = n ∷ binit_order n

-- b = head.next; b != &head; b = b->next
unfoldable pub find_cached : (ℕ → Buf) → ℕ → ℕ → List ℕ → Option ℕ
find_cached slot dev blockno [] = none
find_cached slot dev blockno (s ∷ ss) =
    if holds (slot s) dev blockno then some s else find_cached slot dev blockno ss

-- b = head.prev; b != &head; b = b->prev
unfoldable pub find_free : (ℕ → Buf) → List ℕ → Option ℕ
find_free slot [] = none
find_free slot (s ∷ ss) = elim (find_free slot ss) [
  | none ↦ if (slot s).refcnt == 0 then some s else none
  | some r ↦ some r
]

abbrev pub with_buf : Bcache → ℕ → Buf → Bcache
with_buf c s b = record c { slot = update c.slot s b }

-- The second half of bget; none is panic("bget: no buffers").
unfoldable pub recycle : Bcache → ℕ → ℕ → Option ℕ → Option (ℕ × Bcache)
recycle c dev blockno none = none
recycle c dev blockno (some s) = some (
  s,
  with_buf c s (record (c.slot s) { dev = dev; blockno = blockno; valid = false; refcnt = 1 }),
)

unfoldable pub bget_from : Bcache → ℕ → ℕ → Option ℕ → Option (ℕ × Bcache)
unfolding recycle find_free
bget_from c dev blockno none = recycle c dev blockno (find_free c.slot c.order)
bget_from c dev blockno (some s) =
    some (s, with_buf c s (record (c.slot s) { refcnt = ((c.slot s).refcnt + 1) % word_mod }))

unfoldable pub bget : Bcache → ℕ → ℕ → Option (ℕ × Bcache)
bget c dev blockno = bget_from c dev blockno (find_cached c.slot dev blockno c.order)

-- virtio_disk_rw(b, 0), if the buffer is not valid.
unfoldable pub fill : Disk → ℕ → Bcache → Bcache
fill disk s c =
    let b = c.slot s in
    if b.valid then c else with_buf c s (record b { contents = disk b.dev b.blockno; valid = true })

unfoldable pub bread : Disk → Bcache → ℕ → ℕ → Option (ℕ × Bcache)
unfolding fill
bread disk c dev blockno = elim (bget c dev blockno) [
  | none ↦ none
  | some (s, c') ↦ some (s, fill disk s c')
]

-- virtio_disk_rw(b, 1)
unfoldable pub bwrite : Disk → Bcache → ℕ → Disk
bwrite disk c s =
    let b = c.slot s in λ dev blockno. if holds b dev blockno then b.contents else disk dev blockno

-- b->next->prev = b->prev; b->prev->next = b->next;
unfoldable pub unlink : ℕ → List ℕ → List ℕ
unlink s [] = []
unlink s (x ∷ xs) = if x == s then xs else x ∷ unlink s xs

unfoldable pub brelse : Bcache → ℕ → Bcache
unfolding unlink
brelse c s =
    let b = c.slot s in
    let n = (b.refcnt + word_mod - 1) % word_mod in
    let c' = with_buf c s (record b { refcnt = n }) in
    if n == 0 then record c' { order = s ∷ unlink s c.order } else c'

unfoldable pub bpin : Bcache → ℕ → Bcache
bpin c s = with_buf c s (record (c.slot s) { refcnt = ((c.slot s).refcnt + 1) % word_mod })

unfoldable pub bunpin : Bcache → ℕ → Bcache
bunpin c s =
    with_buf c s (record (c.slot s) { refcnt = ((c.slot s).refcnt + word_mod - 1) % word_mod })
