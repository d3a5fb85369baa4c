-- ===== src/Bio.antt =====
-- The buffer cache of initial-xv6/src/kernel/bio.c. The ring through `prev` and `next` is the list
-- of buffers from the most recently used to the least; the disk driver is a read or a write of a
-- whole block. `bcache.lock` is held over each access, so a call is one atomic step up to the wait
-- for the lock of a buffer.
mod Boot
mod Lookup
mod Views
mod Reads
mod Tests
use mini_project_3_amey_chou.Common.{
  ℕ, ◌+◌, ◌-◌, ◌%◌, ◌^◌, Bool, true, false, Option, none, some, List, [], ◌∷◌, ◌==◌, if◌then◌else◌,
  update, for_upto, not, ◌&&◌,
}
use mini_project_3_amey_chou.Log.{Block, Disk}

-- `struct buf`; of its sleep lock, whether it is held.
pub record Buf : Type 0 where
  pub valid : Bool
  pub dev : ℕ
  pub blockno : ℕ
  pub refcnt : ℕ
  pub locked : Bool
  pub contents : Block

-- `NBUF`
abbrev pub nbuf : ℕ
nbuf = 30

-- `bcache` from `head.next` on, and the disk of each device.
pub record Cache : Type 0 where
  pub buf : ℕ → Buf
  pub order : List ℕ
  pub disks : ℕ → Disk

-- `binit`: each buffer in turn goes to the head of the list, with its lock free.
unfoldable pub init_buf : ℕ → Cache → Cache
init_buf b c = record c {
  buf = update c.buf b (record (c.buf b) { locked = false });
  order = b ∷ c.order;
}

unfoldable pub binit : Cache → Cache
binit c = for_upto nbuf init_buf (record c { order = [] })

-- The two searches of `bget`: along `next`, and along `prev`.
unfoldable pub first_where : (ℕ → Bool) → List ℕ → Option ℕ
first_where test [] = none
first_where test (i ∷ l) = let rest = first_where test l in if test i then some i else rest

unfoldable pub last_where : (ℕ → Bool) → List ℕ → Option ℕ
last_where test [] = none
last_where test (i ∷ l) = elim (last_where test l) [
  | some j ↦ some j
  | none ↦ if test i then some i else none
]

-- `b->dev == dev && b->blockno == blockno`
unfoldable pub holds : (dev blockno : ℕ) → Buf → Bool
holds dev blockno b = (b.dev == dev) && (b.blockno == blockno)

unfoldable pub is_unheld : Buf → Bool
is_unheld b = b.refcnt == 0

abbrev pub set_buf : Cache → ℕ → Buf → Cache
set_buf c i b = record c { buf = update c.buf i b }

-- `bget` returns buffer `i` locked, or waits for its lock, or panics.
pub data Got : Type 0 where
  got : (i : ℕ) → Cache → Got
  waits : (i : ℕ) → Cache → Got
  no_buffers : Got

-- `acquiresleep(&b->lock)`
unfoldable pub lock_buf : Cache → ℕ → Got
lock_buf c i =
    if (c.buf i).locked then waits i c else got i (set_buf c i (record (c.buf i) { locked = true }))

unfoldable pub use_cached : Cache → ℕ → Got
use_cached c i =
    lock_buf (set_buf c i (record (c.buf i) { refcnt = ((c.buf i).refcnt + 1) % 2 ^ 32 })) i

unfoldable pub recycle : (dev blockno : ℕ) → Cache → Option ℕ → Got
recycle dev blockno c none = no_buffers
recycle dev blockno c (some i) =
    lock_buf
      (set_buf c i (record (c.buf i) { dev = dev; blockno = blockno; valid = false; refcnt = 1 })) i

unfoldable pub bget : (dev blockno : ℕ) → Cache → Got
bget dev blockno c = elim (first_where (λ i. holds dev blockno (c.buf i)) c.order) [
  | some i ↦ use_cached c i
  | none ↦ recycle dev blockno c (last_where (λ i. is_unheld (c.buf i)) c.order)
]

-- `bread` once the lock is held: the disk is read if the buffer is not valid.
unfoldable pub fill_buf : ℕ → Cache → Cache
fill_buf i c =
    let b = c.buf i in
    if b.valid
    then c
    else set_buf c i (record b { contents = c.disks b.dev b.blockno; valid = true })

unfoldable pub bread : (dev blockno : ℕ) → Cache → Got
bread dev blockno c = elim (bget dev blockno c) [
  | got i c' ↦ got i (fill_buf i c')
  | waits i c' ↦ waits i c'
  | no_buffers ↦ no_buffers
]

-- `bwrite`, by a process that holds the lock of the buffer; `none` where it panics.
unfoldable pub bwrite : ℕ → Cache → Option Cache
bwrite i c =
    let b = c.buf i in
    if b.locked
    then some
        (record c { disks = update c.disks b.dev (update (c.disks b.dev) b.blockno b.contents) })
    else none

unfoldable pub remove : ℕ → List ℕ → List ℕ
remove i [] = []
remove i (j ∷ l) = let rest = remove i l in if j == i then l else j ∷ rest

-- `brelse`; `none` where it panics.
unfoldable pub brelse : ℕ → Cache → Option Cache
brelse i c =
    if not (c.buf i).locked
    then none
    else (let b = record (c.buf i) {
      locked = false;
      refcnt = ((c.buf i).refcnt + (2 ^ 32 - 1)) % 2 ^ 32;
    } in
        let d = set_buf c i b in
        some (if is_unheld b then record d { order = i ∷ remove i d.order } else d))

unfoldable pub bpin : ℕ → Cache → Cache
bpin i c = set_buf c i (record (c.buf i) { refcnt = ((c.buf i).refcnt + 1) % 2 ^ 32 })

unfoldable pub bunpin : ℕ → Cache → Cache
bunpin i c = set_buf c i (record (c.buf i) { refcnt = ((c.buf i).refcnt + (2 ^ 32 - 1)) % 2 ^ 32 })
