-- ===== src/Log.antt =====
-- The write-ahead log of initial-xv6/src/kernel/log.c, over the buffer cache as a caller of `bread`
-- sees it. A block is its 256 words of 32 bits; block numbers and counts are non-negative.
mod Overlay
mod Install
mod Crash
mod Commit
mod Append
mod Tests
use mini_project_3_amey_chou.Common.{
  ℕ, zero, suc, ◌+◌, ◌-◌, ◌%◌, ◌^◌, Bool, true, false, Option, none, some, List, [], ◌∷◌, ◌==◌, leb,
  if◌then◌else◌, update, for_upto, find_upto, ◌||◌, ℤ, pos, ltb_ℤ, eqb_ℤ, int32, ◌+ℤ◌, ◌*ℤ◌,
}
use mini_project_3_amey_chou.Proc.{incr}
use mini_project_3_amey_chou.Kalloc.{decr}

abbrev pub Block : Type 0
Block = ℕ → ℕ

abbrev pub Disk : Type 0
Disk = ℕ → Block

-- The blocks as buffers show them and as they are on disk, every content that the disk has had
-- (the newest first), and the references that `bpin` keeps.
pub record Store : Type 0 where
  pub view : Disk
  pub disk : Disk
  pub past : List Disk
  pub pins : ℕ → ℕ

-- `bwrite` of block `b` with contents `x`: one atomic write to the disk.
unfoldable pub write_block : ℕ → Block → Store → Store
write_block b x s = record s {
  view = update s.view b x;
  disk = update s.disk b x;
  past = update s.disk b x ∷ s.past;
}

-- `bpin` and `bunpin`, on a `uint`
unfoldable pub pin_block : ℕ → Store → Store
pin_block b s = record s { pins = update s.pins b ((s.pins b + 1) % 2 ^ 32) }

unfoldable pub unpin_block : ℕ → Store → Store
unpin_block b s = record s { pins = update s.pins b ((s.pins b + (2 ^ 32 - 1)) % 2 ^ 32) }

-- `MAXOPBLOCKS` and `LOGSIZE`
abbrev pub maxopblocks : ℕ
maxopblocks = 10

abbrev pub logsize : ℕ
logsize = 30

-- `struct log` with its header, and the blocks.
pub record Log : Type 0 where
  pub start : ℕ
  pub size : ℕ
  pub outstanding : ℤ
  pub committing : Bool
  pub n : ℕ
  pub block : ℕ → ℕ
  pub store : Store

-- One round of `install_trans`.
unfoldable pub install_block :
    (start : ℕ) → (block : ℕ → ℕ) → (recovering : Bool) → ℕ → Store → Store
install_block start block recovering tail s =
    let t = write_block (block tail) (s.view (start + tail + 1)) s in
    if recovering then t else unpin_block (block tail) t

unfoldable pub install_trans : (recovering : Bool) → Log → Log
install_trans recovering l = record l {
  store = for_upto l.n (install_block l.start l.block recovering) l.store;
}

-- The header block: `n`, then the block numbers.
unfoldable pub encode_head : ℕ → (ℕ → ℕ) → Block → Block
encode_head n block hb = for_upto n (λ i h. update h (i + 1) (block i)) (update hb 0 n)

unfoldable pub read_head : Log → Log
read_head l =
    let lh = l.store.view l.start in
    record l { n = lh 0; block = for_upto (lh 0) (λ i b. update b i (lh (i + 1))) l.block }

unfoldable pub write_head : Log → Log
write_head l = record l {
  store = write_block l.start (encode_head l.n l.block (l.store.view l.start)) l.store;
}

unfoldable pub recover_from_log : Log → Log
recover_from_log l = write_head (record (install_trans true (read_head l)) { n = 0 })

-- `initlog` with a cold cache, from a zeroed `log`.
unfoldable pub initlog : (start size : ℕ) → Disk → Log
initlog start size d = recover_from_log (record {
  start = start;
  size = size;
  outstanding = pos 0;
  committing = false;
  n = 0;
  block = λ i. 0;
  store = record { view = d; disk = d; past = []; pins = λ b. 0 };
})

-- One round of the loop of `begin_op`: `none` where it sleeps.
unfoldable pub begin_op : Log → Option Log
begin_op l =
    if l.committing
    then none
    else if ltb_ℤ (pos logsize) (int32 (pos l.n +ℤ int32 (incr l.outstanding *ℤ pos maxopblocks)))
    then none
    else some (record l { outstanding = incr l.outstanding })

-- One round of `write_log`.
unfoldable pub log_block : (start : ℕ) → (block : ℕ → ℕ) → ℕ → Store → Store
log_block start block tail s = write_block (start + tail + 1) (s.view (block tail)) s

unfoldable pub write_log : Log → Log
write_log l = record l { store = for_upto l.n (log_block l.start l.block) l.store }

unfoldable pub commit : Log → Log
commit l =
    if l.n == 0
    then l
    else write_head (record (install_trans false (write_head (write_log l))) { n = 0 })

-- `end_op`; `none` where it panics. While `committing` is set no other call gets past `begin_op`.
unfoldable pub end_op : Log → Option Log
end_op l =
    let m = record l { outstanding = decr l.outstanding } in
    if m.committing
    then none
    else if eqb_ℤ m.outstanding (pos 0)
    then some (record (commit (record m { committing = true })) { committing = false })
    else some m

-- The entry of `log_write`: an old one (absorption), or a new one.
unfoldable pub add_block : ℕ → Log → Option ℕ → Log
add_block b l (some i) = record l { block = update l.block i b }
add_block b l none = record l {
  block = update l.block l.n b;
  n = l.n + 1;
  store = pin_block b l.store;
}

-- `log_write` of block `b`, whose buffer the caller has modified; `none` where it panics.
unfoldable pub log_write : ℕ → Log → Option Log
log_write b l =
    if leb logsize l.n || leb (l.size - 1) l.n
    then none
    else if ltb_ℤ l.outstanding (pos 1)
    then none
    else some (add_block b l (find_upto l.n (λ i. l.block i == b)))
