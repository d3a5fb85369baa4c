-- ===== src/Fs.antt =====
-- The free bitmap of the file system, initial-xv6/src/kernel/fs.c, over blocks as buffers show
-- them; a block is its 1024 bytes. Only inside a transaction are blocks changed; Log says when they
-- reach the disk.
mod Bits
mod Bitmap
mod Alloc
mod PathNames
mod Inode
mod Allocs
mod Table
mod Bmap
mod Tests
use mini_project_3_amey_chou.Common.{
  ℕ, zero, suc, ◌+◌, ◌-◌, ◌*◌, ◌/◌, ◌%◌, Bool, true, false, Option, none, some, not, ltb,
  if◌then◌else◌, update, find_upto,
}
use mini_project_3_amey_chou.Vm.{has_bit, set_bit, clear_bit}

-- `struct superblock`, as far as blocks are concerned, and the blocks.
pub record Fs : Type 0 where
  pub size : ℕ
  pub bmapstart : ℕ
  pub block : ℕ → ℕ → ℕ

-- `BPB`
abbrev pub bpb : ℕ
bpb = 8192

-- `BBLOCK(b, sb)`, and the byte of the bit there
abbrev pub bitmap_block : Fs → ℕ → ℕ
bitmap_block fs b = b / bpb + fs.bmapstart

abbrev pub bit_byte : ℕ → ℕ
bit_byte b = b % bpb / 8

-- `bp->data[bi/8] & m`
unfoldable pub in_use : Fs → ℕ → Bool
in_use fs b = has_bit (b % bpb % 8) (fs.block (bitmap_block fs b) (bit_byte b))

-- `bp->data[bi/8] = x`
unfoldable pub put_byte : Fs → (b x : ℕ) → Fs
put_byte fs b x =
    let c = bitmap_block fs b in
    record fs { block = update fs.block c (update (fs.block c) (bit_byte b) x) }

-- `bp->data[bi/8] |= m` and `bp->data[bi/8] &= ~m`
unfoldable pub mark_used : ℕ → Fs → Fs
mark_used b fs = put_byte fs b (set_bit (b % bpb % 8) (fs.block (bitmap_block fs b) (bit_byte b)))

unfoldable pub mark_free : ℕ → Fs → Fs
mark_free b fs = put_byte fs b (clear_bit (b % bpb % 8) (fs.block (bitmap_block fs b) (bit_byte b)))

unfoldable pub bzero : ℕ → Fs → Fs
bzero b fs = record fs { block = update fs.block b (λ i. 0) }

-- The bits that the inner loop of `balloc` looks at, in the bitmap block of `b`.
unfoldable pub group_size : Fs → (b : ℕ) → ℕ
group_size fs b = if ltb (fs.size - b) bpb then fs.size - b else bpb

-- The search of `balloc`, in its first `g` rounds.
unfoldable pub search : Fs → ℕ → Option ℕ
search fs zero = none
search fs (suc g) = elim (search fs g) [
  | some b ↦ some b
  | none ↦ elim (find_upto (group_size fs (g * bpb)) (λ bi. not (in_use fs (g * bpb + bi)))) [
    | some bi ↦ some (g * bpb + bi)
    | none ↦ none
  ]
]

-- `balloc`: 0 where no block is free.
unfoldable pub balloc : Fs → ℕ × Fs
balloc fs = elim (search fs ((fs.size + (bpb - 1)) / bpb)) [
  | some b ↦ (b, bzero b (mark_used b fs))
  | none ↦ (0, fs)
]

-- `bfree`; `none` where it panics.
unfoldable pub bfree : ℕ → Fs → Option Fs
bfree b fs = if not (in_use fs b) then none else some (mark_free b fs)
