-- ===== src/Fs/Inode.antt =====
-- The blocks of a file: `bmap` of initial-xv6/src/kernel/fs.c.
use mini_project_3_amey_chou.Common.{
  ℕ, ◌+◌, ◌-◌, ◌*◌, ◌/◌, ◌%◌, Option, none, some, ltb, ◌==◌, if◌then◌else◌, update,
}
use mini_project_3_amey_chou.Fs.{Fs, balloc}

-- `NDIRECT` and `NINDIRECT`
abbrev pub ndirect : ℕ
ndirect = 12

abbrev pub nindirect : ℕ
nindirect = 256

-- Of `struct inode`, the addresses of its blocks: `ndirect` of data, then that of the indirect block.
pub record Inode : Type 0 where
  pub addrs : ℕ → ℕ

-- The `i`-th `uint` of a block, and the write to it.
unfoldable pub word : (ℕ → ℕ) → ℕ → ℕ
word bytes i =
    bytes (4 * i)
    + 256 * bytes (4 * i + 1)
    + 65536 * bytes (4 * i + 2)
    + 16777216 * bytes (4 * i + 3)

unfoldable pub put_word : (i w : ℕ) → (ℕ → ℕ) → ℕ → ℕ
put_word i w bytes =
    update
      (update (update (update bytes (4 * i) (w % 256)) (4 * i + 1) (w / 256 % 256)) (4 * i + 2)
        (w / 65536 % 256))
      (4 * i + 3) (w / 16777216 % 256)

unfoldable pub write_word : (b i w : ℕ) → Fs → Fs
write_word b i w fs = record fs { block = update fs.block b (put_word i w (fs.block b)) }

-- What `bmap` returns, with the inode and the blocks as it leaves them.
pub record Mapped : Type 0 where
  pub addr : ℕ
  pub inode : Inode
  pub fs : Fs

-- `if((addr = ip->addrs[k]) == 0)`: the block is allocated if it is not there.
unfoldable pub own_block : (k : ℕ) → Inode → Fs → Mapped
own_block k ip fs =
    if ip.addrs k == 0
    then (let r = balloc fs in
        if r.0 == 0
        then record { addr = 0; inode = ip; fs = r.1 }
        else record { addr = r.0; inode = record ip { addrs = update ip.addrs k r.0 }; fs = r.1 })
    else record { addr = ip.addrs k; inode = ip; fs = fs }

-- The entry `i` of the indirect block.
unfoldable pub entry_block : (i : ℕ) → Mapped → Mapped
entry_block i m =
    if m.addr == 0
    then m
    else if word (m.fs.block m.addr) i == 0
    then (let r = balloc m.fs in
        if r.0 == 0
        then record { addr = 0; inode = m.inode; fs = r.1 }
        else record { addr = r.0; inode = m.inode; fs = write_word m.addr i r.0 r.1 })
    else record m { addr = word (m.fs.block m.addr) i }

-- `none` where it panics.
unfoldable pub bmap : (bn : ℕ) → Inode → Fs → Option Mapped
bmap bn ip fs =
    if ltb bn ndirect
    then some (own_block bn ip fs)
    else if ltb (bn - ndirect) nindirect
    then some (entry_block (bn - ndirect) (own_block ndirect ip fs))
    else none
