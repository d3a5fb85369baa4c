-- ===== src/Fs/Table.antt =====
-- The table of the blocks of a file of initial-xv6/src/kernel/fs.c, and what `bmap` does to it.
use mini_project_3_amey_chou.Common.{
  ℕ, ◌+◌, ◌-◌, ◌*◌, ◌%◌, ◌^◌, ◌<◌, ◌≡◌, ◌≢◌, arith, true, false, ltb, ◌==◌, if◌then◌else◌,
  update-ne, ap,
}
use native.Mathlib.Decide.{ℕ_discrete, dec_lt}
use mini_project_3_amey_chou.Fs.{Fs, in_use, bitmap_block, bpb}
use mini_project_3_amey_chou.Vm.{has_bit}
use mini_project_3_amey_chou.Fs.{bit_byte}
use mini_project_3_amey_chou.Fs.Inode.{ndirect, Inode, word, put_word, write_word, Mapped}
use mini_project_3_amey_chou.Fs.Allocs.{AllUsed}

-- The block of a file that has number `bn` there, 0 for none.
unfoldable pub file_block : Inode → Fs → (bn : ℕ) → ℕ
file_block ip fs bn =
    if ltb bn ndirect
    then ip.addrs bn
    else if ip.addrs ndirect == 0
    then 0
    else word (fs.block (ip.addrs ndirect)) (bn - ndirect)

pub word-put_word : (bytes : ℕ → ℕ) (i w : ℕ) → w < 2 ^ 32 → word (put_word i w bytes) i ≡ w
unfolding word put_word
word-put_word bytes i w lt = ground arith

pub word-put_word_other :
    (bytes : ℕ → ℕ) (i j w : ℕ) → i ≢ j → word (put_word i w bytes) j ≡ word bytes j
unfolding word put_word
word-put_word_other bytes i j w ne = ground arith

pub word-zero : (bytes : ℕ → ℕ) (i : ℕ) → ((k : ℕ) → bytes k ≡ 0) → word bytes i ≡ 0
unfolding word
word-zero bytes i h = omega (arith, h (4 * i), h (4 * i + 1), h (4 * i + 2), h (4 * i + 3))

pub write_word-in_use :
    (fs : Fs) (a i w c : ℕ) → a ≢ bitmap_block fs c → in_use (write_word a i w fs) c ≡ in_use fs c
unfolding write_word in_use
write_word-in_use fs a i w c ne =
    ap (λ (x : ℕ → ℕ). has_bit (c % bpb % 8) (x (bit_byte c)))
      (update-ne fs.block a (bitmap_block fs c) (put_word i w (fs.block a)) ne)

-- What `bmap` does for block `bn` of a file.
pub record Maps (ip : Inode) (fs : Fs) (bn : ℕ) (m : Mapped) : Type 0 where
  pub others : (k : ℕ) → k ≢ bn → file_block m.inode m.fs k ≡ file_block ip fs k
  pub entered : file_block m.inode m.fs bn ≡ m.addr
  pub found : file_block ip fs bn ≢ 0 → m.addr ≡ file_block ip fs bn
  pub fresh :
      file_block ip fs bn ≡ 0
      → m.addr ≢ 0
      → (m.addr < fs.size)
        × (in_use fs m.addr ≡ false)
        × (in_use m.fs m.addr ≡ true)
        × ((i : ℕ) → m.fs.block m.addr i ≡ 0)
  pub full : m.addr ≡ 0 → AllUsed m.fs

pub file_block-same :
    (ip ip' : Inode) (fs fs' : Fs) (k : ℕ)
    → (k < ndirect → ip'.addrs k ≡ ip.addrs k)
    → ip'.addrs ndirect ≡ ip.addrs ndirect
    → (ip.addrs ndirect ≢ 0 → fs'.block (ip.addrs ndirect) ≡ fs.block (ip.addrs ndirect))
    → file_block ip' fs' k ≡ file_block ip fs k
unfolding file_block
file_block-same ip ip' fs fs' k direct indirect same = elim (dec_lt k ndirect) [
  | yes lt ↦ ground (arith, direct lt)
  | no past ↦ elim (ℕ_discrete (ip.addrs ndirect) 0) [
    | yes none_ ↦ ground arith
    | no some_ ↦
        let at = ap (λ (x : ℕ → ℕ). word x (k - ndirect)) (same some_) in
        let at' = ap (λ a. word (fs'.block a) (k - ndirect)) indirect in ground (arith, at, at')
  ]
]
