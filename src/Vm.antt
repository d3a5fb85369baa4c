-- ===== src/Vm.antt =====
-- The page tables of initial-xv6/src/kernel/vm.c, with copy-on-write fork. A page table is a page
-- of 512 entries; a pointer to an entry is the page and the index.
pub mod Map
pub mod Cow
pub mod Copy
pub mod Bits
pub mod Lookup
pub mod Break
pub mod Copyin
mod Tests
use mini_project_3_amey_chou.Common.{
  ℕ, zero, suc, ◌+◌, ◌*◌, ◌/◌, ◌-◌, ◌%◌, ◌^◌, Option, none, some, Bool, true, false, ℤ, pos, negsuc,
  ltb, leb, ◌==◌, if◌then◌else◌, update, not, ◌&&◌,
}
use mini_project_3_amey_chou.Phys.{
  Phys, Run, ok, panic, M, pure, stop, and_then, ◌>>=◌, ◌>>◌, memset_page, memmove_page, get_word,
  put_word, pg_round_down, pg_round_up,
}
use mini_project_3_amey_chou.Kalloc.{check_and_increment, kfree, kalloc}

-- Bit `k` of a word: `w & (1L << k)`, `w | (1L << k)` and `w & ~(1L << k)`.
unfoldable pub has_bit : ℕ → ℕ → Bool
has_bit k w = (w / 2 ^ k % 2) == 1

unfoldable pub set_bit : ℕ → ℕ → ℕ
unfolding has_bit
set_bit k w = if has_bit k w then w else w + 2 ^ k

unfoldable pub clear_bit : ℕ → ℕ → ℕ
unfolding has_bit
clear_bit k w = if has_bit k w then w - 2 ^ k else w

-- PTE_V, PTE_R, PTE_W, PTE_X, PTE_U and PTE_COW, as bit numbers.
abbrev pub pte_v : ℕ
pte_v = 0

abbrev pub pte_r : ℕ
pte_r = 1

abbrev pub pte_w : ℕ
pte_w = 2

abbrev pub pte_x : ℕ
pte_x = 3

abbrev pub pte_u : ℕ
pte_u = 4

abbrev pub pte_cow : ℕ
pte_cow = 5

-- PA2PTE, PTE2PA, PTE_FLAGS, PX and MAXVA.
abbrev pub pa2pte : ℕ → ℕ
pa2pte pa = pa / 2 ^ 12 * 2 ^ 10 % 2 ^ 64

abbrev pub pte2pa : ℕ → ℕ
pte2pa pte = pte / 2 ^ 10 * 2 ^ 12 % 2 ^ 64

abbrev pub pte_flags : ℕ → ℕ
pte_flags pte = pte % 2 ^ 10

abbrev pub px : (level va : ℕ) → ℕ
px level va = va / 2 ^ (12 + 9 * level) % 2 ^ 9

abbrev pub maxva : ℕ
maxva = 2 ^ 38

-- `PA2PTE(pa) | flags`, for flags below 2 ^ 10: the low ten bits of PA2PTE(pa) are 0.
abbrev pub mk_pte : (pa flags : ℕ) → ℕ
mk_pte pa flags = pa2pte pa + flags

-- A pointer to a page table entry.
pub record PteRef : Type 0 where
  pub page : ℕ
  pub index : ℕ

abbrev pub load : PteRef → M ℕ
load r = get_word r.page r.index

abbrev pub store : PteRef → ℕ → M (Unit {0})
store r v = put_word r.page r.index v

-- The page-table page that `walk` allocates for an entry that is not valid.
unfoldable pub new_table : PteRef → Option ℕ → M (Option ℕ)
new_table pte none = pure none
new_table pte (some page) = do
  memset_page page 0
  store pte (set_bit pte_v (pa2pte (page * 4096)))
  pure (some page)

-- One round of the loop of `walk`: the next page table, or `none` where `walk` returns 0.
unfoldable pub descend : (level va : ℕ) → Bool → (pagetable : ℕ) → M (Option ℕ)
descend level va alloc pagetable = do
  let pte : PteRef = record { page = pagetable; index = px level va }
  e ← load pte
  if has_bit pte_v e
      then pure (some (pte2pa e / 4096))
      else if alloc
      then (kalloc >>= new_table pte)
      else pure none

-- The loop of `walk`, from `level` down to 1.
unfoldable pub walk_from : (level : ℕ) → (va : ℕ) → Bool → (pagetable : ℕ) → M (Option PteRef)
walk_from zero va alloc pagetable = pure (some (record { page = pagetable; index = px 0 va }))
walk_from (suc l) va alloc pagetable = descend (suc l) va alloc pagetable >>= λ next. elim next [
  | none ↦ pure none
  | some table ↦ walk_from l va alloc table
]

unfoldable pub walk : (pagetable va : ℕ) → Bool → M (Option PteRef)
walk pagetable va alloc = if leb maxva va then stop else walk_from 2 va alloc pagetable

-- `walkaddr`: the physical address, or 0.
unfoldable pub user_address : Option PteRef → M ℕ
user_address none = pure 0
user_address (some pte) = do
  e ← load pte
  pure (if not (has_bit pte_v e) then 0 else if not (has_bit pte_u e) then 0 else pte2pa e)

unfoldable pub walkaddr : (pagetable va : ℕ) → M ℕ
walkaddr pagetable va = if leb maxva va then pure 0 else (walk pagetable va false >>= user_address)
