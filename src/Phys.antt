-- ===== src/Phys.antt =====
-- Physical memory as initial-xv6/src/kernel/kalloc.c and vm.c use it, with the monad of the code
-- that changes it. Memory is read and written by 64-bit words of 4096-byte pages; a page is named
-- by its number, its address divided by PGSIZE.
use mini_project_3_amey_chou.Common.{ℕ, ◌+◌, ◌*◌, ◌/◌, ◌%◌, ◌^◌, List, ℤ, update}

pub record Phys : Type 0 where
  pub word : ℕ → ℕ → ℕ  -- page number, index of the word in the page
  pub temp : ℕ → ℤ  -- `temp[]`: the reference count of each page
  pub freelist : List ℕ  -- `kmem.freelist`, most recently freed first

-- A call returns, with the memory it leaves, or stops the machine.
pub data Run (A : Type 0) : Type 0 where
  ok : A → Phys → Run A
  panic : Run A

abbrev pub M : Type 0 → Type 0
M A = Phys → Run A

abbrev pub pure : {A : Type 0} → A → M A
pure a s = ok a s

abbrev pub stop : {A : Type 0} → M A
stop s = panic

abbrev pub and_then : {A B : Type 0} → Run A → (A → M B) → Run B
and_then (ok a s) f = f a s
and_then panic f = panic

infixl 5 ◌>>=◌ ◌>>◌
abbrev pub ◌>>=◌ : {A B : Type 0} → M A → (A → M B) → M B
◌>>=◌ m f s = and_then (m s) f

abbrev pub ◌>>◌ : {B : Type 0} → M (Unit {0}) → M B → M B
m >> k = m >>= λ _. k

-- `PGSIZE`, and its number of 64-bit words
abbrev pub pgsize : ℕ
pgsize = 4096

abbrev pub words : ℕ
words = 512

-- `PGROUNDDOWN` and `PGROUNDUP` on a `uint64`
abbrev pub pg_round_down : ℕ → ℕ
pg_round_down a = a / 4096 * 4096

abbrev pub pg_round_up : ℕ → ℕ
pg_round_up sz = (sz + 4095) % 2 ^ 64 / 4096 * 4096

abbrev pub get_word : ℕ → ℕ → M ℕ
get_word page i s = ok (s.word page i) s

-- `page[i] = v`
abbrev pub with_word : Phys → ℕ → ℕ → ℕ → Phys
with_word s page i v = record s { word = update s.word page (update (s.word page) i v) }

abbrev pub put_word : ℕ → ℕ → ℕ → M (Unit {0})
put_word page i v s = ok tt (with_word s page i v)

-- `memset(page, c, PGSIZE)`: every byte of every word is `c`.
abbrev pub fill : Phys → ℕ → ℕ → Phys
fill s page c = record s { word = update s.word page (λ i. c * 0x0101_0101_0101_0101) }

abbrev pub memset_page : ℕ → ℕ → M (Unit {0})
memset_page page c s = ok tt (fill s page c)

-- `memmove(dst, src, PGSIZE)` between two pages
abbrev pub copy_page : Phys → ℕ → ℕ → Phys
copy_page s dst src = record s { word = update s.word dst (s.word src) }

abbrev pub memmove_page : ℕ → ℕ → M (Unit {0})
memmove_page dst src s = ok tt (copy_page s dst src)
