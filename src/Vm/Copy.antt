-- ===== src/Vm/Copy.antt =====
-- Copying between kernel and user memory: `copyout`, `copyin` and `copyinstr` of
-- initial-xv6/src/kernel/vm.c. The kernel's side is a list of bytes.
use mini_project_3_amey_chou.Common.{
  ℕ, zero, suc, ◌+◌, ◌*◌, ◌/◌, ◌-◌, ◌%◌, ◌^◌, Option, none, some, Bool, true, false, ℤ, pos, negsuc,
  ◌==◌, if◌then◌else◌, List, [], ◌∷◌, ◌++◌, length, take, drop,
}
use Prim.Native.Nat.{min}
use mini_project_3_amey_chou.Phys.{M, pure, stop, ◌>>=◌, ◌>>◌, get_word, put_word, pg_round_down}
use mini_project_3_amey_chou.Vm.{has_bit, pte_cow, PteRef, load, walk, walkaddr}
use mini_project_3_amey_chou.Vm.Cow.{custom_cow}

-- The byte at a physical address: words are little-endian.
unfoldable pub get_byte : (pa : ℕ) → M ℕ
get_byte pa = do w ← get_word (pa / 4096) (pa % 4096 / 8); pure (w / 256 ^ (pa % 8) % 256)

unfoldable pub put_byte : (pa c : ℕ) → M (Unit {0})
put_byte pa c = do
  w ← get_word (pa / 4096) (pa % 4096 / 8)
  put_word (pa / 4096) (pa % 4096 / 8)
      (w - w / 256 ^ (pa % 8) % 256 * 256 ^ (pa % 8) + c % 256 * 256 ^ (pa % 8))

-- `memmove` from the kernel's bytes to physical memory, and back.
unfoldable pub put_bytes : (pa : ℕ) → List ℕ → M (Unit {0})
put_bytes pa [] = pure tt
put_bytes pa (c ∷ cs) = do put_byte pa c; put_bytes (pa + 1) cs

unfoldable pub get_bytes : (n : ℕ) → (pa : ℕ) → M (List ℕ)
get_bytes zero pa = pure []
get_bytes (suc n) pa = do c ← get_byte pa; cs ← get_bytes n (pa + 1); pure (c ∷ cs)

-- The bytes that a round copies: up to the end of the page, and no more than are left.
abbrev pub round_len : (va len : ℕ) → ℕ
round_len va len = min (4096 - (va - pg_round_down va)) len

-- `if(*pte & PTE_COW){ custom_cow(…); pa0 = walkaddr(…); }`: the address to write to.
unfoldable pub writable_address : (pagetable va0 pa0 : ℕ) → Option PteRef → M ℕ
writable_address pagetable va0 pa0 none = stop
writable_address pagetable va0 pa0 (some pte) = do
  e ← load pte
  if has_bit pte_cow e then (custom_cow pagetable va0 >>= λ r. walkaddr pagetable va0) else pure pa0

-- A round of `copyout`: whether a page is mapped there, with the bytes written if so.
unfoldable pub out_page : (pagetable dstva : ℕ) → List ℕ → M Bool
out_page pagetable dstva src = do
  let va0 = pg_round_down dstva
  pa0 ← walkaddr pagetable va0
  if pa0 == 0 then pure false else (do
    pte ← walk pagetable va0 false
    pa ← writable_address pagetable va0 pa0 pte
    put_bytes (pa + (dstva - va0)) (take (round_len dstva (length src)) src)
    pure true)

-- `copyout`. Each round copies a byte at least, so `length src` rounds are enough.
unfoldable pub out_from : (rounds : ℕ) → (pagetable dstva : ℕ) → List ℕ → M ℤ
out_from zero pagetable dstva src = pure (pos 0)
out_from (suc n) pagetable dstva [] = pure (pos 0)
out_from (suc n) pagetable dstva (c ∷ cs) = out_page pagetable dstva (c ∷ cs) >>= elim [
  | true ↦
      out_from n pagetable (pg_round_down dstva + 4096)
        (drop (round_len dstva (length (c ∷ cs))) (c ∷ cs))
  | false ↦ pure (negsuc 0)
]

unfoldable pub copyout : (pagetable dstva : ℕ) → List ℕ → M ℤ
copyout pagetable dstva src = out_from (length src) pagetable dstva src

-- `copyin`: the bytes, or `none` for -1.
unfoldable pub in_from : (rounds : ℕ) → (pagetable srcva len : ℕ) → List ℕ → M (Option (List ℕ))
in_from zero pagetable srcva len dst = pure (some dst)
in_from (suc r) pagetable srcva len dst = if len == 0 then pure (some dst) else (do
  let va0 = pg_round_down srcva
  pa0 ← walkaddr pagetable va0
  if pa0 == 0 then pure none else (do
    let n = round_len srcva len
    cs ← get_bytes n (pa0 + (srcva - va0))
    λ s. in_from r pagetable (va0 + 4096) (len - n) (dst ++ cs) s))

unfoldable pub copyin : (pagetable srcva len : ℕ) → M (Option (List ℕ))
copyin pagetable srcva len = in_from len pagetable srcva len []

-- The inner loop of `copyinstr`: the bytes before a '\0', and whether one was met.
unfoldable pub str_from : (n : ℕ) → (pa : ℕ) → M (List ℕ × Bool)
str_from zero pa = pure ([], false)
str_from (suc n) pa = do
  c ← get_byte pa
  if c == 0 then pure ([], true) else (do (cs, got) ← str_from n (pa + 1); pure (c ∷ cs, got))

-- `copyinstr`: the string without its '\0', or `none` for -1.
unfoldable pub instr_from : (rounds : ℕ) → (pagetable srcva max : ℕ) → List ℕ → M (Option (List ℕ))
instr_from zero pagetable srcva max dst = pure none
instr_from (suc r) pagetable srcva max dst = if max == 0 then pure none else (do
  let va0 = pg_round_down srcva
  pa0 ← walkaddr pagetable va0
  if pa0 == 0 then pure none else (do
    let n = round_len srcva max
    (cs, got) ← str_from n (pa0 + (srcva - va0))
    λ s. elim got [
      | true ↦ pure (some (dst ++ cs)) s
      | false ↦ instr_from r pagetable (va0 + 4096) (max - n) (dst ++ cs) s
    ]))

unfoldable pub copyinstr : (pagetable srcva max : ℕ) → M (Option (List ℕ))
copyinstr pagetable srcva max = instr_from max pagetable srcva max []
