-- ===== src/Bytes.antt =====
-- The routines of initial-xv6/src/kernel/string.c, on memory as one array of bytes. No run reaches
-- the end of the address space.
mod Move
mod Strings
mod Tests
use mini_project_3_amey_chou.Common.{
  ℕ, zero, suc, ◌+◌, ◌-◌, ◌%◌, ◌^◌, Bool, true, false, Option, none, some, ◌==◌, ltb, leb,
  if◌then◌else◌, update, for_upto, not, ◌&&◌, ℤ, pos, negsuc, int32_bits, ◌-ℤ◌,
}

abbrev pub Memory : Type 0
Memory = ℕ → ℕ

-- `memset(dst, c, n)`
unfoldable pub memset : (dst : ℕ) → (c : ℤ) → (n : ℕ) → Memory → Memory
memset dst c n m = for_upto n (λ i v. update v (dst + i) (int32_bits c % 256)) m

-- `memcmp(v1, v2, n)`
unfoldable pub memcmp : (v1 v2 n : ℕ) → Memory → ℤ
memcmp v1 v2 zero m = pos 0
memcmp v1 v2 (suc n) m =
    let rest = memcmp (v1 + 1) (v2 + 1) n m in
    if not (m v1 == m v2) then pos (m v1) -ℤ pos (m v2) else rest

-- `while(n-- > 0) *--d = *--s;`
unfoldable pub copy_down : (d s n : ℕ) → Memory → Memory
copy_down d s zero m = m
copy_down d s (suc n) m = copy_down (d - 1) (s - 1) n (update m (d - 1) (m (s - 1)))

-- `while(n-- > 0) *d++ = *s++;`
unfoldable pub copy_up : (d s n : ℕ) → Memory → Memory
copy_up d s zero m = m
copy_up d s (suc n) m = copy_up (d + 1) (s + 1) n (update m d (m s))

unfoldable pub memmove : (dst src n : ℕ) → Memory → Memory
memmove dst src n m =
    if n == 0
    then m
    else if ltb src dst && ltb dst (src + n)
    then copy_down (dst + n) (src + n) n m
    else copy_up dst src n m

unfoldable pub memcpy : (dst src n : ℕ) → Memory → Memory
memcpy dst src n m = memmove dst src n m

-- `strncmp(p, q, n)`
unfoldable pub strncmp : (p q n : ℕ) → Memory → ℤ
strncmp p q zero m = pos 0
strncmp p q (suc n) m =
    let rest = strncmp (p + 1) (q + 1) n m in
    if not (m p == 0) && (m p == m q) then rest else pos (m p) -ℤ pos (m q)

-- `while(n-- > 0) *s++ = 0;`
unfoldable pub clear_up : (s n : ℕ) → Memory → Memory
clear_up s zero m = m
clear_up s (suc n) m = clear_up (s + 1) n (update m s 0)

-- `strncpy(s, t, n)` with `n` rounds to go; the second loop clears what is left.
unfoldable pub strncpy : (s t n : ℕ) → Memory → Memory
strncpy s t zero m = m
strncpy s t (suc n) m =
    let rest = strncpy (s + 1) (t + 1) n (update m s (m t)) in
    if m t == 0 then clear_up (s + 1) n (update m s (m t)) else rest

-- The loop of `safestrcpy` and its last write, with `--n` equal to `n`.
unfoldable pub copy_string : (s t n : ℕ) → Memory → Memory
copy_string s t zero m = update m s 0
copy_string s t (suc n) m =
    let rest = copy_string (s + 1) (t + 1) n (update m s (m t)) in
    if m t == 0 then update (update m s (m t)) (s + 1) 0 else rest

unfoldable pub safestrcpy : (s t : ℕ) → (n : ℤ) → Memory → Memory
safestrcpy s t (pos (suc n)) m = copy_string s t n m
safestrcpy s t _ m = m

-- `strlen(s)` in at most `fuel` rounds.
unfoldable pub strlen : (fuel s n : ℕ) → Memory → Option ℕ
strlen zero s n m = none
strlen (suc fuel) s n m = if m (s + n) == 0 then some n else strlen fuel s (n + 1) m
