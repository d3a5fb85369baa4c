-- ===== src/Vm/Map.antt =====
-- Mapping, unmapping and freeing: `mappages`, `uvmunmap`, `uvmcreate`, `uvmalloc`, `uvmdealloc`,
-- `freewalk`, `uvmfree` and `uvmclear` of initial-xv6/src/kernel/vm.c.
use mini_project_3_amey_chou.Common.{
  ℕ, zero, suc, ◌+◌, ◌*◌, ◌/◌, ◌-◌, ◌%◌, ◌^◌, Option, none, some, Bool, true, false, ℤ, pos, negsuc,
  ltb, leb, ◌==◌, if◌then◌else◌, not, ◌&&◌,
}
use mini_project_3_amey_chou.Phys.{
  M, pure, stop, ◌>>=◌, ◌>>◌, memset_page, get_word, put_word, pg_round_down, pg_round_up,
}
use mini_project_3_amey_chou.Kalloc.{kfree, kalloc}
use mini_project_3_amey_chou.Vm.{
  has_bit, set_bit, clear_bit, pte_v, pte_r, pte_w, pte_x, pte_u, pte2pa, pte_flags, mk_pte, PteRef,
  load, store, walk,
}

-- One page of `mappages`: 0, or -1 where `walk` fails.
unfoldable pub map_entry : (pa perm : ℕ) → Option PteRef → M ℤ
map_entry pa perm none = pure (negsuc 0)
map_entry pa perm (some pte) = do
  e ← load pte
  if has_bit pte_v e then stop else (store pte (set_bit pte_v (mk_pte pa perm)) >> pure (pos 0))

-- The loop of `mappages`. A round either ends it or moves `a` up a page, and `walk` stops the
-- machine from MAXVA on; so no run makes more than MAXVA / PGSIZE + 1 rounds.
unfoldable pub map_from : ℕ → (pagetable a last pa perm : ℕ) → M ℤ
map_from zero pagetable a last pa perm = stop
map_from (suc n) pagetable a last pa perm = walk pagetable a true >>= map_entry pa perm >>= elim [
  | pos k ↦
      if a == last
      then pure (pos k)
      else (λ s. map_from n pagetable (a + 4096) last ((pa + 4096) % 2 ^ 64) perm s)
  | negsuc k ↦ pure (negsuc k)
]

abbrev pub map_rounds : ℕ
map_rounds = 2 ^ 26 + 1

unfoldable pub mappages : (pagetable va size pa perm : ℕ) → M ℤ
mappages pagetable va size pa perm =
    if size == 0
    then stop
    else map_from map_rounds pagetable (pg_round_down va)
        (pg_round_down ((va + size + 2 ^ 64 - 1) % 2 ^ 64)) pa perm

-- One page of `uvmunmap`.
unfoldable pub unmap_entry : (do_free : Bool) → Option PteRef → M (Unit {0})
unmap_entry do_free none = stop
unmap_entry do_free (some pte) = do
  e ← load pte
  if not (has_bit pte_v e)
      then stop
      else if pte_flags e == 1
      then stop
      else if do_free
      then (do kfree (pte2pa e); store pte 0)
      else store pte 0

unfoldable pub unmap_from : (npages : ℕ) → (pagetable a : ℕ) → Bool → M (Unit {0})
unmap_from zero pagetable a do_free = pure tt
unmap_from (suc n) pagetable a do_free = do
  (walk pagetable a false >>= unmap_entry do_free)
  unmap_from n pagetable (a + 4096) do_free

unfoldable pub uvmunmap : (pagetable va npages : ℕ) → (do_free : Bool) → M (Unit {0})
uvmunmap pagetable va npages do_free =
    if va % 4096 == 0 then unmap_from npages pagetable va do_free else stop

-- A zeroed page, or `none`: `uvmcreate`.
unfoldable pub cleared : Option ℕ → M (Option ℕ)
cleared none = pure none
cleared (some page) = memset_page page 0 >> pure (some page)

unfoldable pub uvmcreate : M (Option ℕ)
uvmcreate = kalloc >>= cleared

unfoldable pub uvmdealloc : (pagetable oldsz newsz : ℕ) → M ℕ
uvmdealloc pagetable oldsz newsz =
    if leb oldsz newsz
    then pure oldsz
    else if ltb (pg_round_up newsz) (pg_round_up oldsz)
    then (uvmunmap pagetable (pg_round_up newsz) ((pg_round_up oldsz - pg_round_up newsz) / 4096)
          true
        >> pure newsz)
    else pure newsz

-- `PTE_R|PTE_U|xperm`
abbrev pub user_perm : ℕ → ℕ
user_perm xperm = set_bit pte_r (set_bit pte_u xperm)

-- One page of `uvmalloc`: whether it was allocated and mapped.
unfoldable pub grow_page : (pagetable a xperm : ℕ) → Option ℕ → M Bool
grow_page pagetable a xperm none = pure false
grow_page pagetable a xperm (some mem) = do
  memset_page mem 0
  r ← mappages pagetable a 4096 (mem * 4096) (user_perm xperm)
  elim r [ pos k ↦ pure true | negsuc k ↦ kfree (mem * 4096) >> pure false ]

-- The loop of `uvmalloc` from `a`, with the pages that are left; 0 after an error.
unfoldable pub grow_from : (pages : ℕ) → (pagetable a oldsz newsz xperm : ℕ) → M ℕ
grow_from zero pagetable a oldsz newsz xperm = pure newsz
grow_from (suc n) pagetable a oldsz newsz xperm = kalloc >>= grow_page pagetable a xperm >>= elim [
  | true ↦ grow_from n pagetable (a + 4096) oldsz newsz xperm
  | false ↦ uvmdealloc pagetable a oldsz >>= λ sz. pure 0
]

unfoldable pub uvmalloc : (pagetable oldsz newsz xperm : ℕ) → M ℕ
uvmalloc pagetable oldsz newsz xperm =
    if ltb newsz oldsz
    then pure oldsz
    else grow_from ((newsz + 4095 - pg_round_up oldsz) / 4096) pagetable (pg_round_up oldsz)
        (pg_round_up oldsz) newsz xperm

-- An entry that points to a lower page table: none of PTE_R, PTE_W and PTE_X.
unfoldable pub is_table : ℕ → Bool
is_table e = not (has_bit pte_r e) && not (has_bit pte_w e) && not (has_bit pte_x e)

-- The loop of `freewalk` over the entries below `n`, in order; `free_child` is the recursive call.
unfoldable pub free_entries : (ℕ → M (Unit {0})) → (n : ℕ) → (pagetable : ℕ) → M (Unit {0})
free_entries free_child zero pagetable = pure tt
free_entries free_child (suc i) pagetable = do
  free_entries free_child i pagetable
  e ← get_word pagetable i
  if has_bit pte_v e && is_table e
      then (do free_child (pte2pa e / 4096); put_word pagetable i 0)
      else if has_bit pte_v e
      then stop
      else pure tt

-- `freewalk`, for page tables of at most `depth` levels.
unfoldable pub freewalk : (depth : ℕ) → (pagetable : ℕ) → M (Unit {0})
freewalk zero pagetable = stop
freewalk (suc d) pagetable = do free_entries (freewalk d) 512 pagetable; kfree (pagetable * 4096)

-- `uvmfree`: a user page table has three levels.
unfoldable pub uvmfree : (pagetable sz : ℕ) → M (Unit {0})
uvmfree pagetable sz = do
  (if ltb 0 sz then uvmunmap pagetable 0 (pg_round_up sz / 4096) true else pure tt)
  freewalk 3 pagetable

-- `uvmclear`: the page at `va` is no longer accessible to the user.
unfoldable pub clear_entry : Option PteRef → M (Unit {0})
clear_entry none = stop
clear_entry (some pte) = do e ← load pte; store pte (clear_bit pte_u e)

unfoldable pub uvmclear : (pagetable va : ℕ) → M (Unit {0})
uvmclear pagetable va = walk pagetable va false >>= clear_entry
