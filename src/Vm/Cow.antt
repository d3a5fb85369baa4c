-- ===== src/Vm/Cow.antt =====
-- Copy-on-write fork: `uvmcopy` and `custom_cow` of initial-xv6/src/kernel/vm.c.
use mini_project_3_amey_chou.Common.{
  ℕ, zero, suc, ◌+◌, ◌*◌, ◌/◌, Option, none, some, Bool, true, false, ℤ, pos, negsuc, ltb,
  if◌then◌else◌, not,
}
use mini_project_3_amey_chou.Phys.{M, pure, stop, ◌>>=◌, ◌>>◌, memmove_page, pg_round_down}
use mini_project_3_amey_chou.Kalloc.{check_and_increment, kfree, kalloc}
use mini_project_3_amey_chou.Vm.{
  has_bit, set_bit, clear_bit, pte_v, pte_w, pte_cow, pte2pa, pte_flags, mk_pte, maxva, PteRef,
  load, store, walk,
}
use mini_project_3_amey_chou.Vm.Map.{mappages, uvmunmap}

-- The flags that parent and child share: a writable page becomes copy-on-write.
unfoldable pub shared_flags : ℕ → ℕ
shared_flags flags = if has_bit pte_w flags then set_bit pte_cow (clear_bit pte_w flags) else flags

-- `if(flags & PTE_W) { … *pte = PA2PTE(pa)|flags; }`
unfoldable pub protect : PteRef → (e : ℕ) → M (Unit {0})
protect pte e =
    if has_bit pte_w (pte_flags e)
    then store pte (mk_pte (pte2pa e) (shared_flags (pte_flags e)))
    else pure tt

-- One page of `uvmcopy`: whether the child's mapping was made.
unfoldable pub share_page : (new i : ℕ) → Option PteRef → M Bool
share_page new i none = stop
share_page new i (some pte) = do
  e ← load pte
  if not (has_bit pte_v e) then stop else (do
    protect pte e
    r ← mappages new i 4096 (pte2pa e) (shared_flags (pte_flags e))
    elim r [
      | pos zero ↦ check_and_increment (pte2pa e / 4096) >> pure true
      | pos (suc k) ↦ pure false
      | negsuc k ↦ pure false
    ])

-- The loop of `uvmcopy` from address `i`, with the pages that are left.
unfoldable pub share_from : (pages : ℕ) → (old new i : ℕ) → M ℤ
share_from zero old new i = pure (pos 0)
share_from (suc n) old new i = walk old i false >>= share_page new i >>= elim [
  | true ↦ share_from n old new (i + 4096)
  | false ↦ uvmunmap new 0 (i / 4096) true >> pure (negsuc 0)
]

unfoldable pub uvmcopy : (old new sz : ℕ) → M ℤ
uvmcopy old new sz = share_from ((sz + 4095) / 4096) old new 0

-- `flags &= ~PTE_COW; flags |= PTE_W;`
unfoldable pub private_flags : ℕ → ℕ
private_flags flags = set_bit pte_w (clear_bit pte_cow flags)

-- The end of `custom_cow`, from the check of `kalloc` on.
unfoldable pub replace_page : PteRef → (e : ℕ) → Option ℕ → M ℤ
replace_page pte e none = pure (pos 1)
replace_page pte e (some mem) = do
  memmove_page mem (pte2pa e / 4096)
  store pte (mk_pte (mem * 4096) (private_flags (pte_flags e)))
  kfree (pte2pa e)
  pure (pos 0)

-- `custom_cow` once the entry is found.
unfoldable pub break_entry : Option PteRef → M ℤ
break_entry none = stop
break_entry (some pte) = do
  e ← load pte
  if not (has_bit pte_v e)
      then stop
      else if not (has_bit pte_cow e)
      then pure (pos 1)
      else (kalloc >>= replace_page pte e)

unfoldable pub custom_cow : (pt va : ℕ) → M ℤ
custom_cow pt va =
    let va0 = pg_round_down va in
    if ltb maxva va0 then pure (pos 1) else (walk pt va0 false >>= break_entry)
