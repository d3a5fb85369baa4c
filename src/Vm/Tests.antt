-- ===== src/Vm/Tests.antt =====
-- A page table of three levels with one copy-on-write page, and the theorems there.
use mini_project_3_amey_chou.Common.{
  ℕ, ◌*◌, ◌<◌, ◌≤◌, ◌≡◌, ◌≢◌, refl, arith, true, false, [], ◌∷◌, pos, update,
}
use mini_project_3_amey_chou.Phys.{Phys, ok}
use mini_project_3_amey_chou.Kalloc.Counts.{IsConsistent}
use mini_project_3_amey_chou.Vm.{has_bit, pte_cow, mk_pte, PteRef, walkaddr, maxva}
use mini_project_3_amey_chou.Vm.Cow.{custom_cow}
use mini_project_3_amey_chou.Vm.Lookup.{entry, lookup, lookup_from, translate, walkaddr_lem}
use mini_project_3_amey_chou.Vm.Break.{IsMapped, IsPrivate, Broken, custom_cow_lem}

-- Tables in pages 10, 11 and 12; address 0x5000 is mapped copy-on-write to page 20.
abbrev memory : Phys
memory = record {
  word =
      update
        (update (update (λ p i. 0) 10 (update (λ i. 0) 0 (mk_pte (11 * 4096) 1))) 11
          (update (λ i. 0) 0 (mk_pte (12 * 4096) 1)))
        12 (update (λ i. 0) 5 (mk_pte (20 * 4096) 0b11_0011));
  temp = update (update (update (update (λ p. pos 0) 10 (pos 1)) 11 (pos 1)) 12 (pos 1)) 20 (pos 2);
  freelist = 30 ∷ [];
}

abbrev slot : PteRef
slot = record { page = 12; index = 5 }

memory-IsConsistent : IsConsistent memory
memory-IsConsistent = record {
  once = λ p. ground arith;
  free_unused = λ p h. ground arith;
  nonneg = λ p. ground arith;
}

memory-IsMapped : IsMapped memory 10 0x5678 slot
unfolding lookup_from has_bit
memory-IsMapped = record { in_range = omega arith; found = refl; valid = refl }

custom_cow_lem_example :
    (has_bit pte_cow (entry memory slot) ≡ false → custom_cow 10 0x5678 memory ≡ ok (pos 1) memory)
    × (memory.freelist ≡ [] → custom_cow 10 0x5678 memory ≡ ok (pos 1) memory)
    × (has_bit pte_cow (entry memory slot) ≡ true
        → memory.freelist ≢ []
        → (new : ℕ) × (s' : Phys) × (custom_cow 10 0x5678 memory ≡ ok (pos 0) s')
          × Broken memory slot new 1 s'
          × IsPrivate s' slot)
custom_cow_lem_example =
    custom_cow_lem memory 10 0x5678 slot 1 memory-IsMapped memory-IsConsistent
      (record { in_use = refl; not_mapped = omega arith }) refl (omega arith)

walkaddr_lem_example :
    (0x5000 < maxva
      → walkaddr 10 0x5000 memory ≡ ok (translate memory (lookup memory 10 0x5000)) memory)
    × (maxva ≤ 0x5000 → walkaddr 10 0x5000 memory ≡ ok 0 memory)
walkaddr_lem_example = walkaddr_lem 10 0x5000 memory
