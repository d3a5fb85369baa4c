-- ===== src/Trap/Tests.antt =====
-- A store fault of initial-xv6/src/kernel/trap.c on a concrete memory.
use mini_project_3_amey_chou.Common.{ℕ, ◌*◌, ◌≡◌, ◌⊎◌, refl, arith, false, [], ◌∷◌, pos, update}
use mini_project_3_amey_chou.Proc.{Table, free_slot}
use mini_project_3_amey_chou.Phys.{Phys, ok}
use mini_project_3_amey_chou.Kalloc.Counts.{IsConsistent}
use mini_project_3_amey_chou.Vm.{has_bit, pte_cow, mk_pte, PteRef}
use mini_project_3_amey_chou.Vm.Lookup.{entry, lookup_from}
use mini_project_3_amey_chou.Vm.Break.{IsPrivate, IsMapped, Broken}
use mini_project_3_amey_chou.Trap.{exits, resumes, usertrap_store, sp_word}
use mini_project_3_amey_chou.Trap.Fault.{IsForbidden, Marked, usertrap_store_lem}

-- Tables in pages 10, 11 and 12, the trap frame in page 13; address 0x5000 is mapped copy-on-write
-- to page 20, and the stack pointer is 0x9ff0.
abbrev memory : Phys
memory = record {
  word =
      update
        (update
          (update (update (λ p i. 0) 10 (update (λ i. 0) 0 (mk_pte (11 * 4096) 1))) 11
            (update (λ i. 0) 0 (mk_pte (12 * 4096) 1)))
          12 (update (λ i. 0) 5 (mk_pte (20 * 4096) 0b11_0011)))
        13 (update (λ i. 0) 6 0x9ff0);
  temp = update (update (update (update (λ p. pos 0) 10 (pos 1)) 11 (pos 1)) 12 (pos 1)) 20 (pos 2);
  freelist = 30 ∷ [];
}

abbrev slot : PteRef
slot = record { page = 12; index = 5 }

memory-IsConsistent : IsConsistent memory
memory-IsConsistent = record {
  once = λ p. ground arith;
  free_unused = λ p h. ground arith;
  nonneg = λ p. ground arith;
}

memory-IsMapped : IsMapped memory 10 0x5678 slot
unfolding lookup_from has_bit
memory-IsMapped = record { in_range = omega arith; found = refl; valid = refl }

usertrap_store_lem_example :
    ((IsForbidden (memory.word 13 sp_word) 0x5678
        ⊎ (has_bit pte_cow (entry memory slot) ≡ false)
        ⊎ (memory.freelist ≡ []))
      × ((u : Table) × (usertrap_store 1 13 10 0x5678 (λ i. free_slot) memory ≡ ok (exits u) memory)
          × Marked 1 (pos 1) (λ i. free_slot) u))
    ⊎ ((IsForbidden (memory.word 13 sp_word) 0x5678 → ⊥)
        × (new : ℕ) × (s' : Phys) × (u : Table) × (usertrap_store 1 13 10 0x5678
              (λ i. free_slot)
              memory
            ≡ ok (resumes u) s')
        × Marked 1 (pos 0) (λ i. free_slot) u
        × Broken memory slot new 1 s'
        × IsPrivate s' slot)
usertrap_store_lem_example =
    usertrap_store_lem memory 1 13 10 0x5678 (λ i. free_slot) slot 1 (omega arith) (omega arith)
      memory-IsMapped memory-IsConsistent (record { in_use = refl; not_mapped = omega arith }) refl
      (omega arith)
