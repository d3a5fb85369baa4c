-- ===== src/Kalloc/Tests.antt =====
-- The page allocator on a small memory, and its theorems there.
use mini_project_3_amey_chou.Common.{refl, arith, [], ◌∷◌, pos, update}
use mini_project_3_amey_chou.Phys.{Phys}
use mini_project_3_amey_chou.Kalloc.Counts.{IsConsistent}
use mini_project_3_amey_chou.Kalloc.Owners.{Call, Owners, Agrees, Served, call_lem}

abbrev owned : Owners
owned = update (update (λ p. 0) 7 2) 8 1

-- Pages 5 and 6 are free, page 7 has two references and page 8 one.
abbrev small : Phys
small = record { word = λ p i. p; temp = λ p. pos (owned p); freelist = 5 ∷ 6 ∷ [] }

small-IsConsistent : IsConsistent small
small-IsConsistent = record {
  once = λ p. ground arith;
  free_unused = λ p h. ground arith;
  nonneg = λ p. refl;
}

small-Agrees : Agrees small owned
small-Agrees = record { consistent = small-IsConsistent; refs = λ p. refl }

call_lem_example : Served small owned (Call.free 7)
call_lem_example = call_lem small owned (Call.free 7) small-Agrees (omega arith, omega arith)

abbrev zeroed : Phys
zeroed = record { word = λ p i. 0; temp = λ p. pos 0; freelist = [] }
