-- ===== src/Bytes/Tests.antt =====
-- The routines of string.c on a small memory: the string "hi" at address 4.
use mini_project_3_amey_chou.Common.{◌≡◌, refl, arith, some, update, pos}
use mini_project_3_amey_chou.Bytes.{Memory, memmove, safestrcpy, strlen}
use mini_project_3_amey_chou.Bytes.Move.{Copied, memmove_lem}
use mini_project_3_amey_chou.Bytes.Strings.{Written, safestrcpy_lem, strlen_lem}

abbrev hi : Memory
hi = update (update (λ a. 0) 4 104) 5 105

memmove_lem_example : Copied 5 4 3 hi (memmove 5 4 3 hi)
memmove_lem_example = memmove_lem 5 4 3 hi

safestrcpy_lem_example : Written 20 2 hi (safestrcpy 20 4 (pos 2) hi)
safestrcpy_lem_example = safestrcpy_lem 20 4 2 hi (omega arith)

strlen_lem_example : strlen 10 4 0 hi ≡ some 2
strlen_lem_example = strlen_lem 10 4 2 hi (omega arith) refl (λ i lt e. ground arith)
