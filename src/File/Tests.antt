-- ===== src/File/Tests.antt =====
-- A table with one open pipe, in slot 0, and the theorems there.
use mini_project_3_amey_chou.Common.{ℕ, ◌≡◌, refl, arith, true, false, some, none, update, pos}
use mini_project_3_amey_chou.File.{File, FileTable, fd_none, fd_pipe, filedup, fileclose, nothing}
use mini_project_3_amey_chou.File.Refs.{left, to_do, fileclose_lem, fileclose-filedup}

abbrev unused_file : File
unused_file = record {
  kind = fd_none;
  ref = pos 0;
  readable = false;
  writable = false;
  pipe = none;
  ip = none;
  off = 0;
  major = pos 0;
}

abbrev one_pipe : FileTable
one_pipe =
    update (λ i. unused_file) 0
      (record unused_file { kind = fd_pipe; ref = pos 2; readable = true; pipe = some 4096 })

-- The last reference to the pipe.
abbrev last_pipe : FileTable
last_pipe = update one_pipe 0 (record (one_pipe 0) { ref = pos 1 })

fileclose_lem_example :
    fileclose 0 last_pipe ≡ some (update last_pipe 0 (left 0 (last_pipe 0)), to_do 0 (last_pipe 0))
fileclose_lem_example = fileclose_lem last_pipe 0 0 (omega arith) refl

fileclose-filedup_example :
    (u : FileTable) × (w : FileTable) × (filedup 0 one_pipe ≡ some u)
    × (fileclose 0 u ≡ some (w, nothing))
    × ((j : ℕ) → w j ≡ one_pipe j)
fileclose-filedup_example = fileclose-filedup one_pipe 0 1 (omega arith) refl
