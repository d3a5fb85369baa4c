-- ===== src/File.antt =====
-- The table of open files of initial-xv6/src/kernel/file.c: `filealloc`, `filedup` and `fileclose`.
-- The lock of the table is held over each access, so a call is one atomic step; what `fileclose`
-- does after it let the lock go is its result.
mod Refs
mod Tests
use mini_project_3_amey_chou.Common.{
  ℕ, Bool, true, false, Option, none, some, if◌then◌else◌, update, find_upto, ℤ, pos, eqb_ℤ, ltb_ℤ,
}
use mini_project_3_amey_chou.Proc.{incr}
use mini_project_3_amey_chou.Kalloc.{decr}

-- The type of a file.
pub data Kind : Type 0 where
  fd_none fd_pipe fd_inode fd_device : Kind

-- `struct file`; a pointer is an address.
pub record File : Type 0 where
  pub kind : Kind
  pub ref : ℤ
  pub readable : Bool
  pub writable : Bool
  pub pipe : Option ℕ
  pub ip : Option ℕ
  pub off : ℕ
  pub major : ℤ

-- `NFILE`
abbrev pub nfile : ℕ
nfile = 100

-- `ftable.file`
abbrev pub FileTable : Type 0
FileTable = ℕ → File

-- `f->ref == 0`
unfoldable pub is_free : File → Bool
is_free f = eqb_ℤ f.ref (pos 0)

unfoldable pub take_slot : FileTable → Option ℕ → FileTable × Option ℕ
take_slot t none = (t, none)
take_slot t (some i) = (update t i (record (t i) { ref = pos 1 }), some i)

-- `filealloc`: the table and the slot, or `none` for 0.
unfoldable pub filealloc : FileTable → FileTable × Option ℕ
filealloc t = take_slot t (find_upto nfile (λ i. is_free (t i)))

-- `filedup` of slot `i`; `none` where it panics.
unfoldable pub filedup : ℕ → FileTable → Option FileTable
filedup i t =
    if ltb_ℤ (t i).ref (pos 1)
    then none
    else some (update t i (record (t i) { ref = incr (t i).ref }))

-- What is left to do when a file is closed for good.
pub data Closing : Type 0 where
  nothing : Closing
  close_pipe : (pipe : Option ℕ) → (writable : Bool) → Closing
  put_inode : (ip : Option ℕ) → Closing

unfoldable pub closing : File → Kind → Closing
closing ff fd_none = nothing
closing ff fd_pipe = close_pipe ff.pipe ff.writable
closing ff fd_inode = put_inode ff.ip
closing ff fd_device = put_inode ff.ip

-- `fileclose` of slot `i`; `none` where it panics.
unfoldable pub fileclose : ℕ → FileTable → Option (FileTable × Closing)
fileclose i t =
    if ltb_ℤ (t i).ref (pos 1)
    then none
    else (let f = record (t i) { ref = decr (t i).ref } in
        if ltb_ℤ (pos 0) f.ref
        then some (update t i f, nothing)
        else some (update t i (record f { ref = pos 0; kind = fd_none }), closing f f.kind))
