-- ===== src/Life/Fork.antt =====
-- `fork` of initial-xv6/src/kernel/proc.c, over the table of processes, the open files and the
-- reference counts of the inodes.
pub mod Files
use mini_project_3_amey_chou.Common.{
  ℕ, zero, suc, ◌-◌, ◌/◌, Bool, true, false, Option, none, some, ltb, if◌then◌else◌, update,
  for_upto, ℤ, pos, negsuc, ltb_ℤ,
}
use mini_project_3_amey_chou.Proc.{Proc, ProcState, Table, acquire, release, incr}
use mini_project_3_amey_chou.Phys.{Phys, Run, ok, panic, M, pure, stop, and_then, ◌>>=◌, with_word}
use mini_project_3_amey_chou.Vm.Cow.{uvmcopy}
use mini_project_3_amey_chou.Bytes.{safestrcpy}
use mini_project_3_amey_chou.File.{FileTable, filedup}
use mini_project_3_amey_chou.Life.{Allocated, allocproc, freeproc}

pub record Kernel : Type 0 where
  pub table : Table
  pub nextpid : ℤ
  pub files : FileTable
  pub inode_refs : ℕ → ℤ  -- `ip->ref` of the inode at an address

-- `NOFILE`
abbrev pub nofile : ℕ
nofile = 16

-- `*(np->trapframe) = *(p->trapframe); np->trapframe->a0 = 0;` : 36 words, of which a0 is word 14.
unfoldable pub copy_trapframe : (dst src : ℕ) → Phys → Phys
copy_trapframe dst src s =
    with_word (for_upto 36 (λ i m. with_word m dst i (s.word src i)) s) dst 14 0

-- `safestrcpy(np->name, p->name, sizeof(p->name))`, between two arrays of 16 bytes.
unfoldable pub copy_name : (dst src : ℕ → ℕ) → ℕ → ℕ
copy_name dst src i =
    if ltb i 16
    then safestrcpy 0 16 (pos 16) (λ a. if ltb a 16 then dst a else src (a - 16)) i
    else dst i

-- The parent's open files, duplicated for the child: the files, and the child's descriptors.
unfoldable pub dup_files :
    (n : ℕ) → (ofile child : ℕ → Option ℕ) → FileTable → Option (FileTable × (ℕ → Option ℕ))
dup_files zero ofile child files = some (files, child)
dup_files (suc n) ofile child files = elim (dup_files n ofile child files) [
  | none ↦ none
  | some r ↦ elim (ofile n) [
    | none ↦ some r
    | some f ↦ elim (filedup f r.0) [
      | none ↦ none
      | some files' ↦ some (files', update r.1 n (some f))
    ]
  ]
]

-- `idup`
unfoldable pub idup : Option ℕ → (ℕ → ℤ) → ℕ → ℤ
idup none refs = refs
idup (some ip) refs = update refs ip (incr (refs ip))

-- The child after the copies of `fork`, with its parent and state.
unfoldable pub child_of : (p : ℕ) → Proc → Proc → (ofile : ℕ → Option ℕ) → Proc
child_of p parent np ofile = release (record np {
  sz = parent.sz;
  ofile = ofile;
  cwd = parent.cwd;
  name = copy_name np.name parent.name;
  parent = some p;
  state = ProcState.runnable;
})

-- `fork` after `uvmcopy`, of parent `p` and child `c` with their trapframes.
unfoldable pub finish_fork : (p c parent_frame child_frame : ℕ) → Kernel → M (Kernel × ℤ)
finish_fork p c parent_frame child_frame k s =
    let parent = k.table p in
    let np = k.table c in
    elim (dup_files nofile parent.ofile np.ofile k.files) [
      | none ↦ panic
      | some r ↦
          ok
            (
              record k {
                table = update k.table c (child_of p parent np r.1);
                files = r.0;
                inode_refs = idup parent.cwd k.inode_refs;
              },
              np.pid,
            )
            (copy_trapframe (child_frame / 4096) (parent_frame / 4096) s)
    ]

-- `freeproc(np); release(&np->lock); return -1;` or the rest.
unfoldable pub copied : (p c parent_frame child_frame : ℕ) → Kernel → ℤ → M (Kernel × ℤ)
copied p c parent_frame child_frame k (negsuc e) = do
  q ← freeproc (k.table c)
  pure (record k { table = update k.table c (release q) }, negsuc 0)
copied p c parent_frame child_frame k (pos e) = finish_fork p c parent_frame child_frame k

-- `fork` once `allocproc` has returned. A process that runs, and one that `allocproc` returned,
-- have a page table and a trapframe.
unfoldable pub with_child : (p : ℕ) → Kernel → Option ℕ → M (Kernel × ℤ)
with_child p k none = pure (k, negsuc 0)
with_child p k (some c) = elim (k.table p).pagetable [
  | none ↦ stop
  | some old ↦ elim (k.table c).pagetable [
    | none ↦ stop
    | some new ↦ elim (k.table p).trapframe [
      | none ↦ stop
      | some parent_frame ↦ elim (k.table c).trapframe [
        | none ↦ stop
        | some child_frame ↦
            uvmcopy old new (k.table p).sz >>= copied p c parent_frame child_frame k
      ]
    ]
  ]
]

unfoldable pub fork : (trampoline ticks p : ℕ) → Kernel → M (Kernel × ℤ)
fork trampoline ticks p k = do
  a ← allocproc trampoline ticks k.nextpid k.table
  with_child p (record k { table = a.table; nextpid = a.nextpid }) a.slot
