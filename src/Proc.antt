-- ===== src/Proc.antt =====
-- The process table of initial-xv6/src/kernel/proc.h and proc.c: `struct proc`, the states, the
-- spinlock of a slot and the scheduling fields that the priority-based scheduler (PBS) added.
use mini_project_3_amey_chou.Common.{ℕ, Bool, false, Option, none, ℤ, ◌+ℤ◌, pos, int32}

-- `enum procstate`
pub data ProcState : Type 0 where
  unused used sleeping runnable running zombie : ProcState

abbrev pub is_unused : ProcState → Bool
is_unused ProcState.unused = Bool.true
is_unused _ = Bool.false

abbrev pub is_sleeping : ProcState → Bool
is_sleeping ProcState.sleeping = Bool.true
is_sleeping _ = Bool.false

abbrev pub is_runnable : ProcState → Bool
is_runnable ProcState.runnable = Bool.true
is_runnable _ = Bool.false

abbrev pub is_running : ProcState → Bool
is_running ProcState.running = Bool.true
is_running _ = Bool.false

abbrev pub is_zombie : ProcState → Bool
is_zombie ProcState.zombie = Bool.true
is_zombie _ = Bool.false

-- `struct proc`. A pointer into the table is an index, a channel is an address, `none` is null;
-- `int` fields are integers, `uint` fields are numbers.
pub record Proc : Type 0 where
  pub locked : Bool  -- `lock.locked`
  pub state : ProcState
  pub chan : Option ℕ
  pub killed : ℤ
  pub xstate : ℤ
  pub pid : ℤ
  pub parent : Option ℕ
  pub sz : ℕ
  pub pagetable : Option ℕ
  pub trapframe : Option ℕ
  pub ofile : ℕ → Option ℕ
  pub cwd : Option ℕ
  pub name : ℕ → ℕ
  pub rtime : ℕ
  pub ctime : ℕ
  pub etime : ℕ
  pub pbs_static_priority : ℤ
  pub pbs_dynamic_priority : ℤ
  pub pbs_rbi : ℤ
  pub pbs_rtime : ℤ
  pub pbs_wtime : ℤ
  pub pbs_stime : ℤ
  pub pbs_num_sched : ℤ

-- A slot of the zeroed table before the first boot process is made.
abbrev pub free_slot : Proc
free_slot = record {
  locked = false;
  state = ProcState.unused;
  chan = none;
  killed = pos 0;
  xstate = pos 0;
  pid = pos 0;
  parent = none;
  sz = 0;
  pagetable = none;
  trapframe = none;
  ofile = λ fd. none;
  cwd = none;
  name = λ i. 0;
  rtime = 0;
  ctime = 0;
  etime = 0;
  pbs_static_priority = pos 0;
  pbs_dynamic_priority = pos 0;
  pbs_rbi = pos 0;
  pbs_rtime = pos 0;
  pbs_wtime = pos 0;
  pbs_stime = pos 0;
  pbs_num_sched = pos 0;
}

-- `NPROC`
abbrev pub nproc : ℕ
nproc = 64

-- `struct proc proc[NPROC]`; a null pointer where a slot is expected is none of 0 … NPROC - 1.
abbrev pub Table : Type 0
Table = ℕ → Proc

-- `acquire(&p->lock)` and `release(&p->lock)`, as far as the slot is concerned.
unfoldable pub acquire : Proc → Proc
acquire p = record p { locked = Bool.true }

unfoldable pub release : Proc → Proc
release p = record p { locked = Bool.false }

-- `x++` on an `int`
unfoldable pub incr : ℤ → ℤ
unfolding int32 ◌+ℤ◌
incr x = int32 (x +ℤ pos 1)
