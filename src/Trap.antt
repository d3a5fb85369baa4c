-- ===== src/Trap.antt =====
-- Page faults, the clock and the fetching of system call arguments: initial-xv6/src/kernel/trap.c
-- and syscall.c. A register of the user is a word of the trap frame, a page of physical memory.
mod Fault
mod Tests
use mini_project_3_amey_chou.Common.{
  ℕ, ◌+◌, ◌-◌, ◌%◌, ◌^◌, Bool, true, false, Option, none, some, List, ◌==◌, ltb, leb, if◌then◌else◌,
  update, ◌&&◌, ◌||◌, ℤ, pos, eqb_ℤ, length,
}
use mini_project_3_amey_chou.Proc.{Proc, Table}
use mini_project_3_amey_chou.Phys.{M, pure, stop, ◌>>=◌, ◌>>◌, get_word, pg_round_down}
use mini_project_3_amey_chou.Vm.{maxva}
use mini_project_3_amey_chou.Vm.Cow.{custom_cow}
use mini_project_3_amey_chou.Vm.Copy.{copyin, copyinstr}
use mini_project_3_amey_chou.Life.{killed, wakeup}
use mini_project_3_amey_chou.Sched.{update_time}

-- The words of `sp` and `a0` in `struct trapframe`
abbrev pub sp_word : ℕ
sp_word = 6

abbrev pub a0_word : ℕ
a0_word = 14

-- The two tests of `usertrap` on the address of a store fault, on `uint64`s.
unfoldable pub is_bad_address : (sp stval : ℕ) → Bool
is_bad_address sp stval =
    leb maxva stval
    || (leb ((pg_round_down sp + (2 ^ 64 - 4096)) % 2 ^ 64) stval && leb stval (pg_round_down sp))

-- The branch of `usertrap` for a store fault: what it writes to `p->killed`.
unfoldable pub store_fault : (trapframe pagetable stval : ℕ) → M ℤ
store_fault trapframe pagetable stval = do
  sp ← get_word trapframe sp_word
  if is_bad_address sp stval then pure (pos 1) else custom_cow pagetable stval

-- `usertrap` goes back to the user, or calls `exit(-1)`.
pub data Trapped : Type 0 where
  resumes : Table → Trapped
  exits : Table → Trapped

-- `p->killed = …`, and the test of `killed(p)` behind the branches.
unfoldable pub after_fault : (me : ℕ) → Table → ℤ → Trapped
after_fault me t k =
    let (u, k') = killed me (update t me (record (t me) { killed = k })) in
    if eqb_ℤ k' (pos 0) then resumes u else exits u

-- `usertrap` of process `me` on a store fault at address `stval`.
unfoldable pub usertrap_store : (me trapframe pagetable stval : ℕ) → Table → M Trapped
usertrap_store me trapframe pagetable stval t = do
  k ← store_fault trapframe pagetable stval
  pure (after_fault me t k)

pub record Clock : Type 0 where
  pub ticks : ℕ
  pub table : Table

-- `clockintr`, where `chan` is the address of `ticks` and `me` the process of this processor.
unfoldable pub clockintr : (me chan : Option ℕ) → Clock → Clock
clockintr me chan c = record {
  ticks = (c.ticks + 1) % 2 ^ 32;
  table = wakeup me chan (update_time c.table);
}

-- What `devintr` returns, and the clock after it; the devices are not modelled.
unfoldable pub devintr : (scause cpuid : ℕ) → (me chan : Option ℕ) → Clock → ℕ × Clock
devintr scause cpuid me chan c =
    if leb (2 ^ 63) scause && ((scause % 256) == 9)
    then (1, c)
    else if scause == (2 ^ 63 + 1)
    then (2, if cpuid == 0 then clockintr me chan c else c)
    else (0, c)

-- `argraw`, whose panic is for an argument that no call has.
unfoldable pub argraw : (trapframe n : ℕ) → M ℕ
argraw trapframe n = if ltb n 6 then get_word trapframe (a0_word + n) else stop

-- `fetchaddr`: the bytes, or `none` for -1.
unfoldable pub fetchaddr : (sz pagetable addr : ℕ) → M (Option (List ℕ))
fetchaddr sz pagetable addr =
    if leb sz addr || ltb sz ((addr + 8) % 2 ^ 64) then pure none else copyin pagetable addr 8

-- `fetchstr` and `argstr`: the string, whose length the code returns, or `none` for -1.
unfoldable pub fetchstr : (pagetable addr max : ℕ) → M (Option (List ℕ))
fetchstr pagetable addr max = copyinstr pagetable addr max

unfoldable pub argstr : (trapframe pagetable n max : ℕ) → M (Option (List ℕ))
argstr trapframe pagetable n max = do addr ← argraw trapframe n; fetchstr pagetable addr max
