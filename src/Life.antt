-- ===== src/Life.antt =====
-- The life cycle of a process in initial-xv6/src/kernel/proc.c: the allocation of a slot, its
-- release, the growth of its memory, and what wakes, kills and reaps it. A caller keeps the locks
-- that the code keeps, so each function is one atomic step; `wait_lock` and `pid_lock` are not in
-- the state.
mod Wait
mod Free
mod Reaped
mod Reap
mod Found
mod Alloc
mod Fork
mod Signals
mod Tests
use mini_project_3_amey_chou.Common.{
  ℕ, zero, suc, ◌+◌, ◌-◌, ◌*◌, ◌/◌, ◌%◌, ◌^◌, Bool, true, false, Option, none, some, List, [], ◌∷◌,
  ◌==◌, ltb, if◌then◌else◌, update, for_upto, find_upto, same_ptr, not, ◌&&◌, ◌||◌, ℤ, pos, negsuc,
  eqb_ℤ, ltb_ℤ, int32_bits,
}
use mini_project_3_amey_chou.Proc.{
  Proc, ProcState, Table, nproc, acquire, release, incr, is_unused, is_sleeping, is_zombie,
}
use mini_project_3_amey_chou.Phys.{Phys, Run, ok, panic, M, pure, stop, and_then, ◌>>=◌, ◌>>◌}
use mini_project_3_amey_chou.Kalloc.{kfree, kalloc}
use mini_project_3_amey_chou.Vm.{maxva, pte_r, pte_w, pte_x, set_bit}
use mini_project_3_amey_chou.Vm.Map.{mappages, uvmunmap, uvmcreate, uvmalloc, uvmdealloc, uvmfree}
use mini_project_3_amey_chou.Vm.Copy.{copyout}

-- One round of `wakeup(chan)`, called by `me`.
unfoldable pub wake : (chan : Option ℕ) → Proc → Proc
wake chan p =
    if is_sleeping p.state && same_ptr p.chan chan
    then record p { state = ProcState.runnable }
    else p

unfoldable pub wakeup : (me : Option ℕ) → (chan : Option ℕ) → Table → Table
wakeup me chan t =
    for_upto nproc
      (λ i u. if same_ptr (some i) me then u else update u i (release (wake chan (acquire (u i)))))
      t

-- The writes of `kill` to its victim.
unfoldable pub doom : Proc → Proc
doom p =
    let q = record p { killed = pos 1 } in
    if is_sleeping q.state then record q { state = ProcState.runnable } else q

-- `kill` from slot `i` on, with `n` slots to go.
unfoldable pub kill_from : (n i : ℕ) → (pid : ℤ) → Table → Table × ℤ
kill_from zero i pid t = (t, negsuc 0)
kill_from (suc n) i pid t =
    let p = acquire (t i) in
    let rest = kill_from n (suc i) pid (update t i (release p)) in
    if eqb_ℤ p.pid pid then (update t i (release (doom p)), pos 0) else rest

unfoldable pub kill : (pid : ℤ) → Table → Table × ℤ
kill pid t = kill_from nproc 0 pid t

unfoldable pub setkilled : ℕ → Table → Table
setkilled i t = update t i (release (record (acquire (t i)) { killed = pos 1 }))

unfoldable pub killed : ℕ → Table → Table × ℤ
killed i t = let p = acquire (t i) in (update t i (release p), p.killed)

-- `TRAMPOLINE` and `TRAPFRAME`
abbrev pub trampoline_va : ℕ
trampoline_va = maxva - 4096

abbrev pub trapframe_va : ℕ
trapframe_va = trampoline_va - 4096

unfoldable pub proc_freepagetable : (pagetable sz : ℕ) → M (Unit {0})
proc_freepagetable pagetable sz = do
  uvmunmap pagetable trampoline_va 1 false
  uvmunmap pagetable trapframe_va 1 false
  uvmfree pagetable sz

-- `if (p) f(p);` for a pointer `p`
abbrev pub unless_null : Option ℕ → (ℕ → M (Unit {0})) → M (Unit {0})
unless_null none f = pure tt
unless_null (some a) f = f a

-- The slot after `freeproc`.
unfoldable pub freed : Proc → Proc
freed p = record p {
  trapframe = none;
  pagetable = none;
  sz = 0;
  pid = pos 0;
  parent = none;
  name = update p.name 0 0;
  chan = none;
  killed = pos 0;
  xstate = pos 0;
  state = ProcState.unused;
  pbs_static_priority = pos 0;
  pbs_dynamic_priority = pos 0;
  pbs_rbi = pos 0;
  pbs_rtime = pos 0;
  pbs_wtime = pos 0;
  pbs_stime = pos 0;
  pbs_num_sched = pos 0;
}

unfoldable pub freeproc : Proc → M Proc
freeproc p = do
  unless_null p.trapframe kfree
  unless_null p.pagetable (λ pagetable. proc_freepagetable pagetable p.sz)
  pure (freed p)

-- `proc_pagetable` of a process whose trapframe is at `trapframe`; `trampoline` is the address of
-- the code of that name, which the linker sets.
unfoldable pub map_trapframe : (trapframe pagetable : ℕ) → ℤ → M (Option ℕ)
map_trapframe trapframe pagetable (negsuc e) = do uvmfree pagetable 0; pure none
map_trapframe trapframe pagetable (pos e) = do
  r ← mappages pagetable trapframe_va 4096 trapframe (set_bit pte_w (set_bit pte_r 0))
  if ltb_ℤ r (pos 0)
      then (do uvmunmap pagetable trampoline_va 1 false; uvmfree pagetable 0; pure none)
      else pure (some pagetable)

unfoldable pub map_both : (trampoline trapframe : ℕ) → Option ℕ → M (Option ℕ)
map_both trampoline trapframe none = pure none
map_both trampoline trapframe (some pagetable) = do
  r ← mappages pagetable trampoline_va 4096 trampoline (set_bit pte_x (set_bit pte_r 0))
  map_trapframe trapframe pagetable r

unfoldable pub proc_pagetable : (trampoline trapframe : ℕ) → M (Option ℕ)
proc_pagetable trampoline trapframe = uvmcreate >>= map_both trampoline trapframe

-- `allocpid`: the pid, and `nextpid` after it.
unfoldable pub allocpid : (nextpid : ℤ) → ℤ × ℤ
allocpid nextpid = (nextpid, incr nextpid)

-- The slot that `allocproc` returns; its saved context is not in the state.
unfoldable pub fresh : (ticks : ℕ) → Proc → Proc
fresh ticks p = record p {
  rtime = 0;
  etime = 0;
  ctime = ticks;
  pbs_static_priority = pos 50;
  pbs_dynamic_priority = pos 0;
  pbs_rbi = pos 0;
  pbs_rtime = pos 0;
  pbs_wtime = pos 0;
  pbs_stime = pos 0;
  pbs_num_sched = pos 0;
}

-- What `allocproc` leaves: the table, `nextpid`, and the slot it returns, or `none` for 0.
pub record Allocated : Type 0 where
  pub table : Table
  pub nextpid : ℤ
  pub slot : Option ℕ

-- `freeproc(p); release(&p->lock); return 0;`
unfoldable pub abandon : (i : ℕ) → Table → (nextpid : ℤ) → Proc → M Allocated
abandon i t nextpid p = do
  q ← freeproc p
  pure (record { table = update t i (release q); nextpid = nextpid; slot = none })

unfoldable pub finish_found : (ticks i : ℕ) → Table → (nextpid : ℤ) → Proc → Option ℕ → M Allocated
finish_found ticks i t nextpid p none = abandon i t nextpid (record p { pagetable = none })
finish_found ticks i t nextpid p (some pagetable) = pure (record {
  table = update t i (fresh ticks (record p { pagetable = some pagetable }));
  nextpid = nextpid;
  slot = some i;
})

unfoldable pub found_frame :
    (trampoline ticks i : ℕ) → Table → (nextpid : ℤ) → Proc → Option ℕ → M Allocated
found_frame trampoline ticks i t nextpid p none =
    abandon i t nextpid (record p { trapframe = none })
found_frame trampoline ticks i t nextpid p (some trapframe) = do
  r ← proc_pagetable trampoline trapframe
  finish_found ticks i t nextpid (record p { trapframe = some trapframe }) r

-- `allocproc` from `found:` on, with the lock of slot `i` held.
unfoldable pub found : (trampoline ticks i : ℕ) → (nextpid : ℤ) → Table → M Allocated
found trampoline ticks i nextpid t =
    let (pid, next) = allocpid nextpid in
    let p = record (acquire (t i)) { pid = pid; state = ProcState.used } in
    kalloc >>= found_frame trampoline ticks i t next p

-- `p->state == UNUSED`
unfoldable pub is_vacant : Proc → Bool
is_vacant p = is_unused p.state

-- `allocproc` from slot `i` on, with `n` slots to go.
unfoldable pub alloc_from : (n trampoline ticks i : ℕ) → (nextpid : ℤ) → Table → M Allocated
alloc_from zero trampoline ticks i nextpid t s =
    ok (record { table = t; nextpid = nextpid; slot = none }) s
alloc_from (suc n) trampoline ticks i nextpid t s = elim (is_vacant (acquire (t i))) [
  | true ↦ found trampoline ticks i nextpid t s
  | false ↦ alloc_from n trampoline ticks (suc i) nextpid (update t i (release (acquire (t i)))) s
]

unfoldable pub allocproc : (trampoline ticks : ℕ) → (nextpid : ℤ) → Table → M Allocated
allocproc trampoline ticks nextpid t = alloc_from nproc trampoline ticks 0 nextpid t

-- `sz + n` on `uint64`, with `n` an `int`
abbrev pub shifted : ℕ → ℤ → ℕ
shifted sz (pos n) = (sz + n) % 2 ^ 64
shifted sz (negsuc n) = (sz + (2 ^ 64 - 1 - n)) % 2 ^ 64

-- `growproc(n)`; a process that runs has a page table.
unfoldable pub growproc : ℤ → Proc → (pagetable : ℕ) → M (Proc × ℤ)
growproc n p pagetable =
    if ltb_ℤ (pos 0) n
    then (do
      sz ← uvmalloc pagetable p.sz (shifted p.sz n) (set_bit pte_w 0)
      if sz == 0 then pure (p, negsuc 0) else pure (record p { sz = sz }, pos 0))
    else if ltb_ℤ n (pos 0)
    then (do sz ← uvmdealloc pagetable p.sz (shifted p.sz n); pure (record p { sz = sz }, pos 0))
    else pure (p, pos 0)
