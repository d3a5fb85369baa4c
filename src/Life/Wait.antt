-- ===== src/Life/Wait.antt =====
-- Parents and children in initial-xv6/src/kernel/proc.c: `reparent`, the end of `exit`, `wait` and
-- `waitx`.
use mini_project_3_amey_chou.Common.{
  ℕ, zero, suc, ◌+◌, ◌-◌, ◌/◌, ◌%◌, ◌^◌, Bool, true, false, Option, none, some, List, [], ◌∷◌, ◌==◌,
  if◌then◌else◌, update, for_upto, same_ptr, not, ℤ, pos, negsuc, eqb_ℤ, int32_bits,
}
use mini_project_3_amey_chou.Proc.{Proc, ProcState, Table, nproc, acquire, release, is_zombie}
use mini_project_3_amey_chou.Phys.{ok, M, pure, and_then, ◌>>=◌}
use mini_project_3_amey_chou.Vm.Copy.{copyout}
use mini_project_3_amey_chou.Life.{wakeup, killed, freeproc}

-- `address i` is the address of slot `i`, as a channel.
module _ (address : ℕ → ℕ) where
  -- `reparent(p)`, called by `p`; `initproc` is a slot.
  unfoldable pub reparent : (initproc p : ℕ) → Table → Table
  reparent initproc p t =
      for_upto nproc
        (λ i u.
          if same_ptr (u i).parent (some p)
          then wakeup (some p) (some (address initproc))
              (update u i (record (u i) { parent = some initproc }))
          else u)
        t

  -- A pointer to a slot as a channel.
  unfoldable pub channel : Option ℕ → Option ℕ
  channel none = none
  channel (some i) = some (address i)

  -- `exit(status)` of `p` from the acquisition of `wait_lock` to `sched`.
  unfoldable pub bury : (status : ℤ) → (ticks : ℕ) → Proc → Proc
  bury status ticks p = record (acquire p) {
    xstate = status;
    state = ProcState.zombie;
    etime = ticks;
  }

  unfoldable pub exit_tail : (initproc p : ℕ) → (status : ℤ) → (ticks : ℕ) → Table → Table
  exit_tail initproc p status ticks t =
      let u = reparent initproc p t in
      let w = wakeup (some p) (channel (u p).parent) u in update w p (bury status ticks (w p))

-- The bytes of an `int` in memory.
abbrev pub int_bytes : ℤ → List ℕ
int_bytes z = let w = int32_bits z in w % 256 ∷ w / 256 % 256 ∷ w / 65536 % 256 ∷ w / 16777216 ∷ []

-- How one pass of `wait` over the table ends: it returns, or the caller sleeps and begins again.
pub data Ending : Type 0 where
  returns : ℤ → Ending
  sleeps : Ending

-- `freeproc(pp)` and the return of its pid, unless the status could not be copied out.
unfoldable pub reap_copied : (i : ℕ) → Table → ℤ → M (Table × Ending)
reap_copied i t (negsuc e) = pure (update t i (release (t i)), returns (negsuc 0))
reap_copied i t (pos e) = do q ← freeproc (t i); pure (update t i (release q), returns (t i).pid)

-- `addr != 0 && copyout(p->pagetable, addr, (char *)&pp->xstate, sizeof(pp->xstate)) < 0`
unfoldable pub copy_status : (pagetable addr : ℕ) → (xstate : ℤ) → M ℤ
copy_status pagetable addr xstate =
    if addr == 0 then pure (pos 0) else copyout pagetable addr (int_bytes xstate)

unfoldable pub reap : (pagetable addr i : ℕ) → Table → M (Table × Ending)
reap pagetable addr i t = copy_status pagetable addr (t i).xstate >>= reap_copied i t

-- `!havekids || killed(p)`
unfoldable pub no_zombie : (p : ℕ) → (havekids : Bool) → Table → Table × Ending
no_zombie p havekids t =
    let (u, k) = killed p t in
    if not havekids
    then (t, returns (negsuc 0))
    else if eqb_ℤ k (pos 0)
    then (u, sleeps)
    else (u, returns (negsuc 0))

-- `pp->parent == p` and `pp->state == ZOMBIE`
unfoldable pub is_child : ℕ → Proc → Bool
is_child p q = same_ptr q.parent (some p)

unfoldable pub has_exited : Proc → Bool
has_exited q = is_zombie q.state

-- The loop over the table of `wait`, called by `p`: from slot `i` on, with `n` slots to go.
unfoldable pub wait_from :
    (n i p pagetable addr : ℕ) → (havekids : Bool) → Table → M (Table × Ending)
wait_from zero i p pagetable addr havekids t s = ok (no_zombie p havekids t) s
wait_from (suc n) i p pagetable addr havekids t s = elim (is_child p (t i)) [
  | false ↦ wait_from n (suc i) p pagetable addr havekids t s
  | true ↦ elim (has_exited (acquire (t i))) [
    | true ↦ reap pagetable addr i (update t i (acquire (t i))) s
    | false ↦ wait_from n (suc i) p pagetable addr true (update t i (release (acquire (t i)))) s
  ]
]

unfoldable pub wait : (p pagetable addr : ℕ) → Table → M (Table × Ending)
wait p pagetable addr t = wait_from nproc 0 p pagetable addr false t

-- What `waitx` stores through its pointers.
pub record Times : Type 0 where
  pub rtime : ℕ
  pub wtime : ℕ

-- `np->etime - np->ctime - np->rtime` on `uint`
unfoldable pub times : Proc → Times
times p = record {
  rtime = p.rtime;
  wtime = (p.etime + (2 ^ 32 - p.ctime % 2 ^ 32) + (2 ^ 32 - p.rtime % 2 ^ 32)) % 2 ^ 32;
}

unfoldable pub no_zombie_x : (p : ℕ) → (havekids : Bool) → Table → Ending
no_zombie_x p havekids t =
    if not havekids
    then returns (negsuc 0)
    else if eqb_ℤ (t p).killed (pos 0)
    then sleeps
    else returns (negsuc 0)

-- The loop of `waitx`: as that of `wait`, but it reports the times of the child that it found, and
-- reads `p->killed` without the lock.
unfoldable pub waitx_from :
    (n i p pagetable addr : ℕ) → (havekids : Bool) → Table → M (Table × Ending × Option Times)
waitx_from zero i p pagetable addr havekids t s = ok (t, no_zombie_x p havekids t, none) s
waitx_from (suc n) i p pagetable addr havekids t s = elim (is_child p (t i)) [
  | false ↦ waitx_from n (suc i) p pagetable addr havekids t s
  | true ↦ elim (has_exited (acquire (t i))) [
    | true ↦
        and_then (reap pagetable addr i (update t i (acquire (t i))) s)
          (λ r. pure (r.0, r.1, some (times (t i))))
    | false ↦ waitx_from n (suc i) p pagetable addr true (update t i (release (acquire (t i)))) s
  ]
]

unfoldable pub waitx : (p pagetable addr : ℕ) → Table → M (Table × Ending × Option Times)
waitx p pagetable addr t = waitx_from nproc 0 p pagetable addr false t
