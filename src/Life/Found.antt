-- ===== src/Life/Found.antt =====
-- How `allocproc` of initial-xv6/src/kernel/proc.c sets up the slot that it has found.
use mini_project_3_amey_chou.Common.{
  ℕ, ◌≡◌, ◌⊎◌, inl, inr, refl, true, Option, none, some, update, ℤ, pos, int32, ◌+ℤ◌, ap,
}
use mini_project_3_amey_chou.Proc.{Proc, ProcState, Table, acquire, release, incr}
use mini_project_3_amey_chou.Phys.{Phys, Run, ok, panic, pure, and_then}
use mini_project_3_amey_chou.Kalloc.{kalloc}
use mini_project_3_amey_chou.Life.{
  Allocated, freeproc, proc_pagetable, fresh, abandon, finish_found, found_frame, found, allocpid,
}
use mini_project_3_amey_chou.Life.Free.{emptied, give_back, Frees, freeproc_lem}
use mini_project_3_amey_chou.Life.Reaped.{Near, Stored, update-Stored}

-- The slot of a process that has been allocated: in use, locked, with its pid, its trapframe and its
-- page table, created at tick `ticks`, at static priority 50 and with all its counters at 0.
abbrev pub set_up : (ticks : ℕ) → (pid : ℤ) → (trapframe pagetable : ℕ) → Proc → Proc
set_up ticks pid trapframe pagetable p = record p {
  locked = true;
  state = ProcState.used;
  pid = pid;
  trapframe = some trapframe;
  pagetable = some pagetable;
  rtime = 0;
  etime = 0;
  ctime = ticks;
  pbs_static_priority = pos 50;
  pbs_dynamic_priority = pos 0;
  pbs_rbi = pos 0;
  pbs_rtime = pos 0;
  pbs_wtime = pos 0;
  pbs_stime = pos 0;
  pbs_num_sched = pos 0;
}

module _ (trampoline ticks k : ℕ) (nextpid : ℤ) (t : Table) where
  abbrev next : ℤ
  next = int32 (nextpid +ℤ pos 1)

  -- 0 is returned. What the slot holds of memory is given back, which may stop the machine, and then
  -- the slot is cleared and unlocked; the pid is used up.
  abbrev pub Abandoned : (trapframe pagetable : Option ℕ) → Phys → Run Allocated → Type 0
  Abandoned trapframe pagetable s r =
      ((give_back trapframe pagetable (t k).sz s ≡ panic) × (r ≡ panic))
      ⊎ ((s' : Phys) × (w : Table) × (give_back trapframe pagetable (t k).sz s ≡ ok tt s')
          × Stored t k (emptied (t k)) w
          × (r ≡ ok (record { table = w; nextpid = next; slot = none }) s'))

  -- With a page for the trapframe in hand: the page table may stop the machine, or fail, and then
  -- the slot is abandoned; else the slot is set up and returned.
  abbrev pub Furnished : (trapframe : ℕ) → Phys → Run Allocated → Type 0
  Furnished trapframe s r =
      ((proc_pagetable trampoline trapframe s ≡ panic) × (r ≡ panic))
      ⊎ ((s' : Phys) × (proc_pagetable trampoline trapframe s ≡ ok none s')
          × Abandoned (some trapframe) none s' r)
      ⊎ ((s' : Phys) × (pagetable : ℕ) × (w : Table) × (proc_pagetable trampoline trapframe s
            ≡ ok (some pagetable) s')
          × Stored t k (set_up ticks nextpid trapframe pagetable (t k)) w
          × (r ≡ ok (record { table = w; nextpid = next; slot = some k }) s'))

  -- The page for the trapframe comes first; without it the slot is abandoned.
  abbrev pub Claimed : Phys → Run Allocated → Type 0
  Claimed s r =
      ((kalloc s ≡ panic) × (r ≡ panic))
      ⊎ ((s' : Phys) × (kalloc s ≡ ok none s') × Abandoned none (t k).pagetable s' r)
      ⊎ ((s' : Phys) × (trapframe : ℕ) × (kalloc s ≡ ok (some trapframe) s')
          × Furnished trapframe s' r)

  module _ (u : Table) (near : Near t u) where
    -- The slot once it has its pid.
    abbrev named : Proc
    named = record (acquire (u k)) { pid = nextpid; state = ProcState.used }

    -- The slot then, with trapframe `f` and page table `g`.
    abbrev slot_with : (f g : Option ℕ) → Proc
    slot_with f g = record (t k) {
      locked = true;
      pid = nextpid;
      state = ProcState.used;
      trapframe = f;
      pagetable = g;
    }

    after_free :
        (f g : Option ℕ) (s : Phys) (r : Run Proc)
        → Frees (slot_with f g) s r
        → Abandoned f g s (
            and_then r
              (λ q. pure (record { table = update u k (release q); nextpid = next; slot = none })))
    after_free f g s r (inl (e, stopped)) = inl (e, rw stopped refl)
    after_free f g s r (inr (s', q, e, done, clear)) = inr (
      s',
      update u k (release q),
      e,
      update-Stored t u k (release q) (emptied (t k)) near clear,
      rw done refl,
    )

    abandon_lem : (f g : Option ℕ) (s : Phys) → Abandoned f g s (abandon k u next (slot_with f g) s)
    unfolding abandon
    abandon_lem f g s =
        after_free f g s (freeproc (slot_with f g) s) (freeproc_lem (slot_with f g) s)

    named-eq : named ≡ record (t k) { locked = true; pid = nextpid; state = ProcState.used }
    unfolding acquire
    named-eq =
        ap (λ (q : Proc). record q { locked = true; pid = nextpid; state = ProcState.used })
          (near k)

    abbrev held : Proc
    held = record (t k) { locked = true; pid = nextpid; state = ProcState.used }

    after_table :
        (a : ℕ) (s : Phys) (r : Run (Option ℕ))
        → proc_pagetable trampoline a s ≡ r
        → Furnished a s
            (and_then r (finish_found ticks k u next (record held { trapframe = some a })))
    unfolding finish_found fresh
    after_table a s panic e = inl (e, refl)
    after_table a s (ok none s') e = inr (inl (s', e, abandon_lem (some a) none s'))
    after_table a s (ok (some g) s') e =
        inr (inr (s', g, update u k _, e, update-Stored t u k _ _ near refl, refl))

    after_frame :
        (s : Phys) (r : Run (Option ℕ))
        → kalloc s ≡ r
        → Claimed s (and_then r (found_frame trampoline ticks k u next held))
    unfolding found_frame
    after_frame s panic e = inl (e, refl)
    after_frame s (ok none s') e = inr (inl (s', e, abandon_lem none (t k).pagetable s'))
    after_frame s (ok (some a) s') e =
        inr (inr (s', a, e, after_table a s' (proc_pagetable trampoline a s') refl))

    pub found_lem : (s : Phys) → Claimed s (found trampoline ticks k nextpid u s)
    unfolding found allocpid incr
    found_lem s = rw named-eq (after_frame s (kalloc s) refl)
