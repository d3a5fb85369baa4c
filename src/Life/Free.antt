-- ===== src/Life/Free.antt =====
-- `freeproc` of initial-xv6/src/kernel/proc.c: the slot it leaves, and the memory it gives back.
use mini_project_3_amey_chou.Common.{
  ℕ, ◌≡◌, ◌⊎◌, inl, inr, refl, false, Option, none, some, update, pos,
}
use mini_project_3_amey_chou.Proc.{Proc, ProcState, release}
use mini_project_3_amey_chou.Phys.{Phys, Run, ok, panic, M, pure, and_then, ◌>>◌}
use mini_project_3_amey_chou.Kalloc.{kfree}
use mini_project_3_amey_chou.Vm.Map.{uvmunmap, uvmfree}
use mini_project_3_amey_chou.Life.{
  trampoline_va, trapframe_va, proc_freepagetable, unless_null, freed, freeproc,
}

-- A slot that has been freed, with its lock released.
abbrev pub emptied : Proc → Proc
emptied p = record p {
  locked = false;
  state = ProcState.unused;
  pid = pos 0;
  parent = none;
  name = update p.name 0 0;
  chan = none;
  killed = pos 0;
  xstate = pos 0;
  trapframe = none;
  pagetable = none;
  sz = 0;
  pbs_static_priority = pos 0;
  pbs_dynamic_priority = pos 0;
  pbs_rbi = pos 0;
  pbs_rtime = pos 0;
  pbs_wtime = pos 0;
  pbs_stime = pos 0;
  pbs_num_sched = pos 0;
}

-- The memory of a process is given back: the page of its trapframe, and its page table with its
-- `sz` bytes, the two special mappings first.
pub give_frame : Option ℕ → M (Unit {0})
give_frame none = pure tt
give_frame (some a) = kfree a

pub give_table : (sz : ℕ) → Option ℕ → M (Unit {0})
give_table sz none = pure tt
give_table sz (some a) =
    uvmunmap a trampoline_va 1 false >> (uvmunmap a trapframe_va 1 false >> uvmfree a sz)

pub give_back : (trapframe pagetable : Option ℕ) → (sz : ℕ) → M (Unit {0})
give_back trapframe pagetable sz = give_frame trapframe >> give_table sz pagetable

give_frame-eq : (o : Option ℕ) → unless_null o kfree ≡ give_frame o
unfolding give_frame
give_frame-eq none = refl
give_frame-eq (some a) = refl

give_table-eq :
    (sz : ℕ) (o : Option ℕ) → unless_null o (λ a. proc_freepagetable a sz) ≡ give_table sz o
unfolding give_table proc_freepagetable
give_table-eq sz none = refl
give_table-eq sz (some a) = refl

-- `freeproc` ends as the memory calls do.
abbrev pub Frees : Proc → Phys → Run Proc → Type 0
Frees p s r =
    ((give_back p.trapframe p.pagetable p.sz s ≡ panic) × (r ≡ panic))
    ⊎ ((s' : Phys) × (q : Proc) × (give_back p.trapframe p.pagetable p.sz s ≡ ok tt s')
        × (r ≡ ok q s')
        × (release q ≡ emptied p))

release-freed : (p : Proc) → release (freed p) ≡ emptied p
unfolding release freed
release-freed p = refl

after_frame :
    (p : Proc) (r : Run (Unit {0}))
    → (s : Phys) → give_frame p.trapframe s ≡ r
    → Frees p s
        (and_then r (λ _ s1. and_then (give_table p.sz p.pagetable s1) (λ _ s2. ok (freed p) s2)))
unfolding give_back
after_frame p panic s e = inl (rw e refl, refl)
after_frame p (ok _ s1) s e = rw e (after_table (give_table p.sz p.pagetable s1) refl)
  where
    after_table :
        (r : Run (Unit {0}))
        → give_table p.sz p.pagetable s1 ≡ r
        → ((r ≡ panic) × (and_then r (λ _ s2. ok (freed p) s2) ≡ panic))
          ⊎ ((s' : Phys) × (q : Proc) × (r ≡ ok tt s')
              × (and_then r (λ _ s2. ok (freed p) s2) ≡ ok q s')
              × (release q ≡ emptied p))
    after_table panic e = inl (refl, refl)
    after_table (ok done s2) e = inr (s2, freed p, refl, refl, release-freed p)

-- `freeproc` gives the memory of the process back and clears its slot.
pub freeproc_lem : (p : Proc) (s : Phys) → Frees p s (freeproc p s)
unfolding freeproc
freeproc_lem p s =
    rw (give_frame-eq p.trapframe, give_table-eq p.sz p.pagetable)
      (after_frame p (give_frame p.trapframe s) s refl)
