-- ===== src/Spinlock.antt =====
-- Spin locks of initial-xv6/src/kernel/spinlock.c: `push_off`, `pop_off` and `holding`, and
-- `acquire` and `release` of one lock on any number of processors as steps that interleave. The
-- parts that are not shared (`push_off`, `holding`, `pop_off`) are one step each with the access
-- next to them; a processor that spins takes no step.
mod Exclusion
mod Tests
use mini_project_3_amey_chou.Common.{
  ℕ, ◌≡◌, Bool, true, false, Option, none, some, if◌then◌else◌, update, same_ptr, not, ◌&&◌, ℤ, pos,
  negsuc, eqb_ℤ, ltb_ℤ, int32, ◌-ℤ◌,
}
use mini_project_3_amey_chou.Proc.{incr}
use mini_project_3_amey_chou.Kalloc.{decr}

-- The part of `struct cpu` that locks use, and whether the processor takes interrupts.
pub record Cpu : Type 0 where
  pub noff : ℤ
  pub intena : Bool
  pub intr : Bool

-- `struct spinlock` without its name; a processor is a number.
pub record Lock : Type 0 where
  pub locked : Bool
  pub cpu : Option ℕ

unfoldable pub initlock : Lock
initlock = record { locked = false; cpu = none }

unfoldable pub push_off : Cpu → Cpu
push_off c = record {
  noff = incr c.noff;
  intena = if eqb_ℤ c.noff (pos 0) then c.intr else c.intena;
  intr = false;
}

-- `none` where it panics.
unfoldable pub pop_off : Cpu → Option Cpu
pop_off c =
    if c.intr
    then none
    else if ltb_ℤ c.noff (pos 1)
    then none
    else (let n = decr c.noff in
        some (record c { noff = n; intr = if eqb_ℤ n (pos 0) && c.intena then true else c.intr }))

-- `holding(lk)` on processor `me`
unfoldable pub holding : (me : ℕ) → Lock → Bool
holding me lk = lk.locked && same_ptr lk.cpu (some me)

-- Where a processor stands: outside, spinning in `acquire`, in it after the swap, between the
-- calls, and in `release` before the last store.
pub data Pc : Type 0 where
  outside spinning swapped inside cleared : Pc

pub record Machine : Type 0 where
  pub lock : Lock
  pub pc : ℕ → Pc
  pub cpus : ℕ → Cpu

pub data Step (s : Machine) : Machine → Type 0 where
  -- `push_off(); if(holding(lk)) panic("acquire");`
  begin :
      (i : ℕ)
      → s.pc i ≡ outside
      → holding i s.lock ≡ false
      → Step s
          (record s { pc = update s.pc i spinning; cpus = update s.cpus i (push_off (s.cpus i)) })
  -- `__sync_lock_test_and_set(&lk->locked, 1)` that returns 0
  swap :
      (i : ℕ)
      → s.pc i ≡ spinning
      → s.lock.locked ≡ false
      → Step s (record s { pc = update s.pc i swapped; lock = record s.lock { locked = true } })
  -- `lk->cpu = mycpu();`
  enter :
      (i : ℕ)
      → s.pc i ≡ swapped
      → Step s (record s { pc = update s.pc i inside; lock = record s.lock { cpu = some i } })
  -- `if(!holding(lk)) panic("release"); lk->cpu = 0;`
  clear :
      (i : ℕ)
      → s.pc i ≡ inside
      → holding i s.lock ≡ true
      → Step s (record s { pc = update s.pc i cleared; lock = record s.lock { cpu = none } })
  -- `__sync_lock_release(&lk->locked); pop_off();`
  unlock :
      (i : ℕ) (c : Cpu)
      → s.pc i ≡ cleared
      → pop_off (s.cpus i) ≡ some c
      → Step s (record s {
        pc = update s.pc i outside;
        lock = record s.lock { locked = false };
        cpus = update s.cpus i c;
      })

-- Every processor outside, with no `push_off` pending, and interrupts on or off.
unfoldable pub start_machine : (intr : ℕ → Bool) → Machine
start_machine intr = record {
  lock = initlock;
  pc = λ i. outside;
  cpus = λ i. record { noff = pos 0; intena = false; intr = intr i };
}

pub data Reach (intr : ℕ → Bool) : Machine → Type 0 where
  start : Reach intr (start_machine intr)
  later : {s t : Machine} → Reach intr s → Step s t → Reach intr t
