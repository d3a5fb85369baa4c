-- ===== src/Sleeplock.antt =====
-- Sleep locks: initial-xv6/src/kernel/sleeplock.c, with `sleep` and `wakeup` of proc.c, as steps of
-- processes that interleave. What a process does under a spin lock that all its readers take is one
-- step, with the `acquire` before it; a process that spins takes no step.
mod Inv
mod Acquire
mod Release
mod Wakeups
mod Tests
use mini_project_3_amey_chou.Common.{
  ℕ, zero, suc, ◌+◌, ◌<◌, ◌≡◌, ◌≢◌, Bool, true, false, Option, none, some, ◌==◌, if◌then◌else◌,
  update, ◌&&◌,
}
use mini_project_3_amey_chou.Proc.{ProcState, is_sleeping}

-- `struct sleeplock`, with the process that holds its spin lock `lk`; 0 is no process' id.
pub record SleepLock : Type 0 where
  pub locked : Bool
  pub lk : Option ℕ
  pub pid : ℕ

unfoldable pub initsleeplock : SleepLock
initsleeplock = record { locked = false; lk = none; pid = 0 }

-- Where a process stands. In `acquiresleep`: before `acquire(&lk->lk)`, there or at the end of
-- `sleep`; at the test of the loop. In `sleep`: before `acquire(&p->lock)`; before
-- `release(&lk->lk)`; before it marks itself; in `sched`, before the scheduler releases `p->lock`;
-- off the processor; and back, before it releases `p->lock`. Then the owner of the lock. In
-- `releasesleep`: before `acquire(&lk->lk)`; in `wakeup`, before slot `i`, and with the lock of
-- slot `i`.
pub data Pc : Type 0 where
  outside entering testing parking leaving marking switching off back owner releasing : Pc
  waking : ℕ → Pc
  checking : ℕ → Pc

-- `proc_lock p` is the process that holds `p->lock`, the scheduler on behalf of `p` being `p`;
-- `on_lock p` says that `p->chan` is the sleep lock.
pub record System : Type 0 where
  pub lock : SleepLock
  pub pc : ℕ → Pc
  pub state : ℕ → ProcState
  pub on_lock : ℕ → Bool
  pub proc_lock : ℕ → Option ℕ

abbrev pub with_lk : SleepLock → Option ℕ → SleepLock
with_lk lock p = record lock { lk = p }

-- `holdingsleep`, under `lk`.
unfoldable pub holdingsleep : (pid : ℕ) → SleepLock → Bool
holdingsleep pid lock = lock.locked && (lock.pid == pid)

-- The write of `wakeup` to a slot other than its own.
unfoldable pub woken : Bool → ProcState → ProcState
woken on_lock state = if is_sleeping state && on_lock then ProcState.runnable else state

-- `n` processes; `pids p` is the id of process `p`.
module _ (n : ℕ) (pids : ℕ → ℕ) where
  pub data Step (s : System) : System → Type 0 where
    call : (p : ℕ) → p < n → s.pc p ≡ outside → Step s (record s { pc = update s.pc p entering })
    enter :
        (p : ℕ)
        → p < n
        → s.pc p ≡ entering
        → s.lock.lk ≡ none
        → Step s (record s { pc = update s.pc p testing; lock = with_lk s.lock (some p) })
    -- The lock is free: `locked = 1`, the id, `release(&lk->lk)`.
    take :
        (p : ℕ)
        → p < n
        → s.pc p ≡ testing
        → s.lock.locked ≡ false
        → Step s (record s {
          pc = update s.pc p owner;
          lock = record { locked = true; lk = none; pid = pids p };
        })
    -- The lock is taken: `sleep`.
    wait :
        (p : ℕ)
        → p < n
        → s.pc p ≡ testing
        → s.lock.locked ≡ true
        → Step s (record s { pc = update s.pc p parking })
    park :
        (p : ℕ)
        → p < n
        → s.pc p ≡ parking
        → s.proc_lock p ≡ none
        → Step s
            (record s { pc = update s.pc p leaving; proc_lock = update s.proc_lock p (some p) })
    leave :
        (p : ℕ)
        → p < n
        → s.pc p ≡ leaving
        → Step s (record s { pc = update s.pc p marking; lock = with_lk s.lock none })
    mark :
        (p : ℕ)
        → p < n
        → s.pc p ≡ marking
        → Step s (record s {
          pc = update s.pc p switching;
          state = update s.state p ProcState.sleeping;
          on_lock = update s.on_lock p true;
        })
    switch :
        (p : ℕ)
        → p < n
        → s.pc p ≡ switching
        → Step s (record s { pc = update s.pc p off; proc_lock = update s.proc_lock p none })
    -- The scheduler picks the process up again.
    resume :
        (p : ℕ)
        → p < n
        → s.pc p ≡ off
        → s.state p ≡ ProcState.runnable
        → s.proc_lock p ≡ none
        → Step s (record s {
          pc = update s.pc p back;
          state = update s.state p ProcState.running;
          proc_lock = update s.proc_lock p (some p);
        })
    come_back :
        (p : ℕ)
        → p < n
        → s.pc p ≡ back
        → Step s (record s {
          pc = update s.pc p entering;
          on_lock = update s.on_lock p false;
          proc_lock = update s.proc_lock p none;
        })
    release : (p : ℕ) → p < n → s.pc p ≡ owner → Step s (record s { pc = update s.pc p releasing })
    free :
        (p : ℕ)
        → p < n
        → s.pc p ≡ releasing
        → s.lock.lk ≡ none
        → Step s (record s {
          pc = update s.pc p (waking 0);
          lock = record { locked = false; lk = some p; pid = 0 };
        })
    -- `wakeup` passes over the process that calls it, and takes the lock of any other.
    skip :
        (p : ℕ)
        → p < n
        → s.pc p ≡ waking p
        → Step s (record s { pc = update s.pc p (waking (suc p)) })
    check :
        (p i : ℕ)
        → p < n
        → i < n
        → s.pc p ≡ waking i
        → p ≢ i
        → s.proc_lock i ≡ none
        → Step s (record s {
          pc = update s.pc p (checking i);
          proc_lock = update s.proc_lock i (some p);
        })
    wake :
        (p i : ℕ)
        → p < n
        → s.pc p ≡ checking i
        → Step s (record s {
          pc = update s.pc p (waking (suc i));
          state = update s.state i (woken (s.on_lock i) (s.state i));
          proc_lock = update s.proc_lock i none;
        })
    done :
        (p : ℕ)
        → p < n
        → s.pc p ≡ waking n
        → Step s (record s { pc = update s.pc p outside; lock = with_lk s.lock none })
    -- `kill` wakes a process whatever it sleeps on.
    kill :
        (p : ℕ)
        → p < n
        → s.state p ≡ ProcState.sleeping
        → s.proc_lock p ≡ none
        → Step s (record s { state = update s.state p ProcState.runnable })

  abbrev pub start_system : System
  start_system = record {
    lock = initsleeplock;
    pc = λ p. outside;
    state = λ p. ProcState.running;
    on_lock = λ p. false;
    proc_lock = λ p. none;
  }

  pub data Reach : System → Type 0 where
    start : Reach start_system
    later : {s t : System} → Reach s → Step s t → Reach t
