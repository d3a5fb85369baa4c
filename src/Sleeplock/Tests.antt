-- ===== src/Sleeplock/Tests.antt =====
-- A run of two processes on a sleep lock: the first has it, and the second goes to sleep.
use mini_project_3_amey_chou.Common.{
  ℕ, ◌+◌, ◌<◌, ◌≡◌, ◌⊎◌, ◌↔◌, refl, arith, true, none, some, update,
}
use mini_project_3_amey_chou.Proc.{ProcState}
use mini_project_3_amey_chou.Sleeplock.{
  initsleeplock, entering, testing, parking, leaving, marking, switching, off, owner, System,
  holdingsleep, call, enter, take, wait, park, leave, mark, switch, start_system, Reach, start,
  later,
}
use mini_project_3_amey_chou.Sleeplock.Inv.{owns, waker_comes}
use mini_project_3_amey_chou.Sleeplock.Wakeups.{holdingsleep-owns, no_lost_wakeup}

abbrev pids : ℕ → ℕ
pids p = p + 1

abbrev s0 : System
s0 = start_system 2 pids

-- Process 0 has the lock.
abbrev s1 : System
s1 = record s0 {
  pc = update (update (update s0.pc 0 entering) 0 testing) 0 owner;
  lock = record { locked = true; lk = none; pid = 1 };
}

s1-Reach : Reach 2 pids s1
unfolding initsleeplock
s1-Reach =
    later (later (later start (call 0 (omega arith) refl)) (enter 0 (omega arith) refl refl))
      (take 0 (omega arith) refl refl)

-- Process 1 finds it taken.
abbrev s2 : System
s2 = record s1 {
  pc = update (update (update s1.pc 1 entering) 1 testing) 1 parking;
  lock = record { locked = true; lk = some 1; pid = 1 };
}

s2-Reach : Reach 2 pids s2
s2-Reach =
    later (later (later s1-Reach (call 1 (omega arith) refl)) (enter 1 (omega arith) refl refl))
      (wait 1 (omega arith) refl refl)

abbrev s3 : System
s3 = record s2 {
  pc = update (update (update (update s2.pc 1 leaving) 1 marking) 1 switching) 1 off;
  lock = record { locked = true; lk = none; pid = 1 };
  state = update s2.state 1 ProcState.sleeping;
  on_lock = update s2.on_lock 1 true;
  proc_lock = update (update s2.proc_lock 1 (some 1)) 1 none;
}

s3-Reach : Reach 2 pids s3
s3-Reach =
    later
      (later (later (later s2-Reach (park 1 (omega arith) refl refl)) (leave 1 (omega arith) refl))
        (mark 1 (omega arith) refl))
      (switch 1 (omega arith) refl)

no_lost_wakeup_example :
    ((q : ℕ) × (q < 2) × (owns (s3.pc q) ≡ true)) ⊎ (waker_comes s3.pc s3.lock.lk 1 ≡ true)
no_lost_wakeup_example = no_lost_wakeup 2 pids 1 s3-Reach (omega arith) refl refl

holdingsleep-owns_example : (holdingsleep 1 s3.lock ≡ true) ↔ (owns (s3.pc 0) ≡ true)
holdingsleep-owns_example =
    holdingsleep-owns 2 pids 0 s3-Reach (omega arith) (λ q lt e. omega arith)
