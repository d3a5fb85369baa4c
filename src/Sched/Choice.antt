-- ===== src/Sched/Choice.antt =====
-- Which process the PBS round of `scheduler` picks, and what the round does to the table.
use mini_project_3_amey_chou.Common.{
  ℕ, ◌<◌, ◌≡◌, refl, true, false, Option, none, some, arith, pos, int32, ◌+ℤ◌, same_ptr,
  if◌then◌else◌, ◌∙◌,
}
use mini_project_3_amey_chou.Proc.{Proc, ProcState, Table, incr, nproc, is_runnable}
use mini_project_3_amey_chou.Sched.{
  Scan, dp_of, rbi_of, dp_priority, scan_upto, schedule, dispatch, enter,
}
use mini_project_3_amey_chou.Sched.Scanning.{Chosen, scanned, with_lock, scan_upto-ScanInv}

-- A process that the round has looked at, with its lock free: a runnable one has its indices
-- written back.
abbrev pub looked_at : Proc → Proc
looked_at p =
    if is_runnable p.state
    then record p { locked = false; pbs_rbi = rbi_of p; pbs_dynamic_priority = dp_of p }
    else record p { locked = false }

-- The process that is about to run: its lock is held, its indices are written back, it has been
-- scheduled once more, and its times since then start again.
abbrev pub picked : Proc → Proc
picked p = record p {
  locked = true;
  state = ProcState.running;
  pbs_rbi = rbi_of p;
  pbs_dynamic_priority = dp_of p;
  pbs_num_sched = int32 (p.pbs_num_sched +ℤ pos 1);
  pbs_rtime = pos 0;
  pbs_wtime = pos 0;
  pbs_stime = pos 0;
}

-- What the round leaves in a slot before `swtch`.
abbrev pub dispatched : Option ℕ → ℕ → Proc → Proc
dispatched c i p = if same_ptr c (some i) then picked p else looked_at p

passed_over : (p : Proc) → with_lock false (scanned p) ≡ looked_at p
unfolding with_lock scanned dp_priority
passed_over p = ground arith

dispatch-picked :
    (p : Proc) → is_runnable p.state ≡ true → dispatch (with_lock true (scanned p)) ≡ picked p
unfolding dispatch with_lock scanned dp_priority incr
dispatch-picked p h = rw h refl

enter-table :
    (t : Table) (s : Scan) (best : Option ℕ) (i : ℕ)
    → Chosen nproc t best
    → s.table i ≡ with_lock (same_ptr best (some i)) (scanned (t i))
    → (enter s best).0 i ≡ dispatched best i (t i)
unfolding enter
enter-table t s none i c h = h ∙ passed_over (t i)
enter-table t s (some b) i c h = ground (arith, c.1, passed_over (t i), dispatch-picked (t i))

enter-best : (s : Scan) (best : Option ℕ) → (enter s best).1 ≡ best
unfolding enter
enter-best s none = refl
enter-best s (some b) = refl

-- The round picks the first of the runnable processes that no runnable process outranks (fewest
-- dynamic priority, then fewest times scheduled, then earliest created), and none exactly if none
-- is runnable. At `swtch` every runnable slot has its indices written back. The picked slot is
-- locked and running, is counted as scheduled once more, and has its running, waiting and sleeping
-- times set to 0; every other lock of the table is free, and nothing else has changed.
pub schedule_lem :
    (t : Table)
    → Chosen nproc t (schedule t).1
      × ((i : ℕ) → i < nproc → (schedule t).0 i ≡ dispatched (schedule t).1 i (t i))
unfolding schedule
schedule_lem t =
    let s = scan_upto nproc t in
    let v = scan_upto-ScanInv t nproc in
    rw enter-best (v.chosen, λ i h. enter-table t s s.best i v.chosen (v.behind i h))
