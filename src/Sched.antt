-- ===== src/Sched.antt =====
-- The priority-based scheduler of initial-xv6/src/kernel/proc.c: `dp_priority`, the choice of the
-- next process, the accounting at each clock tick and `setpriority`.
mod Order
mod Scanning
mod Choice
mod Priority
mod Accounting
mod Tests
use mini_project_3_amey_chou.Common.{
  ℕ, ◌+◌, ◌%◌, ◌^◌, Bool, true, false, Option, none, some, ltb, if◌then◌else◌, update, for_upto, ℤ,
  pos, negsuc, ltb_ℤ, eqb_ℤ, int32, ◌+ℤ◌, ◌-ℤ◌, ◌*ℤ◌, ◌/ℤ◌,
}
use mini_project_3_amey_chou.Proc.{
  Proc, ProcState, Table, nproc, acquire, release, incr, is_runnable, is_sleeping, is_running,
}

-- `max` and `min`
unfoldable pub max_int : ℤ → ℤ → ℤ
max_int a b = if ltb_ℤ b a then a else b

unfoldable pub min_int : ℤ → ℤ → ℤ
min_int a b = if ltb_ℤ a b then a else b

-- `temp` and `temp1` of `dp_priority`: every `int` operation wraps.
unfoldable pub rbi_numerator : (rtime wtime stime : ℤ) → ℤ
rbi_numerator rtime wtime stime =
    int32 (int32 (int32 (int32 (pos 3 *ℤ rtime) -ℤ wtime) -ℤ stime) *ℤ pos 50)

unfoldable pub rbi_denominator : (rtime wtime stime : ℤ) → ℤ
rbi_denominator rtime wtime stime = int32 (int32 (int32 (pos 1 +ℤ rtime) +ℤ stime) +ℤ wtime)

-- `rbi` of `dp_priority`
unfoldable pub rbi_of : Proc → ℤ
rbi_of p = max_int (pos 0) (
    int32 (
      rbi_numerator p.pbs_rtime p.pbs_wtime p.pbs_stime
      /ℤ rbi_denominator p.pbs_rtime p.pbs_wtime p.pbs_stime))

-- `dp` of `dp_priority`
unfoldable pub dp_of : Proc → ℤ
dp_of p = min_int (pos 100) (int32 (p.pbs_static_priority +ℤ rbi_of p))

-- `dp_priority`: the process with both indices written back, and the dynamic priority.
unfoldable pub dp_priority : Proc → Proc × ℤ
dp_priority p = (record p { pbs_rbi = rbi_of p; pbs_dynamic_priority = dp_of p }, dp_of p)

-- The locals of the PBS round of `scheduler`: the table, `max_priority` and `priority`.
pub record Scan : Type 0 where
  pub table : Table
  pub best : Option ℕ
  pub priority : ℤ

-- Whether slot `p`, at dynamic priority `dp`, takes the place of `best`.
unfoldable pub beats : (p : Proc) (dp : ℤ) (best : Proc) (priority : ℤ) → Bool
beats p dp best priority =
    if ltb_ℤ dp priority
    then true
    else if eqb_ℤ dp priority
    then (if ltb_ℤ p.pbs_num_sched best.pbs_num_sched
        then true
        else if eqb_ℤ p.pbs_num_sched best.pbs_num_sched
        then ltb p.ctime best.ctime
        else false)
    else false

-- `max_priority = p; priority = dp;` with p's lock kept.
unfoldable pub take_first : Scan → ℕ → Proc → ℤ → Scan
take_first s i p dp = record { table = update s.table i p; best = some i; priority = dp }

-- The same, after `release(&max_priority->lock)`.
unfoldable pub take_over : Scan → ℕ → ℕ → Proc → ℤ → Scan
take_over s b i p dp = record {
  table = update (update s.table b (release (s.table b))) i p;
  best = some i;
  priority = dp;
}

-- `release(&p->lock)` at the end of a round.
unfoldable pub pass_over : Scan → ℕ → Proc → Scan
pass_over s i p = record s { table = update s.table i (release p) }

-- The comparison of a runnable slot with `max_priority`.
unfoldable pub consider : Scan → ℕ → Proc → ℤ → Option ℕ → Scan
consider s i p dp none = take_first s i p dp
consider s i p dp (some b) =
    if beats p dp (s.table b) s.priority then take_over s b i p dp else pass_over s i p

-- One round of the loop over the table.
unfoldable pub scan_slot : ℕ → Scan → Scan
scan_slot i s =
    let p = acquire (s.table i) in
    if is_runnable p.state
    then consider s i (dp_priority p).0 (dp_priority p).1 s.best
    else pass_over s i p

unfoldable pub scan_upto : ℕ → Table → Scan
scan_upto n t = for_upto n scan_slot (record { table = t; best = none; priority = pos 101 })

-- The writes to the chosen slot before `swtch`.
unfoldable pub dispatch : Proc → Proc
dispatch p = record p {
  state = ProcState.running;
  pbs_num_sched = incr p.pbs_num_sched;
  pbs_rtime = pos 0;
  pbs_wtime = pos 0;
  pbs_stime = pos 0;
}

-- `if(max_priority != 0)`: the table and `c->proc` at `swtch`.
unfoldable pub enter : Scan → Option ℕ → Table × Option ℕ
enter s none = (s.table, none)
enter s (some b) = (update s.table b (dispatch (s.table b)), some b)

-- The PBS round of `scheduler` up to `swtch`.
unfoldable pub schedule : Table → Table × Option ℕ
schedule t = let s = scan_upto nproc t in enter s s.best

-- What `update_time` does to one slot, in a kernel built for PBS.
unfoldable pub tick_proc : Proc → Proc
tick_proc p =
    let q = if is_running p.state then record p { rtime = (p.rtime + 1) % 2 ^ 32 } else p in
    if is_runnable q.state
    then record q { pbs_wtime = incr q.pbs_wtime }
    else if is_sleeping q.state
    then record q { pbs_stime = incr q.pbs_stime }
    else if is_running q.state
    then record q { pbs_rtime = incr q.pbs_rtime }
    else q

unfoldable pub update_time : Table → Table
update_time t = for_upto nproc (λ i u. update u i (release (tick_proc (acquire (u i))))) t

-- The locals of `setpriority`: the table, `found` and `old_static_priority`.
pub record SetScan : Type 0 where
  pub table : Table
  pub found : Bool
  pub old : ℤ

unfoldable pub set_slot : (pid priority : ℤ) → ℕ → SetScan → SetScan
set_slot pid priority i s =
    let p = acquire (s.table i) in
    if eqb_ℤ p.pid pid
    then record {
      table =
          update s.table i
            (release (record p { pbs_static_priority = priority; pbs_rbi = pos 25 }));
      found = true;
      old = p.pbs_static_priority;
    }
    else record s { table = update s.table i (release p) }

unfoldable pub setpriority : Table → (pid priority : ℤ) → Table × ℤ
setpriority t pid priority =
    let s =
      for_upto nproc (set_slot pid priority) (record { table = t; found = false; old = pos 0 }) in
    (s.table, if s.found then s.old else negsuc 0)
