-- ===== src/Sched/Tests.antt =====
-- Runs of the scheduler on a small table, and its theorems at concrete inputs.
use mini_project_3_amey_chou.Common.{
  ℕ, ◌<◌, ◌≤◌, ◌≡◌, refl, arith, some, pos, update, for_upto, int32, int32_bits, ◌+ℤ◌, ◌-ℤ◌, ◌*ℤ◌,
  ◌/ℤ◌,
}
use mini_project_3_amey_chou.Proc.{Proc, free_slot, ProcState, Table, nproc, acquire, release}
use mini_project_3_amey_chou.Sched.{
  dp_of, dp_priority, schedule, scan_upto, update_time, scan_slot, pass_over, consider, take_first,
  take_over, beats, min_int, max_int, rbi_of, rbi_numerator, rbi_denominator,
}
use mini_project_3_amey_chou.Sched.Scanning.{Chosen}
use mini_project_3_amey_chou.Sched.Choice.{dispatched, schedule_lem}
use mini_project_3_amey_chou.Sched.Priority.{Counters, dp_priority_lem}
use mini_project_3_amey_chou.Sched.Accounting.{ticked, update_time_lem}

abbrev ready : (pid sp rtime num ctime : ℕ) → Proc
ready pid sp rtime num ctime = record free_slot {
  state = ProcState.runnable;
  pid = pos pid;
  pbs_static_priority = pos sp;
  pbs_rtime = pos rtime;
  pbs_num_sched = pos num;
  ctime = ctime;
}

-- Slots 1 and 3 tie on priority; slot 3 has been scheduled less often. Slot 2 has been running.
abbrev demo : Table
demo =
    update (update (update (λ i. free_slot) 1 (ready 4 50 0 2 10)) 2 (ready 5 40 3 0 11)) 3
      (ready 6 50 0 1 12)

picks_three : (scan_upto 4 demo).best ≡ some 3
unfolding scan_upto for_upto scan_slot acquire pass_over consider take_first take_over beats
    dp_priority dp_of min_int int32 ◌+ℤ◌ ◌-ℤ◌ ◌*ℤ◌ ◌/ℤ◌ rbi_of max_int rbi_numerator rbi_denominator
    int32_bits release
picks_three = refl

-- Slot 2 ran for 3 ticks since it was last scheduled: its index is 3·3·50 / 4 = 112.
abbrev demo_counters : Counters (demo 2)
demo_counters = record {
  run = 3;
  wait = 0;
  sleep = 0;
  run_eq = refl;
  wait_eq = refl;
  sleep_eq = refl;
  bounded = omega arith;
}

dp_priority_lem_example :
    (dp_priority (demo 2)
      ≡ (record (demo 2) { pbs_rbi = pos 112; pbs_dynamic_priority = pos 100 }, pos 100))
    × (◌<◌ 112 150)
dp_priority_lem_example = dp_priority_lem (demo 2) demo_counters 40 refl (omega arith)

schedule_lem_example :
    Chosen nproc demo (schedule demo).1
    × ((i : ℕ) → i < nproc → (schedule demo).0 i ≡ dispatched (schedule demo).1 i (demo i))
schedule_lem_example = schedule_lem demo

update_time_lem_example :
    ((s : ProcState) → 3 < nproc → ProcState.runnable ≡ s → update_time demo 3 ≡ ticked s (demo 3))
    × (nproc ≤ 3 → update_time demo 3 ≡ demo 3)
update_time_lem_example = update_time_lem demo 3
