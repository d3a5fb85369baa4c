-- ===== src/Log/Tests.antt =====
-- A log of 31 blocks from block 2 on, with two blocks to commit, and the theorems there.
use mini_project_3_amey_chou.Common.{
  ◌+◌, ◌<◌, ◌≤◌, ◌≡◌, ◌⊎◌, inr, refl, arith, true, false, none, some, [], pos, ltb_ℤ, ◌==◌,
  if◌then◌else◌,
}
use mini_project_3_amey_chou.Log.{Log, Disk, commit, logsize, log_write, initlog}
use mini_project_3_amey_chou.Log.Overlay.{effective}
use mini_project_3_amey_chou.Log.Install.{All}
use mini_project_3_amey_chou.Log.Crash.{HasLog, SameHome, booted, recover_lem}
use mini_project_3_amey_chou.Log.Commit.{IsReady, OldOrNew, written, commit_lem}
use mini_project_3_amey_chou.Log.Append.{IsDistinct, Added, log_write_lem}

-- Every word of the disk is 0, and every word of a buffer the number of its block.
abbrev zeros : Disk
zeros b i = 0

abbrev busy : Log
busy = record {
  start = 2;
  size = 31;
  outstanding = pos 1;
  committing = true;
  n = 2;
  block = λ t. t + 40;
  store = record { view = λ b i. b; disk = zeros; past = []; pins = λ b. 0 };
}

busy-IsReady : IsReady busy
busy-IsReady = record {
  fits = omega arith;
  home = λ t lt. inr (omega arith);
  clean = refl;
  uncounted = refl;
}

commit_lem_example :
    All (OldOrNew busy) (commit busy).store.past
    × SameHome 2 31 (commit busy).store.disk (written busy)
    × ((commit busy).store.disk 2 0 ≡ 0)
    × ((commit busy).n ≡ 0)
commit_lem_example = commit_lem busy busy-IsReady

-- A disk whose log holds one block, for block 50.
abbrev interrupted : Disk
interrupted b i = if b == 2 then (if i == 0 then 1 else 50) else b

interrupted-HasLog : HasLog 2 31 interrupted
interrupted-HasLog = record { fits = omega arith; home = λ t lt. inr (ground arith) }

recover_lem_example :
    SameHome 2 31 (booted 2 31 interrupted) (effective 2 interrupted)
    × (booted 2 31 interrupted 2 0 ≡ 0)
    × All
        (λ e. SameHome 2 31 (effective 2 e) (effective 2 interrupted))
        (initlog 2 31 interrupted).store.past
recover_lem_example = recover_lem 2 31 interrupted interrupted-HasLog

busy-IsDistinct : IsDistinct busy
busy-IsDistinct i j hi hj e = omega arith

log_write_lem_example :
    ((busy.n < logsize)
      × (busy.n + 1 < busy.size)
      × (ltb_ℤ busy.outstanding (pos 1) ≡ false)
      × ((m : Log) × (log_write 41 busy ≡ some m) × Added 41 busy m))
    ⊎ (((logsize ≤ busy.n) ⊎ (busy.size ≤ busy.n + 1) ⊎ (ltb_ℤ busy.outstanding (pos 1) ≡ true))
        × (log_write 41 busy ≡ none))
log_write_lem_example = log_write_lem 41 busy busy-IsDistinct
