-- ===== src/Life/Tests.antt =====
-- Runs of the process life cycle on a small table: slot 0 waits for its children in slots 1 and 2.
use mini_project_3_amey_chou.Common.{
  refl, arith, Option, none, ◌==◌, if◌then◌else◌, ltb, ℕ, ◌<◌, ◌≤◌, ◌≡◌, ◌≢◌, ◌⊎◌, true, false,
  some, [], pos, negsuc, update, same_ptr, ◌&&◌, eqb_ℤ,
}
use mini_project_3_amey_chou.Proc.{ProcState, Table, free_slot, nproc, is_sleeping}
use mini_project_3_amey_chou.Phys.{Phys, ok}
use mini_project_3_amey_chou.Life.{wakeup}
use mini_project_3_amey_chou.File.{FileTable, fd_device}
use mini_project_3_amey_chou.Life.Fork.{dup_files}
use mini_project_3_amey_chou.Life.Fork.Files.{Duplicated, dup_files_lem}
use mini_project_3_amey_chou.Life.Wait.{wait, returns, sleeps}
use mini_project_3_amey_chou.Life.Signals.{wakeup_lem}
use mini_project_3_amey_chou.Life.{allocproc}
use mini_project_3_amey_chou.Life.Alloc.{Searched, allocproc_lem}
use mini_project_3_amey_chou.Life.Reap.{Reaps, IsZombieChild, Child, wait_lem}
use mini_project_3_amey_chou.Life.Reaped.{Near}

abbrev family : Table
family =
    update
      (update
        (update (λ i. free_slot) 0
          (record free_slot { state = ProcState.sleeping; chan = some 9; pid = pos 1 }))
        1
        (record free_slot {
          state = ProcState.sleeping;
          chan = some 7;
          pid = pos 2;
          parent = some 0;
        }))
      2
      (record free_slot { state = ProcState.zombie; pid = pos 3; parent = some 0; xstate = pos 5 })

abbrev empty : Phys
empty = record { word = λ p i. 0; temp = λ p. pos 0; freelist = [] }

wakeup_lem_example :
    (0 < nproc
      → ◌≢◌ {A = ℕ} 0 1
      → (family 0).state ≡ ProcState.sleeping
      → same_ptr (family 0).chan (some 9) ≡ true
      → wakeup (some 1) (some 9) family 0
        ≡ record (family 0) { locked = false; state = ProcState.runnable })
    × (0 < nproc
        → ◌≢◌ {A = ℕ} 0 1
        → is_sleeping (family 0).state && same_ptr (family 0).chan (some 9) ≡ false
        → wakeup (some 1) (some 9) family 0 ≡ record (family 0) { locked = false })
    × (nproc ≤ 0 ⊎ (◌≡◌ {A = ℕ} 0 1) → wakeup (some 1) (some 9) family 0 ≡ family 0)
wakeup_lem_example = wakeup_lem 1 (some 9) family 0

wait_lem_example :
    ((k : ℕ) × Reaps 0 100 0 family empty 0 (wait 0 100 0 family empty) k)
    ⊎ (((j : ℕ) → j < nproc → IsZombieChild 0 100 0 family empty j → ⊥)
        × ((u : Table) × Near family u
            × (((Child 0 100 0 family empty 0 → ⊥)
                  → wait 0 100 0 family empty ≡ ok (u, returns (negsuc 0)) empty)
                × (Child 0 100 0 family empty 0
                    → eqb_ℤ (family 0).killed (pos 0) ≡ true
                    → wait 0 100 0 family empty ≡ ok (u, sleeps) empty)
                × (Child 0 100 0 family empty 0
                    → eqb_ℤ (family 0).killed (pos 0) ≡ false
                    → wait 0 100 0 family empty ≡ ok (u, returns (negsuc 0)) empty))))
wait_lem_example = wait_lem 0 100 0 family empty

allocproc_lem_example :
    Searched 4096 5 (pos 4) family empty 0 (allocproc 4096 5 (pos 4) family empty)
allocproc_lem_example = allocproc_lem 4096 5 (pos 4) family empty

-- Descriptors 0 and 1 are to file 0.
abbrev open_files : FileTable
open_files i = record {
  kind = fd_device;
  ref = pos (if i == 0 then 2 else 0);
  readable = true;
  writable = true;
  pipe = none;
  ip = some 8192;
  off = 0;
  major = pos 1;
}

abbrev descriptors : ℕ → Option ℕ
descriptors i = if ltb i 2 then some 0 else none

dup_files_lem_example :
    (r : FileTable × (ℕ → Option ℕ)) × (dup_files 16 descriptors (λ i. none) open_files ≡ some r)
    × Duplicated descriptors (λ i. none) open_files (λ f. if f == 0 then 2 else 0) 16 r
dup_files_lem_example =
    dup_files_lem descriptors (λ i. none) open_files (λ f. if f == 0 then 2 else 0) (λ f. refl)
      (λ i f e. ground arith) 16 (λ f. ground arith)
