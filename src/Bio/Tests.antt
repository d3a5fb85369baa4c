-- ===== src/Bio/Tests.antt =====
-- The buffer cache of initial-xv6/src/kernel/bio.c on concrete input.
use mini_project_3_amey_chou.Common.{ℕ, ◌+◌, ◌<◌, ◌≡◌, refl, arith, false, []}
use mini_project_3_amey_chou.Bio.{Buf, Cache, nbuf, binit, bread}
use mini_project_3_amey_chou.Bio.Views.{IsSound}
use mini_project_3_amey_chou.Bio.Boot.{binit-IsSound}
use mini_project_3_amey_chou.Bio.Reads.{Reads, bread_lem}

abbrev zero_buf : Buf
zero_buf = record {
  valid = false;
  dev = 0;
  blockno = 0;
  refcnt = 0;
  locked = false;
  contents = λ i. 0;
}

abbrev zeroed : Cache
zeroed = record { buf = λ i. zero_buf; order = []; disks = λ d b i. d + b + i }

abbrev booted : Cache
booted = binit zeroed

booted-IsSound : IsSound booted × ((i : ℕ) → i < nbuf → (booted.buf i).refcnt ≡ 0)
booted-IsSound = binit-IsSound zeroed (λ i lt. (refl, refl, refl))

bread_lem_example : Reads booted 1 7 (bread 1 7 booted)
bread_lem_example =
    bread_lem booted 1 7 booted-IsSound.0 (omega arith)
      (λ i lt. omega (arith, booted-IsSound.1 i lt))
