-- ===== src/Spinlock/Tests.antt =====
-- Two processors and a lock: processor 0 holds it, processor 1 spins.
use mini_project_3_amey_chou.Common.{ℕ, zero, ◌≡◌, refl, Bool, true, false, some, update, pos}
use mini_project_3_amey_chou.Spinlock.{
  Cpu, Machine, Reach, start, later, begin, swap, enter, outside, spinning, swapped, inside,
  cleared, start_machine, initlock, holding, push_off, pop_off,
}
use mini_project_3_amey_chou.Spinlock.Exclusion.{mutual_exclusion, no_panic}

abbrev on : ℕ → Bool
on i = true

abbrev s0 : Machine
s0 = start_machine on

abbrev s1 : Machine
s1 = record s0 { pc = update s0.pc 0 spinning; cpus = update s0.cpus 0 (push_off (s0.cpus 0)) }

abbrev s2 : Machine
s2 = record s1 { pc = update s1.pc 0 swapped; lock = record s1.lock { locked = true } }

abbrev s3 : Machine
s3 = record s2 { pc = update s2.pc 0 inside; lock = record s2.lock { cpu = some 0 } }

abbrev s4 : Machine
s4 = record s3 { pc = update s3.pc 1 spinning; cpus = update s3.cpus 1 (push_off (s3.cpus 1)) }

s4-Reach : Reach on s4
unfolding start_machine initlock holding
s4-Reach =
    later (later (later (later start (begin 0 refl refl)) (swap 0 refl refl)) (enter 0 refl))
      (begin 1 refl refl)

mutual_exclusion_example : zero ≡ zero
unfolding start_machine
mutual_exclusion_example = mutual_exclusion on s4-Reach zero zero refl refl

no_panic_example :
    (s4.pc 0 ≡ outside → holding 0 s4.lock ≡ false)
    × (s4.pc 0 ≡ inside → holding 0 s4.lock ≡ true)
    × (s4.pc 0 ≡ cleared
        → (c : Cpu) × (pop_off (s4.cpus 0) ≡ some c) × ((c.noff ≡ pos 0) × (c.intr ≡ true)))
no_panic_example = no_panic on s4-Reach 0
