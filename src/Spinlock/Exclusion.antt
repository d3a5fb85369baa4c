-- ===== src/Spinlock/Exclusion.antt =====
-- Mutual exclusion, and the checks that could panic, of the lock of
-- initial-xv6/src/kernel/spinlock.c.
use mini_project_3_amey_chou.Common.{
  ℕ, ◌≡◌, ◌≢◌, refl, arith, Bool, true, false, Option, none, some, update, update_self, update-ne,
  at_update, ap, ap₂, inl, inr, int32, int32_bits, ◌+ℤ◌, ◌-ℤ◌, eqb_ℤ, sym, ◌∙◌, subst, pos,
  Bool-cases, ◌&&◌, same_ptr, if◌then◌else◌,
}
use native.Mathlib.Decide.{ℕ_discrete}
use mini_project_3_amey_chou.Proc.{incr}
use mini_project_3_amey_chou.Kalloc.{decr}
use mini_project_3_amey_chou.Spinlock.{
  Cpu, Pc, outside, spinning, swapped, inside, cleared, Machine, Step, begin, swap, enter, clear,
  unlock, Reach, start, later, start_machine, initlock, push_off, pop_off, holding,
}

-- Past the swap and before the last store.
abbrev pub owns : Pc → Bool
owns outside = false
owns spinning = false
owns swapped = true
owns inside = true
owns cleared = true

-- Interrupts are as at the start outside of the lock, and off with one `push_off` pending within.
abbrev pub CpuInv : Bool → Pc → Cpu → Type 0
CpuInv intr outside c = (c.noff ≡ pos 0) × (c.intr ≡ intr)
CpuInv intr _ c = (c.noff ≡ pos 1) × (c.intr ≡ false) × (c.intena ≡ intr)

pub record MachineInv (intr : ℕ → Bool) (s : Machine) : Type 0 where
  pub held : (i : ℕ) → owns (s.pc i) ≡ true → s.lock.locked ≡ true
  pub alone : (i j : ℕ) → owns (s.pc i) ≡ true → owns (s.pc j) ≡ true → i ≡ j
  pub recorded : (i : ℕ) → s.pc i ≡ inside → s.lock.cpu ≡ some i
  pub record_true : (i : ℕ) → s.lock.cpu ≡ some i → s.pc i ≡ inside
  pub cpu_inv : (i : ℕ) → CpuInv (intr i) (s.pc i) (s.cpus i)

-- What holds of the processor that takes a step, and of the others, holds of all afterwards.
at_both :
    (P : ℕ → Pc → Cpu → Type 0) (pc : ℕ → Pc) (cpus : ℕ → Cpu) (i : ℕ) (x : Pc) (c : Cpu)
    → P i x c
    → ((j : ℕ) → i ≢ j → P j (pc j) (cpus j))
    → (j : ℕ) → P j (update pc i x j) (update cpus i c j)
at_both P pc cpus i x c here there j = elim (ℕ_discrete i j) [
  | yes e ↦
      subst (λ k. P k (update pc i x k) (update cpus i c k)) e
        (subst (λ q. P i q (update cpus i c i)) (sym (update_self pc i x))
          (subst (P i x) (sym (update_self cpus i c)) here))
  | no ne ↦
      subst (λ q. P j q (update cpus i c j)) (sym (update-ne pc i j x ne))
        (subst (P j (pc j)) (sym (update-ne cpus i j c ne)) (there j ne))
]

alone_update :
    (pc : ℕ → Pc) (i : ℕ) (x : Pc)
    → ((j k : ℕ) → owns (pc j) ≡ true → owns (pc k) ≡ true → j ≡ k)
    → (owns x ≡ true → (j : ℕ) → i ≢ j → owns (pc j) ≡ true → ⊥)
    → (j k : ℕ) → owns (update pc i x j) ≡ true
    → owns (update pc i x k) ≡ true
    → j ≡ k
alone_update pc i x alone fresh j k own_j own_k = elim (ℕ_discrete i j) [
  | yes e ↦ elim (ℕ_discrete i k) [
    | yes e' ↦ sym e ∙ e'
    | no ne ↦ absurd (
        fresh (ap owns (sym (update_self pc i x) ∙ ap (update pc i x) e) ∙ own_j) k ne
          (ap owns (sym (update-ne pc i k x ne)) ∙ own_k))
  ]
  | no ne ↦ elim (ℕ_discrete i k) [
    | yes e' ↦ absurd (
        fresh (ap owns (sym (update_self pc i x) ∙ ap (update pc i x) e') ∙ own_k) j ne
          (ap owns (sym (update-ne pc i j x ne)) ∙ own_j))
    | no ne' ↦
        alone j k (ap owns (sym (update-ne pc i j x ne)) ∙ own_j)
          (ap owns (sym (update-ne pc i k x ne')) ∙ own_k)
  ]
]

some_inj : {A : Type 0} (a b : A) → some a ≡ some b → a ≡ b
some_inj a b e = cc

-- The processor itself, through `push_off` and `pop_off`.
push_off-CpuInv :
    (intr : Bool) (c : Cpu) → CpuInv intr outside c → CpuInv intr spinning (push_off c)
unfolding push_off incr int32 int32_bits ◌+ℤ◌
push_off-CpuInv intr c (depth, on) =
    (ap incr depth, refl, ap (λ z. if eqb_ℤ z (pos 0) then c.intr else c.intena) depth ∙ on)

pop_off-CpuInv :
    (intr : Bool) (c : Cpu)
    → CpuInv intr cleared c
    → (d : Cpu) × (pop_off c ≡ some d) × CpuInv intr outside d
unfolding pop_off decr int32 int32_bits ◌-ℤ◌ ◌+ℤ◌
pop_off-CpuInv intr c (depth, off, was) = (
  record { noff = pos 0; intena = c.intena; intr = if c.intena then true else false },
  ap pop_off (ap₂ (λ n x. record c { noff = n; intr = x }) depth off),
  (refl, same c.intena ∙ was),
)
  where
    same : (b : Bool) → (if b then true else false) ≡ b
    same true = refl
    same false = refl

is_recorded : (b : Bool) (o : Option ℕ) (i : ℕ) → b && same_ptr o (some i) ≡ true → o ≡ some i
is_recorded false o i e = cc
is_recorded true none i e = cc
is_recorded true (some k) i e = ap some (ground arith)

is_holding :
    (b : Bool) (o : Option ℕ) (i : ℕ) → b ≡ true → o ≡ some i → b && same_ptr o (some i) ≡ true
is_holding false o i e f = cc
is_holding true none i e f = cc
is_holding true (some k) i e f = ground (arith, some_inj k i f)

module _ (intr : ℕ → Bool) where
  step-MachineInv : (s t : Machine) → MachineInv intr s → Step s t → MachineInv intr t
  step-MachineInv s t v (begin i at free) = record {
    held =
        at_update (λ j q. owns q ≡ true → s.lock.locked ≡ true) s.pc i spinning (λ e. cc)
          (λ j ne. v.held j);
    alone = alone_update s.pc i spinning v.alone (λ e. cc);
    recorded =
        at_update (λ j q. q ≡ inside → s.lock.cpu ≡ some j) s.pc i spinning (λ e. cc)
          (λ j ne. v.recorded j);
    record_true =
        at_update (λ j q. s.lock.cpu ≡ some j → q ≡ inside) s.pc i spinning
          (λ e. cc (v.record_true i e)) (λ j ne. v.record_true j);
    cpu_inv =
        at_both (λ j q c. CpuInv (intr j) q c) s.pc s.cpus i spinning (push_off (s.cpus i))
          (push_off-CpuInv (intr i) (s.cpus i)
            (subst (λ q. CpuInv (intr i) q (s.cpus i)) at (v.cpu_inv i)))
          (λ j ne. v.cpu_inv j);
  }
  step-MachineInv s t v (swap i at free) = record {
    held = λ j e. refl;
    alone = alone_update s.pc i swapped v.alone (λ e j ne own. cc (v.held j own));
    recorded =
        at_update (λ j q. q ≡ inside → s.lock.cpu ≡ some j) s.pc i swapped (λ e. cc)
          (λ j ne. v.recorded j);
    record_true =
        at_update (λ j q. s.lock.cpu ≡ some j → q ≡ inside) s.pc i swapped
          (λ e. cc (v.record_true i e)) (λ j ne. v.record_true j);
    cpu_inv =
        at_update (λ j q. CpuInv (intr j) q (s.cpus j)) s.pc i swapped
          (subst (λ q. CpuInv (intr i) q (s.cpus i)) at (v.cpu_inv i)) (λ j ne. v.cpu_inv j);
  }
  step-MachineInv s t v (enter i at) = record {
    held =
        at_update (λ j q. owns q ≡ true → s.lock.locked ≡ true) s.pc i inside
          (λ e. v.held i (ap owns at)) (λ j ne. v.held j);
    alone = alone_update s.pc i inside v.alone (λ e j ne own. ne (v.alone i j (ap owns at) own));
    recorded =
        at_update (λ j q. q ≡ inside → some i ≡ some j) s.pc i inside (λ e. refl)
          (λ j ne e. absurd (ne (v.alone i j (ap owns at) (ap owns e))));
    record_true =
        at_update (λ j q. some i ≡ some j → q ≡ inside) s.pc i inside (λ e. refl)
          (λ j ne e. absurd (ne (some_inj i j e)));
    cpu_inv =
        at_update (λ j q. CpuInv (intr j) q (s.cpus j)) s.pc i inside
          (subst (λ q. CpuInv (intr i) q (s.cpus i)) at (v.cpu_inv i)) (λ j ne. v.cpu_inv j);
  }
  step-MachineInv s t v (clear i at mine) = record {
    held =
        at_update (λ j q. owns q ≡ true → s.lock.locked ≡ true) s.pc i cleared
          (λ e. v.held i (ap owns at)) (λ j ne. v.held j);
    alone = alone_update s.pc i cleared v.alone (λ e j ne own. ne (v.alone i j (ap owns at) own));
    recorded =
        at_update (λ (j : ℕ) q. q ≡ inside → none ≡ some j) s.pc i cleared (λ e. cc)
          (λ j ne e. absurd (ne (v.alone i j (ap owns at) (ap owns e))));
    record_true = λ j e. cc;
    cpu_inv =
        at_update (λ j q. CpuInv (intr j) q (s.cpus j)) s.pc i cleared
          (subst (λ q. CpuInv (intr i) q (s.cpus i)) at (v.cpu_inv i)) (λ j ne. v.cpu_inv j);
  }
  step-MachineInv s t v (unlock i c at popped) = record {
    held =
        at_update (λ j q. owns q ≡ true → false ≡ true) s.pc i outside (λ e. e)
          (λ j ne own. absurd (ne (v.alone i j (ap owns at) own)));
    alone = alone_update s.pc i outside v.alone (λ e. cc);
    recorded =
        at_update (λ j q. q ≡ inside → s.lock.cpu ≡ some j) s.pc i outside (λ e. cc)
          (λ j ne. v.recorded j);
    record_true =
        at_update (λ j q. s.lock.cpu ≡ some j → q ≡ inside) s.pc i outside
          (λ e. cc (v.record_true i e)) (λ j ne. v.record_true j);
    cpu_inv =
        at_both (λ j q d. CpuInv (intr j) q d) s.pc s.cpus i outside c
          (let (d, e, inv) =
              pop_off-CpuInv (intr i) (s.cpus i)
                (subst (λ q. CpuInv (intr i) q (s.cpus i)) at (v.cpu_inv i)) in
            subst (CpuInv (intr i) outside) (some_inj d c (sym e ∙ popped)) inv)
          (λ j ne. v.cpu_inv j);
  }

  Reach-MachineInv : {s : Machine} → Reach intr s → MachineInv intr s
  unfolding start_machine initlock
  Reach-MachineInv start = record {
    held = λ i e. cc;
    alone = λ i j e. cc;
    recorded = λ i e. cc;
    record_true = λ i e. cc;
    cpu_inv = λ i. (refl, refl);
  }
  Reach-MachineInv (later {s} {t} r step) = step-MachineInv s t (Reach-MachineInv r) step

  -- Two processors are never between `acquire` and `release` of the lock together.
  pub mutual_exclusion :
      {s : Machine} → Reach intr s → (i j : ℕ) → s.pc i ≡ inside → s.pc j ≡ inside → i ≡ j
  mutual_exclusion r i j at_i at_j = (Reach-MachineInv r).alone i j (ap owns at_i) (ap owns at_j)

  -- No check of `acquire`, `release` or `pop_off` panics: outside of the lock `holding` is false
  -- and inside it is true, whatever the others do meanwhile; and `pop_off` puts the interrupts of
  -- the processor back to what they were.
  pub no_panic :
      {s : Machine}
      → Reach intr s
      → (i : ℕ)
      → (s.pc i ≡ outside → holding i s.lock ≡ false)
        × (s.pc i ≡ inside → holding i s.lock ≡ true)
        × (s.pc i ≡ cleared
            → (c : Cpu) × (pop_off (s.cpus i) ≡ some c) × ((c.noff ≡ pos 0) × (c.intr ≡ intr i)))
  unfolding holding
  no_panic {s} r i = (
    λ at. elim (Bool-cases (s.lock.locked && same_ptr s.lock.cpu (some i))) [
      | inl mine ↦ cc (at, v.record_true i (is_recorded s.lock.locked s.lock.cpu i mine))
      | inr free ↦ free
    ],
    λ at. is_holding s.lock.locked s.lock.cpu i (v.held i (ap owns at)) (v.recorded i at),
    λ at.
        pop_off-CpuInv (intr i) (s.cpus i)
          (subst (λ q. CpuInv (intr i) q (s.cpus i)) at (v.cpu_inv i)),
  )
    where
      v : MachineInv intr s
      v = Reach-MachineInv r
