-- ===== src/Life/Alloc.antt =====
-- The search of `allocproc` in initial-xv6/src/kernel/proc.c for a free slot.
use mini_project_3_amey_chou.Common.{
  ℕ, zero, suc, ◌+◌, ◌<◌, ◌≤◌, ◌≡◌, ◌⊎◌, inl, inr, refl, arith, true, false, none, Bool-cases, ℤ,
  ◌∙◌, ap, sym, subst, update,
}
use native.Mathlib.Decide.{ℕ_discrete}
use mini_project_3_amey_chou.Proc.{Proc, Table, nproc, acquire, release}
use mini_project_3_amey_chou.Phys.{Phys, Run, ok}
use mini_project_3_amey_chou.Life.{Allocated, is_vacant, found, alloc_from, allocproc}
use mini_project_3_amey_chou.Life.Reap.{release-Near}
use mini_project_3_amey_chou.Life.Reaped.{Near}
use mini_project_3_amey_chou.Life.Found.{Claimed, found_lem}

module _ (trampoline ticks : ℕ) (nextpid : ℤ) (t : Table) (s : Phys) where
  -- The search ends at slot `k`, the first free one from `i` on, which is claimed; or no slot from
  -- `i` on is free, and `none` is returned with memory and `nextpid` as they were.
  abbrev pub Searched : (i : ℕ) → Run Allocated → Type 0
  Searched i r =
      ((k : ℕ) × (i ≤ k)
        × (k < nproc)
        × (is_vacant (t k) ≡ true)
        × ((j : ℕ) → i ≤ j → j < k → is_vacant (t j) ≡ false)
        × Claimed trampoline ticks k nextpid t s r)
      ⊎ (((j : ℕ) → i ≤ j → j < nproc → is_vacant (t j) ≡ false)
          × ((u : Table) × Near t u
              × (r ≡ ok (record { table = u; nextpid = nextpid; slot = none }) s)))

  same_vacant : (u : Table) (i : ℕ) → Near t u → is_vacant (acquire (u i)) ≡ is_vacant (t i)
  unfolding acquire is_vacant
  same_vacant u i near = ap (λ (q : Proc). is_vacant q) (near i)

  step_over :
      (i : ℕ) (r : Run Allocated) → is_vacant (t i) ≡ false → Searched (suc i) r → Searched i r
  step_over i r busy (inl (k, lo, hk, vacant, first, claimed)) =
      inl (k, omega arith, hk, vacant, (λ j l h. at_or_after i j busy (first j) l h), claimed)
    where
      at_or_after :
          (i j : ℕ)
          → is_vacant (t i) ≡ false
          → (suc i ≤ j → j < k → is_vacant (t j) ≡ false)
          → i ≤ j
          → j < k
          → is_vacant (t j) ≡ false
      at_or_after i j busy rest l h = elim (ℕ_discrete i j) [
        | yes e ↦ subst (λ q. is_vacant (t q) ≡ false) e busy
        | no ne ↦ rest (omega arith) h
      ]
  step_over i r busy (inr (none_free, rest)) = inr (
    λ j l h. elim (ℕ_discrete i j) [
      | yes e ↦ subst (λ q. is_vacant (t q) ≡ false) e busy
      | no ne ↦ none_free j (omega arith) h
    ],
    rest,
  )

  alloc_from_lem :
      (n i : ℕ) (u : Table)
      → i + n ≡ nproc
      → Near t u
      → Searched i (alloc_from n trampoline ticks i nextpid u s)
  unfolding alloc_from
  alloc_from_lem zero i u e near = inr (λ j l h. absurd (omega arith), (u, near, refl))
  alloc_from_lem (suc n) i u e near = elim (Bool-cases (is_vacant (acquire (u i)))) [
    | inl vacant ↦ inl (
      i,
      omega arith,
      omega arith,
      sym (same_vacant u i near) ∙ vacant,
      (λ j l h. absurd (omega arith)),
      subst (Claimed trampoline ticks i nextpid t s) (sym (at_vacant vacant))
          (found_lem trampoline ticks i nextpid t u near s),
    )
    | inr busy ↦ step_over i _ (sym (same_vacant u i near) ∙ busy) (
        subst (Searched (suc i)) (at_busy busy) (
          alloc_from_lem n (suc i) (update u i (release (acquire (u i)))) (omega arith)
            (release-Near t u i near)))
  ]
    where
      at_vacant :
          is_vacant (acquire (u i)) ≡ true
          → alloc_from (suc n) trampoline ticks i nextpid u s ≡ found trampoline ticks i nextpid u s
      at_vacant h = rw (h, alloc_from) refl

      at_busy :
          is_vacant (acquire (u i)) ≡ false
          → alloc_from n trampoline ticks (suc i) nextpid (update u i (release (acquire (u i)))) s
            ≡ alloc_from (suc n) trampoline ticks i nextpid u s
      at_busy h = rw (h, alloc_from) refl

  -- `allocproc` claims the first free slot of the table: it takes the next pid, a page for the
  -- trapframe from `kalloc` and a page table from `proc_pagetable`. If it gets both, it returns the slot, locked and in use, with
  -- the pid, the trapframe and the page table, created now, at static priority 50 and with all
  -- counters at 0. If it does not get one of them, it gives back what the slot holds, returns 0 and
  -- leaves the slot free, cleared and unlocked. The machine stops only if one of the memory calls
  -- stops it, and no other slot changes but for its lock. If no slot is free, `allocproc` returns 0,
  -- takes no pid and no memory, and changes nothing but locks.
  pub allocproc_lem : Searched 0 (allocproc trampoline ticks nextpid t s)
  unfolding allocproc
  allocproc_lem = alloc_from_lem nproc 0 t refl (λ j. refl)
