-- ===== src/Sched/Accounting.antt =====
-- `update_time` and `setpriority` on the whole table.
use mini_project_3_amey_chou.Common.{
  ℕ, suc, ◌+◌, ◌%◌, ◌^◌, ◌<◌, ◌≤◌, ◌≡◌, refl, ◌⊎◌, inl, inr, true, false, arith, ℤ, pos, negsuc,
  eqb_ℤ, if◌then◌else◌, for_upto, update, below_suc, Bool-cases, ◌∙◌, each_behind, each_ahead, each,
  ap, zero,
}
use mini_project_3_amey_chou.Proc.{Proc, Table, ProcState, nproc, acquire, release, incr}
use mini_project_3_amey_chou.Sched.{tick_proc, update_time, SetScan, set_slot, setpriority}

-- What one clock tick counts in a slot: the time since creation spent running, and the three
-- counters of PBS by state.
abbrev pub ticked : ProcState → Proc → Proc
ticked ProcState.running p = record p {
  locked = false;
  rtime = (p.rtime + 1) % 2 ^ 32;
  pbs_rtime = incr p.pbs_rtime;
}
ticked ProcState.runnable p = record p { locked = false; pbs_wtime = incr p.pbs_wtime }
ticked ProcState.sleeping p = record p { locked = false; pbs_stime = incr p.pbs_stime }
ticked _ p = record p { locked = false }

tick_slot : (p : Proc) (s : ProcState) → p.state ≡ s → release (tick_proc (acquire p)) ≡ ticked s p
unfolding tick_proc acquire release
tick_slot p ProcState.running h = rw h
tick_slot p ProcState.runnable h = rw h
tick_slot p _ h = rw h

-- One tick counts in every slot of the table what its state calls for, once, and leaves its lock
-- free; beyond the table nothing changes.
pub update_time_lem :
    (t : Table) (i : ℕ)
    → ((s : ProcState) → i < nproc → (t i).state ≡ s → update_time t i ≡ ticked s (t i))
      × (nproc ≤ i → update_time t i ≡ t i)
unfolding update_time
update_time_lem t i = (
  λ s lt e. each_behind (λ p. release (tick_proc (acquire p))) t nproc i lt ∙ tick_slot (t i) s e,
  each_ahead (λ p. release (tick_proc (acquire p))) t nproc i,
)

-- A slot after `setpriority`.
unfoldable pub assigned : (pid priority : ℤ) → Proc → Proc
assigned pid priority p =
    if eqb_ℤ p.pid pid
    then record p { locked = false; pbs_static_priority = priority; pbs_rbi = pos 25 }
    else record p { locked = false }

-- What is returned for the first `n` slots: the static priority of the last with that process id,
-- or -1 if none has it.
abbrev pub Old : Table → ℤ → ℕ → ℤ → Type 0
Old t pid n r =
    ((i : ℕ) → i < n → eqb_ℤ (t i).pid pid ≡ false) × (r ≡ negsuc 0)
    ⊎ ((k : ℕ) × (k < n)
        × (eqb_ℤ (t k).pid pid ≡ true)
        × ((i : ℕ) → k < i → i < n → eqb_ℤ (t i).pid pid ≡ false)
        × (r ≡ (t k).pbs_static_priority))

abbrev result : SetScan → ℤ
result s = if s.found then s.old else negsuc 0

module _ (t : Table) (pid priority : ℤ) where
  abbrev scan : ℕ → SetScan
  scan n = for_upto n (set_slot pid priority) (record { table = t; found = false; old = pos 0 })

  set_slot-table :
      (n : ℕ) (s : SetScan)
      → (set_slot pid priority n s).table ≡ update s.table n (assigned pid priority (s.table n))
  unfolding set_slot assigned acquire release
  set_slot-table n s = elim (Bool-cases (eqb_ℤ (s.table n).pid pid)) [
    | inl hit ↦ rw hit
    | inr miss ↦ rw miss
  ]

  set_slot-hit :
      (n : ℕ) (s : SetScan)
      → eqb_ℤ (s.table n).pid pid ≡ true
      → result (set_slot pid priority n s) ≡ (s.table n).pbs_static_priority
  unfolding set_slot acquire
  set_slot-hit n s h = rw h

  set_slot-miss :
      (n : ℕ) (s : SetScan)
      → eqb_ℤ (s.table n).pid pid ≡ false
      → result (set_slot pid priority n s) ≡ result s
  unfolding set_slot acquire
  set_slot-miss n s h = rw h

  scan-table : (n : ℕ) → (scan n).table ≡ for_upto n (each (assigned pid priority) t) t
  unfolding for_upto
  scan-table zero = refl
  scan-table (suc n) = set_slot-table n (scan n) ∙ rw (scan-table n)

  scan-ahead : (n : ℕ) → (scan n).table n ≡ t n
  scan-ahead n = rw (scan-table n) (each_ahead (assigned pid priority) t n n (omega arith))

  scan-Old : (n : ℕ) → Old t pid n (result (scan n))
  unfolding for_upto
  scan-Old zero = inl ((λ i h. absurd (omega arith)), refl)
  scan-Old (suc n) = elim (Bool-cases (eqb_ℤ (t n).pid pid)) [
    | inl hit ↦ inr (
      n,
      omega arith,
      hit,
      λ i h k. absurd (omega arith),
      set_slot-hit n (scan n) (rw (scan-ahead n) hit)
          ∙ ap (λ (p : Proc). p.pbs_static_priority) (scan-ahead n),
    )
    | inr miss ↦ elim (scan-Old n) [
      | inl h ↦ inl (
        below_suc (λ i. eqb_ℤ (t i).pid pid ≡ false) n h.0 miss,
        set_slot-miss n (scan n) (rw (scan-ahead n) miss) ∙ h.1,
      )
      | inr h ↦ inr (
        h.0,
        omega (arith, h.1),
        h.2,
        λ i a b.
            below_suc (λ i. h.0 < i → eqb_ℤ (t i).pid pid ≡ false) n (λ i x y. h.3 i y x)
              (λ x. miss) i b a,
        set_slot-miss n (scan n) (rw (scan-ahead n) miss) ∙ h.4,
      )
    ]
  ]

-- `setpriority` sets the static priority, and the RBI to 25, in every slot of the table with that
-- process id and in no other, changes nothing else but leaves every lock free, and returns the
-- former static priority of the last such slot, or -1 if there is none.
pub setpriority_lem :
    (t : Table) (pid priority : ℤ)
    → Old t pid nproc (setpriority t pid priority).1
      × ((i : ℕ) → i < nproc → (setpriority t pid priority).0 i ≡ assigned pid priority (t i))
      × ((i : ℕ) → nproc ≤ i → (setpriority t pid priority).0 i ≡ t i)
unfolding setpriority
setpriority_lem t pid priority = rw (scan-table t pid priority nproc) (
  scan-Old t pid priority nproc,
  each_behind (assigned pid priority) t nproc,
  each_ahead (assigned pid priority) t nproc,
)
