-- ===== src/Life/Signals.antt =====
-- What `wakeup` and `kill` of initial-xv6/src/kernel/proc.c do to the whole table.
use mini_project_3_amey_chou.Common.{
  ℕ, zero, suc, ◌+◌, ◌<◌, ◌≤◌, ◌≡◌, ◌≢◌, ◌⊎◌, inl, inr, refl, arith, true, false, Option, none,
  some, if◌then◌else◌, update, for_upto, same_ptr, ◌&&◌, Bool-cases, ℤ, pos, negsuc, eqb_ℤ, ◌∙◌, ap,
  at_update, sym, subst, update_self, update-ne,
}
use mini_project_3_amey_chou.Proc.{Proc, ProcState, Table, nproc, acquire, release, is_sleeping}
use native.Mathlib.Decide.{ℕ_discrete}
use mini_project_3_amey_chou.Life.{wake, wakeup, doom, kill_from, kill}

module _ (me : ℕ) (chan : Option ℕ) (t : Table) where
  abbrev round : ℕ → Table → Table
  round i u =
      if same_ptr (some i) (some me) then u else update u i (release (wake chan (acquire (u i))))

  round_ahead : (n i : ℕ) → n ≤ i → for_upto n round t i ≡ t i
  unfolding for_upto
  round_ahead zero i h = refl
  round_ahead (suc n) i h = ground (arith, round_ahead n i)

  round_me : (n : ℕ) → for_upto n round t me ≡ t me
  unfolding for_upto
  round_me zero = refl
  round_me (suc n) = ground (arith, round_me n)

  round_behind :
      (n i : ℕ) → i < n → i ≢ me → for_upto n round t i ≡ release (wake chan (acquire (t i)))
  unfolding for_upto
  round_behind zero i h ne = absurd (omega arith)
  round_behind (suc n) i h ne = ground (arith, round_behind n i, round_ahead n n)

  -- Exactly the other slots that sleep on the channel become runnable: each of them, and no other
  -- slot changes in anything but its lock, which is free afterwards. The caller's slot, and what
  -- lies beyond the table, do not change.
  pub wakeup_lem :
      (i : ℕ)
      → (i < nproc
          → i ≢ me
          → (t i).state ≡ ProcState.sleeping
          → same_ptr (t i).chan chan ≡ true
          → wakeup (some me) chan t i ≡ record (t i) { locked = false; state = ProcState.runnable })
        × (i < nproc
            → i ≢ me
            → is_sleeping (t i).state && same_ptr (t i).chan chan ≡ false
            → wakeup (some me) chan t i ≡ record (t i) { locked = false })
        × (nproc ≤ i ⊎ (i ≡ me) → wakeup (some me) chan t i ≡ t i)
  unfolding wakeup wake acquire release
  wakeup_lem i = (
    λ lt ne asleep there. round_behind nproc i lt ne ∙ woken asleep there,
    λ lt ne other. round_behind nproc i lt ne ∙ left other,
    λ far. elim far [
      | inl beyond ↦ round_ahead nproc i beyond
      | inr here ↦ ap (for_upto nproc round t) here ∙ round_me nproc ∙ sym (ap t here)
    ],
  )
    where
      woken :
          (t i).state ≡ ProcState.sleeping
          → same_ptr (t i).chan chan ≡ true
          → release (wake chan (acquire (t i)))
            ≡ record (t i) { locked = false; state = ProcState.runnable }
      woken asleep there = rw (asleep, there) refl

      left :
          is_sleeping (t i).state && same_ptr (t i).chan chan ≡ false
          → release (wake chan (acquire (t i))) ≡ record (t i) { locked = false }
      left other = rw other refl

-- The victim of `kill(pid)`: the first slot with that pid, or none.
abbrev pub Victim : Table → (n i : ℕ) → (pid : ℤ) → Option ℕ → Type 0
Victim t n i pid none = (j : ℕ) → i ≤ j → j < i + n → eqb_ℤ (t j).pid pid ≡ false
Victim t n i pid (some k) =
    (i ≤ k)
    × (k < i + n)
    × (eqb_ℤ (t k).pid pid ≡ true)
    × ((j : ℕ) → i ≤ j → j < k → eqb_ℤ (t j).pid pid ≡ false)

-- A slot after `kill`: the victim is marked, and runnable if it slept.
abbrev pub struck : Proc → Proc
struck p = record p {
  locked = false;
  killed = pos 1;
  state = if is_sleeping p.state then ProcState.runnable else p.state;
}

abbrev pub Killed : Table → Option ℕ → Table × ℤ → Type 0
Killed t none r = r.1 ≡ negsuc 0
Killed t (some k) r = (r.1 ≡ pos 0) × (r.0 k ≡ struck (t k))

struck-eq : (p : Proc) → release (doom (acquire p)) ≡ struck p
unfolding doom acquire release
struck-eq p = elim (Bool-cases (is_sleeping p.state)) [
  | inl asleep ↦ rw asleep refl
  | inr awake ↦ rw awake refl
]

-- The same slot but for its lock.
abbrev pub SameButLock : Proc → Proc → Type 0
SameButLock q p = q ≡ record p { locked = q.locked }

abbrev pub KillResult : Table → (n i : ℕ) → (pid : ℤ) → Table × ℤ → Type 0
KillResult t n i pid r =
    (k : Option ℕ) × Victim t n i pid k
    × Killed t k r
    × ((j : ℕ) → k ≢ some j → SameButLock (r.0 j) (t j))

module _ (t : Table) (pid : ℤ) where
  abbrev Near : Table → Type 0
  Near u = (j : ℕ) → SameButLock (u j) (t j)

  step-Near : (i : ℕ) (u : Table) → Near u → Near (update u i (release (acquire (u i))))
  unfolding acquire release
  step-Near i u near =
      at_update (λ j q. SameButLock q (t j)) u i _
        (ap (λ (q : Proc). record q { locked = false }) (near i)) (λ j ne. near j)

  same_pid : (i : ℕ) (u : Table) → Near u → eqb_ℤ (u i).pid pid ≡ eqb_ℤ (t i).pid pid
  same_pid i u near = ap (λ (p : Proc). eqb_ℤ p.pid pid) (near i)

  skip :
      (n i : ℕ) (r : Table × ℤ)
      → eqb_ℤ (t i).pid pid ≡ false
      → KillResult t n (suc i) pid r
      → KillResult t (suc n) i pid r
  skip n i r other (none, none_there, res, same) = (
    none,
    λ j lo hi. elim (ℕ_discrete i j) [
      | yes e ↦ subst (λ q. eqb_ℤ (t q).pid pid ≡ false) e other
      | no ne ↦ none_there j (omega arith) (omega arith)
    ],
    res,
    same,
  )
  skip n i r other (some k, (lo, hi, hit, first), res, same) = (
    some k,
    (
      omega arith,
      omega arith,
      hit,
      λ j l h. elim (ℕ_discrete i j) [
        | yes e ↦ subst (λ q. eqb_ℤ (t q).pid pid ≡ false) e other
        | no ne ↦ first j (omega arith) h
      ],
    ),
    res,
    same,
  )

  strike :
      (n i : ℕ) (u : Table)
      → Near u
      → eqb_ℤ (t i).pid pid ≡ true
      → KillResult t (suc n) i pid (update u i (release (doom (acquire (u i)))), pos 0)
  unfolding doom acquire release
  strike n i u near hit = (
    some i,
    (omega arith, omega arith, hit, λ j l h. absurd (omega arith)),
    (refl, update_self u i _ ∙ struck-eq (u i) ∙ ap struck (near i)),
    λ j ne.
        subst (λ q. SameButLock q (t j)) (sym (update-ne u i j _ (λ e. ne (ap some e)))) (near j),
  )

  kill_from_lem : (n i : ℕ) (u : Table) → Near u → KillResult t n i pid (kill_from n i pid u)
  unfolding kill_from acquire
  kill_from_lem zero i u near = (none, λ j lo hi. absurd (omega arith), refl, λ j ne. near j)
  kill_from_lem (suc n) i u near = elim (Bool-cases (eqb_ℤ (acquire (u i)).pid pid)) [
    | inl hit ↦ rw hit (strike n i u near (sym (same_pid i u near) ∙ hit))
    | inr other ↦ rw other (
        skip n i _ (sym (same_pid i u near) ∙ other)
          (kill_from_lem n (suc i) _ (step-Near i u near)))
  ]

  -- `kill` strikes the first slot with that pid, which is marked and no longer asleep, and returns
  -- 0; it returns -1 if no slot has it. No other slot changes in anything but its lock.
  pub kill_lem : KillResult t nproc 0 pid (kill pid t)
  unfolding kill
  kill_lem = kill_from_lem nproc 0 t (λ j. refl)
