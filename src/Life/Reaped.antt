-- ===== src/Life/Reaped.antt =====
-- What `wait` of initial-xv6/src/kernel/proc.c does with a zombie that it has found.
use mini_project_3_amey_chou.Common.{
  ℕ, ◌≡◌, ◌≢◌, ◌⊎◌, inl, inr, refl, false, ◌==◌, if◌then◌else◌, update, update_self, at_update,
  Bool-cases, ℤ, pos, negsuc, ap, sym, ◌∙◌,
}
use mini_project_3_amey_chou.Proc.{Proc, Table, release}
use mini_project_3_amey_chou.Phys.{Phys, Run, ok, panic, M, pure, and_then}
use mini_project_3_amey_chou.Vm.Copy.{copyout}
use mini_project_3_amey_chou.Life.{freeproc}
use mini_project_3_amey_chou.Life.Free.{emptied, give_back, Frees, freeproc_lem}
use mini_project_3_amey_chou.Life.Wait.{Ending, returns, int_bytes, copy_status, reap_copied, reap}
use mini_project_3_amey_chou.Life.Signals.{SameButLock}

-- A table that differs in locks only.
abbrev pub Near : Table → Table → Type 0
Near t u = (j : ℕ) → SameButLock (u j) (t j)

-- The table has `p` in slot `k`, and differs elsewhere in locks only.
abbrev pub Stored : Table → (k : ℕ) → Proc → Table → Type 0
Stored t k p w = (w k ≡ p) × ((j : ℕ) → k ≢ j → SameButLock (w j) (t j))

pub update-Stored :
    (t u : Table) (k : ℕ) (p q : Proc) → Near t u → p ≡ q → Stored t k q (update u k p)
update-Stored t u k p q near e = (update_self u k p ∙ e, λ j ne. update_other j ne)
  where
    update_other : (j : ℕ) → k ≢ j → SameButLock (update u k p j) (t j)
    update_other j ne =
        at_update (λ i x. k ≢ i → SameButLock x (t i)) u k p (λ bad. absurd (bad refl))
          (λ i ne bad. near i) j ne

module _ (pagetable addr k : ℕ) (t : Table) (s : Phys) where
  -- The copy of the exit status to the user, if an address is given for it.
  abbrev pub status_copied : Run ℤ
  status_copied =
      if addr == 0 then ok (pos 0) s else copyout pagetable addr (int_bytes (t k).xstate) s

  -- The memory of the child is given back.
  abbrev pub given_back : M (Unit {0})
  given_back = give_back (t k).trapframe (t k).pagetable (t k).sz

  -- The memory is given back, which may stop the machine, and then the slot is cleared and unlocked
  -- and its pid returned.
  abbrev pub Freed : Phys → Run (Table × Ending) → Type 0
  Freed s1 r =
      ((given_back s1 ≡ panic) × (r ≡ panic))
      ⊎ ((s2 : Phys) × (w : Table) × (given_back s1 ≡ ok tt s2)
          × Stored t k (emptied (t k)) w
          × (r ≡ ok (w, returns (t k).pid) s2))

  -- The copy stops the machine; or it fails, and -1 is returned, with the slot unlocked and otherwise
  -- as it was; or it succeeds, and the child is freed.
  abbrev pub Reaped : Run (Table × Ending) → Type 0
  Reaped r =
      ((status_copied ≡ panic) × (r ≡ panic))
      ⊎ ((e : ℕ) × (s1 : Phys) × (w : Table) × (status_copied ≡ ok (negsuc e) s1)
          × Stored t k (record (t k) { locked = false }) w
          × (r ≡ ok (w, returns (negsuc 0)) s1))
      ⊎ ((e : ℕ) × (s1 : Phys) × (status_copied ≡ ok (pos e) s1) × Freed s1 r)

  module _ (u : Table) (near : Near t u) where
    copy_status-status_copied : copy_status pagetable addr (u k).xstate s ≡ status_copied
    unfolding copy_status
    copy_status-status_copied =
        ap (λ (q : Proc). copy_status pagetable addr q.xstate s) (near k) ∙ at_addr
      where
        at_addr : copy_status pagetable addr (t k).xstate s ≡ status_copied
        at_addr = elim (Bool-cases (addr == 0)) [ inl z ↦ rw z refl | inr nz ↦ rw nz refl ]

    after_free :
        (s1 : Phys) (r : Run Proc)
        → Frees (u k) s1 r
        → Freed s1 (and_then r (λ q. pure (update u k (release q), returns (u k).pid)))
    after_free s1 r (inl (e, stopped)) = inl (
      sym (ap (λ (q : Proc). give_back q.trapframe q.pagetable q.sz s1) (near k)) ∙ e,
      rw stopped refl,
    )
    after_free s1 r (inr (s2, q, e, done, clear)) = inr (
      s2,
      update u k (release q),
      sym (ap (λ (q : Proc). give_back q.trapframe q.pagetable q.sz s1) (near k)) ∙ e,
      update-Stored t u k (release q) (emptied (t k)) near (clear ∙ ap emptied (near k)),
      rw done (ap (λ (x : Proc). ok (update u k (release q), returns x.pid) s2) (near k)),
    )

    after_copy : (r : Run ℤ) → status_copied ≡ r → Reaped (and_then r (reap_copied k u))
    unfolding reap_copied release
    after_copy panic e = inl (e, refl)
    after_copy (ok (negsuc m) s1) e = inr (
        inl (
          m,
          s1,
          update u k (release (u k)),
          e,
          update-Stored t u k (release (u k)) _ near
              (ap (λ (q : Proc). record q { locked = false }) (near k)),
          refl,
        ))
    after_copy (ok (pos m) s1) e =
        inr (inr (m, s1, e, after_free s1 (freeproc (u k) s1) (freeproc_lem (u k) s1)))

    pub reap_lem : Reaped (reap pagetable addr k u s)
    unfolding reap
    reap_lem = rw copy_status-status_copied (after_copy status_copied refl)
