-- ===== src/Life/Reap.antt =====
-- What one pass of `wait` in initial-xv6/src/kernel/proc.c over the table finds.
use mini_project_3_amey_chou.Common.{
  ℕ, zero, suc, ◌+◌, ◌<◌, ◌≤◌, ◌≡◌, ◌⊎◌, ◌↔◌, inl, inr, refl, arith, Bool, true, false, update,
  Bool-cases, pos, negsuc, eqb_ℤ, ◌∙◌, ap, at_update, sym, subst,
}
use native.Mathlib.Decide.{ℕ_discrete}
use mini_project_3_amey_chou.Proc.{Proc, Table, nproc, acquire, release}
use mini_project_3_amey_chou.Phys.{Phys, Run, ok}
use mini_project_3_amey_chou.Life.{killed}
use mini_project_3_amey_chou.Life.Wait.{
  Ending, returns, sleeps, reap, is_child, has_exited, no_zombie, wait_from, wait,
}
use mini_project_3_amey_chou.Life.Signals.{SameButLock}
use mini_project_3_amey_chou.Life.Reaped.{Near, Reaped, reap_lem}

acquire-Near : (t u : Table) (i : ℕ) → Near t u → Near t (update u i (acquire (u i)))
unfolding acquire
acquire-Near t u i near =
    at_update (λ j q. SameButLock q (t j)) u i _
      (ap (λ (q : Proc). record q { locked = true }) (near i)) (λ j ne. near j)

pub release-Near : (t u : Table) (i : ℕ) → Near t u → Near t (update u i (release (acquire (u i))))
unfolding acquire release
release-Near t u i near =
    at_update (λ j q. SameButLock q (t j)) u i _
      (ap (λ (q : Proc). record q { locked = false }) (near i)) (λ j ne. near j)

module _ (p pagetable addr : ℕ) (t : Table) (s : Phys) where
  abbrev pub IsZombieChild : ℕ → Type 0
  IsZombieChild j = (is_child p (t j) ≡ true) × (has_exited (t j) ≡ true)

  -- Slot `k` is the first zombie child from `i` on, and the pass ends with it.
  abbrev pub Reaps : (i : ℕ) → Run (Table × Ending) → ℕ → Type 0
  Reaps i r k =
      (i ≤ k)
      × (k < nproc)
      × IsZombieChild k
      × ((j : ℕ) → i ≤ j → j < k → IsZombieChild j → ⊥)
      × Reaped pagetable addr k t s r

  abbrev pub Child : (i : ℕ) → Type 0
  Child i = (j : ℕ) × (i ≤ j) × (j < nproc) × (is_child p (t j) ≡ true)

  -- No zombie child from `i` on: the pass ends without one.
  abbrev pub Ends : (i : ℕ) → (kids : Bool) → Run (Table × Ending) → Type 0
  Ends i kids r =
      ((j : ℕ) → i ≤ j → j < nproc → IsZombieChild j → ⊥)
      × ((u : Table) × (kids' : Bool) × Near t u
          × (r ≡ ok (no_zombie p kids' u) s)
          × ((kids' ≡ true) ↔ ((kids ≡ true) ⊎ Child i)))

  abbrev pub Pass : (i : ℕ) → (kids : Bool) → Run (Table × Ending) → Type 0
  Pass i kids r = ((k : ℕ) × Reaps i r k) ⊎ Ends i kids r

  -- A slot that is no zombie child is passed over; `kids'` says whether a child has been met.
  next :
      (i : ℕ) (kids kids' : Bool) (r : Run (Table × Ending))
      → i < nproc
      → (IsZombieChild i → ⊥)
      → ((kids' ≡ true) ↔ ((kids ≡ true) ⊎ (is_child p (t i) ≡ true)))
      → Pass (suc i) kids' r
      → Pass i kids r
  next i kids kids' r hi harmless met (inl (k, (lo, hk, z, first, rest))) = inl (
    k,
    (
      omega arith,
      hk,
      z,
      (λ j l h. elim (ℕ_discrete i j) [
        | yes e ↦ subst (λ q. IsZombieChild q → ⊥) e harmless
        | no ne ↦ first j (omega arith) h
      ]),
      rest,
    ),
  )
  next i kids kids' r hi harmless met (inr (none_there, (u, k2, near, e, iff))) = inr (
    λ j l h. elim (ℕ_discrete i j) [
      | yes e' ↦ subst (λ q. IsZombieChild q → ⊥) e' harmless
      | no ne ↦ none_there j (omega arith) h
    ],
    (u, k2, near, e, (λ q. forth (iff.0 q), λ q. iff.1 (back q))),
  )
    where
      forth : (kids' ≡ true) ⊎ Child (suc i) → (kids ≡ true) ⊎ Child i
      forth (inr (j, l, h, c)) = inr (j, omega arith, h, c)
      forth (inl q) = elim (met.0 q) [ inl a ↦ inl a | inr c ↦ inr (i, omega arith, hi, c) ]

      back : (kids ≡ true) ⊎ Child i → (kids' ≡ true) ⊎ Child (suc i)
      back (inl q) = inl (met.1 (inl q))
      back (inr (j, l, h, c)) = elim (ℕ_discrete i j) [
        | yes e' ↦ inl (met.1 (inr (subst (λ q. is_child p (t q) ≡ true) (sym e') c)))
        | no ne ↦ inr (j, omega arith, h, c)
      ]

  same_child : (u : Table) (i : ℕ) → Near t u → is_child p (u i) ≡ is_child p (t i)
  unfolding is_child
  same_child u i near = ap (λ (q : Proc). is_child p q) (near i)

  same_zombie : (u : Table) (i : ℕ) → Near t u → has_exited (acquire (u i)) ≡ has_exited (t i)
  unfolding acquire has_exited
  same_zombie u i near = ap (λ (q : Proc). has_exited q) (near i)

  module _ (n i : ℕ) (kids : Bool) (u : Table) where
    abbrev onward : Bool → Table → Run (Table × Ending)
    onward kids' w = wait_from n (suc i) p pagetable addr kids' w s

    abbrev at_slot : Run (Table × Ending)
    at_slot = wait_from (suc n) i p pagetable addr kids u s

    at_stranger : is_child p (u i) ≡ false → onward kids u ≡ at_slot
    unfolding wait_from
    at_stranger h = rw (h, wait_from) refl

    at_zombie :
        is_child p (u i) ≡ true
        → has_exited (acquire (u i)) ≡ true
        → reap pagetable addr i (update u i (acquire (u i))) s ≡ at_slot
    unfolding wait_from
    at_zombie h z = rw (h, wait_from, z) refl

    at_alive :
        is_child p (u i) ≡ true
        → has_exited (acquire (u i)) ≡ false
        → onward true (update u i (release (acquire (u i)))) ≡ at_slot
    unfolding wait_from
    at_alive h z = rw (h, wait_from, z) refl

  wait_from_lem :
      (n i : ℕ) (kids : Bool) (u : Table)
      → i + n ≡ nproc
      → Near t u
      → Pass i kids (wait_from n i p pagetable addr kids u s)
  unfolding wait_from
  wait_from_lem zero i kids u e near = inr (
    λ j l h. absurd (omega arith),
    (
      u,
      kids,
      near,
      refl,
      (λ q. inl q, λ q. elim q [ inl a ↦ a | inr c ↦ absurd (omega (arith, c)) ]),
    ),
  )
  wait_from_lem (suc n) i kids u e near = elim (Bool-cases (is_child p (u i))) [
    | inr stranger ↦ subst (Pass i kids) (at_stranger n i kids u stranger) (
        next i kids kids _ (omega arith) (λ z. cc (z.0, stranger, same_child u i near))
          (λ q. inl q, λ q. elim q [ inl a ↦ a | inr c ↦ cc (c, stranger, same_child u i near) ])
          (wait_from_lem n (suc i) kids u (omega arith) near))
    | inl child ↦ elim (Bool-cases (has_exited (acquire (u i)))) [
      | inl z ↦ subst (Pass i kids) (at_zombie n i kids u child z) (
          inl (
            i,
            (
              omega arith,
              omega arith,
              (sym (same_child u i near) ∙ child, sym (same_zombie u i near) ∙ z),
              (λ j l h. absurd (omega arith)),
              reap_lem pagetable addr i t s _ (acquire-Near t u i near),
            ),
          ))
      | inr alive ↦ subst (Pass i kids) (at_alive n i kids u child alive) (
          next i kids true _ (omega arith) (λ z. cc (z.1, alive, same_zombie u i near))
            (λ q. inr (sym (same_child u i near) ∙ child), λ q. refl)
            (wait_from_lem n (suc i) true _ (omega arith) (release-Near t u i near)))
    ]
  ]

  -- How a pass without a zombie ends.
  abbrev pub Outcome : Table → Bool → Table × Ending → Type 0
  Outcome w kids r =
      (kids ≡ false → r ≡ (w, returns (negsuc 0)))
      × (kids ≡ true → eqb_ℤ (t p).killed (pos 0) ≡ true → r ≡ (w, sleeps))
      × (kids ≡ true → eqb_ℤ (t p).killed (pos 0) ≡ false → r ≡ (w, returns (negsuc 0)))

  no_zombie_lem :
      (kids : Bool) (u : Table)
      → Near t u
      → (w : Table) × Near t w × Outcome w kids (no_zombie p kids u)
  unfolding no_zombie killed acquire
  no_zombie_lem false u near = (u, near, (λ e. refl, λ e. cc, λ e. cc))
  no_zombie_lem true u near = (
    update u p (release (acquire (u p))),
    release-Near t u p near,
    (λ e. cc, λ e k. rw (same_killed ∙ k) refl, λ e k. rw (same_killed ∙ k) refl),
  )
    where
      same_killed : eqb_ℤ (u p).killed (pos 0) ≡ eqb_ℤ (t p).killed (pos 0)
      same_killed = ap (λ (q : Proc). eqb_ℤ q.killed (pos 0)) (near p)

  -- One pass of `wait` by a process `p`. If a child is a zombie, it ends at the first one in the
  -- table: its exit status goes to `addr` by `copyout`, unless that is 0. If the copy fails, the pass
  -- returns -1 and leaves the child a zombie; if not, the memory of the child is given back, its
  -- slot is cleared and unlocked, and its pid is returned. The machine stops only if the copy or
  -- giving the memory back stops it, and no other slot changes but for its lock. If no child is a
  -- zombie, the pass returns -1 if there is no child, and if there is one it returns -1 or sleeps,
  -- as the caller is killed or not.
  pub wait_lem :
      ((k : ℕ) × Reaps 0 (wait p pagetable addr t s) k)
      ⊎ (((j : ℕ) → j < nproc → IsZombieChild j → ⊥)
          × ((u : Table) × Near t u
              × (((Child 0 → ⊥) → wait p pagetable addr t s ≡ ok (u, returns (negsuc 0)) s)
                  × (Child 0
                      → eqb_ℤ (t p).killed (pos 0) ≡ true
                      → wait p pagetable addr t s ≡ ok (u, sleeps) s)
                  × (Child 0
                      → eqb_ℤ (t p).killed (pos 0) ≡ false
                      → wait p pagetable addr t s ≡ ok (u, returns (negsuc 0)) s))))
  unfolding wait
  wait_lem = elim (wait_from_lem nproc 0 false t refl (λ j. refl)) [
    | inl found ↦ inl found
    | inr (none_there, (u, kids, near, e, iff)) ↦
        let (w, near', (no_kid, idle, doomed)) = no_zombie_lem kids u near in
        inr (
          λ j h. none_there j (omega arith) h,
          (
            w,
            near',
            (
              λ childless.
                  e
                  ∙ ap (λ r. ok r s)
                      (no_kid (elim (Bool-cases kids) [
                        | inl met ↦ elim (iff.0 met) [
                          | inl bad ↦ cc bad
                          | inr c ↦ absurd (childless c)
                        ]
                        | inr none_met ↦ none_met
                      ])),
              λ c k. e ∙ ap (λ r. ok r s) (idle (iff.1 (inr c)) k),
              λ c k. e ∙ ap (λ r. ok r s) (doomed (iff.1 (inr c)) k),
            ),
          ),
        )
  ]
