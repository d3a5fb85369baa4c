-- ===== src/Trap/Fault.antt =====
-- Store faults of initial-xv6/src/kernel/trap.c: when the process goes on, and what it then finds.
use mini_project_3_amey_chou.Common.{
  ℕ, suc, ◌+◌, ◌-◌, ◌%◌, ◌^◌, ◌<◌, ◌≤◌, ◌≡◌, ◌≢◌, ◌⊎◌, inl, inr, refl, arith, true, false, List, [],
  ◌∷◌, leb, update, update_self, update-ne, ℤ, pos, eqb_ℤ, eq_of_parts, int32_max, Bool-cases, ap,
  ◌∙◌,
}
use mini_project_3_amey_chou.Proc.{Proc, Table}
use mini_project_3_amey_chou.Phys.{Phys, ok, pg_round_down}
use mini_project_3_amey_chou.Kalloc.Counts.{IsConsistent, Refs}
use mini_project_3_amey_chou.Vm.{has_bit, pte_cow, PteRef, maxva}
use mini_project_3_amey_chou.Vm.Cow.{custom_cow}
use mini_project_3_amey_chou.Vm.Lookup.{entry}
use mini_project_3_amey_chou.Vm.Break.{
  IsMapped, IsTablePage, IsPrivate, Broken, mapped, custom_cow_lem,
}
use mini_project_3_amey_chou.Life.{killed}
use mini_project_3_amey_chou.Proc.{acquire, release}
use mini_project_3_amey_chou.Trap.{
  sp_word, is_bad_address, store_fault, Trapped, resumes, exits, after_fault, usertrap_store,
}

-- An address that no store may fault at: not the user's, or from a page below the page of the stack
-- pointer to the first byte of that page.
abbrev pub IsForbidden : (sp stval : ℕ) → Type 0
IsForbidden sp stval =
    (maxva ≤ stval) ⊎ ((pg_round_down sp ≤ stval + 4096) × (stval ≤ pg_round_down sp))

is_bad_address-IsForbidden :
    (sp stval : ℕ)
    → 4096 ≤ sp
    → sp < 2 ^ 64
    → ((is_bad_address sp stval ≡ true) × IsForbidden sp stval)
      ⊎ ((is_bad_address sp stval ≡ false) × (IsForbidden sp stval → ⊥))
unfolding is_bad_address
is_bad_address-IsForbidden sp stval low high = elim (Bool-cases (leb maxva stval)) [
  | inl above ↦ inl (rw above refl, inl (ground arith))
  | inr user ↦ elim (Bool-cases (leb ((pg_round_down sp + (2 ^ 64 - 4096)) % 2 ^ 64) stval)) [
    | inl from ↦ elim (Bool-cases (leb stval (pg_round_down sp))) [
      | inl to ↦ inl (rw (user, from, to) refl, inr (ground arith, ground arith))
      | inr past ↦
          inr (
            rw (user, from, past) refl,
            λ h. elim h [ inl a ↦ ground arith | inr g ↦ ground arith ],
          )
    ]
    | inr under ↦
        inr (rw (user, under) refl, λ h. elim h [ inl a ↦ ground arith | inr g ↦ ground arith ])
  ]
]

-- Table `u` is `t` with `killed` of process `me` set to `k`, and its lock free.
abbrev pub Marked : (me : ℕ) → ℤ → Table → Table → Type 0
Marked me k t u =
    (u me ≡ record (t me) { killed = k; locked = false }) × ((j : ℕ) → me ≢ j → u j ≡ t j)

-- What becomes of a process that faults, if `k` is written to `killed`.
abbrev pub Ends : (me : ℕ) → ℤ → Table → Trapped → Type 0
Ends me k t (resumes u) = (k ≡ pos 0) × Marked me k t u
Ends me k t (exits u) = (k ≢ pos 0) × Marked me k t u

killed-Marked :
    (me : ℕ) (t : Table) (k : ℤ)
    → (let (u, k') = killed me (update t me (record (t me) { killed = k })) in
        (k' ≡ k) × Marked me k t u)
unfolding killed acquire release
killed-Marked me t k = (
  ap Proc.killed (update_self t me p),
  (
    update_self (update t me p) me _
        ∙ ap (λ (x : Proc). record x { locked = false }) (update_self t me p),
    λ j ne. update-ne (update t me p) me j _ ne ∙ update-ne t me j p ne,
  ),
)
  where
    p : Proc
    p = record (t me) { killed = k }

after_fault-Ends : (me : ℕ) (t : Table) (k : ℤ) → Ends me k t (after_fault me t k)
unfolding after_fault
after_fault-Ends me t k =
    let (same, at) = killed-Marked me t k in
    rw same (elim (Bool-cases (eqb_ℤ k (pos 0))) [
      | inl zero_ ↦ rw zero_ (eq_of_parts k (pos 0) (ground arith), at)
      | inr set ↦ rw set ((λ e. is_zero k e set), at)
    ])
  where
    is_zero : (k : ℤ) → k ≡ pos 0 → eqb_ℤ k (pos 0) ≡ false → ⊥
    is_zero k e h = ground arith

exits_of :
    (me : ℕ) (k : ℤ) (t : Table) (w : Trapped)
    → k ≢ pos 0
    → Ends me k t w
    → (u : Table) × (w ≡ exits u) × Marked me k t u
exits_of me k t (resumes u) ne h = absurd (ne h.0)
exits_of me k t (exits u) ne h = (u, refl, h.1)

resumes_of :
    (me : ℕ) (t : Table) (w : Trapped)
    → Ends me (pos 0) t w
    → (u : Table) × (w ≡ resumes u) × Marked me (pos 0) t u
resumes_of me t (resumes u) h = (u, refl, h.1)
resumes_of me t (exits u) h = absurd (h.0 refl)

List-cases : (l : List ℕ) → (l ≡ []) ⊎ (l ≢ [])
List-cases [] = inl refl
List-cases (x ∷ l) = inr (λ e. cc)

module _ (s : Phys) (me trapframe pagetable stval : ℕ) (t : Table) (r : PteRef) (n : ℕ)
    (stack : 4096 ≤ s.word trapframe sp_word) (stack_top : s.word trapframe sp_word < 2 ^ 64) where
  stops :
      store_fault trapframe pagetable stval s ≡ ok (pos 1) s
      → (u : Table) × (usertrap_store me trapframe pagetable stval t s ≡ ok (exits u) s)
        × Marked me (pos 1) t u
  unfolding usertrap_store
  stops e =
      let (u, eq, at) =
        exits_of me (pos 1) t (after_fault me t (pos 1)) (λ e. cc)
          (after_fault-Ends me t (pos 1)) in
      (u, rw e (ap (λ w. ok w s) eq), at)

  resumes_with :
      (s' : Phys)
      → store_fault trapframe pagetable stval s ≡ ok (pos 0) s'
      → (u : Table) × (usertrap_store me trapframe pagetable stval t s ≡ ok (resumes u) s')
        × Marked me (pos 0) t u
  unfolding usertrap_store
  resumes_with s' e =
      let (u, eq, at) =
        resumes_of me t (after_fault me t (pos 0)) (after_fault-Ends me t (pos 0)) in
      (u, rw e (ap (λ w. ok w s') eq), at)

  -- The address is not forbidden: the fault is `custom_cow`.
  allowed :
      is_bad_address (s.word trapframe sp_word) stval ≡ false
      → store_fault trapframe pagetable stval s ≡ custom_cow pagetable stval s
  unfolding store_fault
  allowed e = rw e refl

  -- Let a process whose stack pointer is at least 4096 and fits 64 bits fault on a store to an
  -- address with a mapped page, where the counts of the memory are right, the page has references
  -- and its table is no page of its own. It is stopped, with no page changed, if the address is
  -- forbidden, its page is not copy-on-write, or no page is free; otherwise it goes on, not
  -- killed, with a page of its own under the address, valid and writable, that holds what it saw
  -- there before.
  pub usertrap_store_lem :
      IsMapped s pagetable stval r
      → IsConsistent s
      → IsTablePage s r
      → Refs s (mapped (entry s r)) (suc n)
      → n < int32_max
      → ((IsForbidden (s.word trapframe sp_word) stval
            ⊎ (has_bit pte_cow (entry s r) ≡ false)
            ⊎ (s.freelist ≡ []))
          × ((u : Table) × (usertrap_store me trapframe pagetable stval t s ≡ ok (exits u) s)
              × Marked me (pos 1) t u))
        ⊎ ((IsForbidden (s.word trapframe sp_word) stval → ⊥)
            × (new : ℕ) × (s' : Phys) × (u : Table) × (usertrap_store me trapframe pagetable stval t
                  s
                ≡ ok (resumes u) s')
            × Marked me (pos 0) t u
            × Broken s r new n s'
            × IsPrivate s' r)
  unfolding store_fault
  usertrap_store_lem m c table refs h =
      elim (is_bad_address-IsForbidden (s.word trapframe sp_word) stval stack stack_top) [
        | inl (bad, forbidden) ↦ inl (inl forbidden, stops (rw bad refl))
        | inr (good, may) ↦
            let (no_cow, none_free, copy) = custom_cow_lem s pagetable stval r n m c table refs h in
            elim (Bool-cases (has_bit pte_cow (entry s r))) [
              | inr not_cow ↦ inl (inr (inl not_cow), stops (allowed good ∙ no_cow not_cow))
              | inl cow ↦ elim (List-cases s.freelist) [
                | inl empty ↦ inl (inr (inr empty), stops (allowed good ∙ none_free empty))
                | inr some_free ↦
                    let (new, s', eq, broken, private) = copy cow some_free in
                    let (u, eq', at) = resumes_with s' (allowed good ∙ eq) in
                    inr (may, new, s', u, eq', at, broken, private)
              ]
            ]
      ]
