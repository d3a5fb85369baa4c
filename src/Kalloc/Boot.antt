-- ===== src/Kalloc/Boot.antt =====
-- `kinit`: the state of the allocator after boot.
use mini_project_3_amey_chou.Common.{
  ℕ, zero, suc, ◌+◌, ◌*◌, ◌/◌, ◌-◌, ◌%◌, ◌^◌, ◌<◌, ◌≤◌, ◌≡◌, ◌≢◌, ◌⊎◌, refl, List, [], ◌∷◌, pos,
  if◌then◌else◌, arith, subst, ◌∙◌, ap, leb,
}
use native.Mathlib.Decide.{ℕ_discrete}
use mini_project_3_amey_chou.Phys.{Phys, ok, pg_round_up}
use mini_project_3_amey_chou.Kalloc.{free_pages, freerange, kinit, phystop}
use mini_project_3_amey_chou.Kalloc.Counts.{count, IsConsistent, Refs}
use mini_project_3_amey_chou.Kalloc.Calls.{Freed, kfree_lem}

-- The pages from `q` on wait to be freed: their count is 1.
record Waiting (s : Phys) (q n : ℕ) : Type 0 where
  consistent : IsConsistent s
  ones : (k : ℕ) → q ≤ k → k < q + n → Refs s k 1

count-cons_ne : (q k : ℕ) (l : List ℕ) → q ≢ k → count k (q ∷ l) ≡ count k l
count-cons_ne q k l h = ground arith

-- The pages from `q` on have been freed.
record Done (s : Phys) (q n : ℕ) (s' : Phys) : Type 0 where
  consistent : IsConsistent s'
  free : (k : ℕ) → q ≤ k → k < q + n → count k s'.freelist ≡ 1
  others : (k : ℕ) → (k < q) ⊎ (q + n ≤ k) → count k s'.freelist ≡ count k s.freelist

-- One more page freed first.
extend :
    (s s₁ s₂ : Phys) (q n : ℕ)
    → Waiting s q (suc n)
    → Freed 0 s q s₁
    → Done s₁ (suc q) n s₂
    → Done s q (suc n) s₂
extend s s₁ s₂ q n w f d = record {
  consistent = d.consistent;
  free = λ k a b. elim (ℕ_discrete q k) [
    | yes e ↦ subst (λ x. count x s₂.freelist ≡ 1) e here
    | no ne ↦ d.free k (omega arith) (omega arith)
  ];
  others = λ k h.
      d.others k (omega arith)
      ∙ ap (count k) (f.free refl)
      ∙ count-cons_ne q k s.freelist (omega arith);
}
  where
    not_free : count q s.freelist ≡ 0
    not_free = ground (arith, w.ones q, w.consistent.free_unused q)

    here : count q s₂.freelist ≡ 1
    here = d.others q (omega arith) ∙ ap (count q) (f.free refl) ∙ ground (arith, not_free)

free_pages-Done :
    (n q : ℕ) (s : Phys)
    → Waiting s q n
    → (s' : Phys) × (free_pages n (q * 4096) s ≡ ok tt s') × Done s q n s'
unfolding free_pages
free_pages-Done zero q s w = (
  s,
  refl,
  record { consistent = w.consistent; free = λ k a b. absurd (omega arith); others = λ k h. refl },
)
free_pages-Done (suc n) q s w =
    let (s₁, e₁, f) =
      kfree_lem s q 0 w.consistent (w.ones q (omega arith) (omega arith)) (omega arith) in
    let (s₂, e₂, d) = free_pages-Done n (suc q) s₁ (record {
      consistent = f.consistent;
      ones = λ k a b. f.kept.temps k (omega arith) ∙ w.ones k (omega arith) (omega arith);
    }) in
    (
      s₂,
      rw e₁ (subst (λ a. free_pages n a s₁ ≡ ok tt s₂) (omega arith) e₂),
      extend s s₁ s₂ q n w f d,
    )

-- After `kinit`, from the zeroed memory of a boot, no page is counted wrongly and exactly the whole
-- pages between the end of the kernel and PHYSTOP are free, each once.
pub kinit_lem :
    (end : ℕ) (s : Phys)
    → end ≤ phystop
    → s.freelist ≡ []
    → ((p : ℕ) → Refs s p 0)
    → (s' : Phys) × (kinit end s ≡ ok tt s')
      × IsConsistent s'
      × ((k : ℕ) → pg_round_up end / 4096 ≤ k → k < phystop / 4096 → count k s'.freelist ≡ 1)
      × ((k : ℕ) → (k < pg_round_up end / 4096) ⊎ (phystop / 4096 ≤ k) → count k s'.freelist ≡ 0)
unfolding kinit freerange
kinit_lem end s h nil zeros =
    let (s', e, d) = free_pages-Done pages lo start waiting in
    (
      s',
      e,
      d.consistent,
      λ k a b. d.free k (omega arith) (omega arith),
      λ k o. d.others k (omega arith) ∙ rw nil,
    )
  where
    lo : ℕ
    lo = (end + 4095) % 2 ^ 64 / 4096

    pages : ℕ
    pages = (phystop - lo * 4096) / 4096

    start : Phys
    start = record s { temp = λ pno. if leb (phystop / 4096) pno then s.temp pno else pos 1 }

    consistent : IsConsistent start
    consistent = record {
      once = λ p. rw nil (omega arith);
      free_unused = λ p a. ground arith;
      nonneg = λ p. ground (arith, zeros p);
    }

    waiting : Waiting start lo pages
    waiting = record { consistent = consistent; ones = λ k a b. ground arith }
