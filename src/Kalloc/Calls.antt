-- ===== src/Kalloc/Calls.antt =====
-- What each call of the page allocator promises, from a consistent state.
use mini_project_3_amey_chou.Common.{
  ℕ, zero, suc, ◌*◌, ◌<◌, ◌≡◌, ◌≢◌, ◌⊎◌, inl, inr, refl, none, some, List, [], ◌∷◌, pos, int32_max,
  arith,
}
use mini_project_3_amey_chou.Phys.{Phys, ok, fill}
use mini_project_3_amey_chou.Kalloc.{set_temp, kfree, kalloc}
use mini_project_3_amey_chou.Kalloc.Counts.{
  count, IsConsistent, Refs, kfree_shared, kfree_last, kalloc-eq, kalloc_empty,
}

-- The pages other than `p` have kept their counts and contents.
pub record OthersKept (p : ℕ) (s s' : Phys) : Type 0 where
  pub temps : (q : ℕ) → p ≢ q → s'.temp q ≡ s.temp q
  pub contents : (q : ℕ) → p ≢ q → s'.word q ≡ s.word q

pub record Allocated (s : Phys) (p : ℕ) (s' : Phys) : Type 0 where
  pub was_free : count p s.freelist ≡ 1
  pub was_unused : Refs s p 0
  pub one : Refs s' p 1
  pub gone : count p s'.freelist ≡ 0
  pub others_free : (q : ℕ) → p ≢ q → count q s'.freelist ≡ count q s.freelist
  pub kept : OthersKept p s s'
  pub consistent : IsConsistent s'

alloc-Allocated :
    (s : Phys) (p : ℕ) (rest : List ℕ)
    → s.freelist ≡ p ∷ rest
    → IsConsistent s
    → Allocated s p (set_temp (fill (record s { freelist = rest }) p 5) p (pos 1))
alloc-Allocated s p rest e c = record {
  was_free = ground (arith, c.once p);
  was_unused = c.free_unused p (ground arith);
  one = ground arith;
  gone = ground (arith, c.once p);
  others_free = λ q h. ground arith;
  kept = record { temps = λ q h. ground arith; contents = λ q h. ground arith };
  consistent = record {
    once = λ q. ground (arith, c.once q);
    free_unused = λ q h. ground (arith, c.once q, c.free_unused q);
    nonneg = λ q. ground (arith, c.nonneg q);
  };
}

-- With an empty free list `kalloc` returns the null pointer and changes nothing; otherwise it
-- returns a page that was free and that nothing referred to, takes it off the free list with a
-- count of 1, and leaves every other page as it was.
pub kalloc_lem :
    (s : Phys)
    → IsConsistent s
    → ((s.freelist ≡ []) × (kalloc s ≡ ok none s))
      ⊎ ((p : ℕ) × (s' : Phys) × (kalloc s ≡ ok (some p) s') × Allocated s p s')
kalloc_lem s c = go s.freelist refl
  where
    go :
        (l : List ℕ)
        → s.freelist ≡ l
        → ((s.freelist ≡ []) × (kalloc s ≡ ok none s))
          ⊎ ((p : ℕ) × (s' : Phys) × (kalloc s ≡ ok (some p) s') × Allocated s p s')
    go [] e = inl (e, kalloc_empty s e)
    go (p ∷ rest) e = inr (
      p,
      set_temp (fill (record s { freelist = rest }) p 5) p (pos 1),
      kalloc-eq s p rest e (c.free_unused p (ground arith)),
      alloc-Allocated s p rest e c,
    )

-- What `kfree` leaves of a page: still in use, with its contents, or free.
pub record Freed (n : ℕ) (s : Phys) (p : ℕ) (s' : Phys) : Type 0 where
  pub refs : Refs s' p n
  pub in_use : 0 < n → (s'.word p ≡ s.word p) × (s'.freelist ≡ s.freelist)
  pub free : n ≡ 0 → s'.freelist ≡ p ∷ s.freelist
  pub kept : OthersKept p s s'
  pub consistent : IsConsistent s'

shared-Freed :
    (s : Phys) (p n : ℕ)
    → IsConsistent s
    → Refs s p (suc (suc n))
    → Freed (suc n) s p (set_temp s p (pos (suc n)))
shared-Freed s p n c e = record {
  refs = ground arith;
  in_use = λ h. (refl, refl);
  free = λ h. absurd (omega arith);
  kept = record { temps = λ q h. ground arith; contents = λ q h. refl };
  consistent = record {
    once = c.once;
    free_unused = λ q h. ground (arith, c.free_unused q);
    nonneg = λ q. ground (arith, c.nonneg q);
  };
}

last-Freed :
    (s : Phys) (p : ℕ)
    → IsConsistent s
    → Refs s p 1
    → Freed 0 s p (record (fill (set_temp s p (pos 0)) p 1) { freelist = p ∷ s.freelist })
last-Freed s p c e = record {
  refs = ground arith;
  in_use = λ h. absurd (omega arith);
  free = λ h. refl;
  kept = record { temps = λ q h. ground arith; contents = λ q h. ground arith };
  consistent = record {
    once = λ q. ground (arith, c.once q, c.free_unused q);
    free_unused = λ q h. ground (arith, c.free_unused q);
    nonneg = λ q. ground (arith, c.nonneg q);
  };
}

-- `kfree` of a page with n + 1 references never stops the machine. It leaves n; only if n is 0 does
-- the page go to the free list, otherwise it keeps its contents; no other page changes.
pub kfree_lem :
    (s : Phys) (p n : ℕ)
    → IsConsistent s
    → Refs s p (suc n)
    → n < int32_max
    → (s' : Phys) × (kfree (p * 4096) s ≡ ok tt s') × Freed n s p s'
kfree_lem s p zero c e h = (
  record (fill (set_temp s p (pos 0)) p 1) { freelist = p ∷ s.freelist },
  kfree_last s p e,
  last-Freed s p c e,
)
kfree_lem s p (suc n) c e h =
    (set_temp s p (pos (suc n)), kfree_shared s p n e h, shared-Freed s p n c e)
