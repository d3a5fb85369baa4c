-- ===== src/Kalloc/Counts.antt =====
-- The reference counts of the page allocator: what `kalloc`, `kfree` and `check_and_increment` do
-- to them, and the invariant that ties them to the free list.
use mini_project_3_amey_chou.Common.{
  ℕ, suc, ◌*◌, ◌/◌, ◌<◌, ◌≤◌, ◌≡◌, none, some, List, [], ◌∷◌, pos, int32_max, if◌then◌else◌, arith,
  ◌==◌, neg_part,
}
use mini_project_3_amey_chou.Phys.{Phys, ok, panic, fill}
use mini_project_3_amey_chou.Proc.{incr}
use mini_project_3_amey_chou.Kalloc.{
  decr, set_temp, check_and_increment, kfree, finish_alloc, kalloc,
}

-- How often a page stands on a list.
abbrev pub count : ℕ → List ℕ → ℕ
count p [] = 0
count p (x ∷ xs) = let rest = count p xs in if x == p then suc rest else rest

-- A page is on the free list at most once, and then nothing refers to it; no count is negative.
pub record IsConsistent (s : Phys) : Type 0 where
  pub once : (p : ℕ) → count p s.freelist ≤ 1
  pub free_unused : (p : ℕ) → 0 < count p s.freelist → s.temp p ≡ pos 0
  pub nonneg : (p : ℕ) → neg_part (s.temp p) ≡ 0

-- `temp[p]` is `n`.
abbrev pub Refs : Phys → ℕ → ℕ → Type 0
Refs s p n = s.temp p ≡ pos n

pub page_of : (p : ℕ) → p * 4096 / 4096 ≡ p
page_of p = omega arith

pub incr-pos : (n : ℕ) → n < int32_max → incr (pos n) ≡ pos (suc n)
unfolding incr
incr-pos n h = ground arith

pub decr-pos : (n : ℕ) → n < int32_max → decr (pos (suc n)) ≡ pos n
unfolding decr
decr-pos n h = ground arith

pub check_and_increment-eq :
    (s : Phys) (p n : ℕ)
    → Refs s p n
    → n < int32_max
    → check_and_increment p s ≡ ok tt (set_temp s p (pos (suc n)))
unfolding check_and_increment
check_and_increment-eq s p n e h = rw (e, incr-pos n h) (ground arith)

-- `kfree` of a page that others still refer to.
pub kfree_shared :
    (s : Phys) (p n : ℕ)
    → Refs s p (suc (suc n))
    → suc n < int32_max
    → kfree (p * 4096) s ≡ ok tt (set_temp s p (pos (suc n)))
unfolding kfree
kfree_shared s p n e h = rw (page_of p, e, decr-pos (suc n) h) (ground arith)

-- `kfree` by the last that refers to a page.
pub kfree_last :
    (s : Phys) (p : ℕ)
    → Refs s p 1
    → kfree (p * 4096) s
      ≡ ok tt (record (fill (set_temp s p (pos 0)) p 1) { freelist = p ∷ s.freelist })
unfolding kfree
kfree_last s p e = rw (page_of p, e, decr-pos 0 (omega arith)) (ground arith)

-- `kfree` of a page that nothing refers to stops the machine.
pub kfree_unused : (s : Phys) (p : ℕ) → Refs s p 0 → kfree (p * 4096) s ≡ panic
unfolding kfree
kfree_unused s p e = rw (page_of p, e) (ground arith)

-- `kalloc` with a page at the head of the free list.
pub kalloc-eq :
    (s : Phys) (p : ℕ) (rest : List ℕ)
    → s.freelist ≡ p ∷ rest
    → Refs s p 0
    → kalloc s ≡ ok (some p) (set_temp (fill (record s { freelist = rest }) p 5) p (pos 1))
unfolding kalloc finish_alloc
kalloc-eq s p rest e z =
    rw e (rw (check_and_increment-eq (fill (record s { freelist = rest }) p 5) p 0 z (omega arith)))

pub kalloc_empty : (s : Phys) → s.freelist ≡ [] → kalloc s ≡ ok none s
unfolding kalloc finish_alloc
kalloc_empty s e = rw e

-- The only page that an update of the counts touches.
pub set_temp-IsConsistent :
    (s : Phys) (p n : ℕ)
    → IsConsistent s
    → count p s.freelist ≡ 0
    → IsConsistent (set_temp s p (pos n))
set_temp-IsConsistent s p n c z = record {
  once = c.once;
  free_unused = λ q h. ground (arith, c.free_unused q);
  nonneg = λ q. ground (arith, c.nonneg q);
}
