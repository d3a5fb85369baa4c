-- ===== src/Kalloc/Owners.antt =====
-- The allocator against what its clients see: each page has a number of owners. A client may share
-- or free only a page that it owns.
use mini_project_3_amey_chou.Common.{
  ℕ, suc, ◌+◌, ◌*◌, ◌-◌, ◌<◌, ◌≤◌, ◌≡◌, inl, inr, refl, Option, none, some, pos, int32_max, update,
  arith, ap, ◌∙◌, subst,
}
use native.Mathlib.Decide.{ℕ_discrete}
use mini_project_3_amey_chou.Phys.{Phys, ok, M, pure, ◌>>◌}
use mini_project_3_amey_chou.Kalloc.{set_temp, check_and_increment, kfree, kalloc}
use mini_project_3_amey_chou.Kalloc.Counts.{
  count, IsConsistent, Refs, check_and_increment-eq, set_temp-IsConsistent,
}
use mini_project_3_amey_chou.Kalloc.Calls.{OthersKept, Freed, kalloc_lem, kfree_lem}

-- A call of a client: `kalloc()`, a page mapped once more, a page given back.
pub data Call : Type 0 where
  alloc : Call
  share : ℕ → Call
  free : ℕ → Call

unfoldable pub call : Call → M (Option ℕ)
call alloc = kalloc
call (share p) = check_and_increment p >> pure none
call (free p) = kfree (p * 4096) >> pure none

abbrev pub Owners : Type 0
Owners = ℕ → ℕ

-- A client calls for what it owns, and has not reached the limit of the counter.
abbrev pub IsLegal : Owners → Call → Type 0
IsLegal own alloc = Unit
IsLegal own (share p) = (0 < own p) × (own p < int32_max)
IsLegal own (free p) = (0 < own p) × (own p ≤ int32_max)

-- The owners after a call that returned `r`.
abbrev pub owners : Owners → Call → Option ℕ → Owners
owners own alloc none = own
owners own alloc (some p) = update own p 1
owners own (share p) r = update own p (own p + 1)
owners own (free p) r = update own p (own p - 1)

-- A page that a call hands out had no owner.
abbrev pub IsFresh : Owners → Option ℕ → Type 0
IsFresh own none = Unit
IsFresh own (some p) = own p ≡ 0

pub record Agrees (s : Phys) (own : Owners) : Type 0 where
  pub consistent : IsConsistent s
  pub refs : (p : ℕ) → Refs s p (own p)

-- Pages with an owner before and after the call keep their contents.
abbrev pub KeepsOwned : Owners → Owners → Phys → Phys → Type 0
KeepsOwned own own' s s' = (p : ℕ) → 0 < own p → 0 < own' p → s'.word p ≡ s.word p

abbrev pub Served : Phys → Owners → Call → Type 0
Served s own c =
    (r : Option ℕ) × (s' : Phys) × (call c s ≡ ok r s')
    × Agrees s' (owners own c r)
    × IsFresh own r
    × KeepsOwned own (owners own c r) s s'

-- The counts after a call that gives page `p` the count `m` and leaves the others.
module _ (s s' : Phys) (own : Owners) (p m : ℕ) where
  Refs-update :
      Agrees s own → Refs s' p m → OthersKept p s s' → (q : ℕ) → Refs s' q (update own p m q)
  Refs-update a e k q = ground (arith, a.refs q, k.temps q)

  Freed-keeps : Freed m s p s' → KeepsOwned own (update own p m) s s'
  Freed-keeps f q x y = elim (ℕ_discrete p q) [
    | yes e ↦ subst (λ k. s'.word k ≡ s.word k) e (f.in_use (ground arith)).0
    | no ne ↦ f.kept.contents q ne
  ]

Served-alloc : (s : Phys) (own : Owners) → Agrees s own → Served s own alloc
unfolding call
Served-alloc s own a = elim (kalloc_lem s a.consistent) [
  | inl h ↦ (none, s, h.1, a, tt, λ p x y. refl)
  | inr h ↦ (
    some h.0,
    h.1,
    h.2,
    record { consistent = h.3.consistent; refs = Refs-update s h.1 own h.0 1 a h.3.one h.3.kept },
    ground (arith, a.refs h.0, h.3.was_unused),
    λ q x y. h.3.kept.contents q (λ e. ground (arith, a.refs h.0, h.3.was_unused)),
  )
]

Served-share :
    (s : Phys) (own : Owners) (p : ℕ)
    → Agrees s own
    → IsLegal own (share p)
    → Served s own (share p)
unfolding call
Served-share s own p a l = (
  none,
  set_temp s p (pos (suc (own p))),
  rw (check_and_increment-eq s p (own p) (a.refs p) l.1),
  record {
    consistent = set_temp-IsConsistent s p (suc (own p)) a.consistent not_free;
    refs = λ q. ground (arith, a.refs q);
  },
  tt,
  λ q x y. refl,
)
  where
    not_free : count p s.freelist ≡ 0
    not_free = ground (arith, a.refs p, a.consistent.free_unused p)

Served-free :
    (s : Phys) (own : Owners) (p : ℕ) → Agrees s own → IsLegal own (free p) → Served s own (free p)
unfolding call
Served-free s own p a l =
    let (s', e, f) =
      kfree_lem s p (own p - 1) a.consistent (a.refs p ∙ ap pos (omega arith)) (omega arith) in
    (
      none,
      s',
      rw e,
      record {
        consistent = f.consistent;
        refs = Refs-update s s' own p (own p - 1) a f.refs f.kept;
      },
      tt,
      Freed-keeps s s' own p (own p - 1) f,
    )

-- From counts that agree with the owners, a legal call of any kind returns without stopping the
-- machine, and leaves counts that agree with the owners it makes; a page that it hands out had no
-- owner, and a page owned before and after keeps its contents.
pub call_lem : (s : Phys) (own : Owners) (c : Call) → Agrees s own → IsLegal own c → Served s own c
call_lem s own alloc a l = Served-alloc s own a
call_lem s own (share p) a l = Served-share s own p a l
call_lem s own (free p) a l = Served-free s own p a l
