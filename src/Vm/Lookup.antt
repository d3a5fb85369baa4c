-- ===== src/Vm/Lookup.antt =====
-- `walk` without allocation, and `walkaddr`, against a lookup in the three levels of the table.
use mini_project_3_amey_chou.Common.{
  ℕ, zero, suc, ◌/◌, ◌<◌, ◌≤◌, ◌≡◌, arith, refl, Bool, false, if◌then◌else◌, Option, none, some,
  Bool-cases, inl, inr, leb,
}
use mini_project_3_amey_chou.Phys.{Phys, ok, panic}
use mini_project_3_amey_chou.Vm.{
  has_bit, pte_v, pte_u, pte2pa, px, maxva, PteRef, descend, walk_from, walk, user_address,
  walkaddr,
}

abbrev pub entry : Phys → PteRef → ℕ
entry s r = s.word r.page r.index

-- The entry for `va`, from a table at `level`: the tables on the way must be valid.
unfoldable pub lookup_from : Phys → (level va pagetable : ℕ) → Option PteRef
lookup_from s zero va pagetable = some (record { page = pagetable; index = px 0 va })
lookup_from s (suc l) va pagetable =
    let e = s.word pagetable (px (suc l) va) in
    let below = lookup_from s l va (pte2pa e / 4096) in if has_bit pte_v e then below else none

abbrev pub lookup : Phys → (pagetable va : ℕ) → Option PteRef
lookup s pagetable va = lookup_from s 2 va pagetable

walk_from-eq :
    (l va pagetable : ℕ) (s : Phys)
    → walk_from l va false pagetable s ≡ ok (lookup_from s l va pagetable) s
unfolding walk_from lookup_from descend
walk_from-eq zero va pagetable s = refl
walk_from-eq (suc l) va pagetable s =
    elim (Bool-cases (has_bit pte_v (s.word pagetable (px (suc l) va)))) [
      | inl v ↦ rw v (walk_from-eq l va _ s)
      | inr n ↦ rw n
    ]

in_range : (va : ℕ) → va < maxva → leb maxva va ≡ false
in_range va h = ground arith

pub walk-eq :
    (pagetable va : ℕ) (s : Phys)
    → va < maxva
    → walk pagetable va false s ≡ ok (lookup s pagetable va) s
unfolding walk
walk-eq pagetable va s h = rw (in_range va h) (walk_from-eq 2 va pagetable s)

pub walk_out_of_range :
    (pagetable va : ℕ) (b : Bool) (s : Phys) → maxva ≤ va → walk pagetable va b s ≡ panic
unfolding walk
walk_out_of_range pagetable va b s h = ground arith

-- The physical address that a user address is mapped to, or 0.
unfoldable pub translate : Phys → Option PteRef → ℕ
translate s none = 0
translate s (some r) =
    if has_bit pte_v (entry s r)
    then (if has_bit pte_u (entry s r) then pte2pa (entry s r) else 0)
    else 0

user_address-eq : (s : Phys) (o : Option PteRef) → user_address o s ≡ ok (translate s o) s
unfolding user_address translate
user_address-eq s none = refl
user_address-eq s (some r) = ground arith

-- `walkaddr` changes nothing; from MAXVA on it returns 0, and below that the address that the
-- three-level table holds for a valid user page, and 0 for any other.
pub walkaddr_lem :
    (pagetable va : ℕ) (s : Phys)
    → (va < maxva → walkaddr pagetable va s ≡ ok (translate s (lookup s pagetable va)) s)
      × (maxva ≤ va → walkaddr pagetable va s ≡ ok 0 s)
unfolding walkaddr
walkaddr_lem pagetable va s = (
  λ h.
      rw (in_range va h)
        (rw (walk-eq pagetable va s h) (user_address-eq s (lookup s pagetable va))),
  λ h. ground arith,
)
