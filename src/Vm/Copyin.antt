-- ===== src/Vm/Copyin.antt =====
-- `copyin` of initial-xv6/src/kernel/vm.c for one byte, against the byte that the page table maps.
use mini_project_3_amey_chou.Common.{
  ℕ, ◌+◌, ◌-◌, ◌/◌, ◌%◌, ◌^◌, ◌≡◌, arith, refl, if◌then◌else◌, Option, none, some, List, [], ◌∷◌,
  ltb, ◌==◌, Bool-cases, inl, inr,
}
use mini_project_3_amey_chou.Phys.{Phys, ok, pg_round_down}
use mini_project_3_amey_chou.Vm.{maxva, walkaddr}
use mini_project_3_amey_chou.Vm.Copy.{get_byte, get_bytes, round_len, in_from, copyin}
use mini_project_3_amey_chou.Vm.Lookup.{lookup, translate, walkaddr_lem}

-- The physical address of the page under user address `a`, or 0.
abbrev pub user_page : Phys → (pagetable a : ℕ) → ℕ
user_page s pagetable a =
    if ltb (pg_round_down a) maxva then translate s (lookup s pagetable (pg_round_down a)) else 0

-- The byte of memory at a physical address: words are little-endian.
abbrev pub byte_at : Phys → ℕ → ℕ
byte_at s pa = s.word (pa / 4096) (pa % 4096 / 8) / 256 ^ (pa % 8) % 256

-- What a user program finds at address `a`: nothing, unless a valid user page is there.
abbrev pub user_byte : Phys → (pagetable a : ℕ) → Option ℕ
user_byte s pagetable a =
    if user_page s pagetable a == 0
    then none
    else some (byte_at s (user_page s pagetable a + (a - pg_round_down a)))

abbrev pub singleton : Option ℕ → Option (List ℕ)
singleton none = none
singleton (some c) = some (c ∷ [])

walkaddr-user_page :
    (pagetable a : ℕ) (s : Phys)
    → walkaddr pagetable (pg_round_down a) s ≡ ok (user_page s pagetable a) s
walkaddr-user_page pagetable a s = elim (Bool-cases (ltb (pg_round_down a) maxva)) [
  | inl below ↦ rw below ((walkaddr_lem pagetable (pg_round_down a) s).0 (ground arith))
  | inr above ↦ rw above ((walkaddr_lem pagetable (pg_round_down a) s).1 (ground arith))
]

one_byte : (a : ℕ) → round_len a 1 ≡ 1
one_byte a = ground arith

-- `copyin` of one byte reads it, and changes nothing.
pub copyin_byte :
    (pagetable a : ℕ) (s : Phys)
    → copyin pagetable a 1 s ≡ ok (singleton (user_byte s pagetable a)) s
unfolding copyin in_from get_bytes get_byte
copyin_byte pagetable a s =
    rw walkaddr-user_page (elim (Bool-cases (user_page s pagetable a == 0)) [
      | inl z ↦ rw z refl
      | inr nz ↦ rw (nz, one_byte) refl
    ])
