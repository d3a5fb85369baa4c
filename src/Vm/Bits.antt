-- ===== src/Vm/Bits.antt =====
-- The fields of a page table entry, and the flag changes of copy-on-write.
use mini_project_3_amey_chou.Common.{ℕ, ◌*◌, ◌^◌, ◌<◌, ◌≡◌, arith, true, false}
use mini_project_3_amey_chou.Vm.{
  has_bit, set_bit, clear_bit, pte_v, pte_w, pte_u, pte_cow, mk_pte, pte2pa, pte_flags,
}
use mini_project_3_amey_chou.Vm.Cow.{shared_flags, private_flags}

-- An entry made for page `p` with flags `f` holds them, for a physical address below 2 ^ 56.
pub pte2pa-mk_pte : (p f : ℕ) → p < 2 ^ 44 → f < 2 ^ 10 → pte2pa (mk_pte (p * 4096) f) ≡ p * 4096
pte2pa-mk_pte p f h k = omega arith

pub pte_flags-mk_pte : (p f : ℕ) → p < 2 ^ 44 → f < 2 ^ 10 → pte_flags (mk_pte (p * 4096) f) ≡ f
pte_flags-mk_pte p f h k = omega arith

-- The bits below 10 of an entry are those of its flags.
pub has_bit-flags :
    (e : ℕ)
    → (has_bit pte_v (pte_flags e) ≡ has_bit pte_v e)
      × (has_bit pte_u (pte_flags e) ≡ has_bit pte_u e)
      × (has_bit pte_cow (pte_flags e) ≡ has_bit pte_cow e)
      × (has_bit pte_w (pte_flags e) ≡ has_bit pte_w e)
unfolding has_bit
has_bit-flags e = (ground arith, ground arith, ground arith, ground arith)

-- What `uvmcopy` makes of the flags of a page: never writable, copy-on-write if it was writable or
-- was so before, and otherwise the same.
pub shared_flags_lem :
    (f : ℕ)
    → f < 2 ^ 10
    → (has_bit pte_w (shared_flags f) ≡ false)
      × (has_bit pte_v (shared_flags f) ≡ has_bit pte_v f)
      × (has_bit pte_u (shared_flags f) ≡ has_bit pte_u f)
      × (has_bit pte_w f ≡ true → has_bit pte_cow (shared_flags f) ≡ true)
      × (shared_flags f < 2 ^ 10)
unfolding shared_flags set_bit clear_bit
shared_flags_lem f h = (ground arith, ground arith, ground arith, ground arith, ground arith)

pub private_flags_lem :
    (f : ℕ)
    → f < 2 ^ 10
    → (has_bit pte_w (private_flags f) ≡ true)
      × (has_bit pte_cow (private_flags f) ≡ false)
      × (has_bit pte_v (private_flags f) ≡ has_bit pte_v f)
      × (has_bit pte_u (private_flags f) ≡ has_bit pte_u f)
      × (private_flags f < 2 ^ 10)
unfolding private_flags set_bit clear_bit
private_flags_lem f h = (ground arith, ground arith, ground arith, ground arith, ground arith)

-- Sharing a writable page and then making it private again gives back its flags.
pub private-shared_flags :
    (f : ℕ)
    → f < 2 ^ 10
    → has_bit pte_w f ≡ true
    → has_bit pte_cow f ≡ false
    → private_flags (shared_flags f) ≡ f
unfolding shared_flags private_flags set_bit clear_bit
private-shared_flags f h w c = ground arith
