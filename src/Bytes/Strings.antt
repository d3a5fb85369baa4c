-- ===== src/Bytes/Strings.antt =====
-- `safestrcpy` and `strlen` of initial-xv6/src/kernel/string.c.
use mini_project_3_amey_chou.Common.{
  ℕ, zero, suc, ◌+◌, ◌<◌, ◌≤◌, ◌≡◌, ◌≢◌, inl, inr, arith, true, false, some, ◌==◌, update,
  Bool-cases, ◌∙◌, ap, pos, update_self, update-ne,
}
use native.Mathlib.Decide.{ℕ_discrete}
use mini_project_3_amey_chou.Bytes.{Memory, copy_string, safestrcpy, strlen}
use mini_project_3_amey_chou.Bytes.Move.{Outside}

-- A string of at most `n` bytes from `s` on, with its '\0'.
abbrev pub EndsWithin : (s n : ℕ) → Memory → Type 0
EndsWithin s n m = (a : ℕ) × (s ≤ a) × (a < s + n) × (m a ≡ 0)

abbrev pub Written : (s n : ℕ) → Memory → Memory → Type 0
Written s n m w = EndsWithin s n w × ((a : ℕ) → Outside s n a → w a ≡ m a)

copy_string_lem : (s t n : ℕ) (m : Memory) → Written s (suc n) m (copy_string s t n m)
unfolding copy_string
copy_string_lem s t zero m = (
  (s, omega arith, omega arith, update_self m s 0),
  λ a out. update-ne m s a 0 (λ e. omega arith),
)
copy_string_lem s t (suc n) m = elim (Bool-cases (m t == 0)) [
  | inl stop ↦ rw stop (
    (s + 1, omega arith, omega arith, update_self (update m s (m t)) (s + 1) 0),
    λ a out. ground arith,
  )
  | inr more ↦
      let ((a, lo, hi, z), same) = copy_string_lem (s + 1) (t + 1) n (update m s (m t)) in
      rw more ((a, omega arith, omega arith, z), λ c out. same c (omega arith) ∙ ground arith)
]

-- For a destination of at least one byte, `safestrcpy` leaves a string that ends within it, and
-- writes nowhere else.
pub safestrcpy_lem : (s t n : ℕ) (m : Memory) → 0 < n → Written s n m (safestrcpy s t (pos n) m)
unfolding safestrcpy
safestrcpy_lem s t zero m h = absurd (omega arith)
safestrcpy_lem s t (suc n) m h = copy_string_lem s t n m

strlen_from :
    (fuel s n k : ℕ) (m : Memory)
    → n ≤ k
    → k < n + fuel
    → m (s + k) ≡ 0
    → ((i : ℕ) → i < k → m (s + i) ≢ 0)
    → strlen fuel s n m ≡ some k
unfolding strlen
strlen_from zero s n k m lo hi z before = absurd (omega arith)
strlen_from (suc fuel) s n k m lo hi z before = elim (ℕ_discrete n k) [
  | yes e ↦ rw (here e) (ap some e)
  | no ne ↦
      rw (not_here (before n (omega arith)))
        (strlen_from fuel s (n + 1) k m (omega arith) (omega arith) z before)
]
  where
    here : n ≡ k → (m (s + n) == 0) ≡ true
    here e = ground (arith, ap (λ j. m (s + j)) e)

    not_here : m (s + n) ≢ 0 → (m (s + n) == 0) ≡ false
    not_here h = ground arith

-- `strlen` is the index of the first '\0', in any number of rounds above it.
pub strlen_lem :
    (fuel s k : ℕ) (m : Memory)
    → k < fuel
    → m (s + k) ≡ 0
    → ((i : ℕ) → i < k → m (s + i) ≢ 0)
    → strlen fuel s 0 m ≡ some k
strlen_lem fuel s k m h = strlen_from fuel s 0 k m (omega arith) (omega arith)
