-- ===== src/Fs/Bits.antt =====
-- Setting and clearing one bit of a number.
use native.Mathlib.Nat.{div-div-eq-div-mul, pow-succ', div-eq_of_lt}
use native.Mathlib.Decide.{dec_lt}
use mini_project_3_amey_chou.Common.{
  ℕ, zero, suc, ◌/◌, ◌%◌, ◌^◌, ◌≤◌, ◌≡◌, ◌==◌, inl, inr, true, false, refl, arith, if◌then◌else◌,
  ap, sym, ◌∙◌, Bool-cases,
}
use mini_project_3_amey_chou.Vm.{has_bit, set_bit, clear_bit}

div-pow : (k w : ℕ) → w / 2 ^ suc k ≡ w / 2 / 2 ^ k
div-pow k w = ap (λ d. w / d) (pow-succ' 2 k) ∙ sym (div-div-eq-div-mul w 2 (2 ^ k))

has_bit-suc : (k w : ℕ) → has_bit (suc k) w ≡ has_bit k (w / 2)
unfolding has_bit
has_bit-suc k w = ap (λ q. (q % 2) == 1) (div-pow k w)

set_bit-half : (k w : ℕ) → set_bit (suc k) w / 2 ≡ set_bit k (w / 2)
unfolding set_bit
set_bit-half k w = elim (Bool-cases (has_bit k (w / 2))) [
  | inl h ↦ rw (has_bit-suc k w, h) refl
  | inr h ↦ rw (has_bit-suc k w, h) (omega (arith, pow-succ' 2 k))
]

set_bit-even : (k w : ℕ) → set_bit (suc k) w % 2 ≡ w % 2
unfolding set_bit
set_bit-even k w = elim (Bool-cases (has_bit (suc k) w)) [
  | inl h ↦ rw h refl
  | inr h ↦ rw h (omega (arith, pow-succ' 2 k))
]

has_bit-le : (k w : ℕ) → has_bit k w ≡ true → 2 ^ k ≤ w
unfolding has_bit
has_bit-le k w h = elim (dec_lt w (2 ^ k)) [
  | yes lt ↦ absurd (ground (arith, div-eq_of_lt lt))
  | no ge ↦ omega arith
]

clear_bit-half : (k w : ℕ) → clear_bit (suc k) w / 2 ≡ clear_bit k (w / 2)
unfolding clear_bit
clear_bit-half k w = elim (Bool-cases (has_bit k (w / 2))) [
  | inl h ↦ rw (has_bit-suc k w, h) (omega (arith, pow-succ' 2 k))
  | inr h ↦ rw (has_bit-suc k w, h) refl
]

clear_bit-even : (k w : ℕ) → clear_bit (suc k) w % 2 ≡ w % 2
unfolding clear_bit
clear_bit-even k w = elim (Bool-cases (has_bit (suc k) w)) [
  | inl h ↦ rw h (omega (arith, pow-succ' 2 k, has_bit-le (suc k) w h))
  | inr h ↦ rw h refl
]

zero_eq-suc : (j : ℕ) → (0 == suc j) ≡ false
zero_eq-suc j = ground arith

suc_eq-zero : (i : ℕ) → (suc i == 0) ≡ false
suc_eq-zero i = ground arith

suc_eq-suc : (i j : ℕ) → (suc i == suc j) ≡ (i == j)
suc_eq-suc i j = ground arith

has_bit-even : (v w : ℕ) → v % 2 ≡ w % 2 → has_bit 0 v ≡ has_bit 0 w
unfolding has_bit
has_bit-even v w h = ground arith

set_bit-zero : (w : ℕ) → (has_bit 0 (set_bit 0 w) ≡ true) × (set_bit 0 w / 2 ≡ w / 2)
unfolding set_bit has_bit
set_bit-zero w = (ground arith, ground arith)

clear_bit-zero : (w : ℕ) → (has_bit 0 (clear_bit 0 w) ≡ false) × (clear_bit 0 w / 2 ≡ w / 2)
unfolding clear_bit has_bit
clear_bit-zero w = (ground arith, ground arith)

-- Bit `j` of a number from bit `j - 1` of its half.
half : (j v w : ℕ) → v / 2 ≡ w / 2 → has_bit (suc j) v ≡ has_bit (suc j) w
half j v w h = has_bit-suc j v ∙ ap (has_bit j) h ∙ sym (has_bit-suc j w)

pub has_bit-set_bit : (i j w : ℕ) → has_bit j (set_bit i w) ≡ (if i == j then true else has_bit j w)
has_bit-set_bit zero zero w = (set_bit-zero w).0
has_bit-set_bit zero (suc j) w = rw (zero_eq-suc j) (half j (set_bit 0 w) w (set_bit-zero w).1)
has_bit-set_bit (suc i) zero w =
    rw (suc_eq-zero i) (has_bit-even (set_bit (suc i) w) w (set_bit-even i w))
has_bit-set_bit (suc i) (suc j) w = rw (suc_eq-suc i j) (
    has_bit-suc j (set_bit (suc i) w)
    ∙ ap (has_bit j) (set_bit-half i w)
    ∙ has_bit-set_bit i j (w / 2)
    ∙ ap (λ x. if i == j then true else x) (sym (has_bit-suc j w)))

pub has_bit-clear_bit :
    (i j w : ℕ) → has_bit j (clear_bit i w) ≡ (if i == j then false else has_bit j w)
has_bit-clear_bit zero zero w = (clear_bit-zero w).0
has_bit-clear_bit zero (suc j) w =
    rw (zero_eq-suc j) (half j (clear_bit 0 w) w (clear_bit-zero w).1)
has_bit-clear_bit (suc i) zero w =
    rw (suc_eq-zero i) (has_bit-even (clear_bit (suc i) w) w (clear_bit-even i w))
has_bit-clear_bit (suc i) (suc j) w = rw (suc_eq-suc i j) (
    has_bit-suc j (clear_bit (suc i) w)
    ∙ ap (has_bit j) (clear_bit-half i w)
    ∙ has_bit-clear_bit i j (w / 2)
    ∙ ap (λ x. if i == j then false else x) (sym (has_bit-suc j w)))
