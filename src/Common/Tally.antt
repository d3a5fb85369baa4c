-- ===== src/Common/Tally.antt =====
-- Sums over the first cells of a table, and how one write changes them.
use Prim.Native.Nat.{ℕ, zero, suc, ◌+◌, ◌≤◌, ◌<◌}
use mathlib.Core.Path.{◌≡◌, refl, ap, subst, ◌∙◌}
use mathlib.Core.Logic.{◌≢◌}
use native.Mathlib.Decide.{dec_lt, ℕ_discrete}
use native.Mathlib.Omega.{arith}
use mini_project_3_amey_chou.Common.Table.{update, update_self, update-ne}

module _ {A : Type 0} (weight : A → ℕ) where
  pub tally : ℕ → (ℕ → A) → ℕ
  tally zero f = 0
  tally (suc n) f = tally n f + weight (f n)

  pub tally-suc : (n : ℕ) (f : ℕ → A) → tally (suc n) f ≡ tally n f + weight (f n)
  unfolding tally
  tally-suc n f = refl

  pub tally-none : (f : ℕ → A) → tally 0 f ≡ 0
  unfolding tally
  tally-none f = refl

  tally-update_above :
      (n : ℕ) (f : ℕ → A) (i : ℕ) (a : A) → n ≤ i → tally n (update f i a) ≡ tally n f
  unfolding tally
  tally-update_above zero f i a h = refl
  tally-update_above (suc n) f i a h = ground (arith, tally-update_above n f i a)

  -- Stated without subtraction: the weight of the old cell leaves, that of the new one enters.
  pub tally-update :
      (n : ℕ) (f : ℕ → A) (i : ℕ) (a : A)
      → i < n
      → tally n (update f i a) + weight (f i) ≡ tally n f + weight a
  unfolding tally
  tally-update zero f i a h = absurd (omega arith)
  tally-update (suc n) f i a h = elim (dec_lt i n) [
    | yes below ↦ ground (arith, tally-update n f i a below)
    | no last ↦ ground (arith, tally-update_above n f i a)
  ]

  pub tally-zero_below : (n : ℕ) (f : ℕ → A) → ((i : ℕ) → i < n → weight (f i) ≡ 0) → tally n f ≡ 0
  unfolding tally
  tally-zero_below zero f h = refl
  tally-zero_below (suc n) f h =
      omega (arith, tally-zero_below n f (λ i lt. h i (omega arith)), h n (omega arith))

  pub tally-zero : (n : ℕ) (f : ℕ → A) → ((i : ℕ) → weight (f i) ≡ 0) → tally n f ≡ 0
  tally-zero n f h = tally-zero_below n f (λ i lt. h i)

  pub tally-le : (n : ℕ) (f : ℕ → A) → ((i : ℕ) → weight (f i) ≤ 1) → tally n f ≤ n
  unfolding tally
  tally-le zero f h = omega arith
  tally-le (suc n) f h = omega (arith, tally-le n f h, h n)

  -- A tally of as many as there are leaves none out.
  pub tally_full :
      (n : ℕ) (f : ℕ → A)
      → ((i : ℕ) → weight (f i) ≤ 1)
      → tally n f ≡ n
      → (i : ℕ) → i < n
      → weight (f i) ≡ 1
  unfolding tally
  tally_full zero f h e i lt = absurd (omega arith)
  tally_full (suc n) f h e i lt = elim (dec_lt i n) [
    | yes below ↦ tally_full n f h (omega (arith, tally-le n f h, h n)) i below
    | no last ↦ ground (arith, tally-le n f h, h n)
  ]

  pub tally_all : (n : ℕ) (f : ℕ → A) → ((i : ℕ) → i < n → weight (f i) ≡ 1) → tally n f ≡ n
  unfolding tally
  tally_all zero f h = refl
  tally_all (suc n) f h =
      omega (arith, tally_all n f (λ i lt. h i (omega arith)), h n (omega arith))

  pub tally_ext :
      (n : ℕ) (f g : ℕ → A)
      → ((i : ℕ) → i < n → weight (f i) ≡ weight (g i))
      → tally n f ≡ tally n g
  unfolding tally
  tally_ext zero f g h = refl
  tally_ext (suc n) f g h =
      omega (arith, tally_ext n f g (λ i lt. h i (omega arith)), h n (omega arith))

  -- Tables that differ in one cell.
  pub tally_change :
      (n : ℕ) (f g : ℕ → A) (i : ℕ)
      → i < n
      → ((j : ℕ) → j < n → i ≢ j → weight (f j) ≡ weight (g j))
      → tally n g + weight (f i) ≡ tally n f + weight (g i)
  tally_change n f g i lt same = omega (
    arith,
    tally-update n f i (g i) lt,
    tally_ext n (update f i (g i)) g (λ j hj. elim (ℕ_discrete i j) [
      | yes e ↦
          subst (λ k. weight (update f i (g i) k) ≡ weight (g k)) e
            (ap weight (update_self f i (g i)))
      | no ne ↦ ap weight (update-ne f i j (g i) ne) ∙ same j hj ne
    ]),
  )
