-- ===== src/Common/Visit.antt =====
-- A loop that rewrites cells of a table, each on its own, at places that differ.
use Prim.Native.Nat.{ℕ, zero, suc, ◌+◌, ◌<◌, ◌≤◌}
use mathlib.Core.Path.{◌≡◌, refl, sym, subst, ◌∙◌}
use mathlib.Core.Logic.{◌≢◌}
use native.Mathlib.Omega.{arith}
use mini_project_3_amey_chou.Common.Table.{update, update-ne, at_update}
use mini_project_3_amey_chou.Common.Loop.{for_upto}
use mini_project_3_amey_chou.Common.Tally.{tally, tally-update}

module _ {A : Type 0} (place : ℕ → ℕ) (f : A → A) where
  abbrev pub visit : ℕ → (ℕ → A) → ℕ → A
  visit n u = for_upto n (λ i v. update v (place i) (f (v (place i)))) u

  pub visit-off : (n : ℕ) (u : ℕ → A) (j : ℕ) → ((i : ℕ) → i < n → place i ≢ j) → visit n u j ≡ u j
  unfolding for_upto
  visit-off zero u j off = refl
  visit-off (suc n) u j off =
      update-ne (visit n u) (place n) j (f (visit n u (place n))) (off n (omega arith))
      ∙ visit-off n u j (λ i lt. off i (omega arith))

  -- What `f` keeps holds of every cell that it held of.
  pub visit-keeps :
      (P : ℕ → A → Type 0)
      → ((j : ℕ) (a : A) → P j a → P j (f a))
      → (n : ℕ) (u : ℕ → A) → ((j : ℕ) → P j (u j))
      → (j : ℕ) → P j (visit n u j)
  unfolding for_upto
  visit-keeps P keep zero u h j = h j
  visit-keeps P keep (suc n) u h j =
      let v = visit n u in
      at_update P v (place n) (f (v (place n)))
        (keep (place n) (v (place n)) (visit-keeps P keep n u h (place n)))
        (λ i ne. visit-keeps P keep n u h i) j

  module _ (weight : A → ℕ) (m : ℕ) where
    -- A cell is still as it was when the loop comes to it.
    still :
        (n : ℕ) (u : ℕ → A)
        → ((i j : ℕ) → i < suc n → j < suc n → i ≢ j → place i ≢ place j)
        → visit n u (place n) ≡ u (place n)
    still n u apart =
        visit-off n u (place n) (λ i lt. apart i n (omega arith) (omega arith) (λ e. omega arith))

    pub tally-visit_le :
        (n : ℕ) (u : ℕ → A)
        → ((i : ℕ) → i < n → place i < m)
        → ((i j : ℕ) → i < n → j < n → i ≢ j → place i ≢ place j)
        → ((i : ℕ) → i < n → weight (u (place i)) ≤ weight (f (u (place i))))
        → tally weight m u ≤ tally weight m (visit n u)
    unfolding for_upto
    tally-visit_le zero u within apart h = omega arith
    tally-visit_le (suc n) u within apart h =
        let v = visit n u in
        let here =
          subst (λ (a : A). weight a ≤ weight (f a)) (sym (still n u apart)) (h n (omega arith)) in
        omega (
          arith,
          tally-visit_le n u (λ i lt. within i (omega arith))
              (λ i j hi hj. apart i j (omega arith) (omega arith)) (λ i lt. h i (omega arith)),
          tally-update weight m v (place n) (f (v (place n))) (within n (omega arith)),
          here,
        )

    -- Cells of no weight that each get one.
    pub tally-visit_all :
        (n : ℕ) (u : ℕ → A)
        → ((i : ℕ) → i < n → place i < m)
        → ((i j : ℕ) → i < n → j < n → i ≢ j → place i ≢ place j)
        → ((i : ℕ) → i < n → (weight (u (place i)) ≡ 0) × (weight (f (u (place i))) ≡ 1))
        → tally weight m (visit n u) ≡ tally weight m u + n
    unfolding for_upto
    tally-visit_all zero u within apart h = omega arith
    tally-visit_all (suc n) u within apart h =
        let v = visit n u in
        let here =
          subst (λ (a : A). (weight a ≡ 0) × (weight (f a) ≡ 1)) (sym (still n u apart))
            (h n (omega arith)) in
        omega (
          arith,
          tally-visit_all n u (λ i lt. within i (omega arith))
              (λ i j hi hj. apart i j (omega arith) (omega arith)) (λ i lt. h i (omega arith)),
          tally-update weight m v (place n) (f (v (place n))) (within n (omega arith)),
          here,
        )
