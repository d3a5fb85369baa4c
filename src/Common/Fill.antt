-- ===== src/Common/Fill.antt =====
-- A loop that writes one cell of a table in each round, at places that differ.
use Prim.Native.Nat.{ℕ, zero, suc, ◌<◌}
use mathlib.Core.Path.{◌≡◌, refl, ap, sym, ◌∙◌}
use mathlib.Core.Logic.{◌≢◌}
use native.Mathlib.Decide.{ℕ_discrete}
use native.Mathlib.Omega.{arith}
use mini_project_3_amey_chou.Common.Table.{update, update_self, update-ne}
use mini_project_3_amey_chou.Common.Loop.{for_upto}

module _ {A : Type 0} (place : ℕ → ℕ) (g : ℕ → A) where
  abbrev pub fill : ℕ → (ℕ → A) → ℕ → A
  fill n u = for_upto n (λ i v. update v (place i) (g i)) u

  pub fill-off : (n : ℕ) (u : ℕ → A) (j : ℕ) → ((i : ℕ) → i < n → place i ≢ j) → fill n u j ≡ u j
  unfolding for_upto
  fill-off zero u j off = refl
  fill-off (suc n) u j off =
      update-ne (fill n u) (place n) j (g n) (off n (omega arith))
      ∙ fill-off n u j (λ i lt. off i (omega arith))

  pub fill-at :
      (n : ℕ) (u : ℕ → A) (t : ℕ)
      → ((i j : ℕ) → i ≢ j → place i ≢ place j)
      → t < n
      → fill n u (place t) ≡ g t
  unfolding for_upto
  fill-at zero u t apart lt = absurd (omega arith)
  fill-at (suc n) u t apart lt = elim (ℕ_discrete n t) [
    | yes e ↦
        ap (λ j. fill (suc n) u (place j)) (sym e) ∙ update_self (fill n u) (place n) (g n) ∙ ap g e
    | no ne ↦
        update-ne (fill n u) (place n) (place t) (g n) (apart n t ne)
        ∙ fill-at n u t apart (omega arith)
  ]
