-- ===== src/Common/Each.antt =====
-- A loop that rewrites every slot of a table on its own.
use Prim.Native.Nat.{ℕ, zero, suc, ◌<◌, ◌≤◌}
use mathlib.Core.Path.{◌≡◌, refl}
use native.Mathlib.Omega.{arith}
use mini_project_3_amey_chou.Common.Table.{update}
use mini_project_3_amey_chou.Common.Loop.{for_upto}

module _ {A : Type 0} (g : A → A) (t : ℕ → A) where
  abbrev pub each : ℕ → (ℕ → A) → ℕ → A
  each i u = update u i (g (u i))

  pub each_ahead : (n i : ℕ) → n ≤ i → for_upto n each t i ≡ t i
  unfolding for_upto
  each_ahead zero i h = refl
  each_ahead (suc n) i h = ground (arith, each_ahead n i)

  pub each_behind : (n i : ℕ) → i < n → for_upto n each t i ≡ g (t i)
  unfolding for_upto
  each_behind zero i h = absurd (omega arith)
  each_behind (suc n) i h = ground (arith, each_behind n i, each_ahead n n)
