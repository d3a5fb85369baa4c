-- ===== src/Common/Table.antt =====
-- C arrays as functions of the index, and the write to one cell.
use Prim.Native.Nat.{ℕ}
use mathlib.Core.Path.{◌≡◌, sym, subst}
use native.Mathlib.Decide.{ℕ_discrete}
use mathlib.Core.Logic.{◌≢◌}
use native.Mathlib.Omega.{arith}
use mini_project_3_amey_chou.Common.Tests.{◌==◌, if◌then◌else◌}

abbrev pub update {ℓ} : {A : Type ℓ} → (ℕ → A) → ℕ → A → ℕ → A
update f i a j = if i == j then a else f j

pub update_self {ℓ} : {A : Type ℓ} (f : ℕ → A) (i : ℕ) (a : A) → update f i a i ≡ a
update_self f i a = ground arith

pub update-ne {ℓ} : {A : Type ℓ} (f : ℕ → A) (i j : ℕ) (a : A) → i ≢ j → update f i a j ≡ f j
update-ne f i j a h = ground arith

-- To prove something of every cell after a write.
pub at_update {ℓ κ} :
    {A : Type ℓ} (P : ℕ → A → Type κ) (f : ℕ → A) (i : ℕ) (a : A)
    → P i a
    → ((j : ℕ) → i ≢ j → P j (f j))
    → (j : ℕ) → P j (update f i a j)
at_update P f i a here there j = elim (ℕ_discrete i j) [
  | yes e ↦ subst (λ k. P k (update f i a k)) e (subst (P i) (sym (update_self f i a)) here)
  | no ne ↦ subst (P j) (sym (update-ne f i j a ne)) (there j ne)
]
