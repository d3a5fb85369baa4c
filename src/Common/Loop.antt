-- ===== src/Common/Loop.antt =====
-- `for (i = 0; i < n; i++)` over a table, with its invariant rule, and the search for an index.
use Prim.Native.Nat.{ℕ, zero, suc, ◌<◌, ◌≤◌}
use mathlib.Core.Path.{◌≡◌, refl, sym, subst}
use native.Mathlib.Decide.{ℕ_discrete, dec_lt}
use mathlib.Core.Bool.{Bool, true, false}
use mathlib.Core.Option.{Option, none, some}
use native.Mathlib.Omega.{arith}
use mini_project_3_amey_chou.Common.Tests.{ltb, if◌then◌else◌}

-- The first `n` rounds, in the order 0, 1, …, n - 1.
unfoldable pub for_upto {ℓ} : {S : Type ℓ} → ℕ → (ℕ → S → S) → S → S
for_upto zero body s = s
for_upto (suc n) body s = body n (for_upto n body s)

pub for_upto_inv {ℓ κ} :
    {S : Type ℓ} (P : ℕ → S → Type κ) (body : ℕ → S → S) (s : S)
    → P 0 s
    → ((i : ℕ) (t : S) → P i t → P (suc i) (body i t))
    → (n : ℕ) → P n (for_upto n body s)
unfolding for_upto
for_upto_inv P body s start keep zero = start
for_upto_inv P body s start keep (suc n) =
    keep n (for_upto n body s) (for_upto_inv P body s start keep n)

-- A loop that acts in its first `m` rounds only.
module _ {S : Type 0} (m : ℕ) (f : ℕ → S → S) (s : S) where
  abbrev guarded : ℕ → S → S
  guarded i t = if ltb i m then f i t else t

  for_upto_all : (n : ℕ) → n ≤ m → for_upto n guarded s ≡ for_upto n f s
  unfolding for_upto
  for_upto_all zero le = refl
  for_upto_all (suc n) le = ground (arith, for_upto_all n)

  pub for_upto_guard : (n : ℕ) → m ≤ n → for_upto n guarded s ≡ for_upto m f s
  unfolding for_upto
  for_upto_guard zero le = let e : m ≡ 0 = omega arith in rw e refl
  for_upto_guard (suc n) le = elim (dec_lt n m) [
    | yes last ↦
        let e : m ≡ suc n = omega arith in
        subst (λ k. for_upto (suc n) guarded s ≡ for_upto k f s) (sym e)
          (for_upto_all (suc n) (omega arith))
    | no past ↦ ground (arith, for_upto_guard n)
  ]

-- The least index below `n` that passes the test: a scan that leaves by `goto` or `return`.
unfoldable pub find_upto : ℕ → (ℕ → Bool) → Option ℕ
find_upto zero test = none
find_upto (suc n) test = elim (find_upto n test) [
  | some i ↦ some i
  | none ↦ if test n then some n else none
]

-- What a scan has found: the least index that passes, or that none passes.
abbrev pub Found : ℕ → (ℕ → Bool) → Option ℕ → Type 0
Found n test none = (i : ℕ) → i < n → test i ≡ false
Found n test (some k) = (k < n) × (test k ≡ true) × ((i : ℕ) → i < k → test i ≡ false)

Found-suc :
    (n : ℕ) (test : ℕ → Bool) (o : Option ℕ) (b : Bool)
    → test n ≡ b
    → Found n test o
    → Found (suc n) test (elim o [ some i ↦ some i | none ↦ if b then some n else none ])
Found-suc n test (some k) b e f = (omega (arith, f.0), f.1, f.2)
Found-suc n test none true e f = (omega arith, e, f)
Found-suc n test none false e f = λ i lt. grind (arith, f)

pub find_upto-Found : (n : ℕ) (test : ℕ → Bool) → Found n test (find_upto n test)
unfolding find_upto
find_upto-Found zero test = λ i lt. absurd (omega arith)
find_upto-Found (suc n) test =
    Found-suc n test (find_upto n test) (test n) refl (find_upto-Found n test)

-- What holds below `n` and at `n` holds below `n + 1`.
pub below_suc {κ} :
    (P : ℕ → Type κ) (n : ℕ) → ((i : ℕ) → i < n → P i) → P n → (i : ℕ) → i < suc n → P i
below_suc P n h last i lt = elim (ℕ_discrete n i) [
  | yes e ↦ subst P e last
  | no ne ↦ h i (omega arith)
]
