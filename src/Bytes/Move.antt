-- ===== src/Bytes/Move.antt =====
-- `memmove` of initial-xv6/src/kernel/string.c against its description, whatever the overlap.
use mini_project_3_amey_chou.Common.{
  ℕ, zero, suc, ◌+◌, ◌-◌, ◌<◌, ◌≤◌, ◌≡◌, ◌≢◌, ◌⊎◌, inl, inr, refl, arith, false, ◌==◌, ltb, update,
  ◌&&◌, Bool-cases, ◌∙◌, ap,
}
use native.Mathlib.Decide.{ℕ_discrete}
use mini_project_3_amey_chou.Bytes.{Memory, copy_down, copy_up, memmove}

-- Outside of the `n` bytes from `d` on.
abbrev pub Outside : (d n a : ℕ) → Type 0
Outside d n a = (a < d) ⊎ (d + n ≤ a)

-- `w` is `m` with the `n` bytes from `s` on copied to `d`.
abbrev pub Copied : (d s n : ℕ) → Memory → Memory → Type 0
Copied d s n m w = ((i : ℕ) → i < n → w (d + i) ≡ m (s + i)) × ((a : ℕ) → Outside d n a → w a ≡ m a)

pub update-at : (m : Memory) (d a v : ℕ) → d ≡ a → update m d v a ≡ v
update-at m d a v e = ground arith

copy_down_away :
    (d s n a : ℕ) (m : Memory) → n ≤ d → (a < d - n) ⊎ (d ≤ a) → copy_down d s n m a ≡ m a
unfolding copy_down
copy_down_away d s zero a m le out = refl
copy_down_away d s (suc n) a m le out =
    copy_down_away (d - 1) (s - 1) n a (update m (d - 1) (m (s - 1))) (omega arith) (omega arith)
    ∙ ground arith

-- Byte `i` of the range that ends before `d`.
copy_down_in :
    (d s n a b i : ℕ) (m : Memory)
    → n ≤ s
    → s ≤ d
    → a + n ≡ d + i
    → b + n ≡ s + i
    → i < n
    → copy_down d s n m a ≡ m b
unfolding copy_down
copy_down_in d s zero a b i m ns le ea eb lt = absurd (omega arith)
copy_down_in d s (suc n) a b i m ns le ea eb lt = elim (ℕ_discrete i n) [
  | yes last ↦
      copy_down_away (d - 1) (s - 1) n a (update m (d - 1) (m (s - 1))) (omega arith)
        (inr (omega arith))
      ∙ update-at m (d - 1) a (m (s - 1)) (omega arith)
      ∙ ap m (omega arith)
  | no ne ↦
      copy_down_in (d - 1) (s - 1) n a b i (update m (d - 1) (m (s - 1))) (omega arith)
        (omega arith) (omega arith) (omega arith) (omega arith)
      ∙ ground arith
]

copy_up_away : (d s n a : ℕ) (m : Memory) → Outside d n a → copy_up d s n m a ≡ m a
unfolding copy_up
copy_up_away d s zero a m out = refl
copy_up_away d s (suc n) a m out =
    copy_up_away (d + 1) (s + 1) n a (update m d (m s)) (omega arith) ∙ ground arith

copy_up_in :
    (d s n a b i : ℕ) (m : Memory)
    → (d ≤ s) ⊎ (s + n ≤ d)
    → a ≡ d + i
    → b ≡ s + i
    → i < n
    → copy_up d s n m a ≡ m b
unfolding copy_up
copy_up_in d s zero a b i m apart ea eb lt = absurd (omega arith)
copy_up_in d s (suc n) a b zero m apart ea eb lt =
    copy_up_away (d + 1) (s + 1) n a (update m d (m s)) (inl (omega arith))
    ∙ update-at m d a (m s) (omega arith)
    ∙ ap m (omega arith)
copy_up_in d s (suc n) a b (suc i) m apart ea eb lt =
    copy_up_in (d + 1) (s + 1) n a b i (update m d (m s)) (omega arith) (omega arith) (omega arith)
      (omega arith)
    ∙ ground arith

-- Afterwards the destination holds what the source held before, however the two ranges overlap,
-- and no byte outside of the destination has changed.
pub memmove_lem : (dst src n : ℕ) (m : Memory) → Copied dst src n m (memmove dst src n m)
unfolding memmove
memmove_lem dst src n m = elim (ℕ_discrete n 0) [
  | yes e ↦ ground arith
  | no ne ↦ elim (Bool-cases (ltb src dst && ltb dst (src + n))) [
    | inl overlap ↦
        rw (nonzero ne, overlap)
          (
            λ i lt.
                (copy_down_in (dst + n) (src + n) n (dst + i) (src + i) i m (omega arith)
                  (ground arith) (omega arith) (omega arith) lt),
            λ a out. (copy_down_away (dst + n) (src + n) n a m (omega arith) (omega arith)),
          )
    | inr apart ↦
        rw (nonzero ne, apart)
          (
            λ i lt. copy_up_in dst src n (dst + i) (src + i) i m (ground arith) refl refl lt,
            λ a out. copy_up_away dst src n a m out,
          )
  ]
]
  where
    nonzero : n ≢ 0 → (n == 0) ≡ false
    nonzero ne = ground arith
