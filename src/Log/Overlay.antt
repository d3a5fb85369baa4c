-- ===== src/Log/Overlay.antt =====
-- The disk that recovery from the log leads to, and how the header is read back.
use mini_project_3_amey_chou.Common.{
  ℕ, zero, suc, ◌+◌, ◌<◌, ◌≤◌, ◌≡◌, refl, arith, true, false, ◌==◌, if◌then◌else◌, update,
  update_self, fill-at, fill-off, for_upto, Bool-cases, inl, inr, ap, ap₂, sym, ◌∙◌,
}
use native.Mathlib.Decide.{ℕ_discrete}
use mini_project_3_amey_chou.Log.{Block, Disk, encode_head}

-- Block `b` once the first `n` entries are installed: entry `t` says what block `at t` becomes.
unfoldable pub overlay : (at : ℕ → ℕ) (new : ℕ → Block) (n : ℕ) (base : Disk) → Disk
overlay at new zero base b = base b
overlay at new (suc t) base b = if at t == b then new t else overlay at new t base b

-- What the disk holds for block `b` when its log is taken into account.
abbrev pub effective : (start : ℕ) → Disk → Disk
effective start d b = overlay (λ t. d start (t + 1)) (λ t. d (start + t + 1)) (d start 0) d b

-- With an empty log the disk is what it is.
pub clean-effective : (start : ℕ) (d : Disk) (b : ℕ) → d start 0 ≡ 0 → effective start d b ≡ d b
unfolding overlay
clean-effective start d b e =
    ap (λ k. overlay (λ t. d start (t + 1)) (λ t. d (start + t + 1)) k d b) e

module _ (at : ℕ → ℕ) (new : ℕ → Block) where
  pub overlay-base :
      (n : ℕ) (base base' : Disk) (b : ℕ)
      → base b ≡ base' b
      → overlay at new n base b ≡ overlay at new n base' b
  unfolding overlay
  overlay-base zero base base' b e = e
  overlay-base (suc n) base base' b e =
      ap (λ x. if at n == b then new n else x) (overlay-base n base base' b e)

  pub overlay-hit :
      (n : ℕ) (base : Disk) (b : ℕ) → (at n == b) ≡ true → overlay at new (suc n) base b ≡ new n
  unfolding overlay
  overlay-hit n base b e = rw e refl

  pub overlay-miss :
      (n : ℕ) (base : Disk) (b : ℕ)
      → (at n == b) ≡ false
      → overlay at new (suc n) base b ≡ overlay at new n base b
  unfolding overlay
  overlay-miss n base b e = rw e refl

  -- To install a part first changes nothing in the end.
  pub overlay-overlay :
      (n i : ℕ) (base : Disk) (b : ℕ)
      → i ≤ n
      → overlay at new n (overlay at new i base) b ≡ overlay at new n base b
  unfolding overlay
  overlay-overlay zero zero base b le = refl
  overlay-overlay zero (suc i) base b le = absurd (omega arith)
  overlay-overlay (suc n) i base b le = elim (Bool-cases (at n == b)) [
    | inl hit ↦ overlay-hit n (overlay at new i base) b hit ∙ sym (overlay-hit n base b hit)
    | inr miss ↦
        overlay-miss n (overlay at new i base) b miss
        ∙ elim (ℕ_discrete (suc n) i) [
          | yes e ↦
              overlay-base n (overlay at new i base) (overlay at new n base) b
                (ap (λ j. overlay at new j base b) (sym e) ∙ overlay-miss n base b miss)
              ∙ overlay-overlay n n base b (omega arith)
          | no ne ↦ overlay-overlay n i base b (omega arith)
        ]
        ∙ sym (overlay-miss n base b miss)
  ]

pub overlay-cong :
    (at at' : ℕ → ℕ) (new new' : ℕ → Block) (n : ℕ) (base : Disk) (b : ℕ)
    → ((t : ℕ) → t < n → at t ≡ at' t)
    → ((t : ℕ) → t < n → new t ≡ new' t)
    → overlay at new n base b ≡ overlay at' new' n base b
unfolding overlay
overlay-cong at at' new new' zero base b e f = refl
overlay-cong at at' new new' (suc n) base b e f =
    ap₂ (λ k x. if k == b then x else overlay at new n base b) (e n (omega arith))
      (f n (omega arith))
    ∙ ap (λ y. if at' n == b then new' n else y)
        (overlay-cong at at' new new' n base b (λ t lt. e t (omega arith))
          (λ t lt. f t (omega arith)))

-- The header that is written can be read back.
pub encode_head-count : (n : ℕ) (block : ℕ → ℕ) (hb : Block) → encode_head n block hb 0 ≡ n
unfolding encode_head
encode_head-count n block hb =
    fill-off (λ i. i + 1) block n (update hb 0 n) 0 (λ i lt e. omega arith) ∙ update_self hb 0 n

pub encode_head-entry :
    (n : ℕ) (block : ℕ → ℕ) (hb : Block) (t : ℕ) → t < n → encode_head n block hb (t + 1) ≡ block t
unfolding encode_head
encode_head-entry n block hb t lt =
    fill-at (λ i. i + 1) block n (update hb 0 n) t (λ i j ne e. ne (omega arith)) lt

-- And `read_head` reads them.
pub read_entries :
    (n : ℕ) (lh : Block) (block : ℕ → ℕ) (t : ℕ)
    → t < n
    → for_upto n (λ i b. update b i (lh (i + 1))) block t ≡ lh (t + 1)
read_entries n lh block t lt = fill-at (λ i. i) (λ i. lh (i + 1)) n block t (λ i j ne e. ne e) lt
