-- ===== src/Log/Append.antt =====
-- `log_write` of initial-xv6/src/kernel/log.c: the list of blocks of a transaction.
use mini_project_3_amey_chou.Common.{
  ℕ, suc, ◌+◌, ◌-◌, ◌<◌, ◌≤◌, ◌≡◌, ◌≢◌, ◌⊎◌, inl, inr, refl, arith, true, false, Option, none, some,
  ◌==◌, leb, update, update_self, update-ne, at_update, find_upto, find_upto-Found, Found, ap,
  Bool-cases, sym, ◌∙◌, ◌||◌, pos, ltb_ℤ,
}
use native.Mathlib.Decide.{ℕ_discrete}
use mini_project_3_amey_chou.Log.{Log, logsize, pin_block, add_block, log_write}

-- No block is listed twice.
abbrev pub IsDistinct : Log → Type 0
IsDistinct l = (i j : ℕ) → i < l.n → j < l.n → l.block i ≡ l.block j → i ≡ j

-- `m` is `l` with block `b` listed: nothing else if it was (absorption), else at the end, with a
-- reference to its buffer.
pub record Added (b : ℕ) (l m : Log) : Type 0 where
  pub distinct : IsDistinct m
  pub listed : (i : ℕ) × (i < m.n) × (m.block i ≡ b)
  pub kept : (i : ℕ) → i < l.n → m.block i ≡ l.block i
  pub once :
      ((m.n ≡ l.n) × (m.store ≡ l.store) × ((i : ℕ) × (i < l.n) × (l.block i ≡ b)))
      ⊎ ((m.n ≡ suc l.n) × (m.store ≡ pin_block b l.store) × ((i : ℕ) → i < l.n → l.block i ≢ b))

add_block-Added :
    (b : ℕ) (l : Log) (o : Option ℕ)
    → IsDistinct l
    → Found l.n (λ i. l.block i == b) o
    → Added b l (add_block b l o)
unfolding add_block
add_block-Added b l (some k) apart f = record {
  distinct = λ i j hi hj e. apart i j hi hj (sym (same i) ∙ e ∙ same j);
  listed = (k, f.0, update_self l.block k b);
  kept = λ i h. same i;
  once = inl (refl, refl, (k, f.0, ground arith));
}
  where
    same : (i : ℕ) → update l.block k b i ≡ l.block i
    same = at_update (λ i x. x ≡ l.block i) l.block k b (ground arith) (λ i ne. refl)
add_block-Added b l none apart f = record {
  distinct = λ i j hi hj e. elim (ℕ_discrete l.n i) [
    | yes at_i ↦ elim (ℕ_discrete l.n j) [
      | yes at_j ↦ sym at_i ∙ at_j
      | no ne ↦ absurd (
          fresh j (omega arith) (
            sym (update-ne l.block l.n j b ne)
            ∙ sym e
            ∙ ap (update l.block l.n b) (sym at_i)
            ∙ update_self l.block l.n b))
    ]
    | no ne ↦ elim (ℕ_discrete l.n j) [
      | yes at_j ↦ absurd (
          fresh i (omega arith) (
            sym (update-ne l.block l.n i b ne)
            ∙ e
            ∙ ap (update l.block l.n b) (sym at_j)
            ∙ update_self l.block l.n b))
      | no ne' ↦
          apart i j (omega arith) (omega arith)
            (sym (update-ne l.block l.n i b ne) ∙ e ∙ update-ne l.block l.n j b ne')
    ]
  ];
  listed = (l.n, omega arith, update_self l.block l.n b);
  kept = λ i h. update-ne l.block l.n i b (λ e. omega arith);
  once = inr (omega arith, refl, fresh);
}
  where
    fresh : (i : ℕ) → i < l.n → l.block i ≢ b
    fresh i h e = ground (arith, f i h)

full_cases :
    (n size : ℕ) → (leb logsize n || leb (size - 1) n) ≡ true → (logsize ≤ n) ⊎ (size ≤ n + 1)
full_cases n size h = ground arith

too_full :
    (l : Log)
    → (logsize ≤ l.n) ⊎ (l.size ≤ l.n + 1)
    → (logsize ≤ l.n) ⊎ (l.size ≤ l.n + 1) ⊎ (ltb_ℤ l.outstanding (pos 1) ≡ true)
too_full l (inl many) = inl many
too_full l (inr little) = inr (inl little)

-- In a log that lists no block twice, `log_write` panics exactly if the log is full or no call is
-- outstanding; otherwise it lists the block once, wherever it was, keeps the other entries, and
-- pins the buffer if the block is new.
pub log_write_lem :
    (b : ℕ) (l : Log)
    → IsDistinct l
    → ((l.n < logsize)
        × (l.n + 1 < l.size)
        × (ltb_ℤ l.outstanding (pos 1) ≡ false)
        × ((m : Log) × (log_write b l ≡ some m) × Added b l m))
      ⊎ (((logsize ≤ l.n) ⊎ (l.size ≤ l.n + 1) ⊎ (ltb_ℤ l.outstanding (pos 1) ≡ true))
          × (log_write b l ≡ none))
unfolding log_write
log_write_lem b l apart = elim (Bool-cases (leb logsize l.n || leb (l.size - 1) l.n)) [
  | inl full ↦ inr (too_full l (full_cases l.n l.size full), rw full refl)
  | inr room ↦ elim (Bool-cases (ltb_ℤ l.outstanding (pos 1))) [
    | inl outside ↦ inr (inr (inr outside), rw (room, outside) refl)
    | inr within ↦ inl (
      ground arith,
      ground arith,
      within,
      (
        add_block b l (find_upto l.n (λ i. l.block i == b)),
        rw (room, within) refl,
        add_block-Added b l (find_upto l.n (λ i. l.block i == b)) apart
            (find_upto-Found l.n (λ i. l.block i == b)),
      ),
    )
  ]
]
