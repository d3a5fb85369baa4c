-- ===== src/Bio/Boot.antt =====
-- The list that `binit` of initial-xv6/src/kernel/bio.c builds.
use mini_project_3_amey_chou.Common.{
  ℕ, zero, suc, ◌<◌, ◌≡◌, inl, inr, refl, arith, false, List, [], ◌∷◌, for_upto, at_update, ap,
  subst, sym, ◌∙◌,
}
use native.Mathlib.Decide.{ℕ_discrete}
use mini_project_3_amey_chou.Bio.{Buf, Cache, nbuf, init_buf, binit}
use mini_project_3_amey_chou.Bio.Lookup.{IsIn}
use mini_project_3_amey_chou.Bio.Views.{IsSound, holds-dev, false≢true}

abbrev listed : ℕ → List ℕ
listed n = for_upto n (λ b l. b ∷ l) []

listed-covers : (n i : ℕ) → i < n → IsIn i (listed n)
unfolding for_upto
listed-covers zero i h = absurd (omega arith)
listed-covers (suc n) i h = elim (ℕ_discrete n i) [
  | yes e ↦ inl e
  | no ne ↦ inr (listed-covers n i (omega arith))
]

listed-inside : (n i : ℕ) → IsIn i (listed n) → i < n
unfolding for_upto
listed-inside zero i h = absurd h
listed-inside (suc n) i (inl e) = omega arith
listed-inside (suc n) i (inr h) = omega (arith, listed-inside n i h)

-- Of the first `n` rounds: the list is made, and the buffers hold the blocks they held.
record Inited (c : Cache) (n : ℕ) (c' : Cache) : Type 0 where
  list : c'.order ≡ listed n
  blocks : (i : ℕ) → (c'.buf i).dev ≡ (c.buf i).dev
  validity : (i : ℕ) → (c'.buf i).valid ≡ (c.buf i).valid
  counts : (i : ℕ) → (c'.buf i).refcnt ≡ (c.buf i).refcnt

init_buf-Inited : (c : Cache) (n : ℕ) → Inited c n (for_upto n init_buf (record c { order = [] }))
unfolding for_upto init_buf
init_buf-Inited c zero = record {
  list = refl;
  blocks = λ i. refl;
  validity = λ i. refl;
  counts = λ i. refl;
}
init_buf-Inited c (suc n) =
    let h = init_buf-Inited c n in
    let u = for_upto n init_buf (record c { order = [] }) in
    let b = record (u.buf n) { locked = false } in
    record {
      list = ap (λ l. n ∷ l) h.list;
      blocks =
          at_update (λ i (x : Buf). x.dev ≡ (c.buf i).dev) u.buf n b (h.blocks n)
            (λ i ne. h.blocks i);
      validity =
          at_update (λ i (x : Buf). x.valid ≡ (c.buf i).valid) u.buf n b (h.validity n)
            (λ i ne. h.validity i);
      counts =
          at_update (λ i (x : Buf). x.refcnt ≡ (c.buf i).refcnt) u.buf n b (h.counts n)
            (λ i ne. h.counts i);
    }

-- A zeroed cache is sound once `binit` has run, and no buffer is then in use.
pub binit-IsSound :
    (c : Cache)
    → ((i : ℕ)
        → i < nbuf
        → ((c.buf i).dev ≡ 0) × ((c.buf i).valid ≡ false) × ((c.buf i).refcnt ≡ 0))
    → IsSound (binit c) × ((i : ℕ) → i < nbuf → ((binit c).buf i).refcnt ≡ 0)
unfolding binit
binit-IsSound c zeroed =
    let h = init_buf-Inited c nbuf in
    (
      record {
        covers = λ i lt. subst (IsIn i) (sym h.list) (listed-covers nbuf i lt);
        inside = λ i m. listed-inside nbuf i (subst (IsIn i) h.list m);
        unique = λ d n i j pos li lj hi hj.
            absurd (omega (arith, holds-dev d n ((binit c).buf i) hi, h.blocks i, (zeroed i li).0));
        clean =
            λ i lt val idle. absurd (false≢true (sym (zeroed i lt).1 ∙ sym (h.validity i) ∙ val));
      },
      λ i lt. h.counts i ∙ (zeroed i lt).2,
    )
