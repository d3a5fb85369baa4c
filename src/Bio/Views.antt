-- ===== src/Bio/Views.antt =====
-- What the cache of initial-xv6/src/kernel/bio.c shows of the disks, and how giving a buffer out
-- keeps it.
use mini_project_3_amey_chou.Common.{
  ℕ, ◌<◌, ◌≡◌, ◌≢◌, ◌⊎◌, inl, inr, arith, Bool, true, false, some, Bool-cases, ap, ap₂, sym, ◌∙◌,
  subst, subst₂,
}
use native.Mathlib.Decide.{ℕ_discrete}
use mini_project_3_amey_chou.Log.{Block, Disk}
use mini_project_3_amey_chou.Bio.{Buf, Cache, nbuf, holds, is_unheld}
use mini_project_3_amey_chou.Bio.Lookup.{IsIn, LastHit, LastHit-Hit}

abbrev pub Shows : (dev blockno : ℕ) → Buf → Type 0
Shows dev blockno b = (holds dev blockno b ≡ true) × (b.valid ≡ true)

-- What a reader finds for a block: what each valid buffer of it holds, and what the disk holds if
-- there is none.
pub record View (c : Cache) (dev blockno : ℕ) (x : Block) : Type 0 where
  pub cached : (i : ℕ) → i < nbuf → Shows dev blockno (c.buf i) → (c.buf i).contents ≡ x
  pub uncached : ((i : ℕ) → i < nbuf → Shows dev blockno (c.buf i) → ⊥) → c.disks dev blockno ≡ x

-- Every buffer is in the list, no block of a device but 0 has two buffers, and a valid buffer that
-- nobody uses is as the disk.
pub record IsSound (c : Cache) : Type 0 where
  pub covers : (i : ℕ) → i < nbuf → IsIn i c.order
  pub inside : (i : ℕ) → IsIn i c.order → i < nbuf
  pub unique :
      (dev blockno i j : ℕ)
      → 0 < dev
      → i < nbuf
      → j < nbuf
      → holds dev blockno (c.buf i) ≡ true
      → holds dev blockno (c.buf j) ≡ true
      → i ≡ j
  pub clean :
      (i : ℕ)
      → i < nbuf
      → (c.buf i).valid ≡ true
      → (c.buf i).refcnt ≡ 0
      → (c.buf i).contents ≡ c.disks (c.buf i).dev (c.buf i).blockno

pub holds-dev : (dev blockno : ℕ) (b : Buf) → holds dev blockno b ≡ true → b.dev ≡ dev
unfolding holds
holds-dev dev blockno b h = ground arith

pub holds-blockno : (dev blockno : ℕ) (b : Buf) → holds dev blockno b ≡ true → b.blockno ≡ blockno
unfolding holds
holds-blockno dev blockno b h = ground arith

pub is_unheld-refcnt : (b : Buf) → is_unheld b ≡ true → b.refcnt ≡ 0
unfolding is_unheld
is_unheld-refcnt b h = ground arith

lt-irrefl₀ : {n : ℕ} → 0 < n → n ≡ 0 → ⊥
lt-irrefl₀ h e = omega arith

pub false≢true : ◌≡◌ {A = Bool} false true → ⊥
false≢true e = cc

Shows? : (d n : ℕ) (b : Buf) → Shows d n b ⊎ (Shows d n b → ⊥)
Shows? d n b = elim (Bool-cases (holds d n b)) [
  | inl h ↦ elim (Bool-cases b.valid) [
    | inl u ↦ inl (h, u)
    | inr u ↦ inr (λ s. false≢true (sym u ∙ s.1))
  ]
  | inr h ↦ inr (λ s. false≢true (sym h ∙ s.0))
]

-- Buffer `i` serves block `blockno`: it held that block, or no buffer did and it is the least
-- recently used of the unused ones.
abbrev pub Choice : (c : Cache) (dev blockno i : ℕ) → Type 0
Choice c dev blockno i =
    (holds dev blockno (c.buf i) ≡ true)
    ⊎ (((j : ℕ) → j < nbuf → holds dev blockno (c.buf j) ≡ false)
        × LastHit (λ j. is_unheld (c.buf j)) c.order (some i))

-- The cache after buffer `i` has been given out for a block.
pub record Serves (c : Cache) (dev blockno i : ℕ) (c' : Cache) : Type 0 where
  pub within : i < nbuf
  pub matched : holds dev blockno (c'.buf i) ≡ true
  pub in_use : 0 < (c'.buf i).refcnt
  pub choice : Choice c dev blockno i
  pub others : (j : ℕ) → i ≢ j → c'.buf j ≡ c.buf j
  pub order_kept : c'.order ≡ c.order
  pub disks_kept : c'.disks ≡ c.disks
  pub views : (d b : ℕ) (x : Block) → View c d b x → View c' d b x
  pub sound : IsSound c'

module _ (c : Cache) (v : IsSound c) (dev blockno i : ℕ) (real : 0 < dev) (hi : i < nbuf) where
  -- Where the contents of a valid buffer come from.
  abbrev pub Source : Buf → Type 0
  Source b =
      ((b.contents ≡ c.disks dev blockno) × ((k : ℕ) → k < nbuf → Shows dev blockno (c.buf k) → ⊥))
      ⊎ (Shows dev blockno (c.buf i) × (b.contents ≡ (c.buf i).contents))

  module _ (b : Buf) (choice : Choice c dev blockno i) (m : holds dev blockno b ≡ true)
      (used : 0 < b.refcnt) (source : b.valid ≡ true → Source b)
      (keeps : Shows dev blockno (c.buf i) → b.valid ≡ true) (c' : Cache) (at : c'.buf i ≡ b)
      (others : (j : ℕ) → i ≢ j → c'.buf j ≡ c.buf j) (order_eq : c'.order ≡ c.order)
      (disks_eq : c'.disks ≡ c.disks) where
    cached_after : (d n : ℕ) (x : Block) → View c d n x → Shows d n b → b.contents ≡ x
    cached_after d n x w (held, val) =
        let dev_eq : dev ≡ d = sym (holds-dev dev blockno b m) ∙ holds-dev d n b held in
        let no_eq : blockno ≡ n = sym (holds-blockno dev blockno b m) ∙ holds-blockno d n b held in
        elim (source val) [
          | inl (from_disk, nowhere) ↦
              from_disk
              ∙ ap₂ c.disks dev_eq no_eq
              ∙ w.uncached (λ k lt s. nowhere k lt (
                  subst (λ e. Shows e blockno (c.buf k)) (sym dev_eq)
                    (subst (λ e. Shows d e (c.buf k)) (sym no_eq) s)))
          | inr (was, same) ↦
              same
              ∙ w.cached i hi (
                  subst (λ e. Shows d e (c.buf i)) no_eq
                    (subst (λ e. Shows e blockno (c.buf i)) dev_eq was))
        ]

    evicted :
        (d n : ℕ) (x : Block)
        → View c d n x
        → Shows d n (c.buf i)
        → (Shows d n b → ⊥)
        → c.disks d n ≡ x
    evicted d n x w (held, val) gone = elim choice [
      | inl old ↦
          let dev_eq : dev ≡ d =
            sym (holds-dev dev blockno (c.buf i) old) ∙ holds-dev d n (c.buf i) held in
          let no_eq : blockno ≡ n =
            sym (holds-blockno dev blockno (c.buf i) old) ∙ holds-blockno d n (c.buf i) held in
          absurd (gone (subst₂ (λ e k. holds e k b ≡ true) dev_eq no_eq m, keeps (old, val)))
      | inr (nowhere, last) ↦
          let idle =
            is_unheld-refcnt (c.buf i) (LastHit-Hit (λ j. is_unheld (c.buf j)) c.order i last).0 in
          sym (ap₂ c.disks (holds-dev d n (c.buf i) held) (holds-blockno d n (c.buf i) held))
          ∙ sym (v.clean i hi val idle)
          ∙ w.cached i hi (held, val)
    ]

    View-after : (d n : ℕ) (x : Block) → View c d n x → View c' d n x
    View-after d n x w = record {
      cached = λ j lt s. elim (ℕ_discrete i j) [
        | yes e ↦
            let here : c'.buf j ≡ b = ap c'.buf (sym e) ∙ at in
            ap Buf.contents here ∙ cached_after d n x w (subst (Shows d n) here s)
        | no ne ↦ ap Buf.contents (others j ne) ∙ w.cached j lt (subst (Shows d n) (others j ne) s)
      ];
      uncached = λ gone.
          let gone_b : Shows d n b → ⊥ = λ s. gone i hi (subst (Shows d n) (sym at) s) in
          ap (λ f. f d n) disks_eq ∙ elim (Shows? d n (c.buf i)) [
            | inl s ↦ evicted d n x w s gone_b
            | inr hidden ↦ w.uncached (λ k lt s. elim (ℕ_discrete i k) [
              | yes e ↦ hidden (subst (λ (k : ℕ). Shows d n (c.buf k)) (sym e) s)
              | no ne ↦ gone k lt (subst (Shows d n) (sym (others k ne)) s)
            ])
          ];
    }

    unique_at :
        (d n j : ℕ) → 0 < d → j < nbuf → i ≢ j → holds d n b ≡ true → holds d n (c.buf j) ≡ true → ⊥
    unique_at d n j pos lt ne hb hj =
        let dev_eq : d ≡ dev = sym (holds-dev d n b hb) ∙ holds-dev dev blockno b m in
        let no_eq : n ≡ blockno = sym (holds-blockno d n b hb) ∙ holds-blockno dev blockno b m in
        let hj' : holds dev blockno (c.buf j) ≡ true =
          subst₂ (λ e k. holds e k (c.buf j) ≡ true) dev_eq no_eq hj in
        elim choice [
          | inl old ↦ ne (v.unique dev blockno i j real hi lt old hj')
          | inr (nowhere, last) ↦ false≢true (sym (nowhere j lt) ∙ hj')
        ]

    IsSound-after : IsSound c'
    IsSound-after = record {
      covers = λ j lt. subst (IsIn j) (sym order_eq) (v.covers j lt);
      inside = λ j h. v.inside j (subst (IsIn j) order_eq h);
      unique = λ d n j k pos lj lk hj hk. elim (ℕ_discrete i j) [
        | yes e ↦ elim (ℕ_discrete i k) [
          | yes e' ↦ sym e ∙ e'
          | no ne ↦ absurd (
              unique_at d n k pos lk ne
                (subst (λ z. holds d n z ≡ true) (ap c'.buf (sym e) ∙ at) hj)
                (subst (λ z. holds d n z ≡ true) (others k ne) hk))
        ]
        | no ne ↦ elim (ℕ_discrete i k) [
          | yes e' ↦ absurd (
              unique_at d n j pos lj ne
                (subst (λ z. holds d n z ≡ true) (ap c'.buf (sym e') ∙ at) hk)
                (subst (λ z. holds d n z ≡ true) (others j ne) hj))
          | no ne' ↦
              v.unique d n j k pos lj lk (subst (λ z. holds d n z ≡ true) (others j ne) hj)
                (subst (λ z. holds d n z ≡ true) (others k ne') hk)
        ]
      ];
      clean = λ j lt val idle. elim (ℕ_discrete i j) [
        | yes e ↦ absurd (lt-irrefl₀ used (sym (ap Buf.refcnt (ap c'.buf (sym e) ∙ at)) ∙ idle))
        | no ne ↦
            let same = others j ne in
            ap Buf.contents same
            ∙ v.clean j lt (sym (ap Buf.valid same) ∙ val) (sym (ap Buf.refcnt same) ∙ idle)
            ∙ sym (ap₂ (λ (f : ℕ → Disk) (z : Buf). f z.dev z.blockno) disks_eq same)
      ];
    }

    pub settle : Serves c dev blockno i c'
    settle = record {
      within = hi;
      matched = ap (holds dev blockno) at ∙ m;
      in_use = subst (λ (z : Buf). 0 < z.refcnt) (sym at) used;
      choice = choice;
      others = others;
      order_kept = order_eq;
      disks_kept = disks_eq;
      views = View-after;
      sound = IsSound-after;
    }
