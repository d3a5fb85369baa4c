-- ===== src/Fs/Alloc.antt =====
-- `balloc` and `bfree` of initial-xv6/src/kernel/fs.c against the set of blocks in use.
use native.Mathlib.Decide.{dec_lt}
use mini_project_3_amey_chou.Common.{
  ℕ, zero, suc, ◌+◌, ◌-◌, ◌*◌, ◌/◌, ◌<◌, ◌≡◌, ◌≢◌, ◌⊎◌, inl, inr, ◌==◌, Bool, true, false, Option,
  none, some, not, refl, arith, if◌then◌else◌, update_self, update-ne, ap, sym, ◌∙◌, subst,
  Bool-cases, find_upto, find_upto-Found, Found,
}
use mini_project_3_amey_chou.Fs.{
  Fs, bpb, bitmap_block, in_use, mark_used, mark_free, bzero, put_byte, group_size, search, balloc,
  bfree,
}
use mini_project_3_amey_chou.Fs.Bitmap.{
  in_use-mark_used, in_use-mark_free, in_use-bzero, put_byte-off,
}

-- What a search of the first `k` blocks has found: the first one that is free.
abbrev FirstFree : Fs → ℕ → Option ℕ → Type 0
FirstFree fs k none = (c : ℕ) → c < k → c < fs.size → in_use fs c ≡ true
FirstFree fs k (some b) =
    (b < fs.size) × (in_use fs b ≡ false) × ((c : ℕ) → c < b → in_use fs c ≡ true)

module _ (fs : Fs) where
  abbrev test : ℕ → ℕ → Bool
  test g bi = not (in_use fs (g * bpb + bi))

  used_of : (b : ℕ) → not (in_use fs b) ≡ false → in_use fs b ≡ true
  used_of b h = ground arith

  free_of : (b : ℕ) → not (in_use fs b) ≡ true → in_use fs b ≡ false
  free_of b h = ground arith

  below :
      (g c : ℕ)
      → FirstFree fs (g * bpb) none
      → (bi : ℕ) → ((j : ℕ) → j < bi → test g j ≡ false)
      → c < g * bpb + bi
      → c < fs.size
      → in_use fs c ≡ true
  below g c old bi h lt inside = elim (dec_lt c (g * bpb)) [
    | yes early ↦ old c early inside
    | no late ↦
        subst (λ d. in_use fs d ≡ true) (omega arith)
          (used_of (g * bpb + (c - g * bpb)) (h (c - g * bpb) (omega arith)))
  ]

  group_size-whole : (b c : ℕ) → c < b + bpb → c < fs.size → c < b + group_size fs b
  unfolding group_size
  group_size-whole b c lt inside = ground arith

  group_size-inside : (b bi : ℕ) → bi < group_size fs b → b + bi < fs.size
  unfolding group_size
  group_size-inside b bi lt = ground arith

  group-FirstFree :
      (g : ℕ) (o : Option ℕ)
      → FirstFree fs (g * bpb) none
      → Found (group_size fs (g * bpb)) (test g) o
      → FirstFree fs (suc g * bpb) (elim o [ some bi ↦ some (g * bpb + bi) | none ↦ none ])
  group-FirstFree g none old f = λ c lt inside.
      below g c old (group_size fs (g * bpb)) f (group_size-whole (g * bpb) c (omega arith) inside)
        inside
  group-FirstFree g (some bi) old f =
      let inside = group_size-inside (g * bpb) bi f.0 in
      (inside, free_of (g * bpb + bi) f.1, λ c lt. below g c old bi f.2 lt (omega arith))

  next-FirstFree :
      (g : ℕ) (o : Option ℕ)
      → FirstFree fs (g * bpb) o
      → FirstFree fs (suc g * bpb) (elim o [
        | some b ↦ some b
        | none ↦ elim (find_upto (group_size fs (g * bpb)) (test g)) [
          | some bi ↦ some (g * bpb + bi)
          | none ↦ none
        ]
      ])
  next-FirstFree g (some b) h = h
  next-FirstFree g none h =
      group-FirstFree g (find_upto (group_size fs (g * bpb)) (test g)) h
        (find_upto-Found (group_size fs (g * bpb)) (test g))

  search-FirstFree : (g : ℕ) → FirstFree fs (g * bpb) (search fs g)
  unfolding search
  search-FirstFree zero = λ c lt inside. absurd (omega arith)
  search-FirstFree (suc g) = next-FirstFree g (search fs g) (search-FirstFree g)

-- The blocks of the bitmap are in use themselves.
abbrev pub IsFormatted : Fs → Type 0
IsFormatted fs =
    (c : ℕ) → c < fs.size → (bitmap_block fs c < fs.size) × (in_use fs (bitmap_block fs c) ≡ true)

-- Block `b` has been handed out.
pub record Taken (fs : Fs) (b : ℕ) (fs' : Fs) : Type 0 where
  pub inside : b < fs.size
  pub was_free : in_use fs b ≡ false
  pub first : (c : ℕ) → c < b → in_use fs c ≡ true
  pub bits : (c : ℕ) → c < fs.size → in_use fs' c ≡ (if b == c then true else in_use fs c)
  pub zeroed : (i : ℕ) → fs'.block b i ≡ 0
  pub others_kept :
      (c : ℕ) → c ≢ b → ((d : ℕ) → d < fs.size → c ≢ bitmap_block fs d) → fs'.block c ≡ fs.block c

true≢false : ◌≡◌ {A = Bool} true false → ⊥
true≢false e = cc

bzero-Taken :
    (fs : Fs) (b : ℕ)
    → IsFormatted fs
    → FirstFree fs ((fs.size + (bpb - 1)) / bpb * bpb) (some b)
    → Taken fs b (bzero b (mark_used b fs))
unfolding mark_used bzero put_byte
bzero-Taken fs b formatted h = record {
  inside = h.0;
  was_free = h.1;
  first = h.2;
  bits = λ c lt.
      in_use-bzero (mark_used b fs) b c
        (λ e. true≢false (sym (formatted c lt).1 ∙ ap (in_use fs) (sym e) ∙ h.1))
      ∙ in_use-mark_used fs b c;
  zeroed = λ i. ap (λ (x : ℕ → ℕ). x i) (update_self (mark_used b fs).block b (λ i. 0));
  others_kept = λ c ne apart.
      update-ne (mark_used b fs).block b c (λ i. 0) (λ e. ne (sym e))
      ∙ put_byte-off fs b _ c (apart b h.0);
}

-- In a file system whose bitmap is marked in use, `balloc` takes the first free block: it marks
-- that one and no other, clears it, and changes nothing else but bitmap blocks; it returns 0,
-- without a change, exactly if every block is in use.
pub balloc_lem :
    (fs : Fs)
    → IsFormatted fs
    → (((c : ℕ) → c < fs.size → in_use fs c ≡ true) × (balloc fs ≡ (0, fs)))
      ⊎ ((b : ℕ) × (fs' : Fs) × (balloc fs ≡ (b, fs')) × Taken fs b fs')
unfolding balloc
balloc_lem fs formatted =
    cases (search fs ((fs.size + (bpb - 1)) / bpb))
      (search-FirstFree fs ((fs.size + (bpb - 1)) / bpb))
  where
    cases :
        (o : Option ℕ)
        → FirstFree fs ((fs.size + (bpb - 1)) / bpb * bpb) o
        → (((c : ℕ) → c < fs.size → in_use fs c ≡ true)
            × (elim o as (λ (o : Option ℕ). ℕ × Fs) [
              | some b ↦ (b, bzero b (mark_used b fs))
              | none ↦ (0, fs)
            ]
                ≡ (0, fs)))
          ⊎ ((b : ℕ) × (fs' : Fs) × (elim o as (λ (o : Option ℕ). ℕ × Fs) [
            | some b ↦ (b, bzero b (mark_used b fs))
            | none ↦ (0, fs)
          ]
                ≡ (b, fs'))
              × Taken fs b fs')
    cases none h = inl (λ c lt. h c (omega arith) lt, refl)
    cases (some b) h = inr (b, bzero b (mark_used b fs), refl, bzero-Taken fs b formatted h)

-- `bfree` frees a block that is in use, changing its bit and nothing else but the block of the bit,
-- and panics on one that is free.
pub bfree_lem :
    (fs : Fs) (b : ℕ)
    → ((in_use fs b ≡ false) × (bfree b fs ≡ none))
      ⊎ ((in_use fs b ≡ true)
          × ((fs' : Fs) × (bfree b fs ≡ some fs')
              × ((c : ℕ) → in_use fs' c ≡ (if b == c then false else in_use fs c))
              × ((c : ℕ) → c ≢ bitmap_block fs b → fs'.block c ≡ fs.block c)))
unfolding bfree mark_free
bfree_lem fs b = elim (Bool-cases (in_use fs b)) [
  | inr free ↦ inl (free, rw free refl)
  | inl used ↦ inr (
    used,
    (mark_free b fs, rw used refl, in_use-mark_free fs b, λ c ne. put_byte-off fs b _ c ne),
  )
]
