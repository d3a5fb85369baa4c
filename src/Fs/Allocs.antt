-- ===== src/Fs/Allocs.antt =====
-- What `balloc` of initial-xv6/src/kernel/fs.c keeps of a file system that is laid out.
use mini_project_3_amey_chou.Common.{
  ℕ, ◌+◌, ◌-◌, ◌/◌, ◌^◌, ◌<◌, ◌≤◌, ◌≡◌, ◌≢◌, ◌⊎◌, inl, inr, refl, arith, true, false, Option, none,
  some, sym, ap, ◌∙◌,
}
use mini_project_3_amey_chou.Fs.{
  Fs, balloc, search, bzero, mark_used, put_byte, in_use, bitmap_block, bpb,
}
use mini_project_3_amey_chou.Fs.Alloc.{IsFormatted, Taken, balloc_lem}

balloc-layout :
    (fs : Fs) → ((balloc fs).1.size ≡ fs.size) × ((balloc fs).1.bmapstart ≡ fs.bmapstart)
unfolding balloc bzero mark_used put_byte
balloc-layout fs =
    elim (search fs ((fs.size + (bpb - 1)) / bpb))
      as (λ o.
        ((elim o as (λ (o : Option ℕ). ℕ × Fs) [
          | some b ↦ (b, bzero b (mark_used b fs))
          | none ↦ (0, fs)
        ]).1.size
          ≡ fs.size)
        × ((elim o as (λ (o : Option ℕ). ℕ × Fs) [
          | some b ↦ (b, bzero b (mark_used b fs))
          | none ↦ (0, fs)
        ]).1.bmapstart
            ≡ fs.bmapstart)) [ some b ↦ (refl, refl) | none ↦ (refl, refl) ]

-- The bitmap and block 0 are in use, and addresses fit a `uint`.
pub record IsLaidOut (fs : Fs) : Type 0 where
  pub formatted : IsFormatted fs
  pub boot : in_use fs 0 ≡ true
  pub small : fs.size ≤ 2 ^ 32

-- A block that a file has, which is none of the bitmap.
pub record IsOwned (fs : Fs) (a : ℕ) : Type 0 where
  pub used : in_use fs a ≡ true
  pub inside : a < fs.size
  pub apart : (d : ℕ) → d < fs.size → a ≢ bitmap_block fs d

-- `balloc` has handed out block `b`.
pub record Alloc (fs : Fs) (b : ℕ) (fs' : Fs) : Type 0 where
  pub same_size : fs'.size ≡ fs.size
  pub inside : b < fs.size
  pub nonzero : b ≢ 0
  pub was_free : in_use fs b ≡ false
  pub used : in_use fs' b ≡ true
  pub laid_out : IsLaidOut fs'
  pub owned : IsOwned fs' b
  pub fits : b < 2 ^ 32
  pub zeroed : (i : ℕ) → fs'.block b i ≡ 0
  pub before : (c : ℕ) → c < fs'.size → in_use fs' c ≡ false → in_use fs c ≡ false
  pub keeps : (a : ℕ) → IsOwned fs a → (fs'.block a ≡ fs.block a) × IsOwned fs' a × (a ≢ b)

abbrev pub AllUsed : Fs → Type 0
AllUsed fs = (c : ℕ) → c < fs.size → in_use fs c ≡ true

Taken-Alloc :
    (fs : Fs) (b : ℕ) (fs' : Fs)
    → IsLaidOut fs
    → fs'.size ≡ fs.size
    → fs'.bmapstart ≡ fs.bmapstart
    → Taken fs b fs'
    → Alloc fs b fs'
Taken-Alloc fs b fs' l same_size same_start t = record {
  same_size = same_size;
  inside = t.inside;
  nonzero = other 0 l.boot;
  was_free = t.was_free;
  used = used_b;
  laid_out = record {
    formatted = λ c lt.
        let (inside, used) = l.formatted c (omega (arith, lt)) in
        (
          omega (arith, inside, same_map c),
          ap (in_use fs') (same_map c) ∙ stays (bitmap_block fs c) inside used,
        );
    boot = stays 0 (omega (arith, t.inside)) l.boot;
    small = omega (arith, l.small);
  };
  owned = record {
    used = used_b;
    inside = omega (arith, t.inside);
    apart =
        λ d lt e. other (bitmap_block fs d) (l.formatted d (omega (arith, lt))).1 (e ∙ same_map d);
  };
  fits = omega (arith, t.inside, l.small);
  zeroed = t.zeroed;
  before = λ c lt e. ground (arith, t.bits c (omega (arith, lt)));
  keeps = λ a o. (
    t.others_kept a (λ e. other a o.used (sym e)) o.apart,
    record {
      used = stays a o.inside o.used;
      inside = omega (arith, o.inside);
      apart = λ d lt e. o.apart d (omega (arith, lt)) (e ∙ same_map d);
    },
    λ e. other a o.used (sym e),
  );
}
  where
    other : (c : ℕ) → in_use fs c ≡ true → b ≢ c
    other c used e = cc (used, t.was_free, ap (in_use fs) e)

    stays : (c : ℕ) → c < fs.size → in_use fs c ≡ true → in_use fs' c ≡ true
    stays c lt used = t.bits c lt ∙ ground (arith, used)

    used_b : in_use fs' b ≡ true
    used_b = t.bits b t.inside ∙ ground arith

    same_map : (c : ℕ) → bitmap_block fs' c ≡ bitmap_block fs c
    same_map c = ap (λ n. c / bpb + n) same_start

pub alloc_lem :
    (fs : Fs)
    → IsLaidOut fs
    → (AllUsed fs × (balloc fs ≡ (0, fs)))
      ⊎ ((b : ℕ) × (fs' : Fs) × (balloc fs ≡ (b, fs')) × Alloc fs b fs')
alloc_lem fs l = elim (balloc_lem fs l.formatted) [
  | inl full ↦ inl full
  | inr (b, fs', e, t) ↦ inr (
    b,
    fs',
    e,
    Taken-Alloc fs b fs' l (ap (λ (r : ℕ × Fs). r.1.size) (sym e) ∙ (balloc-layout fs).0)
        (ap (λ (r : ℕ × Fs). r.1.bmapstart) (sym e) ∙ (balloc-layout fs).1) t,
  )
]
