-- ===== src/Bio/Lookup.antt =====
-- The two searches of `bget` of initial-xv6/src/kernel/bio.c.
use mini_project_3_amey_chou.Common.{
  ℕ, ◌≡◌, ◌⊎◌, inl, inr, refl, Bool, true, false, Option, none, some, List, [], ◌∷◌, if◌then◌else◌,
  Bool-cases,
}
use mini_project_3_amey_chou.Bio.{first_where, last_where}

abbrev pub IsIn : ℕ → List ℕ → Type 0
IsIn i [] = ⊥
IsIn i (j ∷ l) = (j ≡ i) ⊎ IsIn i l

abbrev pub Hit : (ℕ → Bool) → List ℕ → Option ℕ → Type 0
Hit test l none = (i : ℕ) → IsIn i l → test i ≡ false
Hit test l (some i) = (test i ≡ true) × IsIn i l

-- Beyond that, every entry behind the last hit fails the test.
abbrev pub LastHit : (ℕ → Bool) → List ℕ → Option ℕ → Type 0
LastHit test l none = (i : ℕ) → IsIn i l → test i ≡ false
LastHit test [] (some i) = ⊥
LastHit test (j ∷ l) (some i) =
    ((j ≡ i) × (test i ≡ true) × ((k : ℕ) → IsIn k l → test k ≡ false)) ⊎ LastHit test l (some i)

pub first_where-Hit : (test : ℕ → Bool) (l : List ℕ) → Hit test l (first_where test l)
unfolding first_where
first_where-Hit test [] = λ i h. absurd h
first_where-Hit test (j ∷ l) = elim (Bool-cases (test j)) [
  | inl yes_ ↦ rw yes_ (yes_, inl refl)
  | inr no_ ↦ rw no_ (weaken test j l (first_where test l) no_ (first_where-Hit test l))
]
  where
    weaken :
        (test : ℕ → Bool) (j : ℕ) (l : List ℕ) (o : Option ℕ)
        → test j ≡ false
        → Hit test l o
        → Hit test (j ∷ l) o
    weaken test j l none no_ h = λ i m. elim m [ inl e ↦ cc | inr deep ↦ h i deep ]
    weaken test j l (some i) no_ h = (h.0, inr h.1)

pub last_where-LastHit : (test : ℕ → Bool) (l : List ℕ) → LastHit test l (last_where test l)
unfolding last_where
last_where-LastHit test [] = λ i h. absurd h
last_where-LastHit test (j ∷ l) =
    combine test j l (last_where test l) (test j) refl (last_where-LastHit test l)
  where
    combine :
        (test : ℕ → Bool) (j : ℕ) (l : List ℕ) (o : Option ℕ) (b : Bool)
        → test j ≡ b
        → LastHit test l o
        → LastHit test (j ∷ l) (elim o [ some k ↦ some k | none ↦ if b then some j else none ])
    combine test j l (some k) b e h = inr h
    combine test j l none true e h = inl (refl, e, h)
    combine test j l none false e h = λ i m. elim m [ inl at ↦ cc | inr deep ↦ h i deep ]

pub LastHit-Hit :
    (test : ℕ → Bool) (l : List ℕ) (i : ℕ) → LastHit test l (some i) → (test i ≡ true) × IsIn i l
LastHit-Hit test [] i h = absurd h
LastHit-Hit test (j ∷ l) i (inl (e, t, rest)) = (t, inl e)
LastHit-Hit test (j ∷ l) i (inr h) = let (t, m) = LastHit-Hit test l i h in (t, inr m)
