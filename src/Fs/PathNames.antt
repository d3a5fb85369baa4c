-- ===== src/Fs/PathNames.antt =====
-- The names of a path: `skipelem` and the loop of `namex` of initial-xv6/src/kernel/fs.c. A path is
-- the list of its bytes up to the terminator.
use mini_project_3_amey_chou.Common.{
  ℕ, zero, suc, ◌<◌, ◌≤◌, ◌≡◌, inl, inr, false, Option, none, some, List, [], ◌∷◌, ◌==◌, refl,
  arith, if◌then◌else◌, length, take, ap, ap₂, ◌∙◌, Bool-cases,
}

-- `DIRSIZ`
abbrev pub dirsiz : ℕ
dirsiz = 14

-- `while(*path == '/') path++;`
unfoldable pub skip_slashes : List ℕ → List ℕ
skip_slashes [] = []
skip_slashes (c ∷ path) = let rest = skip_slashes path in if c == b'/' then rest else c ∷ path

-- `while(*path != '/' && *path != 0) path++;`: what it passes, and what is left.
unfoldable pub split_elem : List ℕ → List ℕ × List ℕ
split_elem [] = ([], [])
split_elem (c ∷ path) =
    let (s, rest) = split_elem path in if c == b'/' then ([], c ∷ path) else (c ∷ s, rest)

-- `skipelem`: the name, which is cut at DIRSIZ bytes, and the path behind it.
unfoldable pub skipelem : List ℕ → Option (List ℕ × List ℕ)
skipelem path = elim (skip_slashes path) [
  | [] ↦ none
  | c ∷ l ↦ let (s, rest) = split_elem (c ∷ l) in some (take dirsiz s, skip_slashes rest)
]

-- The names that the loop of `namex` looks up one after the other, if no lookup fails.
unfoldable pub path_names : ℕ → List ℕ → List (List ℕ)
path_names zero path = []
path_names (suc fuel) path = elim (skipelem path) [
  | none ↦ []
  | some (name, rest) ↦ name ∷ path_names fuel rest
]

-- The parts of a path between its slashes: the first, and the others.
abbrev pub parts : List ℕ → List ℕ × List (List ℕ)
parts [] = ([], [])
parts (c ∷ l) = let (w, ws) = parts l in if c == b'/' then ([], w ∷ ws) else (c ∷ w, ws)

-- Of each part that is not empty, the first DIRSIZ bytes.
abbrev pub trimmed : List (List ℕ) → List (List ℕ)
trimmed [] = []
trimmed ([] ∷ ws) = trimmed ws
trimmed ((c ∷ w) ∷ ws) = take dirsiz (c ∷ w) ∷ trimmed ws

abbrev pub components : List ℕ → List (List ℕ)
components path = trimmed ((parts path).0 ∷ (parts path).1)

skip_other : (c : ℕ) (l : List ℕ) → (c == b'/') ≡ false → skip_slashes (c ∷ l) ≡ c ∷ l
unfolding skip_slashes
skip_other c l other = rw other refl

skip_slashes-components : (l : List ℕ) → components (skip_slashes l) ≡ components l
unfolding skip_slashes
skip_slashes-components [] = refl
skip_slashes-components (c ∷ l) = elim (Bool-cases (c == b'/')) [
  | inl slash ↦ rw slash (skip_slashes-components l)
  | inr other ↦ ap components (skip_other c l other)
]

length-skip_slashes : (l : List ℕ) → length (skip_slashes l) ≤ length l
unfolding skip_slashes
length-skip_slashes [] = omega arith
length-skip_slashes (c ∷ l) = ground (arith, length-skip_slashes l)

length-split_elem : (l : List ℕ) → length (split_elem l).1 ≤ length l
unfolding split_elem
length-split_elem [] = omega arith
length-split_elem (c ∷ l) = ground (arith, length-split_elem l)

-- The element is the first part; the path left has the other parts, behind an empty one.
split_elem-parts :
    (l : List ℕ)
    → ((split_elem l).0 ≡ (parts l).0) × (components (split_elem l).1 ≡ trimmed (parts l).1)
unfolding split_elem
split_elem-parts [] = (refl, refl)
split_elem-parts (c ∷ l) = elim (Bool-cases (c == b'/')) [
  | inl slash ↦ rw slash (refl, rw slash refl)
  | inr other ↦ let (a, b) = split_elem-parts l in rw other (ap (λ w. c ∷ w) a, b)
]

shorter : (c : ℕ) (l : List ℕ) → (c == b'/') ≡ false → length (split_elem (c ∷ l)).1 ≤ length l
unfolding split_elem
shorter c l other = rw other (length-split_elem l)

first_component :
    (c : ℕ) (l : List ℕ)
    → (c == b'/') ≡ false
    → take dirsiz (parts (c ∷ l)).0 ∷ trimmed (parts (c ∷ l)).1 ≡ components (c ∷ l)
first_component c l other = rw other refl

-- The head of a path without leading slashes is no slash.
NoSlash : List ℕ → Type 0
NoSlash [] = Unit
NoSlash (c ∷ l) = (c == b'/') ≡ false

skip_slashes-NoSlash : (l : List ℕ) → NoSlash (skip_slashes l)
unfolding skip_slashes NoSlash
skip_slashes-NoSlash [] = tt
skip_slashes-NoSlash (c ∷ l) = elim (Bool-cases (c == b'/')) [
  | inl slash ↦ rw slash (skip_slashes-NoSlash l)
  | inr other ↦ rw other other
]

-- The loop looks up the parts of the path that are not empty, from left to right, each cut at
-- DIRSIZ bytes. One round more than the path has bytes is enough.
pub path_names_lem :
    (fuel : ℕ) (path : List ℕ) → length path < fuel → path_names fuel path ≡ components path
unfolding path_names skipelem NoSlash
path_names_lem zero path lt = absurd (omega arith)
path_names_lem (suc fuel) path lt =
    cases (skip_slashes path) (skip_slashes-NoSlash path) (omega (arith, length-skip_slashes path))
      (λ rest h. path_names_lem fuel rest h)
    ∙ skip_slashes-components path
  where
    cases :
        (l : List ℕ)
        → NoSlash l
        → length l ≤ fuel
        → ((rest : List ℕ) → length rest < fuel → path_names fuel rest ≡ components rest)
        → elim (elim l as (λ (l : List ℕ). Option (List ℕ × List ℕ)) [
          | [] ↦ none
          | c ∷ l ↦ some (take dirsiz (split_elem (c ∷ l)).0, skip_slashes (split_elem (c ∷ l)).1)
        ])
            as (λ (o : Option (List ℕ × List ℕ)). List (List ℕ)) [
              | none ↦ []
              | some (name, rest) ↦ name ∷ path_names fuel rest
            ]
          ≡ components l
    cases [] h lt ih = refl
    cases (c ∷ l) h lt ih =
        let rest = (split_elem (c ∷ l)).1 in
        let (name, others) = split_elem-parts (c ∷ l) in
        ap₂ (λ (w : List ℕ) (ws : List (List ℕ)). take dirsiz w ∷ ws) name
          (ih (skip_slashes rest) (omega (arith, length-skip_slashes rest, shorter c l h))
            ∙ skip_slashes-components rest
            ∙ others)
        ∙ first_component c l h
