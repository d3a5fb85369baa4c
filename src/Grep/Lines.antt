-- ===== src/Grep/Lines.antt =====
-- The lines of a text, and the inner loop of `grep` of initial-xv6/src/user/grep.c.
use mini_project_3_amey_chou.Common.{
  ℕ, zero, suc, ◌<◌, ◌≤◌, ◌≡◌, ◌≢◌, inl, inr, refl, arith, false, Option, none, some, List, [], ◌∷◌,
  ◌++◌, ◌==◌, if◌then◌else◌, length, Bool-cases, ap, sym, ◌∙◌,
}
use mathlib.Core.List.{append_assoc}
use mini_project_3_amey_chou.Grep.{strchr, match, grep_lines}

abbrev pub NoNul : List ℕ → Type 0
NoNul [] = Unit
NoNul (c ∷ l) = (c ≢ 0) × NoNul l

abbrev pub join : ℕ → List (List ℕ) × List ℕ → List (List ℕ) × List ℕ
join c ([], left) = ([], c ∷ left)
join c (x ∷ xs, left) = ((c ∷ x) ∷ xs, left)

-- The lines that end, and what stands behind the last of them.
abbrev pub split_lines : List ℕ → List (List ℕ) × List ℕ
split_lines [] = ([], [])
split_lines (c ∷ l) =
    let (ls, left) = split_lines l in if c == b'\n' then ([] ∷ ls, left) else join c (ls, left)

-- The lines that match, each with its end.
abbrev pub written : (pattern : List ℕ) → List (List ℕ) → List ℕ
written pattern [] = []
written pattern (l ∷ ls) =
    let rest = written pattern ls in if match pattern l then l ++ (b'\n' ∷ rest) else rest

pub written-append :
    (pattern : List ℕ) (ls ms : List (List ℕ))
    → written pattern (ls ++ ms) ≡ written pattern ls ++ written pattern ms
written-append pattern [] ms = refl
written-append pattern (l ∷ ls) ms = elim (Bool-cases (match pattern l)) [
  | inl hit ↦ rw hit (
      ap (λ r. l ++ (b'\n' ∷ r)) (written-append pattern ls ms)
      ∙ sym (append_assoc l (b'\n' ∷ written pattern ls) (written pattern ms)))
  | inr miss ↦ rw miss (written-append pattern ls ms)
]

not_eq : (c : ℕ) → c ≢ b'\n' → (c == b'\n') ≡ false
not_eq c ne = ground arith

join-append :
    (c : ℕ) (ls : List (List ℕ)) (left : List ℕ) (b : List ℕ)
    → c ≢ b'\n'
    → join c (ls ++ (split_lines (left ++ b)).0, (split_lines (left ++ b)).1) ≡ (
        let (ms, rest) = join c (ls, left) in
        (ms ++ (split_lines (rest ++ b)).0, (split_lines (rest ++ b)).1))
join-append c [] left b ne = rw (not_eq c ne) refl
join-append c (x ∷ xs) left b ne = refl

pub split_lines-append :
    (a b : List ℕ)
    → split_lines (a ++ b) ≡ (
        let (ls, left) = split_lines a in
        let (ms, rest) = split_lines (left ++ b) in (ls ++ ms, rest))
split_lines-append [] b = refl
split_lines-append (c ∷ a) b =
    let ih = split_lines-append a b in
    elim (Bool-cases (c == b'\n')) [
      | inl last ↦ rw last (ap (λ (q : List (List ℕ) × List ℕ). ([] ∷ q.0, q.1)) ih)
      | inr more ↦ rw more (
          ap (λ (q : List (List ℕ) × List ℕ). join c (q.0, q.1)) ih
          ∙ join-append c (split_lines a).0 (split_lines a).1 b (λ e. ground arith))
    ]

-- What `strchr` tells about the lines of a buffer.
abbrev Cut : List ℕ → Option (List ℕ × List ℕ) → Type 0
Cut l none = split_lines l ≡ ([], l)
Cut l (some (a, b)) =
    (split_lines l ≡ (a ∷ (split_lines b).0, (split_lines b).1)) × NoNul b × (length b < length l)

not_nul : (c : ℕ) → c ≢ 0 → (c == 0) ≡ false
not_nul c ne = ground arith

later :
    (c : ℕ) (l : List ℕ) (o : Option (List ℕ × List ℕ))
    → (c == b'\n') ≡ false
    → Cut l o
    → Cut (c ∷ l) (elim o [ none ↦ none | some x ↦ some (c ∷ x.0, x.1) ])
later c l none more h = rw more (ap (λ (q : List (List ℕ) × List ℕ). join c (q.0, q.1)) h)
later c l (some (a, b)) more h =
    (rw more (ap (λ (q : List (List ℕ) × List ℕ). join c (q.0, q.1)) h.0), h.1, omega (arith, h.2))

strchr-Cut : (l : List ℕ) → NoNul l → Cut l (strchr b'\n' l)
unfolding strchr
strchr-Cut [] v = refl
strchr-Cut (c ∷ l) v = rw (not_nul c v.0) (extend c l (strchr b'\n' l) v (strchr-Cut l v.1))
  where
    extend :
        (c : ℕ) (l : List ℕ) (o : Option (List ℕ × List ℕ))
        → NoNul (c ∷ l)
        → Cut l o
        → Cut (c ∷ l) (
            if c == b'\n'
            then some ([], l)
            else elim o [ none ↦ none | some x ↦ some (c ∷ x.0, x.1) ])
    extend c l o v h = elim (Bool-cases (c == b'\n')) [
      | inl last ↦ rw last ((rw last refl), v.1, omega arith)
      | inr more ↦ rw more (later c l o more h)
    ]

-- The inner loop writes the lines that match, and leaves what stands behind the last line.
pub grep_lines-split_lines :
    (fuel : ℕ) (pattern buf : List ℕ)
    → length buf ≤ fuel
    → NoNul buf
    → grep_lines fuel pattern buf ≡ (written pattern (split_lines buf).0, (split_lines buf).1)
unfolding grep_lines
grep_lines-split_lines zero pattern [] le v = refl
grep_lines-split_lines zero pattern (c ∷ l) le v = absurd (omega arith)
grep_lines-split_lines (suc fuel) pattern buf le v =
    finish pattern buf fuel (strchr b'\n' buf) (strchr-Cut buf v) le
      (λ l le v. grep_lines-split_lines fuel pattern l le v)
  where
    finish :
        (pattern buf : List ℕ) (fuel : ℕ) (o : Option (List ℕ × List ℕ))
        → Cut buf o
        → length buf ≤ suc fuel
        → ((l : List ℕ)
            → length l ≤ fuel
            → NoNul l
            → grep_lines fuel pattern l ≡ (written pattern (split_lines l).0, (split_lines l).1))
        → elim o as (λ (o : Option (List ℕ × List ℕ)). List ℕ × List ℕ) [
          | none ↦ ([], buf)
          | some (line, rest) ↦
              let (out, left) = grep_lines fuel pattern rest in
              ((if match pattern line then line ++ (b'\n' ∷ out) else out), left)
        ]
          ≡ (written pattern (split_lines buf).0, (split_lines buf).1)
    finish pattern buf fuel none h le ih =
        sym (ap (λ (q : List (List ℕ) × List ℕ). (written pattern q.0, q.1)) h)
    finish pattern buf fuel (some (a, b)) (h, v, shorter) le ih =
        ap (λ (q : List ℕ × List ℕ). ((if match pattern a then a ++ (b'\n' ∷ q.0) else q.0), q.1))
          (ih b (omega arith) v)
        ∙ sym (ap (λ (q : List (List ℕ) × List ℕ). (written pattern q.0, q.1)) h)
