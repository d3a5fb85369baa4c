-- ===== src/Grep/Stream.antt =====
-- `grep` of initial-xv6/src/user/grep.c on a whole file, read by pieces of any size.
use mathlib.Core.List.{append_assoc}
use mini_project_3_amey_chou.Common.{
  ℕ, zero, suc, ◌-◌, ◌<◌, ◌≤◌, ◌≡◌, ◌≢◌, inl, inr, refl, arith, false, List, [], ◌∷◌, ◌++◌, ◌==◌,
  ltb, if◌then◌else◌, length, take, drop, length-append, Bool-cases, ap, sym, ◌∙◌, append-nil,
  subst,
}
use mini_project_3_amey_chou.Grep.{grep_lines, read, grep}
use mini_project_3_amey_chou.Grep.Lines.{
  NoNul, join, split_lines, written, written-append, split_lines-append, grep_lines-split_lines,
}

-- Every line, the last that does not end included, has less than 1023 characters.
abbrev pub Fits : List (List ℕ) → List ℕ → Type 0
Fits [] left = length left < 1023
Fits (l ∷ ls) left = (length l < 1023) × Fits ls left

abbrev NoLine : List ℕ → Type 0
NoLine [] = Unit
NoLine (c ∷ l) = (c ≢ b'\n') × NoLine l

abbrev first_length : List (List ℕ) → List ℕ → ℕ
first_length [] left = length left
first_length (l ∷ ls) left = length l

Fits-first_length :
    (ls : List (List ℕ)) (left : List ℕ) → Fits ls left → first_length ls left < 1023
Fits-first_length [] left h = h
Fits-first_length (l ∷ ls) left h = h.0

Fits-append : (ls ms : List (List ℕ)) (left : List ℕ) → Fits (ls ++ ms) left → Fits ms left
Fits-append [] ms left h = h
Fits-append (l ∷ ls) ms left h = Fits-append ls ms left h.1

first_length-join :
    (c : ℕ) (ls : List (List ℕ)) (left : List ℕ)
    → first_length (join c (ls, left)).0 (join c (ls, left)).1 ≡ suc (first_length ls left)
first_length-join c [] left = refl
first_length-join c (l ∷ ls) left = refl

not_eq : (c : ℕ) → c ≢ b'\n' → (c == b'\n') ≡ false
not_eq c ne = ground arith

length-first_length :
    (buf file : List ℕ)
    → NoLine buf
    → length buf ≤ first_length (split_lines (buf ++ file)).0 (split_lines (buf ++ file)).1
length-first_length [] file h = omega arith
length-first_length (c ∷ buf) file h = rw (not_eq c h.0) (
    omega (
      arith,
      length-first_length buf file h.1,
      first_length-join c (split_lines (buf ++ file)).0 (split_lines (buf ++ file)).1,
    ))

join-NoLine :
    (c : ℕ) (ls : List (List ℕ)) (left : List ℕ)
    → c ≢ b'\n'
    → NoLine left
    → NoLine (join c (ls, left)).1
join-NoLine c [] left ne h = (ne, h)
join-NoLine c (l ∷ ls) left ne h = h

split_lines-NoLine : (l : List ℕ) → NoLine (split_lines l).1
split_lines-NoLine [] = tt
split_lines-NoLine (c ∷ l) = elim (Bool-cases (c == b'\n')) [
  | inl last ↦ rw last (split_lines-NoLine l)
  | inr more ↦
      rw more (
        join-NoLine c (split_lines l).0 (split_lines l).1 (λ e. ground arith)
          (split_lines-NoLine l))
]

join-NoNul :
    (c : ℕ) (ls : List (List ℕ)) (left : List ℕ) → c ≢ 0 → NoNul left → NoNul (join c (ls, left)).1
join-NoNul c [] left ne h = (ne, h)
join-NoNul c (l ∷ ls) left ne h = h

split_lines-NoNul : (l : List ℕ) → NoNul l → NoNul (split_lines l).1
split_lines-NoNul [] v = tt
split_lines-NoNul (c ∷ l) v = elim (Bool-cases (c == b'\n')) [
  | inl last ↦ rw last (split_lines-NoNul l v.1)
  | inr more ↦
      rw more (join-NoNul c (split_lines l).0 (split_lines l).1 v.0 (split_lines-NoNul l v.1))
]

NoNul-append : (a b : List ℕ) → NoNul (a ++ b) → NoNul a × NoNul b
NoNul-append [] b v = (tt, v)
NoNul-append (c ∷ a) b v = let (va, vb) = NoNul-append a b v.1 in ((v.0, va), vb)

append-NoNul : (a b : List ℕ) → NoNul a → NoNul b → NoNul (a ++ b)
append-NoNul [] b va vb = vb
append-NoNul (c ∷ a) b va vb = (va.0, append-NoNul a b va.1 vb)

take-append-drop : (n : ℕ) (l : List ℕ) → take n l ++ drop n l ≡ l
take-append-drop zero l = refl
take-append-drop (suc n) [] = refl
take-append-drop (suc n) (c ∷ l) = ap (λ t. c ∷ t) (take-append-drop n l)

NoLine-split_lines : (buf : List ℕ) → NoLine buf → split_lines buf ≡ ([], buf)
NoLine-split_lines [] h = refl
NoLine-split_lines (c ∷ buf) h =
    rw (not_eq c h.0)
      (ap (λ (q : List (List ℕ) × List ℕ). join c (q.0, q.1)) (NoLine-split_lines buf h.1))

take-nil : (n : ℕ) (l : List ℕ) → 0 < n → take n l ≡ [] → l ≡ []
take-nil zero l lt e = absurd (omega arith)
take-nil (suc n) [] lt e = refl
take-nil (suc n) (c ∷ l) lt e = cc

-- A round that gets the piece `chunk` of the file.
grep_step :
    (pattern buf chunk rest file : List ℕ)
    → chunk ++ rest ≡ file
    → NoNul (buf ++ file)
    → Fits (split_lines (buf ++ file)).0 (split_lines (buf ++ file)).1
    → (let (out, left) = grep_lines (length (buf ++ chunk)) pattern (buf ++ chunk) in
        (out ++ written pattern (split_lines (left ++ rest)).0
          ≡ written pattern (split_lines (buf ++ file)).0)
        × NoNul (left ++ rest)
        × Fits (split_lines (left ++ rest)).0 (split_lines (left ++ rest)).1
        × NoLine left)
grep_step pattern buf chunk rest file e v fits = subst (Goal pattern rest file buf) (sym lines) (
  (sym (written-append pattern ls ms)
      ∙ ap (λ (q : List (List ℕ) × List ℕ). written pattern q.0) (sym all)),
  append-NoNul left rest (split_lines-NoNul full vf.0) vf.1,
  Fits-append ls ms tail (subst (λ (q : List (List ℕ) × List ℕ). Fits q.0 q.1) all fits),
  split_lines-NoLine full,
)
  where
    Goal : (pattern rest file buf : List ℕ) → List ℕ × List ℕ → Type 0
    Goal pattern rest file buf q =
        (q.0 ++ written pattern (split_lines (q.1 ++ rest)).0
          ≡ written pattern (split_lines (buf ++ file)).0)
        × NoNul (q.1 ++ rest)
        × Fits (split_lines (q.1 ++ rest)).0 (split_lines (q.1 ++ rest)).1
        × NoLine q.1

    full : List ℕ
    full = buf ++ chunk

    left : List ℕ
    left = (split_lines full).1

    ls : List (List ℕ)
    ls = (split_lines full).0

    ms : List (List ℕ)
    ms = (split_lines (left ++ rest)).0

    tail : List ℕ
    tail = (split_lines (left ++ rest)).1

    whole : full ++ rest ≡ buf ++ file
    whole = append_assoc buf chunk rest ∙ ap (λ l. buf ++ l) e

    vf : NoNul full × NoNul rest
    vf = NoNul-append full rest (subst NoNul (sym whole) v)

    all : split_lines (buf ++ file) ≡ (ls ++ ms, tail)
    all = ap split_lines (sym whole) ∙ split_lines-append full rest

    lines : grep_lines (length full) pattern full ≡ (written pattern ls, left)
    lines = grep_lines-split_lines (length full) pattern full (omega arith) vf.0

grep-written :
    (rounds : ℕ) (sizes : ℕ → ℕ) (pattern buf file : List ℕ)
    → length file < rounds
    → NoNul (buf ++ file)
    → NoLine buf
    → Fits (split_lines (buf ++ file)).0 (split_lines (buf ++ file)).1
    → grep rounds sizes pattern buf file ≡ written pattern (split_lines (buf ++ file)).0
unfolding grep read
grep-written zero sizes pattern buf file lt v h fits = absurd (omega arith)
grep-written (suc rounds) sizes pattern buf file lt v h fits =
    round (take n file) (drop n file) refl (take-append-drop n file)
      (λ l rest. grep-written rounds sizes pattern l rest)
  where
    asked : ℕ
    asked = 1024 - length buf - 1

    n : ℕ
    n = if ltb (sizes rounds) asked then suc (sizes rounds) else asked

    some_asked : 0 < asked
    some_asked = omega (
      arith,
      length-first_length buf file h,
      Fits-first_length (split_lines (buf ++ file)).0 (split_lines (buf ++ file)).1 fits,
    )

    some_read : 0 < n
    some_read = ground (arith, some_asked)

    round :
        (chunk rest : List ℕ)
        → chunk ≡ take n file
        → chunk ++ rest ≡ file
        → ((l rest : List ℕ)
            → length rest < rounds
            → NoNul (l ++ rest)
            → NoLine l
            → Fits (split_lines (l ++ rest)).0 (split_lines (l ++ rest)).1
            → grep rounds sizes pattern l rest ≡ written pattern (split_lines (l ++ rest)).0)
        → elim chunk as (λ (l : List ℕ). List ℕ) [
          | [] ↦ []
          | c ∷ more ↦
              let full = buf ++ (c ∷ more) in
              let (out, left) = grep_lines (length full) pattern full in
              out ++ grep rounds sizes pattern left rest
        ]
          ≡ written pattern (split_lines (buf ++ file)).0
    round [] rest e f ih = sym (
        ap (λ l. written pattern (split_lines l).0)
          (ap (λ l. buf ++ l) (take-nil n file some_read (sym e)) ∙ append-nil buf)
        ∙ ap (λ (q : List (List ℕ) × List ℕ). written pattern q.0) (NoLine-split_lines buf h))
    round (c ∷ more) rest e f ih =
        let (out, vl, fl, hl) = grep_step pattern buf (c ∷ more) rest file f v fits in
        ap (λ r. (grep_lines (length (buf ++ (c ∷ more))) pattern (buf ++ (c ∷ more))).0 ++ r)
          (ih _ rest (omega (arith, ap length f, length-append (c ∷ more) rest, lt)) vl hl fl)
        ∙ out

-- On a file of text without the character '\0' whose lines have fewer than 1023 characters, `grep`
-- writes the lines that match, each with its end and in their order, however the calls of `read`
-- cut the file; a last line that has no end is not written. One round more than the file has
-- characters is enough.
pub grep_lem :
    (rounds : ℕ) (sizes : ℕ → ℕ) (pattern file : List ℕ)
    → length file < rounds
    → NoNul file
    → Fits (split_lines file).0 (split_lines file).1
    → grep rounds sizes pattern [] file ≡ written pattern (split_lines file).0
grep_lem rounds sizes pattern file lt v fits =
    grep-written rounds sizes pattern [] file lt v tt fits
