-- ===== src/Grep/Match.antt =====
-- The matcher of initial-xv6/src/user/grep.c against the meaning of a pattern.
use mini_project_3_amey_chou.Common.{
  ℕ, ◌≡◌, ◌≢◌, ◌⊎◌, inl, inr, refl, sym, ◌∙◌, arith, Bool, true, false, List, [], ◌∷◌, ◌==◌,
  if◌then◌else◌, ◌||◌, Bool-cases, ◌↔◌,
}
use mini_project_3_amey_chou.Grep.{matchstar, match_char, at_end, matchhere, match_anywhere, match}

-- A pattern, parsed: characters one by one or any number of times, and perhaps the end of the text.
pub data Pattern : Type 0 where
  done : Pattern
  ended : Pattern
  one : ℕ → Pattern → Pattern
  many : ℕ → Pattern → Pattern

abbrev pub parse : List ℕ → Pattern
parse [] = done
parse (c ∷ []) = if c == b'$' then ended else one c done
parse (c ∷ d ∷ re) =
    let starred = parse re in
    let plain = parse (d ∷ re) in if d == b'*' then many c starred else one c plain

-- A dot covers every character.
abbrev pub Covers : (c t : ℕ) → Type 0
Covers c t = (c ≡ b'.') ⊎ (c ≡ t)

-- The pattern matches a text from its first character on.
pub data Matches : Pattern → List ℕ → Type 0 where
  here : {text : List ℕ} → Matches done text
  at_last : Matches ended []
  step :
      {c t : ℕ} {p : Pattern} {text : List ℕ}
      → Covers c t
      → Matches p text
      → Matches (one c p) (t ∷ text)
  no_more : {c : ℕ} {p : Pattern} {text : List ℕ} → Matches p text → Matches (many c p) text
  once_more :
      {c t : ℕ} {p : Pattern} {text : List ℕ}
      → Covers c t
      → Matches (many c p) text
      → Matches (many c p) (t ∷ text)

-- It matches from some place on.
abbrev pub Occurs : Pattern → List ℕ → Type 0
Occurs p [] = Matches p []
Occurs p (t ∷ text) = Matches p (t ∷ text) ⊎ Occurs p text

-- What a pattern with or without `^` means.
abbrev pub Means : (re text : List ℕ) → Type 0
Means [] text = Occurs (parse []) text
Means (c ∷ re) text =
    ((c ≡ b'^') × Matches (parse re) text) ⊎ ((c ≢ b'^') × Occurs (parse (c ∷ re)) text)

false≢true : ◌≡◌ {A = Bool} false true → ⊥
false≢true e = cc

Covers-cases :
    (c t : ℕ)
    → ((((c == b'.') || (c == t)) ≡ true) × Covers c t)
      ⊎ ((((c == b'.') || (c == t)) ≡ false) × (Covers c t → ⊥))
Covers-cases c t = elim (Bool-cases (c == b'.')) [
  | inl dot ↦ inl (rw dot refl, inl (ground arith))
  | inr other ↦ elim (Bool-cases (c == t)) [
    | inl same ↦ inl (rw (other, same) refl, inr (ground arith))
    | inr differs ↦ inr (rw (other, differs) refl, λ h. ground arith)
  ]
]

match_char-Matches :
    (next : List ℕ → Bool) (p : Pattern)
    → ((text : List ℕ) → (next text ≡ true) ↔ Matches p text)
    → (c : ℕ) (text : List ℕ) → (match_char next c text ≡ true) ↔ Matches (one c p) text
unfolding match_char
match_char-Matches next p h c [] = (λ e. absurd (ground arith), λ m. elim m [ ])
match_char-Matches next p h c (t ∷ text) = elim (Covers-cases c t) [
  | inl (test, cov) ↦
      (λ e. step cov ((h text).0 (sym (rw test refl) ∙ e)), λ m. rw test ((h text).1 (tail m)))
  | inr (test, un) ↦ (λ e. absurd (false≢true (sym (rw test refl) ∙ e)), λ m. absurd (un (head m)))
]
  where
    head : {c t : ℕ} {p : Pattern} {text : List ℕ} → Matches (one c p) (t ∷ text) → Covers c t
    head (step cov m) = cov

    tail : {c t : ℕ} {p : Pattern} {text : List ℕ} → Matches (one c p) (t ∷ text) → Matches p text
    tail (step cov m) = m

Covers-star_cases :
    (c t : ℕ)
    → ((((t == c) || (c == b'.')) ≡ true) × Covers c t)
      ⊎ ((((t == c) || (c == b'.')) ≡ false) × (Covers c t → ⊥))
Covers-star_cases c t = elim (Bool-cases (t == c)) [
  | inl same ↦ inl (rw same refl, inr (ground arith))
  | inr differs ↦ elim (Bool-cases (c == b'.')) [
    | inl dot ↦ inl (rw (differs, dot) refl, inl (ground arith))
    | inr other ↦ inr (rw (differs, other) refl, λ h. ground arith)
  ]
]

matchstar-Matches :
    (next : List ℕ → Bool) (p : Pattern)
    → ((text : List ℕ) → (next text ≡ true) ↔ Matches p text)
    → (c : ℕ) (text : List ℕ) → (matchstar next c text ≡ true) ↔ Matches (many c p) text
unfolding matchstar
matchstar-Matches next p h c [] = (λ e. no_more ((h []).0 e), λ m. (h []).1 (at_nil m))
  where
    at_nil : {c : ℕ} {p : Pattern} → Matches (many c p) [] → Matches p []
    at_nil (no_more m) = m
matchstar-Matches next p h c (t ∷ text) =
    let (to, from) = matchstar-Matches next p h c text in
    elim (Bool-cases (next (t ∷ text))) [
      | inl now ↦ (λ e. no_more ((h (t ∷ text)).0 now), λ m. rw now refl)
      | inr later ↦ elim (Covers-star_cases c t) [
        | inl (test, cov) ↦ (
          λ e. once_more cov (to (sym (rw (later, test) refl) ∙ e)),
          λ m. elim (first m) [
            | inl stop ↦ absurd (false≢true (sym later ∙ (h (t ∷ text)).1 stop))
            | inr (_, more) ↦ rw (later, test) (from more)
          ],
        )
        | inr (test, un) ↦ (
          λ e. absurd (false≢true (sym (rw (later, test) refl) ∙ e)),
          λ m. elim (first m) [
            | inl stop ↦ absurd (false≢true (sym later ∙ (h (t ∷ text)).1 stop))
            | inr (cov, _) ↦ absurd (un cov)
          ],
        )
      ]
    ]
  where
    first :
        {c t : ℕ} {p : Pattern} {text : List ℕ}
        → Matches (many c p) (t ∷ text)
        → Matches p (t ∷ text) ⊎ (Covers c t × Matches (many c p) text)
    first (no_more m) = inl m
    first (once_more cov m) = inr (cov, m)

at_end-Matches : (text : List ℕ) → (at_end text ≡ true) ↔ Matches ended text
unfolding at_end
at_end-Matches [] = (λ e. at_last, λ m. refl)
at_end-Matches (t ∷ text) = (λ e. absurd (false≢true e), λ m. elim m [ ])

matchhere-Matches : (re text : List ℕ) → (matchhere re text ≡ true) ↔ Matches (parse re) text
unfolding matchhere
matchhere-Matches [] text = (λ e. here, λ m. refl)
matchhere-Matches (c ∷ []) text = elim (Bool-cases (c == b'$')) [
  | inl dollar ↦ rw dollar (at_end-Matches text)
  | inr plain ↦ rw plain (match_char-Matches (matchhere []) done (matchhere-Matches []) c text)
]
matchhere-Matches (c ∷ d ∷ re) text = elim (Bool-cases (d == b'*')) [
  | inl star ↦ rw star (matchstar-Matches (matchhere re) (parse re) (matchhere-Matches re) c text)
  | inr plain ↦
      rw plain (
        match_char-Matches (matchhere (d ∷ re)) (parse (d ∷ re)) (matchhere-Matches (d ∷ re)) c
          text)
]

match_anywhere-Occurs :
    (re text : List ℕ) → (match_anywhere re text ≡ true) ↔ Occurs (parse re) text
unfolding match_anywhere
match_anywhere-Occurs re [] = matchhere-Matches re []
match_anywhere-Occurs re (t ∷ text) =
    let (to, from) = match_anywhere-Occurs re text in
    let (sound, whole) = matchhere-Matches re (t ∷ text) in
    elim (Bool-cases (matchhere re (t ∷ text))) [
      | inl now ↦ (λ e. inl (sound now), λ m. rw now refl)
      | inr later ↦ (
        λ e. inr (to (sym (rw later refl) ∙ e)),
        λ m. elim m [
          | inl m ↦ absurd (false≢true (sym later ∙ whole m))
          | inr m ↦ rw later (from m)
        ],
      )
    ]

-- `match` finds a match exactly where the pattern means one: anywhere in the text, or at its first
-- character after `^`; every character stands for itself, `.` for any, `c*` for any number of `c`,
-- a last `$` for the end.
pub match_lem : (re text : List ℕ) → (match re text ≡ true) ↔ Means re text
unfolding match
match_lem [] text = match_anywhere-Occurs [] text
match_lem (c ∷ re) text = elim (Bool-cases (c == b'^')) [
  | inl hat ↦
      let e : c ≡ b'^' = ground arith in
      let (to, from) = matchhere-Matches re text in
      rw hat (λ h. inl (e, to h), λ m. elim m [ inl (_, m) ↦ from m | inr (ne, _) ↦ absurd (ne e) ])
  | inr plain ↦
      let ne : c ≢ b'^' = λ e. ground arith in
      let (to, from) = match_anywhere-Occurs (c ∷ re) text in
      rw plain
        (λ h. inr (ne, to h), λ m. elim m [ inl (e, _) ↦ absurd (ne e) | inr (_, m) ↦ from m ])
]
