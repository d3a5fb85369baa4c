-- ===== src/Grep.antt =====
-- The program grep of initial-xv6/src/user/grep.c. A C string is the list of its bytes up to the
-- terminator, so the end of a list is where the code reads '\0'.
mod Match
mod Lines
mod Stream
mod Tests
use mini_project_3_amey_chou.Common.{
  ℕ, zero, suc, ◌+◌, ◌-◌, Bool, true, false, Option, none, some, List, [], ◌∷◌, ◌++◌, ◌==◌, ltb,
  if◌then◌else◌, ◌||◌, length, take, drop,
}

-- `do { if(matchhere(re, text)) return 1; } while(*text!='\0' && (*text++==c || c=='.'));`, where
-- `here` is the call of `matchhere` with `re`.
unfoldable pub matchstar : (here : List ℕ → Bool) → ℕ → List ℕ → Bool
matchstar here c [] = here []
matchstar here c (t ∷ text) =
    let rest = matchstar here c text in
    if here (t ∷ text) then true else if (t == c) || (c == b'.') then rest else false

-- The last test of `matchhere`, where `next` is its call with `re+1`.
unfoldable pub match_char : (next : List ℕ → Bool) → ℕ → List ℕ → Bool
match_char next c [] = false
match_char next c (t ∷ text) = if (c == b'.') || (c == t) then next text else false

unfoldable pub at_end : List ℕ → Bool
at_end [] = true
at_end (t ∷ text) = false

unfoldable pub matchhere : (re text : List ℕ) → Bool
matchhere [] text = true
matchhere (c ∷ []) text = if c == b'$' then at_end text else match_char (matchhere []) c text
matchhere (c ∷ d ∷ re) text =
    if d == b'*' then matchstar (matchhere re) c text else match_char (matchhere (d ∷ re)) c text

-- `do { if(matchhere(re, text)) return 1; } while(*text++ != '\0');`
unfoldable pub match_anywhere : (re text : List ℕ) → Bool
match_anywhere re [] = matchhere re []
match_anywhere re (t ∷ text) =
    let rest = match_anywhere re text in if matchhere re (t ∷ text) then true else rest

unfoldable pub match : (re text : List ℕ) → Bool
match [] text = match_anywhere [] text
match (c ∷ re) text = if c == b'^' then matchhere re text else match_anywhere (c ∷ re) text

-- `strchr` of initial-xv6/src/user/ulib.c, on a buffer: what stands before and behind the
-- character, which is not searched behind a '\0'.
unfoldable pub strchr : ℕ → List ℕ → Option (List ℕ × List ℕ)
strchr c [] = none
strchr c (s ∷ rest) =
    let later = strchr c rest in
    if s == 0
    then none
    else if s == c
    then some ([], rest)
    else elim later [ some (before, behind) ↦ some (s ∷ before, behind) | none ↦ none ]

-- The inner loop of `grep` from `p` on: what it writes, and what is left of the buffer.
unfoldable pub grep_lines : ℕ → (pattern buf : List ℕ) → List ℕ × List ℕ
grep_lines zero pattern buf = ([], buf)
grep_lines (suc fuel) pattern buf = elim (strchr b'\n' buf) [
  | none ↦ ([], buf)
  | some (line, rest) ↦
      let (out, left) = grep_lines fuel pattern rest in
      ((if match pattern line then line ++ (b'\n' ∷ out) else out), left)
]

-- A call of `read` for at most `asked` bytes: it gives at most `1 + k` of those that are left in
-- the file, as many as there are.
unfoldable pub read : (asked k : ℕ) → List ℕ → List ℕ × List ℕ
read asked k file = let n = if ltb k asked then suc k else asked in (take n file, drop n file)

-- `grep`, from a buffer that holds `buf` (`m` bytes); `sizes` is how much the calls of `read` may
-- give.
unfoldable pub grep : (rounds : ℕ) → (sizes : ℕ → ℕ) → (pattern buf file : List ℕ) → List ℕ
grep zero sizes pattern buf file = []
grep (suc rounds) sizes pattern buf file =
    let (chunk, rest) = read (1024 - length buf - 1) (sizes rounds) file in
    elim chunk [
      | [] ↦ []
      | c ∷ more ↦
          let full = buf ++ (c ∷ more) in
          let (out, left) = grep_lines (length full) pattern full in
          out ++ grep rounds sizes pattern left rest
    ]
