-- ===== src/Grep/Tests.antt =====
-- grep of initial-xv6/src/user/grep.c on concrete patterns and files.
use mini_project_3_amey_chou.Common.{
  ℕ, ◌≡◌, refl, arith, true, false, List, [], ◌∷◌, ◌==◌, if◌then◌else◌, ◌↔◌,
}
use mini_project_3_amey_chou.Grep.{
  matchstar, match_char, at_end, matchhere, match_anywhere, match, strchr, grep_lines, read, grep,
}
use mini_project_3_amey_chou.Grep.Match.{Means, match_lem}
use mini_project_3_amey_chou.Grep.Lines.{split_lines, written}
use mini_project_3_amey_chou.Grep.Stream.{grep_lem}

-- `^ab*c$`
abbrev anchored : List ℕ
anchored = b'^' ∷ b'a' ∷ b'b' ∷ b'*' ∷ b'c' ∷ b'$' ∷ []

match-hit : match anchored (b'a' ∷ b'b' ∷ b'b' ∷ b'c' ∷ []) ≡ true
unfolding match matchhere matchstar match_char at_end
match-hit = refl

match-miss : match anchored (b'a' ∷ b'c' ∷ b'c' ∷ []) ≡ false
unfolding match matchhere matchstar match_char at_end
match-miss = refl

match_lem_example :
    (match anchored (b'a' ∷ b'b' ∷ b'c' ∷ []) ≡ true) ↔ Means anchored (b'a' ∷ b'b' ∷ b'c' ∷ [])
match_lem_example = match_lem anchored (b'a' ∷ b'b' ∷ b'c' ∷ [])

-- Two lines, and a third that does not end.
abbrev text : List ℕ
text = b'a' ∷ b'b' ∷ b'\n' ∷ b'c' ∷ b'\n' ∷ b'b' ∷ []

-- The piece that a call of `read` gives has one character, or two.
grep-pieces : grep 7 (λ r. if r == 3 then 1 else 0) (b'b' ∷ []) [] text ≡ b'a' ∷ b'b' ∷ b'\n' ∷ []
unfolding grep read grep_lines strchr match match_anywhere matchhere match_char
grep-pieces = refl

grep_lem_example :
    grep 7 (λ r. if r == 3 then 1 else 0) (b'b' ∷ []) [] text
    ≡ written (b'b' ∷ []) (split_lines text).0
grep_lem_example =
    grep_lem 7 (λ r. if r == 3 then 1 else 0) (b'b' ∷ []) text (omega arith) (omega arith)
      (omega arith)
