-- ===== src/Sched/Priority.antt =====
-- The numbers of `dp_priority`: their ranges, the Recent Behaviour Index and the dynamic priority.
use mini_project_3_amey_chou.Common.{
  ℕ, suc, ◌+◌, ◌-◌, ◌*◌, ◌/◌, ◌<◌, ◌≤◌, ◌≡◌, refl, arith, ℤ, pos, negsuc, sub_ℕ, ◌∙◌, int32,
  int32_of_small, IsInt32, ◌+ℤ◌, ◌-ℤ◌, ◌*ℤ◌, ◌/ℤ◌, ap, sym, subst,
}
use Prim.Native.Nat.{min}
use native.Mathlib.Decide.{dec_le}
use native.Mathlib.Nat.{div-le_self, zero-div, div-lt_iff_lt-mul}
use mini_project_3_amey_chou.Proc.{Proc}
use mini_project_3_amey_chou.Sched.{
  dp_of, rbi_of, rbi_numerator, rbi_denominator, max_int, min_int, dp_priority,
}

-- 3·rtime - wtime - stime, times 50, as an integer.
abbrev numerator : ℕ → ℕ → ℕ → ℤ
numerator r w s = sub_ℕ (3 * r * 50) ((w + s) * 50)

-- An operation whose true result fits does not wrap.
exact : (z : ℤ) {z' : ℤ} → z ≡ z' → IsInt32 z' → int32 z ≡ z'
exact z e h = subst (λ x. int32 z ≡ x) e (int32_of_small z (subst IsInt32 (sym e) h))

triple : (r : ℕ) → r ≤ 10_000_000 → int32 (pos 3 *ℤ pos r) ≡ pos (3 * r)
unfolding ◌*ℤ◌
triple r h = exact _ (ground arith) (omega arith)

less_wait : (a w : ℕ) → a ≤ 30_000_000 → w ≤ 10_000_000 → int32 (pos a -ℤ pos w) ≡ sub_ℕ a w
unfolding ◌-ℤ◌
less_wait a w h k = exact _ (ground arith) (ground arith)

less_sleep :
    (a w s : ℕ) → a ≤ 30_000_000 → w + s ≤ 10_000_000 → int32 (sub_ℕ a w -ℤ pos s) ≡ sub_ℕ a (w + s)
unfolding ◌-ℤ◌
less_sleep a w s h k = exact _ (ground arith) (ground arith)

times_fifty :
    (a b : ℕ)
    → a ≤ 30_000_000
    → b ≤ 10_000_000
    → int32 (sub_ℕ a b *ℤ pos 50) ≡ sub_ℕ (a * 50) (b * 50)
unfolding ◌*ℤ◌
times_fifty a b h k = exact _ (ground arith) (ground arith)

rbi_numerator_exact :
    (r w s : ℕ) → r + w + s ≤ 10_000_000 → rbi_numerator (pos r) (pos w) (pos s) ≡ numerator r w s
unfolding rbi_numerator
rbi_numerator_exact r w s h = rw (
  triple r (omega arith),
  less_wait (3 * r) w (omega arith) (omega arith),
  less_sleep (3 * r) w s (omega arith) (omega arith),
  times_fifty (3 * r) (w + s) (omega arith) (omega arith),
)

plus : (a b : ℕ) → a + b ≤ 10_000_001 → int32 (pos a +ℤ pos b) ≡ pos (a + b)
unfolding ◌+ℤ◌
plus a b h = exact _ (ground arith) (omega arith)

rbi_denominator_exact :
    (r w s : ℕ)
    → r + w + s ≤ 10_000_000
    → rbi_denominator (pos r) (pos w) (pos s) ≡ pos (1 + r + s + w)
unfolding rbi_denominator
rbi_denominator_exact r w s h =
    rw (plus 1 r (omega arith), plus (1 + r) s (omega arith), plus (1 + r + s) w (omega arith))

sub_of_le : (a b : ℕ) → b ≤ a → sub_ℕ a b ≡ pos (a - b)
sub_of_le a b h = ground arith

sub_of_gt : (a b : ℕ) → a < b → sub_ℕ a b ≡ negsuc (b - a - 1)
sub_of_gt a b h = ground arith

max-pos : (n : ℕ) → max_int (pos 0) (pos n) ≡ pos n
unfolding max_int
max-pos n = ground arith

max-neg : (n : ℕ) → max_int (pos 0) (sub_ℕ 0 n) ≡ pos 0
unfolding max_int
max-neg n = ground arith

-- A difference divided, and cut off at 0.
quotient :
    (a b d : ℕ)
    → a ≤ 1_500_000_000
    → b ≤ 1_500_000_000
    → 0 < d
    → max_int (pos 0) (int32 (sub_ℕ a b /ℤ pos d)) ≡ pos ((a - b) / d)
unfolding ◌/ℤ◌
quotient a b d h k l = elim (dec_le b a) [
  | yes p ↦ rw (
    sub_of_le a b p,
    exact (pos ((a - b) / d)) refl (omega (arith, div-le_self (a - b) d)),
    max-pos,
  )
  | no p ↦
      rw
        (
          sub_of_gt a b (omega arith),
          exact (sub_ℕ 0 (suc (b - a - 1) / d)) refl
              (ground (arith, div-le_self (suc (b - a - 1)) d)),
          max-neg,
        )
        (ap pos (sym (zero-div d) ∙ ap (λ x. x / d) (omega arith)))
]

-- A slot whose tick counters are those of a run of at most ten million ticks since it was last
-- scheduled.
pub record Counters (p : Proc) : Type 0 where
  pub run : ℕ
  pub wait : ℕ
  pub sleep : ℕ
  pub run_eq : p.pbs_rtime ≡ pos run
  pub wait_eq : p.pbs_wtime ≡ pos wait
  pub sleep_eq : p.pbs_stime ≡ pos sleep
  pub bounded : run + wait + sleep ≤ 10_000_000

abbrev pub rbi_formula : {p : Proc} → Counters p → ℕ
rbi_formula c = (3 * c.run * 50 - (c.wait + c.sleep) * 50) / (1 + c.run + c.sleep + c.wait)

rbi_of-eq : (p : Proc) (c : Counters p) → rbi_of p ≡ pos (rbi_formula c)
unfolding rbi_of
rbi_of-eq p c =
    rw
      (
        c.run_eq,
        c.wait_eq,
        c.sleep_eq,
        rbi_numerator_exact c.run c.wait c.sleep c.bounded,
        rbi_denominator_exact c.run c.wait c.sleep c.bounded,
      )
      (quotient _ _ _ (omega (arith, c.bounded)) (omega (arith, c.bounded)) (omega arith))

rbi-lt : (p : Proc) (c : Counters p) → rbi_formula c < 150
rbi-lt p c = (div-lt_iff_lt-mul (omega arith)).1 (omega arith)

min-pos : (a b : ℕ) → min_int (pos a) (pos b) ≡ pos (min a b)
unfolding min_int
min-pos a b = ground arith

-- On a slot whose counters add up to at most ten million ticks, and whose static priority is
-- between 0 and 100, no `int` operation of `dp_priority` wraps: the Recent Behaviour Index is
-- (3·rtime - wtime - stime)·50 / (1 + rtime + wtime + stime) in whole numbers, cut off at 0, and
-- below 150; the dynamic priority is the static one plus that index, capped at 100; both are
-- written back, and the latter is returned.
pub dp_priority_lem :
    (p : Proc) (c : Counters p) (sp : ℕ)
    → p.pbs_static_priority ≡ pos sp
    → sp ≤ 100
    → (dp_priority p ≡ (
      record p {
        pbs_rbi = pos (rbi_formula c);
        pbs_dynamic_priority = pos (min 100 (sp + rbi_formula c));
      },
      pos (min 100 (sp + rbi_formula c)),
    ))
      × (rbi_formula c < 150)
unfolding dp_priority dp_of
dp_priority_lem p c sp e h = (simp (rbi_of-eq p c, e, sum_eq, min-pos), rbi-lt p c)
  where
    sum_eq : int32 (pos sp +ℤ pos (rbi_formula c)) ≡ pos (sp + rbi_formula c)
    sum_eq = plus sp (rbi_formula c) (omega (arith, rbi-lt p c))
