-- ===== src/Sched/Order.antt =====
-- The order in which the scheduler prefers processes, and the test `beats` against it.
use mini_project_3_amey_chou.Common.{
  ℕ, ◌+◌, ◌<◌, ◌≡◌, ◌⊎◌, true, false, arith, ℤ, pos_part, neg_part, ◌<ℤ◌,
}
use mini_project_3_amey_chou.Proc.{Proc}
use mini_project_3_amey_chou.Sched.{beats}

-- The three numbers that the choice compares.
pub record Key : Type 0 where
  pub dp : ℤ
  pub num_sched : ℤ
  pub ctime : ℕ

abbrev pub key : Proc → ℤ → Key
key p dp = record { dp = dp; num_sched = p.pbs_num_sched; ctime = p.ctime }

abbrev pub SameInt : ℤ → ℤ → Type 0
SameInt a b = pos_part a + neg_part b ≡ pos_part b + neg_part a

-- A smaller dynamic priority, then fewer times scheduled, then created earlier.
abbrev pub Outranks : Key → Key → Type 0
Outranks a b =
    (a.dp <ℤ b.dp)
    ⊎ (SameInt a.dp b.dp × (a.num_sched <ℤ b.num_sched))
    ⊎ (SameInt a.dp b.dp × SameInt a.num_sched b.num_sched × (a.ctime < b.ctime))

pub Outranks-trans : (a b c : Key) → Outranks a b → Outranks b c → Outranks a c
Outranks-trans a b c h k = omega arith

pub not-Outranks-trans : (a b c : Key) → Outranks a b → ¬ Outranks c b → Outranks a c
not-Outranks-trans a b c h k = ground arith

pub Outranks-irrefl : (a : Key) → ¬ Outranks a a
Outranks-irrefl a h = omega arith

pub beats→Outranks :
    (p : Proc) (dp : ℤ) (q : Proc) (priority : ℤ)
    → beats p dp q priority ≡ true
    → Outranks (key p dp) (key q priority)
unfolding beats
beats→Outranks p dp q priority h = ground arith

pub not-beats→not-Outranks :
    (p : Proc) (dp : ℤ) (q : Proc) (priority : ℤ)
    → beats p dp q priority ≡ false
    → ¬ Outranks (key p dp) (key q priority)
unfolding beats
not-beats→not-Outranks p dp q priority h k = ground arith
