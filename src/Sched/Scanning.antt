-- ===== src/Sched/Scanning.antt =====
-- The loop of the PBS round of `scheduler` over the table: which process it keeps as the best, and
-- what it does to the slots.
use mini_project_3_amey_chou.Common.{
  ℕ, suc, ◌<◌, ◌≤◌, ◌≡◌, refl, inl, inr, Bool, true, false, Option, none, some, arith, ℤ, pos,
  same_ptr, for_upto_inv, Bool-cases, if◌then◌else◌, below_suc, subst, subst₂, sym, ◌∙◌,
}
use mini_project_3_amey_chou.Proc.{Proc, Table, is_runnable, acquire, release}
use mini_project_3_amey_chou.Sched.{
  Scan, dp_of, rbi_of, dp_priority, beats, consider, take_first, take_over, pass_over, scan_slot,
  scan_upto,
}
use mini_project_3_amey_chou.Sched.Order.{
  Key, key, Outranks, Outranks-trans, not-Outranks-trans, Outranks-irrefl, beats→Outranks,
  not-beats→not-Outranks,
}

-- A process after the scan, but for its lock: a runnable one has its indices written back.
unfoldable pub scanned : Proc → Proc
scanned p = if is_runnable p.state then (dp_priority p).0 else p

unfoldable pub with_lock : Bool → Proc → Proc
with_lock b p = record p { locked = b }

abbrev pub rank : Proc → Key
rank p = key p (dp_of p)

-- `best` is the first of the runnable processes that none outranks, among the first `n`.
abbrev pub Chosen : ℕ → Table → Option ℕ → Type 0
Chosen n t none = (i : ℕ) → i < n → is_runnable (t i).state ≡ false
Chosen n t (some b) =
    (b < n)
    × (is_runnable (t b).state ≡ true)
    × ((i : ℕ) → i < n → is_runnable (t i).state ≡ true → ¬ Outranks (rank (t i)) (rank (t b)))
    × ((i : ℕ) → i < b → is_runnable (t i).state ≡ true → Outranks (rank (t b)) (rank (t i)))

abbrev pub Priority : Table → Scan → Option ℕ → Type 0
Priority t s none = Unit
Priority t s (some b) = s.priority ≡ dp_of (t b)

pub record ScanInv (t : Table) (n : ℕ) (s : Scan) : Type 0 where
  pub ahead : (i : ℕ) → n ≤ i → s.table i ≡ t i
  pub behind : (i : ℕ) → i < n → s.table i ≡ with_lock (same_ptr s.best (some i)) (scanned (t i))
  pub chosen : Chosen n t s.best
  pub priority : Priority t s s.best

-- What the writes of a round do to a slot.
pass-idle :
    (p : Proc) → is_runnable p.state ≡ false → release (acquire p) ≡ with_lock false (scanned p)
unfolding release acquire with_lock scanned
pass-idle p h = rw h

take-runnable :
    (p : Proc)
    → is_runnable p.state ≡ true
    → (dp_priority (acquire p)).0 ≡ with_lock true (scanned p)
unfolding dp_priority acquire with_lock scanned dp_of rbi_of
take-runnable p h = rw h

pass-runnable :
    (p : Proc)
    → is_runnable p.state ≡ true
    → release (dp_priority (acquire p)).0 ≡ with_lock false (scanned p)
unfolding release dp_priority acquire with_lock scanned dp_of rbi_of
pass-runnable p h = rw h

release-with_lock : (b : Bool) (p : Proc) → release (with_lock b p) ≡ with_lock false p
unfolding release with_lock
release-with_lock b p = refl

module _ (t : Table) (n : ℕ) (table : Table) (priority : ℤ) where
  abbrev at : Option ℕ → Scan
  at best = record { table = table; best = best; priority = priority }

  -- A slot that is not runnable is passed over.
  skip-ScanInv :
      (best : Option ℕ)
      → is_runnable (t n).state ≡ false
      → ScanInv t n (at best)
      → ScanInv t (suc n) (pass_over (at best) n (acquire (t n)))
  unfolding pass_over
  skip-ScanInv none idle v = record {
    ahead = λ i h. ground (arith, v.ahead i);
    behind = λ i h. ground (arith, v.behind i, pass-idle (t n));
    chosen = λ i h. ground (arith, v.chosen i);
    priority = tt;
  }
  skip-ScanInv (some b) idle v = record {
    ahead = λ i h. ground (arith, v.ahead i);
    behind = λ i h. ground (arith, v.behind i, v.chosen.0, pass-idle (t n));
    chosen =
        (omega (arith, v.chosen.0), v.chosen.1, λ i h r. ground (arith, v.chosen.2 i), v.chosen.3);
    priority = v.priority;
  }

  -- The first runnable slot is taken.
  first-ScanInv :
      is_runnable (t n).state ≡ true
      → ScanInv t n (at none)
      → ScanInv t (suc n) (take_first (at none) n (dp_priority (acquire (t n))).0 (dp_of (t n)))
  unfolding take_first
  first-ScanInv run v = record {
    ahead = λ i h. ground (arith, v.ahead i);
    behind = λ i h. ground (arith, v.behind i, take-runnable (t n));
    chosen = (
      omega arith,
      run,
      below_suc (λ i. is_runnable (t i).state ≡ true → ¬ Outranks (rank (t i)) (rank (t n))) n
          (λ i h r. cc (v.chosen i h)) (λ r. Outranks-irrefl (rank (t n))),
      λ i h r. cc (v.chosen i h),
    );
    priority = refl;
  }

  -- A runnable slot that outranks the best so far takes its place.
  better-ScanInv :
      (b : ℕ)
      → is_runnable (t n).state ≡ true
      → Outranks (rank (t n)) (rank (t b))
      → ScanInv t n (at (some b))
      → ScanInv t
          (suc n)
          (take_over (at (some b)) b n (dp_priority (acquire (t n))).0 (dp_of (t n)))
  unfolding take_over
  better-ScanInv b run up v = record {
    ahead = λ i h. ground (arith, v.ahead i, v.chosen.0);
    behind = λ i h. ground (
      arith,
      v.behind i,
      v.chosen.0,
      v.behind b,
      take-runnable (t n),
      release-with_lock true (scanned (t b)),
    );
    chosen = (
      omega arith,
      run,
      below_suc (λ i. is_runnable (t i).state ≡ true → ¬ Outranks (rank (t i)) (rank (t n))) n
          (λ i h r k. v.chosen.2 i h r (Outranks-trans (rank (t i)) (rank (t n)) (rank (t b)) k up))
          (λ r. Outranks-irrefl (rank (t n))),
      λ i h r. not-Outranks-trans (rank (t n)) (rank (t b)) (rank (t i)) up (v.chosen.2 i h r),
    );
    priority = refl;
  }

  -- Any other runnable slot is passed over.
  worse-ScanInv :
      (b : ℕ)
      → is_runnable (t n).state ≡ true
      → ¬ Outranks (rank (t n)) (rank (t b))
      → ScanInv t n (at (some b))
      → ScanInv t (suc n) (pass_over (at (some b)) n (dp_priority (acquire (t n))).0)
  unfolding pass_over
  worse-ScanInv b run down v = record {
    ahead = λ i h. ground (arith, v.ahead i, v.chosen.0);
    behind = λ i h. ground (arith, v.behind i, v.chosen.0, pass-runnable (t n));
    chosen = (
      omega (arith, v.chosen.0),
      v.chosen.1,
      below_suc (λ i. is_runnable (t i).state ≡ true → ¬ Outranks (rank (t i)) (rank (t b))) n
          v.chosen.2 (λ r. down),
      v.chosen.3,
    );
    priority = v.priority;
  }

key-scanned : (b : Bool) (p : Proc) (dp : ℤ) → key (with_lock b (scanned p)) dp ≡ key p dp
unfolding with_lock scanned dp_priority
key-scanned b p dp = ground arith

key-taken : (p : Proc) (dp : ℤ) → key (dp_priority (acquire p)).0 dp ≡ key p dp
unfolding dp_priority acquire
key-taken p dp = refl

dp_of-acquire : (p : Proc) → (dp_priority (acquire p)).1 ≡ dp_of p
unfolding dp_priority dp_of rbi_of acquire
dp_of-acquire p = refl

runnable-acquire : (p : Proc) → is_runnable p.state ≡ is_runnable (acquire p).state
unfolding acquire
runnable-acquire p = refl

-- The test of a round, on the slots as the scan has left them, is the order of the ranks.
module _ (t : Table) (n b : ℕ) (table : Table)
    (kept : ScanInv t n (at t n table (dp_of (t b)) (some b))) where
  abbrev test : Bool
  test = beats (dp_priority (acquire (t n))).0 (dp_of (t n)) (table b) (dp_of (t b))

  best_rank : key (table b) (dp_of (t b)) ≡ rank (t b)
  best_rank = rw (kept.behind b kept.chosen.0) (key-scanned _ (t b) _)

  test→Outranks : test ≡ true → Outranks (rank (t n)) (rank (t b))
  test→Outranks h =
      subst₂ Outranks (key-taken (t n) (dp_of (t n))) best_rank
        (beats→Outranks (dp_priority (acquire (t n))).0 (dp_of (t n)) (table b) (dp_of (t b)) h)

  not-test→not-Outranks : test ≡ false → ¬ Outranks (rank (t n)) (rank (t b))
  not-test→not-Outranks h =
      subst₂ (λ x y. ¬ Outranks x y) (key-taken (t n) (dp_of (t n))) best_rank
        (not-beats→not-Outranks (dp_priority (acquire (t n))).0 (dp_of (t n)) (table b)
          (dp_of (t b)) h)

consider-ScanInv :
    (t : Table) (n : ℕ) (table : Table) (best : Option ℕ) (priority : ℤ)
    → is_runnable (t n).state ≡ true
    → ScanInv t n (at t n table priority best)
    → ScanInv t
        (suc n)
        (consider (at t n table priority best) n (dp_priority (acquire (t n))).0 (dp_of (t n)) best)
unfolding consider
consider-ScanInv t n table none priority run v = first-ScanInv t n table priority run v
consider-ScanInv t n table (some b) priority run v =
    subst
      (λ d.
        ScanInv t n (at t n table d (some b))
        → ScanInv t (suc n) (
            consider (at t n table d (some b)) n (dp_priority (acquire (t n))).0 (dp_of (t n))
              (some b)))
      (sym v.priority)
      (λ w. elim (Bool-cases (test t n b table w)) [
        | inl up ↦
            rw up (better-ScanInv t n table (dp_of (t b)) b run (test→Outranks t n b table w up) w)
        | inr down ↦ rw down (
            worse-ScanInv t n table (dp_of (t b)) b run (not-test→not-Outranks t n b table w down)
              w)
      ])
      v

scan_slot-ScanInv :
    (t : Table) (n : ℕ) (s : Scan) → ScanInv t n s → ScanInv t (suc n) (scan_slot n s)
unfolding scan_slot
scan_slot-ScanInv t n s v =
    rw (v.ahead n (omega arith), dp_of-acquire)
      (elim (Bool-cases (is_runnable (acquire (t n)).state)) [
        | inl run ↦
            rw run (consider-ScanInv t n s.table s.best s.priority (runnable-acquire (t n) ∙ run) v)
        | inr idle ↦
            rw idle (skip-ScanInv t n s.table s.priority s.best (runnable-acquire (t n) ∙ idle) v)
      ])

pub scan_upto-ScanInv : (t : Table) (n : ℕ) → ScanInv t n (scan_upto n t)
unfolding scan_upto
scan_upto-ScanInv t n =
    for_upto_inv (ScanInv t) scan_slot (record { table = t; best = none; priority = pos 101 })
      (record {
        ahead = λ i h. refl;
        behind = λ i h. absurd (omega arith);
        chosen = λ i h. absurd (omega arith);
        priority = tt;
      })
      (scan_slot-ScanInv t) n
