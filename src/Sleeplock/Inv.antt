-- ===== src/Sleeplock/Inv.antt =====
-- The invariant of the sleep locks of initial-xv6/src/kernel/sleeplock.c.
use mini_project_3_amey_chou.Common.{ℕ, ◌<◌, ◌≡◌, Bool, true, false, Option, none, some, leb, ◌||◌}
use mini_project_3_amey_chou.Proc.{ProcState, is_sleeping}
use mini_project_3_amey_chou.Sleeplock.{
  Pc, testing, parking, leaving, marking, switching, off, back, owner, releasing, waking, checking,
  System,
}

-- Between `acquire` and `release` of the spin lock of the sleep lock, and of its own `p->lock`.
abbrev pub has_lk : Pc → Bool
has_lk testing = true
has_lk parking = true
has_lk leaving = true
has_lk (waking i) = true
has_lk (checking i) = true
has_lk _ = false

abbrev pub has_own : Pc → Bool
has_own leaving = true
has_own marking = true
has_own switching = true
has_own back = true
has_own _ = false

abbrev pub owns : Pc → Bool
owns owner = true
owns releasing = true
owns _ = false

-- About to sleep, or asleep.
abbrev pub drowsy : Pc → ProcState → Bool
drowsy parking state = true
drowsy leaving state = true
drowsy marking state = true
drowsy switching state = true
drowsy off state = is_sleeping state
drowsy _ state = false

abbrev pub marked : Pc → ProcState → Bool
marked switching state = is_sleeping state
marked off state = is_sleeping state
marked _ state = false

abbrev pub will_check : Pc → ℕ → Bool
will_check (waking i) p = leb i p
will_check (checking i) p = leb i p
will_check _ p = false

-- The process that has the spin lock is in `wakeup`, and has not passed slot `p`.
abbrev pub waker_comes : (ℕ → Pc) → Option ℕ → ℕ → Bool
waker_comes pc none p = false
waker_comes pc (some w) p = will_check (pc w) p

pub record SystemInv (n : ℕ) (pids : ℕ → ℕ) (s : System) : Type 0 where
  pub spin : (p : ℕ) → has_lk (s.pc p) ≡ true → s.lock.lk ≡ some p
  pub own : (p : ℕ) → has_own (s.pc p) ≡ true → s.proc_lock p ≡ some p
  pub checks : (p i : ℕ) → s.pc p ≡ checking i → s.proc_lock i ≡ some p
  pub owned : (p : ℕ) → owns (s.pc p) ≡ true → (s.lock.locked ≡ true) × (s.lock.pid ≡ pids p)
  pub alone : (p q : ℕ) → owns (s.pc p) ≡ true → owns (s.pc q) ≡ true → p ≡ q
  pub lender : s.lock.locked ≡ true → (q : ℕ) × (q < n) × (owns (s.pc q) ≡ true)
  pub marks : (p : ℕ) → marked (s.pc p) (s.state p) ≡ true → s.on_lock p ≡ true
  pub due :
      (p : ℕ)
      → p < n
      → drowsy (s.pc p) (s.state p) ≡ true
      → (s.lock.locked || waker_comes s.pc s.lock.lk p) ≡ true
