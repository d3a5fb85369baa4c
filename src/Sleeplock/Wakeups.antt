-- ===== src/Sleeplock/Wakeups.antt =====
-- The owners and the sleepers of a sleep lock of initial-xv6/src/kernel/sleeplock.c.
use mini_project_3_amey_chou.Common.{
  ℕ, ◌<◌, ◌≡◌, ◌↔◌, arith, true, inl, inr, ◌⊎◌, Bool-cases, subst,
}
use mini_project_3_amey_chou.Proc.{ProcState}
use mini_project_3_amey_chou.Sleeplock.{
  initsleeplock, off, System, holdingsleep, Step, call, enter, take, wait, park, leave, mark,
  switch, resume, come_back, release, free, skip, check, wake, done, kill, start_system, Reach,
  start, later,
}
use mini_project_3_amey_chou.Sleeplock.Inv.{owns, waker_comes, SystemInv}
use mini_project_3_amey_chou.Sleeplock.Acquire.{
  call-Inv, enter-Inv, take-Inv, wait-Inv, park-Inv, leave-Inv, mark-Inv, switch-Inv, resume-Inv,
  come_back-Inv,
}
use mini_project_3_amey_chou.Sleeplock.Release.{
  release-Inv, free-Inv, skip-Inv, check-Inv, wake-Inv, done-Inv, kill-Inv,
}

Inv-start : (n : ℕ) (pids : ℕ → ℕ) → SystemInv n pids (start_system n pids)
unfolding initsleeplock
Inv-start n pids = record {
  spin = λ p e. cc;
  own = λ p e. cc;
  checks = λ p i e. cc;
  owned = λ p e. cc;
  alone = λ p q e f. cc;
  lender = λ e. cc;
  marks = λ p e. cc;
  due = λ p lt e. cc;
}

module _ (n : ℕ) (pids : ℕ → ℕ) where
  step-Inv : {s t : System} → SystemInv n pids s → Step n pids s t → SystemInv n pids t
  step-Inv {s} v (call p lt at) = call-Inv n pids s v p at
  step-Inv {s} v (enter p lt at up) = enter-Inv n pids s v p at up
  step-Inv {s} v (take p lt at up) = take-Inv n pids s v p lt at up
  step-Inv {s} v (wait p lt at up) = wait-Inv n pids s v p at up
  step-Inv {s} v (park p lt at up) = park-Inv n pids s v p at up
  step-Inv {s} v (leave p lt at) = leave-Inv n pids s v p lt at
  step-Inv {s} v (mark p lt at) = mark-Inv n pids s v p at
  step-Inv {s} v (switch p lt at) = switch-Inv n pids s v p at
  step-Inv {s} v (resume p lt at ready up) = resume-Inv n pids s v p at ready up
  step-Inv {s} v (come_back p lt at) = come_back-Inv n pids s v p at
  step-Inv {s} v (release p lt at) = release-Inv n pids s v p at
  step-Inv {s} v (free p lt at up) = free-Inv n pids s v p at up
  step-Inv {s} v (skip p lt at) = skip-Inv n pids s v p at
  step-Inv {s} v (check p i lt hi at ne up) = check-Inv n pids s v p i at ne up
  step-Inv {s} v (wake p i lt at) = wake-Inv n pids s v p i at
  step-Inv {s} v (done p lt at) = done-Inv n pids s v p at
  step-Inv {s} v (kill p lt at up) = kill-Inv n pids s v p at up

  Reach-Inv : {s : System} → Reach n pids s → SystemInv n pids s
  Reach-Inv start = Inv-start n pids
  Reach-Inv (later r st) = step-Inv (Reach-Inv r) st

  -- In a reachable state at most one process has the sleep lock.
  pub one_owner :
      {s : System} (p q : ℕ) → Reach n pids s → owns (s.pc p) ≡ true → owns (s.pc q) ≡ true → p ≡ q
  one_owner p q r = (Reach-Inv r).alone p q

  -- `holdingsleep` tells the owner from the other processes, if their ids differ.
  pub holdingsleep-owns :
      {s : System} (p : ℕ)
      → Reach n pids s
      → p < n
      → ((q : ℕ) → q < n → pids q ≡ pids p → q ≡ p)
      → (holdingsleep (pids p) s.lock ≡ true) ↔ (owns (s.pc p) ≡ true)
  unfolding holdingsleep
  holdingsleep-owns {s} p r lt distinct = (
    λ e.
        let v = Reach-Inv r in
        let (q, hq, o) = v.lender (ground arith) in
        let same : q ≡ p = distinct q hq (ground (arith, (v.owned q o).1)) in
        subst (λ i. owns (s.pc i) ≡ true) same o,
    λ o. let v = (Reach-Inv r).owned p o in ground (arith, v),
  )

  -- No wakeup is lost: in a reachable state where process `p` sleeps on the lock, either another
  -- process owns the lock, or one that has freed it is in `wakeup` and has yet to come to slot `p`.
  pub no_lost_wakeup :
      {s : System} (p : ℕ)
      → Reach n pids s
      → p < n
      → s.pc p ≡ off
      → s.state p ≡ ProcState.sleeping
      → ((q : ℕ) × (q < n) × (owns (s.pc q) ≡ true)) ⊎ (waker_comes s.pc s.lock.lk p ≡ true)
  no_lost_wakeup {s} p r lt at asleep =
      let v = Reach-Inv r in
      elim (Bool-cases s.lock.locked) [
        | inl taken ↦ inl (v.lender taken)
        | inr unlocked ↦ inr (ground (arith, v.due p lt))
      ]
