-- ===== src/Sleeplock/Release.antt =====
-- The steps of `releasesleep`, `wakeup` and `kill` (initial-xv6/src/kernel/sleeplock.c and proc.c),
-- and the invariant of sleep locks.
use mini_project_3_amey_chou.Common.{ℕ, suc, ◌≡◌, ◌≢◌, arith, false, none, some, update}
use mini_project_3_amey_chou.Proc.{ProcState}
use mini_project_3_amey_chou.Sleeplock.{
  outside, owner, releasing, waking, checking, System, with_lk, woken,
}
use mini_project_3_amey_chou.Sleeplock.Inv.{SystemInv}

module _ (n : ℕ) (pids : ℕ → ℕ) (s : System) (v : SystemInv n pids s) where
  pub release-Inv :
      (p : ℕ) → s.pc p ≡ owner → SystemInv n pids (record s { pc = update s.pc p releasing })
  release-Inv p h0 = record {
    spin = λ q e. ground (arith, v.spin q, v.spin p);
    own = λ q e. ground (arith, v.own q);
    checks = λ q j e. ground (arith, v.checks q j, v.own p);
    owned = λ q e. ground (arith, v.owned q, v.owned p);
    alone = λ q r e f. ground (arith, v.alone q r, v.owned q, v.owned r, v.alone p q, v.alone p r);
    lender = λ e. let (q, lt, o) = v.lender e in (q, lt, ground (arith, o));
    marks = λ q e. ground (arith, v.marks q);
    due = λ q lt e. ground (arith, v.due q lt, v.spin p, v.spin q);
  }

  pub free-Inv :
      (p : ℕ)
      → s.pc p ≡ releasing
      → s.lock.lk ≡ none
      → SystemInv n pids (record s {
        pc = update s.pc p (waking 0);
        lock = record { locked = false; lk = some p; pid = 0 };
      })
  free-Inv p h0 h1 = record {
    spin = λ q e. ground (arith, v.spin q, v.spin p);
    own = λ q e. ground (arith, v.own q);
    checks = λ q j e. ground (arith, v.checks q j, v.own p);
    owned = λ q e. ground (arith, v.owned q, v.owned p, v.alone p q);
    alone = λ q r e f. ground (arith, v.alone q r, v.owned q, v.owned r, v.alone p q, v.alone p r);
    lender = λ e. cc;
    marks = λ q e. ground (arith, v.marks q);
    due = λ q lt e. ground (arith, v.due q lt, v.spin p, v.spin q);
  }

  pub skip-Inv :
      (p : ℕ)
      → s.pc p ≡ waking p
      → SystemInv n pids (record s { pc = update s.pc p (waking (suc p)) })
  skip-Inv p h0 = record {
    spin = λ q e. ground (arith, v.spin q, v.spin p);
    own = λ q e. ground (arith, v.own q);
    checks = λ q j e. ground (arith, v.checks q j, v.own p);
    owned = λ q e. ground (arith, v.owned q, v.owned p);
    alone = λ q r e f. ground (arith, v.alone q r, v.owned q, v.owned r, v.alone p q, v.alone p r);
    lender = λ e. let (q, lt, o) = v.lender e in (q, lt, ground (arith, o));
    marks = λ q e. ground (arith, v.marks q);
    due = λ q lt e. ground (arith, v.due q lt, v.spin p, v.spin q);
  }

  pub check-Inv :
      (p i : ℕ)
      → s.pc p ≡ waking i
      → p ≢ i
      → s.proc_lock i ≡ none
      → SystemInv n pids
          (record s { pc = update s.pc p (checking i); proc_lock = update s.proc_lock i (some p) })
  check-Inv p i h0 h1 h2 = record {
    spin = λ q e. ground (arith, v.spin q, v.spin p);
    own = λ q e. ground (arith, v.own q);
    checks = λ q j e. ground (arith, v.checks q j, v.own p);
    owned = λ q e. ground (arith, v.owned q, v.owned p);
    alone = λ q r e f. ground (arith, v.alone q r, v.owned q, v.owned r, v.alone p q, v.alone p r);
    lender = λ e. let (q, lt, o) = v.lender e in (q, lt, ground (arith, o));
    marks = λ q e. ground (arith, v.marks q);
    due = λ q lt e. ground (arith, v.due q lt, v.spin p, v.spin q, v.own q);
  }

  pub wake-Inv :
      (p i : ℕ)
      → s.pc p ≡ checking i
      → SystemInv n pids (record s {
        pc = update s.pc p (waking (suc i));
        state = update s.state i (woken (s.on_lock i) (s.state i));
        proc_lock = update s.proc_lock i none;
      })
  unfolding woken
  wake-Inv p i h0 = record {
    spin = λ q e. ground (arith, v.spin q, v.spin p);
    own = λ q e. ground (arith, v.own q, v.checks p i);
    checks = λ q j e. ground (arith, v.checks q j, v.own p, v.checks p i);
    owned = λ q e. ground (arith, v.owned q, v.owned p);
    alone = λ q r e f. ground (arith, v.alone q r, v.owned q, v.owned r, v.alone p q, v.alone p r);
    lender = λ e. let (q, lt, o) = v.lender e in (q, lt, ground (arith, o));
    marks = λ q e. ground (arith, v.marks q, v.own q, v.checks p i);
    due =
        λ q lt e. ground (arith, v.due q lt, v.own q, v.checks p i, v.marks q, v.spin p, v.spin q);
  }

  pub done-Inv :
      (p : ℕ)
      → s.pc p ≡ waking n
      → SystemInv n pids (record s { pc = update s.pc p outside; lock = with_lk s.lock none })
  done-Inv p h0 = record {
    spin = λ q e. ground (arith, v.spin q, v.spin p);
    own = λ q e. ground (arith, v.own q);
    checks = λ q j e. ground (arith, v.checks q j, v.own p);
    owned = λ q e. ground (arith, v.owned q, v.owned p);
    alone = λ q r e f. ground (arith, v.alone q r, v.owned q, v.owned r, v.alone p q, v.alone p r);
    lender = λ e. let (q, lt, o) = v.lender e in (q, lt, ground (arith, o));
    marks = λ q e. ground (arith, v.marks q);
    due = λ q lt e. ground (arith, v.due q lt, v.spin p, v.spin q);
  }

  pub kill-Inv :
      (p : ℕ)
      → s.state p ≡ ProcState.sleeping
      → s.proc_lock p ≡ none
      → SystemInv n pids (record s { state = update s.state p ProcState.runnable })
  kill-Inv p h0 h1 = record {
    spin = λ q e. ground (arith, v.spin q, v.spin p);
    own = λ q e. ground (arith, v.own q);
    checks = λ q j e. ground (arith, v.checks q j, v.own p);
    owned = λ q e. ground (arith, v.owned q, v.owned p);
    alone = λ q r e f. ground (arith, v.alone q r, v.owned q, v.owned r, v.alone p q, v.alone p r);
    lender = λ e. let (q, lt, o) = v.lender e in (q, lt, ground (arith, o));
    marks = λ q e. ground (arith, v.marks q);
    due = λ q lt e. ground (arith, v.due q lt, v.spin p, v.spin q, v.own q);
  }
