-- ===== src/Sleeplock/Acquire.antt =====
-- The steps of `acquiresleep` and `sleep` (initial-xv6/src/kernel/sleeplock.c and proc.c), and the
-- invariant of sleep locks.
use mini_project_3_amey_chou.Common.{ℕ, ◌<◌, ◌≡◌, arith, true, false, none, some, update}
use mini_project_3_amey_chou.Proc.{ProcState}
use mini_project_3_amey_chou.Sleeplock.{
  outside, entering, testing, parking, leaving, marking, switching, off, back, owner, System,
  with_lk,
}
use mini_project_3_amey_chou.Sleeplock.Inv.{SystemInv}

module _ (n : ℕ) (pids : ℕ → ℕ) (s : System) (v : SystemInv n pids s) where
  pub call-Inv :
      (p : ℕ) → s.pc p ≡ outside → SystemInv n pids (record s { pc = update s.pc p entering })
  call-Inv p h0 = record {
    spin = λ q e. ground (arith, v.spin q, v.spin p);
    own = λ q e. ground (arith, v.own q);
    checks = λ q j e. ground (arith, v.checks q j, v.own p);
    owned = λ q e. ground (arith, v.owned q, v.owned p);
    alone = λ q r e f. ground (arith, v.alone q r, v.owned q, v.owned r, v.alone p q, v.alone p r);
    lender = λ e. let (q, lt, o) = v.lender e in (q, lt, ground (arith, o));
    marks = λ q e. ground (arith, v.marks q);
    due = λ q lt e. ground (arith, v.due q lt, v.spin p, v.spin q);
  }

  pub enter-Inv :
      (p : ℕ)
      → s.pc p ≡ entering
      → s.lock.lk ≡ none
      → SystemInv n pids (record s { pc = update s.pc p testing; lock = with_lk s.lock (some p) })
  enter-Inv p h0 h1 = record {
    spin = λ q e. ground (arith, v.spin q, v.spin p);
    own = λ q e. ground (arith, v.own q);
    checks = λ q j e. ground (arith, v.checks q j, v.own p);
    owned = λ q e. ground (arith, v.owned q, v.owned p);
    alone = λ q r e f. ground (arith, v.alone q r, v.owned q, v.owned r, v.alone p q, v.alone p r);
    lender = λ e. let (q, lt, o) = v.lender e in (q, lt, ground (arith, o));
    marks = λ q e. ground (arith, v.marks q);
    due = λ q lt e. ground (arith, v.due q lt, v.spin p, v.spin q);
  }

  pub take-Inv :
      (p : ℕ)
      → p < n
      → s.pc p ≡ testing
      → s.lock.locked ≡ false
      → SystemInv n pids (record s {
        pc = update s.pc p owner;
        lock = record { locked = true; lk = none; pid = pids p };
      })
  take-Inv p h0 h1 h2 = record {
    spin = λ q e. ground (arith, v.spin q, v.spin p);
    own = λ q e. ground (arith, v.own q);
    checks = λ q j e. ground (arith, v.checks q j, v.own p);
    owned = λ q e. ground (arith, v.owned q, v.owned p);
    alone = λ q r e f. ground (arith, v.alone q r, v.owned q, v.owned r, v.alone p q, v.alone p r);
    lender = λ e. (p, h0, ground arith);
    marks = λ q e. ground (arith, v.marks q);
    due = λ q lt e. ground (arith, v.due q lt, v.spin p, v.spin q);
  }

  pub wait-Inv :
      (p : ℕ)
      → s.pc p ≡ testing
      → s.lock.locked ≡ true
      → SystemInv n pids (record s { pc = update s.pc p parking })
  wait-Inv p h0 h1 = record {
    spin = λ q e. ground (arith, v.spin q, v.spin p);
    own = λ q e. ground (arith, v.own q);
    checks = λ q j e. ground (arith, v.checks q j, v.own p);
    owned = λ q e. ground (arith, v.owned q, v.owned p);
    alone = λ q r e f. ground (arith, v.alone q r, v.owned q, v.owned r, v.alone p q, v.alone p r);
    lender = λ e. let (q, lt, o) = v.lender e in (q, lt, ground (arith, o));
    marks = λ q e. ground (arith, v.marks q);
    due = λ q lt e. ground (arith, v.due q lt, v.spin p, v.spin q);
  }

  pub park-Inv :
      (p : ℕ)
      → s.pc p ≡ parking
      → s.proc_lock p ≡ none
      → SystemInv n pids
          (record s { pc = update s.pc p leaving; proc_lock = update s.proc_lock p (some p) })
  park-Inv p h0 h1 = record {
    spin = λ q e. ground (arith, v.spin q, v.spin p);
    own = λ q e. ground (arith, v.own q);
    checks = λ q j e. ground (arith, v.checks q j, v.own p);
    owned = λ q e. ground (arith, v.owned q, v.owned p);
    alone = λ q r e f. ground (arith, v.alone q r, v.owned q, v.owned r, v.alone p q, v.alone p r);
    lender = λ e. let (q, lt, o) = v.lender e in (q, lt, ground (arith, o));
    marks = λ q e. ground (arith, v.marks q);
    due = λ q lt e. ground (arith, v.due q lt, v.spin p, v.spin q);
  }

  pub leave-Inv :
      (p : ℕ)
      → p < n
      → s.pc p ≡ leaving
      → SystemInv n pids (record s { pc = update s.pc p marking; lock = with_lk s.lock none })
  leave-Inv p h0 h1 = record {
    spin = λ q e. ground (arith, v.spin q, v.spin p);
    own = λ q e. ground (arith, v.own q);
    checks = λ q j e. ground (arith, v.checks q j, v.own p);
    owned = λ q e. ground (arith, v.owned q, v.owned p);
    alone = λ q r e f. ground (arith, v.alone q r, v.owned q, v.owned r, v.alone p q, v.alone p r);
    lender = λ e. let (q, lt, o) = v.lender e in (q, lt, ground (arith, o));
    marks = λ q e. ground (arith, v.marks q);
    due = λ q lt e. ground (arith, v.due q lt, v.spin p, v.spin q, v.due p h0);
  }

  pub mark-Inv :
      (p : ℕ)
      → s.pc p ≡ marking
      → SystemInv n pids (record s {
        pc = update s.pc p switching;
        state = update s.state p ProcState.sleeping;
        on_lock = update s.on_lock p true;
      })
  mark-Inv p h0 = record {
    spin = λ q e. ground (arith, v.spin q, v.spin p);
    own = λ q e. ground (arith, v.own q);
    checks = λ q j e. ground (arith, v.checks q j, v.own p);
    owned = λ q e. ground (arith, v.owned q, v.owned p);
    alone = λ q r e f. ground (arith, v.alone q r, v.owned q, v.owned r, v.alone p q, v.alone p r);
    lender = λ e. let (q, lt, o) = v.lender e in (q, lt, ground (arith, o));
    marks = λ q e. ground (arith, v.marks q);
    due = λ q lt e. ground (arith, v.due q lt, v.spin p, v.spin q);
  }

  pub switch-Inv :
      (p : ℕ)
      → s.pc p ≡ switching
      → SystemInv n pids
          (record s { pc = update s.pc p off; proc_lock = update s.proc_lock p none })
  switch-Inv p h0 = record {
    spin = λ q e. ground (arith, v.spin q, v.spin p);
    own = λ q e. ground (arith, v.own q);
    checks = λ q j e. ground (arith, v.checks q j, v.own p);
    owned = λ q e. ground (arith, v.owned q, v.owned p);
    alone = λ q r e f. ground (arith, v.alone q r, v.owned q, v.owned r, v.alone p q, v.alone p r);
    lender = λ e. let (q, lt, o) = v.lender e in (q, lt, ground (arith, o));
    marks = λ q e. ground (arith, v.marks q);
    due = λ q lt e. ground (arith, v.due q lt, v.spin p, v.spin q);
  }

  pub resume-Inv :
      (p : ℕ)
      → s.pc p ≡ off
      → s.state p ≡ ProcState.runnable
      → s.proc_lock p ≡ none
      → SystemInv n pids (record s {
        pc = update s.pc p back;
        state = update s.state p ProcState.running;
        proc_lock = update s.proc_lock p (some p);
      })
  resume-Inv p h0 h1 h2 = record {
    spin = λ q e. ground (arith, v.spin q, v.spin p);
    own = λ q e. ground (arith, v.own q);
    checks = λ q j e. ground (arith, v.checks q j, v.own p);
    owned = λ q e. ground (arith, v.owned q, v.owned p);
    alone = λ q r e f. ground (arith, v.alone q r, v.owned q, v.owned r, v.alone p q, v.alone p r);
    lender = λ e. let (q, lt, o) = v.lender e in (q, lt, ground (arith, o));
    marks = λ q e. ground (arith, v.marks q);
    due = λ q lt e. ground (arith, v.due q lt, v.spin p, v.spin q);
  }

  pub come_back-Inv :
      (p : ℕ)
      → s.pc p ≡ back
      → SystemInv n pids (record s {
        pc = update s.pc p entering;
        on_lock = update s.on_lock p false;
        proc_lock = update s.proc_lock p none;
      })
  come_back-Inv p h0 = record {
    spin = λ q e. ground (arith, v.spin q, v.spin p);
    own = λ q e. ground (arith, v.own q);
    checks = λ q j e. ground (arith, v.checks q j, v.own p);
    owned = λ q e. ground (arith, v.owned q, v.owned p);
    alone = λ q r e f. ground (arith, v.alone q r, v.owned q, v.owned r, v.alone p q, v.alone p r);
    lender = λ e. let (q, lt, o) = v.lender e in (q, lt, ground (arith, o));
    marks = λ q e. ground (arith, v.marks q);
    due = λ q lt e. ground (arith, v.due q lt, v.spin p, v.spin q);
  }
