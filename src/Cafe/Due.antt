-- ===== src/Cafe/Due.antt =====
-- The times by which the orders of concurrency/1.c are settled: what the turn of a customer keeps.
use mini_project_3_amey_chou.Common.{
  ℕ, ◌+◌, ◌<◌, ◌≤◌, ◌≡◌, ◌≢◌, inl, inr, arith, true, false, none, some, ◌==◌, at_update, not, ◌&&◌,
  Bool-cases, sym, subst,
}
use native.Mathlib.Decide.{ℕ_discrete}
use mini_project_3_amey_chou.Cafe.{
  Shop, Order, Barista, Customer, announce, give_up, given_up, receive, ready_time,
}
use mini_project_3_amey_chou.Cafe.Inv.{ShopInv, limit}

module _ (n b : ℕ) (customers : ℕ → Customer) where
  -- An order that nobody has taken is open no longer than its customer waits; one in the making is
  -- with a busy barista for no longer than it takes. `ran j` is 1 if thread `j` has had its turn in
  -- this tick.
  pub record OrderDue (ran : ℕ → ℕ) (ticks : ℕ) (baristas : ℕ → Barista) (i : ℕ) (o : Order)
      : Type 0 where
    pub open_ :
        o.barista_id ≡ none → o.is_to_be_considered ≡ true → ticks + ran i ≤ limit (customers i)
    pub held :
        (k : ℕ)
        → o.barista_id ≡ some k
        → o.is_completed ≡ false
        → (k < b)
          × ((baristas k).is_free ≡ false)
          × ((baristas k).order ≡ some i)
          × ((t : ℕ) × (o.is_taken_up ≡ some t)
              × (t ≤ limit (customers i))
              × (ticks + ran (n + k) ≤ t + (customers i).time_to_make))

  abbrev pub Due : (ℕ → ℕ) → Shop → Type 0
  Due ran s = (i : ℕ) → i < n → OrderDue ran s.ticks s.baristas i (s.orders i)

  -- One more tick, when every thread has had its turn.
  pub tick-Due :
      (ran : ℕ → ℕ) (s : Shop)
      → ((j : ℕ) → j < n + b → ran j ≡ 1)
      → Due ran s
      → Due (λ j. 0) (record s { ticks = s.ticks + 1 })
  tick-Due ran s all d i hi = record {
    open_ = λ e f. omega (arith, (d i hi).open_ e f, all i (omega arith));
    held = λ k e f.
        let (hk, busy, with_it, (t, at, le, due)) = (d i hi).held k e f in
        (hk, busy, with_it, (t, at, le, omega (arith, all (n + k) (omega arith))));
  }

  pub weaken-Due :
      (ran ran' : ℕ → ℕ) (s : Shop) → ((x : ℕ) → ran' x ≤ ran x) → Due ran s → Due ran' s
  weaken-Due ran ran' s le d i hi = record {
    open_ = λ e f. omega (arith, (d i hi).open_ e f, le i);
    held = λ k e f.
        let (hk, busy, with_it, (t, at, before, due)) = (d i hi).held k e f in
        (hk, busy, with_it, (t, at, before, omega (arith, due, le (n + k))));
  }

  pub announce-Due : (ran : ℕ → ℕ) (s : Shop) (c : Customer) → Due ran s → Due ran (announce c s)
  unfolding announce
  announce-Due ran s c d = elim (Bool-cases (s.ticks == c.arrival_time)) [
    | inl here ↦ rw here d
    | inr not_here ↦ rw not_here d
  ]

  pub receive-Due : (ran : ℕ → ℕ) (s : Shop) (c : Customer) → Due ran s → Due ran (receive c s)
  unfolding receive
  receive-Due ran s c d =
      let o = s.orders c.order_id in
      elim (Bool-cases (o.is_given_to_customer && not o.order_printed)) [
        | inl got ↦ rw got (λ i hi.
            at_update (λ i (p : Order). i < n → OrderDue ran s.ticks s.baristas i p) s.orders
              c.order_id
              (record o {
                customer = record o.customer { departure_time = ready_time o };
                order_printed = true;
              })
              (λ h. record { open_ = (d c.order_id h).open_; held = (d c.order_id h).held })
              (λ i ne h. d i h) i hi)
        | inr not_yet ↦ rw not_yet d
      ]

  module _ (s : Shop) (v : ShopInv n b customers s) (ran ran' : ℕ → ℕ) (j : ℕ) (once : ran' j ≤ 1)
      (others : (x : ℕ) → x ≢ j → ran' x ≤ ran x) (d : Due ran s) where
    module _ (hj : j < n) where
      give_up-other : (i : ℕ) → i < n → i ≢ j → OrderDue ran' s.ticks s.baristas i (s.orders i)
      give_up-other i hi ne = record {
        open_ = λ e f. omega (arith, (d i hi).open_ e f, others i ne);
        held = λ k e f.
            let (hk, busy, with_it, (t, at, le, due)) = (d i hi).held k e f in
            (hk, busy, with_it, (t, at, le, omega (arith, others (n + k) (λ e. omega arith))));
      }

      give_up-own :
          s.ticks ≡ limit (customers j)
          → OrderDue ran' s.ticks s.baristas j (given_up s.ticks (s.orders j))
      unfolding given_up
      give_up-own now = record {
        open_ = λ e f. ground (arith, (v.orders j hj).untaken);
        held = λ k e f.
            let (hk, busy, with_it, (t, at, le, due)) =
              (d j hj).held k (ground arith) (ground arith) in
            (
              hk,
              busy,
              with_it,
              (t, ground arith, le, omega (arith, others (n + k) (λ e. omega arith))),
            );
      }

      stay-own : s.ticks ≢ limit (customers j) → OrderDue ran' s.ticks s.baristas j (s.orders j)
      stay-own ne = record {
        open_ = λ e f. omega (arith, (d j hj).open_ e f, ne, once);
        held = λ k e f.
            let (hk, busy, with_it, (t, at, le, due)) = (d j hj).held k e f in
            (hk, busy, with_it, (t, at, le, omega (arith, others (n + k) (λ e. omega arith))));
      }

      pub give_up-Due : (customers j).order_id ≡ j → Due ran' (give_up (customers j) s)
      unfolding give_up
      give_up-Due own = rw own (elim (Bool-cases (s.ticks == limit (customers j))) [
        | inl now ↦
            let e : s.ticks ≡ limit (customers j) = ground arith in
            rw now (λ i hi.
              at_update (λ i (p : Order). i < n → OrderDue ran' s.ticks s.baristas i p) s.orders j
                (given_up s.ticks (s.orders j)) (λ _. give_up-own e)
                (λ i ne h. give_up-other i h (λ e. ne (sym e))) i hi)
        | inr later ↦
            let ne : s.ticks ≢ limit (customers j) = λ e. ground arith in
            rw later (λ i hi. elim (ℕ_discrete i j) [
              | yes e ↦
                  subst (λ (i : ℕ). OrderDue ran' s.ticks s.baristas i (s.orders i)) (sym e)
                    (stay-own ne)
              | no other ↦ give_up-other i hi other
            ])
      ])
