-- ===== src/Cafe/Totals.antt =====
-- The totals that `main` of concurrency/1.c prints at the end, and how long customers wait.
use mini_project_3_amey_chou.Common.{
  ℕ, ◌+◌, ◌<◌, ◌≤◌, ◌≡◌, inl, inr, arith, true, Option, none, some, ◌==◌, Bool-cases, at_update,
  update, not, ◌&&◌, for_upto, find_upto, find_upto-Found, Found, ℤ, pos, ◌+ℤ◌, sub_ℕ, int32,
}
use mini_project_3_amey_chou.Cafe.{
  Shop, Order, Customer, announce, give_up, given_up, receive, customer_turn, barista_turn,
  can_take, take_order, work, finish_order, finished_order, new_shop, new_order, is_ready,
}
use mini_project_3_amey_chou.Cafe.Inv.{Busy, ShopInv, limit}

-- `coffee_wasted`; a barista wastes at most one coffee for each customer, and their number is an
-- `int`.
unfoldable pub coffee_wasted : (b : ℕ) → Shop → ℕ
coffee_wasted b s = for_upto b (λ i total. total + (s.baristas i).coffee_wasted) 0

-- How long the customer of an order waited, as `main` counts it, in an `int`.
unfoldable pub wait_of : Order → ℤ
wait_of o = elim o.is_taken_up [
  | some t ↦ int32 (sub_ℕ t o.customer.arrival_time)
  | none ↦ int32 (sub_ℕ o.customer.departure_time o.customer.arrival_time)
]

unfoldable pub sum_time_wait : (n : ℕ) → Shop → ℤ
sum_time_wait n s = for_upto n (λ i sum. int32 (sum +ℤ wait_of (s.orders i))) (pos 0)

-- Nobody is served or leaves before arriving, or after the customer gives up.
pub record WaitInv (c : Customer) (o : Order) : Type 0 where
  pub untaken :
      o.is_taken_up ≡ none
      → (c.arrival_time ≤ o.customer.departure_time) × (o.customer.departure_time ≤ limit c)
  pub taken : (t : ℕ) → o.is_taken_up ≡ some t → (c.arrival_time < t) × (t ≤ limit c)
  pub given : o.is_given_to_customer ≡ true → o.is_taken_up ≡ none → ⊥

early : (ticks : ℕ) (o : Order) → can_take ticks o ≡ true → o.customer.arrival_time < ticks
unfolding can_take
early ticks o can = ground arith

pub untaken_if :
    (ticks : ℕ) (o : Order)
    → can_take ticks o ≡ true
    → (o.barista_id ≡ none) × (o.is_to_be_considered ≡ true)
unfolding can_take
untaken_if ticks o can = ground arith

module _ (n : ℕ) (customers : ℕ → Customer) where
  abbrev pub Waits : Shop → Type 0
  Waits s = (i : ℕ) → i < n → WaitInv (customers i) (s.orders i)

  write-Waits :
      (s : Shop) (i : ℕ) (o : Order)
      → Waits s
      → (i < n → WaitInv (customers i) (s.orders i) → WaitInv (customers i) o)
      → (j : ℕ) → j < n
      → WaitInv (customers j) (update s.orders i o j)
  write-Waits s i o w own =
      at_update (λ j (p : Order). j < n → WaitInv (customers j) p) s.orders i o
        (λ hi. own hi (w i hi)) (λ j ne. w j)

  announce-Waits : (c : Customer) (s : Shop) → Waits s → Waits (announce c s)
  unfolding announce
  announce-Waits c s w = elim (Bool-cases (s.ticks == c.arrival_time)) [
    | inl here ↦ rw here w
    | inr elsewhen ↦ rw elsewhen w
  ]

  give_up-Waits :
      (j : ℕ) (s : Shop) → (customers j).order_id ≡ j → Waits s → Waits (give_up (customers j) s)
  unfolding give_up given_up
  give_up-Waits j s own w = elim (Bool-cases (s.ticks == limit (customers j))) [
    | inr other ↦ rw other w
    | inl now ↦ rw now (
        rw own (
          write-Waits s j (given_up s.ticks (s.orders j)) w (λ hj v. record {
            untaken = λ e. ground (arith, v.untaken);
            taken = λ t e. ground (arith, v.taken t);
            given = λ e f. ground (arith, v.given);
          })))
  ]

  receive-Waits : (c : Customer) (s : Shop) → Waits s → Waits (receive c s)
  unfolding receive
  receive-Waits c s w =
      let o = s.orders c.order_id in
      elim (Bool-cases (o.is_given_to_customer && not o.order_printed)) [
        | inr not_yet ↦ rw not_yet w
        | inl got ↦ rw got (
            write-Waits s c.order_id _ w (λ hi v. record {
              untaken = λ e. absurd (v.given (ground arith) e);
              taken = v.taken;
              given = v.given;
            }))
      ]

  -- `main` gives customer `j` the order `j`.
  pub customer-Waits :
      (j : ℕ) (s : Shop)
      → (customers j).order_id ≡ j
      → Waits s
      → Waits (customer_turn (customers j) s)
  unfolding customer_turn
  customer-Waits j s own w =
      let c = customers j in
      let body =
        receive-Waits c (give_up c (announce c s))
          (give_up-Waits j (announce c s) own (announce-Waits c s w)) in
      elim (Bool-cases (c.customer_id == 0)) [
        | inl first ↦ rw first body
        | inr other ↦ rw other body
      ]

  module _ (b : ℕ) (s : Shop) (v : ShopInv n b customers s) (w : Waits s)
      (in_time : (i : ℕ)
        → i < n
        → can_take s.ticks (s.orders i) ≡ true
        → s.ticks ≤ limit (customers i)) where
    take-Waits :
        (k : ℕ) (o : Option ℕ)
        → Found n (λ i. can_take s.ticks (s.orders i)) o
        → Waits (take_order k s o)
    unfolding take_order
    take-Waits k none f = w
    take-Waits k (some i) f = write-Waits s i _ w (λ hi u. record {
      untaken = λ e. cc;
      taken = λ t e.
          ground (arith, early s.ticks (s.orders i) f.1, (v.orders i hi).arrival, in_time i hi f.1);
      given = λ e f. cc;
    })

    work-Waits : (k : ℕ) (o : Option ℕ) → Busy n s.orders k o → Waits (work k s o)
    unfolding work finish_order finished_order
    work-Waits k none u = absurd u
    work-Waits k (some i) u = elim (Bool-cases (is_ready s.ticks (s.orders i))) [
      | inr not_yet ↦ simp (u.2, not_yet) w
      | inl now ↦
          let (t, at, lt) = (v.orders i u.0).taken k u.1 in
          simp (u.2, now)
            (write-Waits s i _ w (λ hi x. record {
              untaken = λ e. ground (arith, x.untaken);
              taken = λ t e. ground (arith, x.taken t);
              given = λ e f. ground (arith, at);
            }))
    ]

    pub barista-Waits : (k : ℕ) → k < b → Waits (barista_turn n k s)
    unfolding barista_turn
    barista-Waits k hk = elim (Bool-cases (s.baristas k).is_free) [
      | inl free ↦ rw free (
          take-Waits k (find_upto n (λ i. can_take s.ticks (s.orders i)))
            (find_upto-Found n (λ i. can_take s.ticks (s.orders i))))
      | inr busy ↦ rw busy (work-Waits k (s.baristas k).order (v.busy k hk busy))
    ]

  pub new-Waits :
      ((i : ℕ)
        → i < n
        → (customers i).departure_time ≡ (customers i).arrival_time + (customers i).tolerance_time)
      → Waits (new_shop customers)
  unfolding new_shop new_order
  new-Waits set_up i hi = record {
    untaken = λ e. omega (arith, set_up i hi);
    taken = λ t e. cc;
    given = λ e f. cc;
  }
