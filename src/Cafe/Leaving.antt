-- ===== src/Cafe/Leaving.antt =====
-- The turns of customers of concurrency/1.c, and the time at which an order is given up.
use mini_project_3_amey_chou.Common.{
  ℕ, ◌+◌, ◌<◌, ◌≡◌, ◌⊎◌, inl, inr, refl, arith, true, false, Option, none, some, ◌==◌,
  if◌then◌else◌, update, tally-update, at_update, List, not, ◌&&◌, Bool-cases,
}
use mini_project_3_amey_chou.Cafe.{
  Shop, Order, Customer, Event, announce, give_up, given_up, receive, is_none, ready_time,
}
use mini_project_3_amey_chou.Cafe.Inv.{OrderInv, Busy, ShopInv, settled, wasted, limit}

module _ (n b : ℕ) (customers : ℕ → Customer) (s : Shop) (v : ShopInv n b customers s) where
  -- A write to one order that keeps who works on it.
  rewrite-ShopInv :
      (i : ℕ) (o : Order) (considered : ℕ) (output : List Event)
      → i < n
      → OrderInv (customers i) o
      → o.barista_id ≡ (s.orders i).barista_id
      → o.is_completed ≡ (s.orders i).is_completed
      → considered + settled (s.orders i) ≡ s.considered + settled o
      → wasted o ≡ wasted (s.orders i)
      → ShopInv n b customers
          (record s { orders = update s.orders i o; considered = considered; output = output })
  rewrite-ShopInv i o considered output hi own same_barista same_state count waste = record {
    orders =
        at_update (λ j (p : Order). j < n → OrderInv (customers j) p) s.orders i o (λ _. own)
          (λ j ne. v.orders j);
    busy = λ k lt free. still k (s.baristas k).order (v.busy k lt free);
    counted = omega (arith, v.counted, tally-update settled n s.orders i o hi);
    waste = omega (arith, v.waste, tally-update wasted n s.orders i o hi);
  }
    where
      still : (k : ℕ) (w : Option ℕ) → Busy n s.orders k w → Busy n (update s.orders i o) k w
      still k none u = u
      still k (some m) u = (u.0, ground (arith, u), ground (arith, u))

-- A customer who was not served gave up at the limit: in an earlier tick, or in this one, if `ran`
-- says that the thread has had its turn.
pub record Timed (n : ℕ) (customers : ℕ → Customer) (ran : ℕ → Type 0) (s : Shop) : Type 0 where
  pub gave_up :
      (i : ℕ)
      → i < n
      → (s.orders i).barista_id ≡ none
      → (s.orders i).is_to_be_considered ≡ false
      → (limit (customers i) < s.ticks) ⊎ ((limit (customers i) ≡ s.ticks) × ran i)

-- The roster that `main` sets up: ids are places.
abbrev pub IsRoster : (ℕ → Customer) → Type 0
IsRoster customers = (i : ℕ) → ((customers i).order_id ≡ i) × ((customers i).customer_id ≡ i)

given_up-OrderInv :
    (c : Customer) (o : Order) (ticks : ℕ) → OrderInv c o → OrderInv c (given_up ticks o)
unfolding given_up
given_up-OrderInv c o ticks v = record {
  arrival = ground (arith, v.arrival);
  make = ground (arith, v.make);
  untaken = λ e. ground (arith, v.untaken);
  taken = λ k e. let (t, f, g) = v.taken k (ground arith) in (t, ground arith, g);
  done = λ e. ground (arith, v.done);
  open_work = λ k e f. ground (arith, v.open_work k);
  given = λ e. ground (arith, v.given);
}

given_up-same :
    (o : Order) (ticks : ℕ)
    → ((given_up ticks o).barista_id ≡ o.barista_id)
      × ((given_up ticks o).is_completed ≡ o.is_completed)
      × (wasted (given_up ticks o) ≡ wasted o)
unfolding given_up
given_up-same o ticks = (ground arith, ground arith, ground arith)

module _ (n b : ℕ) (customers : ℕ → Customer) (roster : IsRoster customers) (ran : ℕ → Type 0)
    (s : Shop) (v : ShopInv n b customers s) (timed : Timed n customers ran s) (j : ℕ)
    (hj : j < n) where
  abbrev pub RanOr : ℕ → Type 0
  RanOr i = ran i ⊎ (i ≡ j)

  -- The customer's own order is still considered if nobody took it and its turn has not come.
  still_open :
      ¬ ran j
      → limit (customers j) ≡ s.ticks
      → (s.orders j).barista_id ≡ none
      → (s.orders j).is_to_be_considered ≡ true
  still_open fresh e free = elim (Bool-cases (s.orders j).is_to_be_considered) [
    | inl open_ ↦ open_
    | inr shut ↦ elim (timed.gave_up j hj free shut) [
      | inl past ↦ absurd (omega arith)
      | inr now ↦ absurd (fresh now.1)
    ]
  ]

  widen :
      (i : ℕ)
      → (limit (customers i) < s.ticks) ⊎ ((limit (customers i) ≡ s.ticks) × ran i)
      → (limit (customers i) < s.ticks) ⊎ ((limit (customers i) ≡ s.ticks) × RanOr i)
  widen i (inl past) = inl past
  widen i (inr now) = inr (now.0, inl now.1)

  -- The counter when the customer gives up.
  abbrev counter : ℕ
  counter =
      if (s.orders j).is_completed
      then s.considered
      else if is_none (s.orders j).barista_id
      then s.considered + 1
      else s.considered

  counter-eq :
      ¬ ran j
      → limit (customers j) ≡ s.ticks
      → counter + settled (s.orders j) ≡ s.considered + settled (given_up s.ticks (s.orders j))
  unfolding given_up
  counter-eq fresh e = ground (arith, still_open fresh e)

  leave-ShopInv :
      (output : List Event)
      → ¬ ran j
      → limit (customers j) ≡ s.ticks
      → ShopInv n b customers (record s {
        orders = update s.orders j (given_up s.ticks (s.orders j));
        considered = counter;
        output = output;
      })
  leave-ShopInv output fresh e =
      let (same_barista, same_state, same_waste) = given_up-same (s.orders j) s.ticks in
      rewrite-ShopInv n b customers s v j (given_up s.ticks (s.orders j)) counter output hj
        (given_up-OrderInv (customers j) (s.orders j) s.ticks (v.orders j hj)) same_barista
        same_state (counter-eq fresh e) same_waste

  leave-Timed :
      (considered : ℕ) (output : List Event)
      → limit (customers j) ≡ s.ticks
      → Timed n customers RanOr (record s {
        orders = update s.orders j (given_up s.ticks (s.orders j));
        considered = considered;
        output = output;
      })
  leave-Timed considered output e = record {
    gave_up =
        at_update
          (λ i (p : Order).
            i < n
            → p.barista_id ≡ none
            → p.is_to_be_considered ≡ false
            → (limit (customers i) < s.ticks) ⊎ ((limit (customers i) ≡ s.ticks) × RanOr i))
          s.orders j (given_up s.ticks (s.orders j)) (λ h f c. inr (e, inr refl))
          (λ i ne h f c. widen i (timed.gave_up i h f c));
  }

  pub give_up-Inv :
      ¬ ran j
      → ShopInv n b customers (give_up (customers j) s)
        × Timed n customers RanOr (give_up (customers j) s)
  unfolding give_up
  give_up-Inv fresh = rw (roster j).0 (elim (Bool-cases (s.ticks == limit (customers j))) [
    | inl now ↦
        let e : limit (customers j) ≡ s.ticks = ground arith in
        rw now (leave-ShopInv _ fresh e, leave-Timed _ _ e)
    | inr other ↦ rw other (v, record { gave_up = λ i h f c. widen i (timed.gave_up i h f c) })
  ])

-- The other parts of a customer's turn change nothing that the invariant speaks of.
module _ (n b : ℕ) (customers : ℕ → Customer) (ran : ℕ → Type 0) (s : Shop)
    (v : ShopInv n b customers s) (timed : Timed n customers ran s) where
  abbrev pub BothInv : Shop → Type 0
  BothInv t = ShopInv n b customers t × Timed n customers ran t

  pub announce-Inv : (c : Customer) → BothInv (announce c s)
  unfolding announce
  announce-Inv c = elim (Bool-cases (s.ticks == c.arrival_time)) [
    | inl here ↦ rw here (
      record { orders = v.orders; busy = v.busy; counted = v.counted; waste = v.waste },
      record { gave_up = timed.gave_up },
    )
    | inr not_here ↦ rw not_here (v, timed)
  ]

  abbrev served : Order → Order
  served o = record o {
    customer = record o.customer { departure_time = ready_time o };
    order_printed = true;
  }

  served-Inv :
      (j : ℕ) (output : List Event)
      → j < n
      → BothInv (record s { orders = update s.orders j (served (s.orders j)); output = output })
  served-Inv j output hj = (
    rewrite-ShopInv n b customers s v j (served (s.orders j)) s.considered output hj
        (record {
          arrival = old.arrival;
          make = old.make;
          untaken = old.untaken;
          taken = old.taken;
          done = old.done;
          open_work = old.open_work;
          given = old.given;
        })
        refl refl refl refl,
    record {
      gave_up =
          at_update
            (λ i (p : Order).
              i < n
              → p.barista_id ≡ none
              → p.is_to_be_considered ≡ false
              → (limit (customers i) < s.ticks) ⊎ ((limit (customers i) ≡ s.ticks) × ran i))
            s.orders j (served (s.orders j)) (timed.gave_up j) (λ i ne. timed.gave_up i);
    },
  )
    where
      old : OrderInv (customers j) (s.orders j)
      old = v.orders j hj

  pub receive-Inv : (c : Customer) → c.order_id < n → BothInv (receive c s)
  unfolding receive
  receive-Inv c h =
      let o = s.orders c.order_id in
      elim (Bool-cases (o.is_given_to_customer && not o.order_printed)) [
        | inl got ↦ rw got (served-Inv c.order_id _ h)
        | inr not_yet ↦ rw not_yet (v, timed)
      ]
