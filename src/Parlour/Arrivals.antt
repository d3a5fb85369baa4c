-- ===== src/Parlour/Arrivals.antt =====
-- The arrival of a customer of concurrency/2.c, and the invariants.
use mini_project_3_amey_chou.Common.{
  ℕ, ◌+◌, ◌-◌, ◌<◌, ◌≤◌, ◌≡◌, ◌≢◌, refl, inl, inr, arith, true, false, Option, sym, ap, ◌∙◌, subst,
  ℤ, pos, ◌+ℤ◌, ◌-ℤ◌, eqb_ℤ, update, update_self, update-ne, Bool-cases, ◌==◌,
}
use mini_project_3_amey_chou.Parlour.{Customer, Order, Setup, Parlour}
use mini_project_3_amey_chou.Parlour.Toppings.{is_possible_to_make}
use mini_project_3_amey_chou.Parlour.Customers.{
  needed_at_placement, own_orders, reject_no_seats, reject_at_placement, place_order, turn_away,
  leave_short, sit, order_all, take_seat, arrive,
}
use mini_project_3_amey_chou.Parlour.Opening.{Visit}
use mini_project_3_amey_chou.Parlour.Numbers.{
  IsCustomer, first_order, first_order-le, own_orders_apart,
}
use mini_project_3_amey_chou.Parlour.Inv.{WorkInv, IsWorking}
use mini_project_3_amey_chou.Parlour.Own.{KeepsWork, own-off, tally-own_le, tally-own_all, own-Inv}
use mini_project_3_amey_chou.Parlour.Seats.{
  IsFresh, seated, seats_taken, SeatInv, IsSeated, turn-SeatInv,
}

pub incr_pos : (n : ℕ) → pos n +ℤ pos 1 ≡ pos (n + 1)
unfolding ◌+ℤ◌
incr_pos n = ground arith

pub decr_pos : (n : ℕ) → 0 < n → pos n -ℤ pos 1 ≡ pos (n - 1)
unfolding ◌-ℤ◌
decr_pos n h = ground arith

module _ (visits : ℕ → Visit) (g : Setup) (initial : ℕ → Option ℕ) (lag : ℕ)
    (sized : g.total_orders ≡ first_order visits g.total_customers) where
  abbrev pub IsSound : (ℕ → ℕ) → Parlour → Type 0
  IsSound turns s = IsSeated visits g turns s × IsWorking g initial lag s

  module _ (turns turns' : ℕ → ℕ) (s : Parlour) (v : IsSound turns s) (j : ℕ)
      (hj : j < g.total_customers)
      (others : (x : ℕ) → x < g.total_customers → j ≢ x → turns' x ≡ turns x) where
    abbrev pub own : Customer
    own = s.customers j

    pub own-IsCustomer : IsCustomer (visits j) (first_order visits j) own
    own-IsCustomer = v.0.each_customer j hj

    pub own_fits : first_order visits j + (visits j).number_of_icecreams ≤ g.total_orders
    own_fits = omega (arith, sized, first_order-le visits j g.total_customers hj)

    pub own-off_others :
        (f : Order → Order) (x i : ℕ)
        → j ≢ x
        → i < (visits x).number_of_icecreams
        → own_orders own f s.orders (first_order visits x + i) ≡ s.orders (first_order visits x + i)
    own-off_others f x i ne hi =
        own-off (visits j) (first_order visits j) own own-IsCustomer f s.orders
          (first_order visits x + i) (λ m hm. own_orders_apart visits j x m i hm hi ne)

    -- A customer who leaves, and whose orders are written.
    pub leave-SeatInv :
        (c : Customer) (orders : ℕ → Order) (sitting : ℤ) (taken : ℕ)
        → IsCustomer (visits j) (first_order visits j) c
        → c.leaves ≡ true
        → (turns' j ≤ (visits j).arrival_time → ⊥)
        → ((x i : ℕ)
            → j ≢ x
            → i < (visits x).number_of_icecreams
            → orders (first_order visits x + i) ≡ s.orders (first_order visits x + i))
        → sitting ≡ pos taken
        → taken + seated (turns j) own ≡ seats_taken visits g turns s.customers
        → SeatInv visits g turns' (update s.customers j c) orders sitting
    leave-SeatInv c orders sitting taken same left come other_orders count change =
        let here = update_self s.customers j c in
        turn-SeatInv visits g turns turns' s v.0 j hj others (update s.customers j c)
          (λ x ne. update-ne s.customers j x c ne)
          (subst (IsCustomer (visits j) (first_order visits j)) (sym here) same) orders other_orders
          sitting taken (λ soon. absurd (come soon)) count
          (subst
            (λ (x : Customer).
              taken + seated (turns j) own
              ≡ seats_taken visits g turns s.customers + seated (turns' j) x)
            (sym here) (ground (arith, change, left)))
          (omega (arith, v.0.room, change))

    module _ (now : turns j ≡ s.ticks) (after : turns' j ≡ s.ticks + 1)
        (here : own.arrival_time ≡ s.ticks) where
      stays : own.leaves ≡ false
      stays = (v.0.expected j hj (omega (arith, own-IsCustomer.arrival))).0

      fresh :
          (i : ℕ)
          → i < (visits j).number_of_icecreams
          → IsFresh (s.orders (first_order visits j + i))
      fresh = (v.0.expected j hj (omega (arith, own-IsCustomer.arrival))).1

      unseated : seated (turns j) own ≡ 0
      unseated = ground (arith, stays)

      come : turns' j ≤ (visits j).arrival_time → ⊥
      come soon = omega (arith, own-IsCustomer.arrival)

      -- All orders of the customer are rejected, and counted.
      reject-Inv :
          (f : Order → Order)
          → ((o : Order) → KeepsWork o (f o))
          → ((o : Order) → (f o).is_to_considered ≡ false)
          → WorkInv g initial lag
              (own_orders own f s.orders)
              s.machines
              (s.orders_considered + own.number_of_icecreams)
              s.stock
      reject-Inv f keep shut =
          own-Inv g initial lag s v.1 own f (s.orders_considered + own.number_of_icecreams) keep (
            omega (
              arith,
              tally-own_all (visits j) (first_order visits j) own own-IsCustomer g.total_orders
                  own_fits f s.orders
                  (λ i hi.
                    let o = s.orders (first_order visits j + i) in
                    let p = fresh i hi in
                    (
                      ground (arith, p.considered, p.untaken, p.uncompleted),
                      ground (
                        arith,
                        p.untaken,
                        p.uncompleted,
                        (keep o).machine,
                        (keep o).completed,
                        shut o,
                      ),
                    )),
            ))

      turn_away-IsSound : IsSound turns' (turn_away j s)
      unfolding turn_away reject_no_seats
      turn_away-IsSound = (
        leave-SeatInv _ _ s.customers_sitting_in_parlour (seats_taken visits g turns s.customers)
            (record {
              id = own-IsCustomer.id;
              arrival = own-IsCustomer.arrival;
              number = own-IsCustomer.number;
              numbered = own-IsCustomer.numbered;
            })
            refl come (own-off_others reject_no_seats) v.0.counted (omega (arith, unseated)),
        reject-Inv reject_no_seats
            (λ o. record { machine = refl; completed = refl; icecream = refl }) (λ o. refl),
      )

      -- The customer has taken a seat in both cases, and given it up in the first.
      leave_short-IsSound : IsSound turns' (leave_short j (sit j s))
      unfolding leave_short sit reject_at_placement
      leave_short-IsSound = (
        leave-SeatInv _ _ _ (seats_taken visits g turns s.customers)
            (record {
              id = own-IsCustomer.id;
              arrival = own-IsCustomer.arrival;
              number = own-IsCustomer.number;
              numbered = own-IsCustomer.numbered;
            })
            refl come (own-off_others reject_at_placement) back (omega (arith, unseated)),
        reject-Inv reject_at_placement
            (λ o. record { machine = refl; completed = refl; icecream = refl }) (λ o. refl),
      )
        where
          back :
              (s.customers_sitting_in_parlour +ℤ pos 1) -ℤ pos 1
              ≡ pos (seats_taken visits g turns s.customers)
          back =
              ap (λ n. (n +ℤ pos 1) -ℤ pos 1) v.0.counted
              ∙ ap (λ n. n -ℤ pos 1) (incr_pos (seats_taken visits g turns s.customers))
              ∙ decr_pos (seats_taken visits g turns s.customers + 1) (omega arith)
              ∙ ap pos (omega arith)

      order_all-IsSound :
          seats_taken visits g turns s.customers < g.k → IsSound turns' (order_all j (sit j s))
      unfolding order_all sit place_order
      order_all-IsSound free = (
        turn-SeatInv visits g turns turns' s v.0 j hj others s.customers (λ x ne. refl)
            own-IsCustomer (own_orders own (place_order s.ticks) s.orders)
            (own-off_others (place_order s.ticks)) (s.customers_sitting_in_parlour +ℤ pos 1)
            (seats_taken visits g turns s.customers + 1) (λ soon. absurd (come soon))
            (ap (λ n. n +ℤ pos 1) v.0.counted ∙ incr_pos (seats_taken visits g turns s.customers))
            (ground (arith, unseated, stays, here, after)) (omega arith),
        own-Inv g initial lag s v.1 own (place_order s.ticks) s.orders_considered
            (λ o. record { machine = refl; completed = refl; icecream = refl })
            (omega (
              arith,
              tally-own_le (visits j) (first_order visits j) own own-IsCustomer g.total_orders
                  own_fits (place_order s.ticks) s.orders
                  (λ i hi.
                    let p = fresh i hi in ground (arith, p.considered, p.untaken, p.uncompleted)),
            )),
      )

    -- The part of the turn for a customer who arrives in this tick.
    pub arrive-IsSound : turns j ≡ s.ticks → turns' j ≡ s.ticks + 1 → IsSound turns' (arrive g j s)
    unfolding arrive take_seat
    arrive-IsSound now after = elim (Bool-cases (own.arrival_time == s.ticks)) [
      | inr elsewhen ↦ rw elsewhen (
        turn-SeatInv visits g turns turns' s v.0 j hj others s.customers (λ x ne. refl)
            own-IsCustomer s.orders (λ x i ne hi. refl) s.customers_sitting_in_parlour
            (seats_taken visits g turns s.customers)
            (λ soon. v.0.expected j hj (omega (arith, now, after))) v.0.counted
            (ground (arith, now, after)) v.0.room,
        v.1,
      )
      | inl here ↦
          let at : own.arrival_time ≡ s.ticks = ground (arith, here) in
          rw here (elim (Bool-cases (eqb_ℤ s.customers_sitting_in_parlour (pos g.k))) [
            | inl full ↦ rw full (turn_away-IsSound now after at)
            | inr free ↦
                rw free
                  (elim (Bool-cases (is_possible_to_make g.t s.stock (needed_at_placement own))) [
                    | inl can ↦
                        rw can
                          (order_all-IsSound now after at (ground (arith, v.0.counted, v.0.room)))
                    | inr short ↦ rw short (leave_short-IsSound now after at)
                  ])
          ])
    ]
