-- ===== src/Parlour/Departures.antt =====
-- A customer of concurrency/2.c who leaves with or without the order, the whole turn of a customer,
-- and the invariants.
use mini_project_3_amey_chou.Common.{
  ℕ, ◌+◌, ◌-◌, ◌<◌, ◌≤◌, ◌≡◌, ◌≢◌, refl, inl, inr, arith, true, false, Bool, Option, none, some,
  sym, ap, ltb, if◌then◌else◌, ◌∙◌, tally-update, pos, ◌-ℤ◌, update, Bool-cases, ◌==◌, not, ◌&&◌,
  ◌||◌, find_upto, find_upto-Found, Found,
}
use native.Mathlib.Decide.{dec_lt}
use mini_project_3_amey_chou.Parlour.{Customer, Order, Setup, Parlour}
use mini_project_3_amey_chou.Parlour.Toppings.{is_none}
use mini_project_3_amey_chou.Parlour.Customers.{
  own_order, ingredient_shortage, no_service, give_up_order, leave_rejected, give_up,
  are_all_orders_completed, leave_served, collect, arrive, take_seat, turn_away, leave_short,
  order_all, sit, tick, customer_turn,
}
use mini_project_3_amey_chou.Parlour.Opening.{Visit}
use mini_project_3_amey_chou.Parlour.Numbers.{IsCustomer, first_order}
use mini_project_3_amey_chou.Parlour.Inv.{settled}
use mini_project_3_amey_chou.Parlour.Own.{KeepsWork, own_order-eq, tally-own_le, own-Inv}
use mini_project_3_amey_chou.Parlour.Seats.{seated, seats_taken, SeatInv}
use mini_project_3_amey_chou.Parlour.Arrivals.{
  decr_pos, IsSound, own-IsCustomer, own_fits, own-off_others, leave-SeatInv, arrive-IsSound,
}

give_up-KeepsWork :
    (n : ℕ) (unserved short : Bool) (o : Order) → KeepsWork o (give_up_order n unserved short o)
unfolding give_up_order
give_up-KeepsWork n unserved short o = record { machine = refl; completed = refl; icecream = refl }

module _ (visits : ℕ → Visit) (g : Setup) (initial : ℕ → Option ℕ) (lag : ℕ)
    (sized : g.total_orders ≡ first_order visits g.total_customers) where
  module _ (turns : ℕ → ℕ) (s : Parlour) (v : IsSound visits g initial lag sized turns s) (j : ℕ)
      (hj : j < g.total_customers) (after : turns j ≡ s.ticks + 1) where
    abbrev own : Customer
    own = s.customers j

    abbrev taken : ℕ
    taken = seats_taken visits g turns s.customers

    same : IsCustomer (visits j) (first_order visits j) own
    same = own-IsCustomer visits g initial lag sized turns turns s v j hj (λ x hx ne. refl)

    -- A customer with a seat gives it up.
    stand_up :
        (c : Customer) (orders : ℕ → Order)
        → IsCustomer (visits j) (first_order visits j) c
        → c.leaves ≡ true
        → seated (turns j) own ≡ 1
        → ((x i : ℕ)
            → j ≢ x
            → i < (visits x).number_of_icecreams
            → orders (first_order visits x + i) ≡ s.orders (first_order visits x + i))
        → SeatInv visits g turns
            (update s.customers j c)
            orders
            (s.customers_sitting_in_parlour -ℤ pos 1)
    stand_up c orders is left sits others =
        let some_seat : 0 < taken = omega (
          arith,
          sits,
          tally-update (λ (n : ℕ). n) g.total_customers (λ x. seated (turns x) (s.customers x)) j 0
              hj,
        ) in
        leave-SeatInv visits g initial lag sized turns turns s v j hj (λ x hx ne. refl) c orders _
          (taken - 1) is left (λ soon. ground (arith, sits, same.arrival)) others
          (ap (λ n. n -ℤ pos 1) v.0.counted ∙ decr_pos taken some_seat) (omega (arith, sits))

    settled-give_up :
        (no_service ingredient_shortage : Bool) (o : Order)
        → settled o ≤ settled (give_up_order g.n no_service ingredient_shortage o)
    unfolding give_up_order
    settled-give_up no_service ingredient_shortage o = ground arith

    leave_rejected-IsSound :
        (no_service ingredient_shortage : Bool)
        → seated (turns j) own ≡ 1
        → IsSound visits g initial lag sized turns
            (leave_rejected g.n j no_service ingredient_shortage s)
    unfolding leave_rejected
    leave_rejected-IsSound no_service ingredient_shortage sits =
        let f = give_up_order g.n no_service ingredient_shortage in
        (
          stand_up _ _
              (record {
                id = same.id;
                arrival = same.arrival;
                number = same.number;
                numbered = same.numbered;
              })
              refl sits
              (own-off_others visits g initial lag sized turns turns s v j hj (λ x hx ne. refl) f),
          own-Inv g initial lag s v.1 own f s.orders_considered
              (give_up-KeepsWork g.n no_service ingredient_shortage)
              (omega (
                arith,
                tally-own_le (visits j) (first_order visits j) own same g.total_orders
                    (own_fits visits g initial lag sized turns turns s v j hj (λ x hx ne. refl)) f
                    s.orders
                    (λ i hi.
                      settled-give_up no_service ingredient_shortage
                        (s.orders (first_order visits j + i))),
              )),
        )

    give_up-IsSound : IsSound visits g initial lag sized turns (give_up g j s)
    unfolding give_up
    give_up-IsSound = elim (Bool-cases (ltb own.arrival_time s.ticks && not own.leaves)) [
      | inr no_one ↦ rw no_one v
      | inl sitting ↦
          let n = no_service g.n own s.orders in
          let i = ingredient_shortage own s.orders in
          rw sitting (elim (Bool-cases (n || i)) [
            | inl rejected ↦ rw rejected (leave_rejected-IsSound n i (ground (arith, after)))
            | inr waits ↦ rw waits v
          ])
    ]

    all_completed :
        are_all_orders_completed own s.orders ≡ true
        → (0 < own.number_of_icecreams) × ((s.orders (own_order own 0)).is_completed ≡ true)
    unfolding are_all_orders_completed
    all_completed all =
        let test = λ (i : ℕ). not (s.orders (own_order own i)).is_completed in
        elim (find_upto own.number_of_icecreams test)
            as (λ o.
              Found own.number_of_icecreams test o
              → (is_none o && ltb 0 own.number_of_icecreams) ≡ true
              → (0 < own.number_of_icecreams)
                × ((s.orders (own_order own 0)).is_completed ≡ true)) [
                  | none ↦ λ f h.
                      let lt : 0 < own.number_of_icecreams = ground (arith, h) in
                      (lt, ground (arith, f 0 lt))
                  | some k ↦ λ f h. cc
                ]
          (find_upto-Found own.number_of_icecreams test) all

    sits_if_served :
        are_all_orders_completed own s.orders ≡ true → own.leaves ≡ false → seated (turns j) own ≡ 1
    sits_if_served all stays = elim (dec_lt own.arrival_time (turns j)) [
      | yes come ↦ ground (arith, stays)
      | no early ↦
          let (lt, done) = all_completed all in
          let p =
            (v.0.expected j hj (omega (arith, same.arrival))).1 0 (omega (arith, same.number)) in
          absurd (
            cc (
              done,
              p.uncompleted,
              ap (λ x. (s.orders x).is_completed)
                  (own_order-eq (visits j) (first_order visits j) own same 0 lt),
            ))
    ]

    collect-IsSound : IsSound visits g initial lag sized turns (collect j s)
    unfolding collect leave_served
    collect-IsSound = elim (Bool-cases (are_all_orders_completed own s.orders && not own.leaves)) [
      | inr waits ↦ rw waits v
      | inl served ↦ rw served (
        stand_up _ s.orders
            (record {
              id = same.id;
              arrival = same.arrival;
              number = same.number;
              numbered = same.numbered;
            })
            refl (sits_if_served (ground arith) (ground arith)) (λ x i ne hi. refl),
        v.1,
      )
    ]

  module _ (turns turns' : ℕ → ℕ) (s : Parlour) (v : IsSound visits g initial lag sized turns s)
      (j : ℕ) (hj : j < g.total_customers)
      (others : (x : ℕ) → x < g.total_customers → j ≢ x → turns' x ≡ turns x) where
    arrive-ticks : (arrive g j s).ticks ≡ s.ticks
    unfolding arrive take_seat turn_away leave_short order_all sit
    arrive-ticks = ground arith

    give_up-ticks : (s : Parlour) → (give_up g j s).ticks ≡ s.ticks
    unfolding give_up leave_rejected
    give_up-ticks s = ground arith

    collect-ticks : (s : Parlour) → (collect j s).ticks ≡ s.ticks
    unfolding collect leave_served
    collect-ticks s = ground arith

    -- The turn of a customer, which is its first one in the tick.
    pub customer-IsSound :
        turns j ≡ s.ticks
        → turns' j ≡ s.ticks + 1
        → IsSound visits g initial lag sized turns' (customer_turn g j s)
          × ((customer_turn g j s).ticks
              ≡ (if ((visits j).customer_id - 1) == 0 then s.ticks + 1 else s.ticks))
    unfolding customer_turn tick
    customer-IsSound now after =
        let a = arrive-IsSound visits g initial lag sized turns turns' s v j hj others now after in
        let r = arrive g j s in
        let b = give_up-IsSound turns' r a j hj (after ∙ ap (λ n. n + 1) (sym arrive-ticks)) in
        let c =
          collect-IsSound turns' (give_up g j r) b j hj
            (after ∙ ap (λ n. n + 1) (sym (give_up-ticks r ∙ arrive-ticks))) in
        let t = collect j (give_up g j r) in
        let same_id : (t.customers j).customer_id ≡ (visits j).customer_id =
          (own-IsCustomer visits g initial lag sized turns' turns' t c j hj (λ x hx ne. refl)).id in
        let clock : t.ticks ≡ s.ticks =
          collect-ticks (give_up g j r) ∙ give_up-ticks r ∙ arrive-ticks in
        rw same_id (elim (Bool-cases (((visits j).customer_id - 1) == 0)) [
          | inl moves ↦ rw moves (c, ap (λ n. n + 1) clock)
          | inr keeps ↦ rw keeps (c, clock)
        ])
