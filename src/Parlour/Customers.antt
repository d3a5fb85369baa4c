-- ===== src/Parlour/Customers.antt =====
-- The customers of concurrency/2.c: the turn of a customer, and the set-up of `main`.
use mini_project_3_amey_chou.Common.{
  ℕ, ◌+◌, ◌-◌, Bool, true, false, Option, none, some, ◌==◌, ltb, if◌then◌else◌, update, not, ◌&&◌,
  ◌||◌, for_upto, find_upto, pos, ◌+ℤ◌, ◌-ℤ◌, eqb_ℤ,
}
use mini_project_3_amey_chou.Parlour.Toppings.{add_topping, is_none, is_possible_to_make}
use mini_project_3_amey_chou.Parlour.{Customer, Order, Setup, Parlour}

-- A loop that looks at each `i` below `n`, and notes if one passes.
abbrev pub any_upto : ℕ → (ℕ → Bool) → Bool
any_upto n test = for_upto n (λ i found. found || test i) false

-- `temp_toppings` of a customer who orders.
unfoldable pub needed_at_placement : Customer → ℕ → ℕ
needed_at_placement c =
    for_upto c.number_of_icecreams
      (λ i temp. for_upto (c.icecreams i).toppings_num (add_topping (c.icecreams i)) temp) (λ i. 0)

-- `order_id_s[i] - 1`: the index of a customer's order.
abbrev pub own_order : Customer → ℕ → ℕ
own_order c i = c.order_id_s i - 1

-- A loop over the orders of a customer.
unfoldable pub own_orders : Customer → (Order → Order) → (ℕ → Order) → ℕ → Order
own_orders c f orders =
    for_upto c.number_of_icecreams (λ i u. update u (own_order c i) (f (u (own_order c i)))) orders

unfoldable pub reject_no_seats : Order → Order
reject_no_seats o = record o {
  rejected_due_to_no_seats = true;
  rejected = true;
  is_to_considered = false;
}

unfoldable pub reject_at_placement : Order → Order
reject_at_placement o = record o {
  rejected_due_to_is_atplacement = true;
  rejected = true;
  is_to_considered = false;
}

unfoldable pub place_order : (ticks : ℕ) → Order → Order
place_order ticks o = record o { is_to_considered = true; is_placed = some ticks }

-- `customers_sitting_in_parlour == K` at the arrival: the customer leaves at once. The loop counts
-- each order.
unfoldable pub turn_away : (j : ℕ) → Parlour → Parlour
turn_away j s =
    let c = s.customers j in
    record s {
      customers =
          update s.customers j (record c {
            leaving_time = some s.ticks;
            leaves_due_to_no_seats = true;
            leaves = true;
          });
      orders = own_orders c reject_no_seats s.orders;
      orders_considered = s.orders_considered + c.number_of_icecreams;
    }

-- The toppings do not suffice: the customer, who has sat down, leaves.
unfoldable pub leave_short : (j : ℕ) → Parlour → Parlour
leave_short j s =
    let c = s.customers j in
    record s {
      customers = update s.customers j (record c {
        leaving_time = some s.ticks;
        leaves_without_order_due_to_is_atplacement = true;
        leaves = true;
      });
      customers_sitting_in_parlour = s.customers_sitting_in_parlour -ℤ pos 1;
      orders = own_orders c reject_at_placement s.orders;
      orders_considered = s.orders_considered + c.number_of_icecreams;
    }

unfoldable pub sit : (j : ℕ) → Parlour → Parlour
sit j s = record s { customers_sitting_in_parlour = s.customers_sitting_in_parlour +ℤ pos 1 }

unfoldable pub order_all : (j : ℕ) → Parlour → Parlour
order_all j s = record s { orders = own_orders (s.customers j) (place_order s.ticks) s.orders }

unfoldable pub take_seat : Setup → (j : ℕ) → Parlour → Parlour
take_seat g j s =
    if is_possible_to_make g.t s.stock (needed_at_placement (s.customers j))
    then order_all j (sit j s)
    else leave_short j (sit j s)

-- `arrival_time == ticks`
unfoldable pub arrive : Setup → (j : ℕ) → Parlour → Parlour
arrive g j s =
    if (s.customers j).arrival_time == s.ticks
    then (if eqb_ℤ s.customers_sitting_in_parlour (pos g.k) then turn_away j s else take_seat g j s)
    else s

unfoldable pub ingredient_shortage : Customer → (ℕ → Order) → Bool
ingredient_shortage c orders =
    any_upto c.number_of_icecreams (λ i. (orders (own_order c i)).rejected_due_to_is_atpreparation)

unfoldable pub no_service : (n : ℕ) → Customer → (ℕ → Order) → Bool
no_service n c orders =
    any_upto c.number_of_icecreams (λ i. (orders (own_order c i)).rejected_due_to_no_machines == n)

-- An order of a customer who leaves, since one of the orders was rejected.
unfoldable pub give_up_order : (n : ℕ) → (no_service ingredient_shortage : Bool) → Order → Order
give_up_order n no_service ingredient_shortage o = record o {
  rejected = true;
  is_to_considered = false;
  rejected_due_to_no_machines = if no_service then n else o.rejected_due_to_no_machines;
  rejected_due_to_is_atpreparation =
      if no_service
      then o.rejected_due_to_is_atpreparation
      else if ingredient_shortage
      then true
      else o.rejected_due_to_is_atpreparation;
}

unfoldable pub leave_rejected :
    (n j : ℕ) → (no_service ingredient_shortage : Bool) → Parlour → Parlour
leave_rejected n j no_service ingredient_shortage s =
    let c = s.customers j in
    record s {
      orders = own_orders c (give_up_order n no_service ingredient_shortage) s.orders;
      customers = update s.customers j (record c {
        leaves = true;
        leaving_time = some s.ticks;
        leaves_due_to_no_machines = c.leaves_due_to_no_machines || no_service;
        leaves_without_order_due_to_is_atpreparation =
            c.leaves_without_order_due_to_is_atpreparation || ingredient_shortage;
      });
      customers_sitting_in_parlour = s.customers_sitting_in_parlour -ℤ pos 1;
    }

-- `arrival_time < ticks && leaves != 1`
unfoldable pub give_up : Setup → (j : ℕ) → Parlour → Parlour
give_up g j s =
    let c = s.customers j in
    if ltb c.arrival_time s.ticks && not c.leaves
    then (if no_service g.n c s.orders || ingredient_shortage c s.orders
        then leave_rejected g.n j (no_service g.n c s.orders) (ingredient_shortage c s.orders) s
        else s)
    else s

-- The loop that stops at the first order that is not completed.
unfoldable pub are_all_orders_completed : Customer → (ℕ → Order) → Bool
are_all_orders_completed c orders =
    is_none (find_upto c.number_of_icecreams (λ i. not (orders (own_order c i)).is_completed))
    && ltb 0 c.number_of_icecreams

unfoldable pub leave_served : (j : ℕ) → Parlour → Parlour
leave_served j s = record s {
  customers = update s.customers j (record (s.customers j) {
    leaves = true;
    leaves_with_order = true;
    leaving_time = some s.ticks;
  });
  customers_sitting_in_parlour = s.customers_sitting_in_parlour -ℤ pos 1;
}

unfoldable pub collect : (j : ℕ) → Parlour → Parlour
collect j s =
    if are_all_orders_completed (s.customers j) s.orders && not (s.customers j).leaves
    then leave_served j s
    else s

unfoldable pub is_left : Option ℕ → Bool
is_left none = false
is_left (some quantity) = not (quantity == 0)

-- Customer 1 moves the clock, and closes the parlour when every limited topping is used up.
unfoldable pub tick : Setup → Parlour → Parlour
tick g s = record s {
  ticks = s.ticks + 1;
  super = if is_none (find_upto g.t (λ i. is_left (s.stock i))) then true else s.super;
}

-- `c_id` is `customer_id - 1`.
unfoldable pub customer_turn : Setup → (j : ℕ) → Parlour → Parlour
customer_turn g j s =
    let t = collect j (give_up g j (arrive g j s)) in
    if ((t.customers j).customer_id - 1) == 0 then tick g t else t
