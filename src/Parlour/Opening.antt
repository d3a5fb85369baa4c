-- ===== src/Parlour/Opening.antt =====
-- What `main` of concurrency/2.c sets up from its input, and the threads of the parlour.
use mini_project_3_amey_chou.Common.{
  ℕ, ◌+◌, ◌-◌, ◌≡◌, ◌⊎◌, true, false, Option, none, ltb, if◌then◌else◌, update, for_upto, pos,
}
use mini_project_3_amey_chou.Ring.Threads
use mini_project_3_amey_chou.Parlour.{Customer, Order, Machine, Setup, Parlour, machine_turn}
use mini_project_3_amey_chou.Parlour.Toppings.{Icecream}
use mini_project_3_amey_chou.Parlour.Customers.{customer_turn}

-- A customer in the input.
pub record Visit : Type 0 where
  pub customer_id : ℕ
  pub arrival_time : ℕ
  pub number_of_icecreams : ℕ
  pub icecreams : ℕ → Icecream

-- What is read so far.
pub record Reading : Type 0 where
  pub customers_index : ℕ
  pub orders_index : ℕ
  pub customers : ℕ → Customer
  pub orders : ℕ → Order

unfoldable pub new_order : Visit → (i orders_index : ℕ) → Order
new_order v i orders_index = record {
  is_to_considered = true;
  is_placed = none;
  is_completed = false;
  rejected = false;
  rejected_due_to_is_atplacement = false;
  rejected_due_to_is_atpreparation = false;
  rejected_due_to_no_machines = 0;
  rejected_due_to_no_seats = false;
  order_id = orders_index + 1;
  customer_id = v.customer_id;
  customer_order_id = i + 1;
  icecream_machine_id = none;
  start_time_of_order = none;
  icecream = v.icecreams i;
}

-- The arrays of `struct customer` are filled in by `read_order`.
unfoldable pub new_customer : Visit → Customer
new_customer v = record {
  customer_id = v.customer_id;
  arrival_time = v.arrival_time;
  leaving_time = none;
  number_of_icecreams = v.number_of_icecreams;
  leaves = false;
  icecreams = v.icecreams;
  order_id_s = λ i. 0;
  leaves_with_order = false;
  leaves_without_order_due_to_is_atplacement = false;
  leaves_without_order_due_to_is_atpreparation = false;
  leaves_due_to_no_machines = false;
  leaves_due_to_no_seats = false;
}

-- The customer while its orders are entered, with the table of orders.
pub record Entry : Type 0 where
  pub customer : Customer
  pub orders_index : ℕ
  pub orders : ℕ → Order

unfoldable pub read_order : Visit → ℕ → Entry → Entry
read_order v i e = record {
  customer = record e.customer { order_id_s = update e.customer.order_id_s i (e.orders_index + 1) };
  orders_index = e.orders_index + 1;
  orders = update e.orders e.orders_index (new_order v i e.orders_index);
}

unfoldable pub enter_orders : Visit → Entry → Entry
enter_orders v e = for_upto v.number_of_icecreams (read_order v) e

unfoldable pub read_customer : Visit → Reading → Reading
read_customer v r =
    let e : Entry =
      enter_orders v
        (record { customer = new_customer v; orders_index = r.orders_index; orders = r.orders }) in
    record {
      customers_index = r.customers_index + 1;
      orders_index = e.orders_index;
      customers = update r.customers r.customers_index e.customer;
      orders = e.orders;
    }

-- The first `c` customers of the input, over what the arrays held.
unfoldable pub read_customers : (visits : ℕ → Visit) → Reading → ℕ → Reading
read_customers visits empty c = for_upto c (λ j r. read_customer (visits j) r) empty

unfoldable pub new_machine : (i start_time end_time : ℕ) → Machine
new_machine i start_time end_time = record {
  icecream_machine_id = i + 1;
  start_time = start_time;
  end_time = end_time;
  is_busy = false;
  order = none;
}

-- The numbers of the input: machines, seats, toppings, customers; the machines' hours; the stock;
-- the customers.
pub record Input : Type 0 where
  pub n : ℕ
  pub k : ℕ
  pub t : ℕ
  pub total_customers : ℕ
  pub start_time : ℕ → ℕ
  pub end_time : ℕ → ℕ
  pub stock : ℕ → Option ℕ
  pub visits : ℕ → Visit

-- The arrays before anything is read into them; what they hold is never used.
abbrev pub unread : Visit → Reading
unread v = record {
  customers_index = 0;
  orders_index = 0;
  customers = λ j. new_customer v;
  orders = λ p. new_order v 0 0;
}

abbrev pub reading : Input → ℕ → Reading
reading x c = read_customers x.visits (unread (x.visits 0)) c

unfoldable pub setup : Input → Setup
setup x = record {
  n = x.n;
  k = x.k;
  t = x.t;
  total_customers = (reading x x.total_customers).customers_index;
  total_orders = (reading x x.total_customers).orders_index;
}

unfoldable pub new_parlour : Input → Parlour
new_parlour x = record {
  ticks = 0;
  orders_considered = 0;
  machines_stopped_working = 0;
  customers_sitting_in_parlour = pos 0;
  super = false;
  stock = x.stock;
  orders = (reading x x.total_customers).orders;
  machines = λ i. new_machine i (x.start_time i) (x.end_time i);
  customers = (reading x x.total_customers).customers;
  machine_reject_which_order = λ i p. false;
}

abbrev pub System : Type 0
System = Threads.System Parlour

module _ (x : Input) where
  -- Customers 0 … c - 1 of the ring, then the machines.
  abbrev pub turn : ℕ → Parlour → Parlour
  turn j s =
      if ltb j x.total_customers
      then customer_turn (setup x) j s
      else machine_turn (setup x) (j - x.total_customers) s

  -- The test at the head of a thread's loop.
  abbrev pub IsOver : Parlour → Type 0
  IsOver s =
      ((s.orders_considered ≡ (setup x).total_orders) × (s.machines_stopped_working ≡ x.n))
      ⊎ (s.super ≡ true)

  abbrev pub Reach : System → Type 0
  Reach = Threads.Reach (x.total_customers + x.n) turn IsOver (new_parlour x)
