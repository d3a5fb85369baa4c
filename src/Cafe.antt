-- ===== src/Cafe.antt =====
-- The café simulation of concurrency/1.c: baristas and customers are threads that take turns in a
-- ring of semaphores. A turn runs from `sem_wait(&sem_lock)` to `sem_post(&sem_lock)`, so it is one
-- atomic step. Ids and times are non-negative; -1 is `none`; a flag that is 0 or 1 is a Boolean.
mod Ring
mod Inv
mod Leaving
mod Simulation
mod Accounts
mod Due
mod Making
mod Keeps
mod Settling
mod Progress
mod Totals
mod Waits
mod Tests
use mini_project_3_amey_chou.Common.{
  ℕ, zero, suc, ◌+◌, ◌-◌, ◌<◌, ◌≡◌, Bool, true, false, Option, none, some, List, [], ◌∷◌, ◌==◌, ltb,
  leb, if◌then◌else◌, update, not, ◌&&◌, find_upto,
}

-- `struct customer_s`; of its coffee, the time to make it.
pub record Customer : Type 0 where
  pub order_id : ℕ
  pub customer_id : ℕ
  pub arrival_time : ℕ
  pub departure_time : ℕ
  pub tolerance_time : ℕ
  pub time_to_make : ℕ

-- `struct orders_s`; `customer` is a copy.
pub record Order : Type 0 where
  pub order_id : ℕ
  pub barista_id : Option ℕ
  pub customer : Customer
  pub is_taken_up : Option ℕ
  pub is_completed : Bool
  pub is_customer_present : Bool
  pub is_given_to_customer : Bool
  pub is_to_be_considered : Bool
  pub order_printed : Bool

-- `struct barista_s`; `order` is the index of an order, `none` for NULL.
pub record Barista : Type 0 where
  pub coffee_wasted : ℕ
  pub is_free : Bool
  pub order : Option ℕ

-- A line of output, with the ids as stored and the time.
pub data Event : Type 0 where
  starts : (barista customer time : ℕ) → Event
  finishes : (barista customer time : ℕ) → Event
  arrives : (customer time : ℕ) → Event
  leaves : (customer time : ℕ) → Event
  receives : (customer time : ℕ) → Event

-- The shared variables; the output is newest first.
pub record Shop : Type 0 where
  pub ticks : ℕ
  pub considered : ℕ  -- `is_to_be_considered_counter`
  pub orders : ℕ → Order
  pub baristas : ℕ → Barista
  pub output : List Event

abbrev pub set_order : Shop → ℕ → Order → Shop
set_order s i o = record s { orders = update s.orders i o }

abbrev pub set_barista : Shop → ℕ → Barista → Shop
set_barista s b x = record s { baristas = update s.baristas b x }

abbrev pub is_none : Option ℕ → Bool
is_none none = true
is_none (some x) = false

-- The test of a free barista on an order.
unfoldable pub can_take : ℕ → Order → Bool
can_take ticks o =
    o.is_to_be_considered && is_none o.barista_id && leb (o.customer.arrival_time + 1) ticks

-- A free barista `b` takes order `i`.
unfoldable pub take_order : ℕ → Shop → Option ℕ → Shop
take_order b s none = s
take_order b s (some i) =
    let o = s.orders i in
    record s {
      orders = update s.orders i (record o { barista_id = some b; is_taken_up = some s.ticks });
      baristas = update s.baristas b (record (s.baristas b) { order = some i; is_free = false });
      output = starts b o.customer.customer_id s.ticks ∷ s.output;
    }

-- `ticks - is_taken_up == time_to_make`, where -1 stands for an order not taken up.
unfoldable pub is_ready : ℕ → Order → Bool
is_ready ticks o = elim o.is_taken_up [
  | some t ↦ ticks == (t + o.customer.time_to_make)
  | none ↦ (ticks + 1) == o.customer.time_to_make
]

-- The order when its coffee is ready: given to a customer who is still there.
unfoldable pub finished_order : Order → Order
finished_order o =
    if o.is_customer_present
    then record o {
      is_completed = true;
      is_given_to_customer = true;
      is_customer_present = false;
      is_to_be_considered = false;
    }
    else record o { is_completed = true; is_to_be_considered = false }

-- The barista then: the coffee of a customer who has left is wasted.
unfoldable pub finished_barista : Order → Barista → Barista
finished_barista o x = record x {
  is_free = true;
  order = none;
  coffee_wasted = if o.is_customer_present then x.coffee_wasted else x.coffee_wasted + 1;
}

unfoldable pub finish_order : ℕ → Shop → ℕ → Shop
finish_order b s i =
    let o = s.orders i in
    record s {
      orders = update s.orders i (finished_order o);
      baristas = update s.baristas b (finished_barista o (s.baristas b));
      considered = s.considered + 1;
      output = finishes b o.customer.customer_id s.ticks ∷ s.output;
    }

-- A busy barista. (NULL is never dereferenced: a busy barista has an order.)
unfoldable pub work : ℕ → Shop → Option ℕ → Shop
work b s none = s
work b s (some i) =
    if (s.orders i).is_completed
    then set_barista s b (record (s.baristas b) { is_free = true; order = none })
    else if is_ready s.ticks (s.orders i)
    then finish_order b s i
    else s

-- The turn of barista `b`, in a café of `n` customers.
unfoldable pub barista_turn : (n : ℕ) → ℕ → Shop → Shop
barista_turn n b s =
    if (s.baristas b).is_free
    then take_order b s (find_upto n (λ i. can_take s.ticks (s.orders i)))
    else work b s (s.baristas b).order

-- `ticks == arrival_time`: only output.
unfoldable pub announce : Customer → Shop → Shop
announce c s =
    if s.ticks == c.arrival_time
    then record s { output = arrives c.customer_id s.ticks ∷ s.output }
    else s

-- `ticks == arrival_time + tolerance_time + 1`: the customer gives up.
unfoldable pub given_up : ℕ → Order → Order
given_up ticks o =
    let gone = record o { is_customer_present = false } in
    if o.is_completed then gone else record gone {
      customer = record o.customer { departure_time = ticks };
      is_to_be_considered = if is_none o.barista_id then false else o.is_to_be_considered;
    }

unfoldable pub give_up : Customer → Shop → Shop
give_up c s =
    let o = s.orders c.order_id in
    if s.ticks == (c.arrival_time + c.tolerance_time + 1)
    then record s {
      orders = update s.orders c.order_id (given_up s.ticks o);
      considered =
          if o.is_completed
          then s.considered
          else if is_none o.barista_id
          then s.considered + 1
          else s.considered;
      output = if o.is_completed then s.output else leaves c.customer_id s.ticks ∷ s.output;
    }
    else s

-- `is_taken_up + time_to_make`
abbrev pub ready_time : Order → ℕ
ready_time o = elim o.is_taken_up [
  | some t ↦ t + o.customer.time_to_make
  | none ↦ o.customer.time_to_make - 1
]

-- `is_given_to_customer == 1 && order_printed == 0`: the customer leaves with the coffee.
unfoldable pub receive : Customer → Shop → Shop
receive c s =
    let o = s.orders c.order_id in
    if o.is_given_to_customer && not o.order_printed
    then record s {
      orders = update s.orders c.order_id (record o {
        customer = record o.customer { departure_time = ready_time o };
        order_printed = true;
      });
      output = receives c.customer_id (ready_time o) ∷ s.output;
    }
    else s

-- The turn of a customer; customer 0 moves the clock.
unfoldable pub customer_turn : Customer → Shop → Shop
customer_turn c s =
    let t = receive c (give_up c (announce c s)) in
    if c.customer_id == 0 then record t { ticks = t.ticks + 1 } else t

-- What `main` sets up for customer `i`, who arrives, waits and drinks as the input says.
unfoldable pub new_customer : (i arrival tolerance time_to_make : ℕ) → Customer
new_customer i arrival tolerance time_to_make = record {
  order_id = i;
  customer_id = i;
  arrival_time = arrival;
  departure_time = arrival + tolerance;
  tolerance_time = tolerance;
  time_to_make = time_to_make;
}

unfoldable pub new_order : Customer → Order
new_order c = record {
  order_id = c.order_id;
  barista_id = none;
  customer = c;
  is_taken_up = none;
  is_completed = false;
  is_customer_present = true;
  is_given_to_customer = false;
  is_to_be_considered = true;
  order_printed = false;
}

unfoldable pub new_shop : (ℕ → Customer) → Shop
new_shop customers = record {
  ticks = 0;
  considered = 0;
  orders = λ i. new_order (customers i);
  baristas = λ b. record { coffee_wasted = 0; is_free = true; order = none };
  output = [];
}
