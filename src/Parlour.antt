-- ===== src/Parlour.antt =====
-- The ice-cream parlour of concurrency/2.c: machines and customers are threads that take turns in a
-- ring of semaphores. A turn runs from `sem_wait(&mutex)` to `sem_post(&mutex)`, so it is one atomic
-- step. Times are non-negative; -1 is `none`, also in a stock, where it stands for "unlimited"; a
-- flag that is 0 or 1 is a Boolean; what is only printed is left out.
mod Toppings
mod Customers
mod Opening
mod Numbers
mod Stock
mod Inv
mod Machines
mod Own
mod Seats
mod Arrivals
mod Departures
mod Untouched
mod Simulation
mod Turns
mod Accounts
mod Tests
use mini_project_3_amey_chou.Common.{
  ℕ, zero, suc, ◌+◌, ◌-◌, ◌<◌, ◌≡◌, Bool, true, false, Option, none, some, ◌==◌, ltb, leb,
  if◌then◌else◌, update, not, ◌&&◌, ◌||◌, for_upto, find_upto, ℤ, pos, ◌+ℤ◌, ◌-ℤ◌, eqb_ℤ,
}
use mini_project_3_amey_chou.Parlour.Toppings.{
  Icecream, is_none, add_topping, needed_at_preparation, is_short, is_possible_to_make, used,
  use_topping, use_toppings,
}

-- `struct customer`
pub record Customer : Type 0 where
  pub customer_id : ℕ
  pub arrival_time : ℕ
  pub leaving_time : Option ℕ
  pub number_of_icecreams : ℕ
  pub leaves : Bool
  pub icecreams : ℕ → Icecream
  pub order_id_s : ℕ → ℕ
  pub leaves_with_order : Bool
  pub leaves_without_order_due_to_is_atplacement : Bool
  pub leaves_without_order_due_to_is_atpreparation : Bool
  pub leaves_due_to_no_machines : Bool
  pub leaves_due_to_no_seats : Bool

-- `struct order`; `icecream_machine_id` counts from 1.
pub record Order : Type 0 where
  pub is_to_considered : Bool
  pub is_placed : Option ℕ
  pub is_completed : Bool
  pub rejected : Bool
  pub rejected_due_to_is_atplacement : Bool
  pub rejected_due_to_is_atpreparation : Bool
  pub rejected_due_to_no_machines : ℕ
  pub rejected_due_to_no_seats : Bool
  pub order_id : ℕ
  pub customer_id : ℕ
  pub customer_order_id : ℕ
  pub icecream_machine_id : Option ℕ
  pub start_time_of_order : Option ℕ
  pub icecream : Icecream

-- `struct icecream_machine`; `order` is the index of an order, `none` for NULL.
pub record Machine : Type 0 where
  pub icecream_machine_id : ℕ
  pub start_time : ℕ
  pub end_time : ℕ
  pub is_busy : Bool
  pub order : Option ℕ

-- The globals that `main` sets before the threads start: `N`, `K`, `T` and the totals.
pub record Setup : Type 0 where
  pub n : ℕ
  pub k : ℕ
  pub t : ℕ
  pub total_customers : ℕ
  pub total_orders : ℕ

-- The other globals; `stock t` is `toppings[t].quantity`.
pub record Parlour : Type 0 where
  pub ticks : ℕ
  pub orders_considered : ℕ
  pub machines_stopped_working : ℕ
  pub customers_sitting_in_parlour : ℤ
  pub super : Bool
  pub stock : ℕ → Option ℕ
  pub orders : ℕ → Order
  pub machines : ℕ → Machine
  pub customers : ℕ → Customer
  pub machine_reject_which_order : ℕ → ℕ → Bool

-- An order that the machine has no time for: noted once for each machine, and rejected when all `N`
-- have noted it.
unfoldable pub no_time_order : (n : ℕ) → Bool → Order → Order
no_time_order n noted o =
    let count =
      if noted then o.rejected_due_to_no_machines else o.rejected_due_to_no_machines + 1 in
    if count == n
    then record o { rejected_due_to_no_machines = count; rejected = true; is_to_considered = false }
    else record o { rejected_due_to_no_machines = count }

unfoldable pub no_time : Setup → (row i : ℕ) → Parlour → Parlour
no_time g row i s =
    let o' = no_time_order g.n (s.machine_reject_which_order row i) (s.orders i) in
    record s {
      orders = update s.orders i o';
      orders_considered =
          if o'.rejected_due_to_no_machines == g.n
          then s.orders_considered + 1
          else s.orders_considered;
      machine_reject_which_order =
          update s.machine_reject_which_order row
            (update (s.machine_reject_which_order row) i true);
    }

-- An order that the toppings do not suffice for.
unfoldable pub no_toppings : (row i : ℕ) → Parlour → Parlour
no_toppings row i s = if s.machine_reject_which_order row i then s else record s {
  orders = update s.orders i (record (s.orders i) {
    rejected_due_to_is_atpreparation = true;
    rejected = true;
    is_to_considered = false;
  });
  orders_considered = s.orders_considered + 1;
  machine_reject_which_order =
      update s.machine_reject_which_order row (update (s.machine_reject_which_order row) i true);
}

-- Machine `k` starts on order `i`.
unfoldable pub take_order : (k i : ℕ) → Parlour → Parlour
take_order k i s = record s {
  orders = update s.orders i (record (s.orders i) {
    icecream_machine_id = some (s.machines k).icecream_machine_id;
    start_time_of_order = some s.ticks;
  });
  machines = update s.machines k (record (s.machines k) { is_busy = true; order = some i });
  stock = use_toppings (s.orders i).icecream s.stock;
}

-- `stop` is set by the `break` of the loop over the orders.
pub record Look : Type 0 where
  pub parlour : Parlour
  pub stop : Bool

-- The test of a free machine on an order.
unfoldable pub is_open : Order → Bool
is_open o = o.is_to_considered && is_none o.icecream_machine_id && not (is_none o.is_placed)

-- What a free machine does with order `i`. (The two rows are the source's: `id - 1`, and `id`.)
unfoldable pub consider : Setup → (k i : ℕ) → Parlour → Look
consider g k i s =
    let o = s.orders i in
    let m = s.machines k in
    if not (is_open o)
    then record { parlour = s; stop = false }
    else if leb m.end_time (s.ticks + o.icecream.time_to_prepare)
    then record { parlour = no_time g (m.icecream_machine_id - 1) i s; stop = false }
    else if is_possible_to_make g.t s.stock (needed_at_preparation g.t o.icecream)
    then record { parlour = take_order k i s; stop = true }
    else record { parlour = no_toppings m.icecream_machine_id i s; stop = false }

unfoldable pub look_from : Setup → (k n : ℕ) → Parlour → Look
look_from g k n s =
    for_upto n (λ i l. if l.stop then l else consider g k i l.parlour)
      (record { parlour = s; stop = false })

-- `start_time_of_order + time_to_prepare == ticks`
unfoldable pub is_ready : ℕ → Order → Bool
is_ready ticks o = elim o.start_time_of_order [
  | some t ↦ (t + o.icecream.time_to_prepare) == ticks
  | none ↦ o.icecream.time_to_prepare == (ticks + 1)
]

unfoldable pub finish_order : (k i : ℕ) → Parlour → Parlour
finish_order k i s = record s {
  machines = update s.machines k (record (s.machines k) { is_busy = false; order = none });
  orders =
      update s.orders i (record (s.orders i) { is_completed = true; is_to_considered = false });
  orders_considered = s.orders_considered + 1;
}

-- A busy machine. (NULL is never dereferenced: a busy machine has an order.)
unfoldable pub work : (k : ℕ) → Option ℕ → Parlour → Parlour
work k none s = s
work k (some i) s = if is_ready s.ticks (s.orders i) then finish_order k i s else s

-- Between its start and its end.
unfoldable pub run_machine : Setup → (k : ℕ) → Parlour → Parlour
run_machine g k s =
    if leb (s.machines k).start_time s.ticks && ltb s.ticks (s.machines k).end_time
    then (if (s.machines k).is_busy
        then work k (s.machines k).order s
        else (look_from g k g.total_orders s).parlour)
    else s

unfoldable pub stop_machine : (k : ℕ) → Parlour → Parlour
stop_machine k s =
    if (s.machines k).end_time == s.ticks
    then record s { machines_stopped_working = s.machines_stopped_working + 1 }
    else s

unfoldable pub machine_turn : Setup → (k : ℕ) → Parlour → Parlour
machine_turn g k s = stop_machine k (run_machine g k s)
