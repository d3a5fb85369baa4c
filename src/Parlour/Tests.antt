-- ===== src/Parlour/Tests.antt =====
-- Runs of the parlour of concurrency/2.c: one machine, and one customer with three ice creams, of
-- which the first takes too long.
use mini_project_3_amey_chou.Common.{
  ℕ, ◌+◌, ◌<◌, ◌≤◌, ◌≡◌, refl, arith, if◌then◌else◌, ◌==◌, some, update, for_upto, find_upto, tally,
  tally-suc, false, true, inl, inr, pos, ◌+ℤ◌, ◌-ℤ◌,
}
use mini_project_3_amey_chou.Ring.{TokenAt, before, pass_token}
use mini_project_3_amey_chou.Ring.Threads
use mini_project_3_amey_chou.Ring.Threads.{top, waiting, start, later, go_on, take_turn}
use mini_project_3_amey_chou.Parlour.{
  Order, no_time_order, no_time, no_toppings, take_order, is_open, consider, look_from, is_ready,
  finish_order, work, run_machine, stop_machine, machine_turn,
}
use mini_project_3_amey_chou.Parlour.Toppings.{
  Icecream, add_topping, needed_at_preparation, is_short, is_possible_to_make, used, use_topping,
  use_toppings,
}
use mini_project_3_amey_chou.Parlour.Customers.{
  needed_at_placement, own_orders, reject_no_seats, reject_at_placement, place_order, turn_away,
  leave_short, sit, order_all, take_seat, arrive, ingredient_shortage, no_service, give_up_order,
  leave_rejected, give_up, are_all_orders_completed, leave_served, collect, is_left, tick,
  customer_turn,
}
use mini_project_3_amey_chou.Parlour.Opening.{
  Input, new_order, new_customer, read_order, enter_orders, read_customer, read_customers,
  new_machine, setup, new_parlour, turn, IsOver, System, Reach, reading, unread,
}
use mini_project_3_amey_chou.Parlour.Numbers.{ReadingInv, read_customers-ReadingInv}
use mini_project_3_amey_chou.Parlour.Turns.{play, turns_taken}
use mini_project_3_amey_chou.Parlour.Simulation.{IsInput, turns}
use mini_project_3_amey_chou.Parlour.Inv.{settled, uses}
use mini_project_3_amey_chou.Parlour.Seats.{seats_taken}
use mini_project_3_amey_chou.Parlour.Accounts.{Reach-seats, Reach-stock, Reach-counted, After-lost}

abbrev icecream : ℕ → Icecream
icecream i = record {
  time_to_prepare = if i == 0 then 9 else 1;
  toppings_num = 1;
  topping = λ j. 1;
}

abbrev day : Input
day = record {
  n = 1;
  k = 1;
  t = 1;
  total_customers = 1;
  start_time = λ i. 0;
  end_time = λ i. 5;
  stock = λ t. some 4;
  visits = λ j. record {
    customer_id = j + 1;
    arrival_time = 0;
    number_of_icecreams = 3;
    icecreams = icecream;
  };
}

day-IsInput : IsInput day
day-IsInput = record {
  some_customer = omega arith;
  some_machine = omega arith;
  roster = λ j hj. refl;
  few_toppings = λ j i hj hi. omega arith;
}

-- A step for the test at the head of the loop, then one for the turn.
abbrev after_turn : ℕ → System → System
after_turn j s = record {
  shop = turn day j s.shop;
  sem = pass_token 2 s.sem j;
  pc = update (update s.pc j waiting) j top;
  thread_closed = s.thread_closed;
}

after_turn-Reach :
    (j : ℕ) (s : System)
    → Reach day s
    → j < 2
    → s.pc j ≡ top
    → (IsOver day s.shop → ⊥)
    → 0 < s.sem (before 2 j)
    → Reach day (after_turn j s)
after_turn-Reach j s r lt at more up =
    later (later r (go_on j lt at more)) (take_turn j lt (ground arith) up)

abbrev s0 : System
s0 = Threads.start_system 2 (turn day) (IsOver day) (new_parlour day)

abbrev s1 : System
s1 = after_turn 1 s0

abbrev s2 : System
s2 = after_turn 0 s1

abbrev s3 : System
s3 = after_turn 1 s2

abbrev s4 : System
s4 = after_turn 0 s3

-- A state in which fewer are considered and some topping is left.
not_over :
    (n : ℕ) (s : System)
    → s.shop.orders_considered ≡ n
    → n < (setup day).total_orders
    → s.shop.super ≡ false
    → IsOver day s.shop
    → ⊥
not_over n s e lt left (inl (all, stopped)) = omega (arith, e, all)
not_over n s e lt left (inr used_up) = cc (left, used_up)

s4-Reach : Reach day s4
unfolding new_parlour setup new_order new_customer read_order enter_orders read_customer
    read_customers new_machine customer_turn arrive take_seat turn_away leave_short order_all sit
    give_up leave_rejected give_up_order ingredient_shortage no_service own_orders reject_no_seats
    reject_at_placement place_order collect are_all_orders_completed leave_served is_left tick
    machine_turn run_machine stop_machine look_from for_upto find_upto consider is_open
    is_possible_to_make is_short needed_at_preparation needed_at_placement add_topping no_time
    no_time_order no_toppings take_order use_toppings use_topping used work is_ready finish_order
    ◌+ℤ◌ ◌-ℤ◌
s4-Reach =
    after_turn-Reach 0 s3
      (after_turn-Reach 1 s2
        (after_turn-Reach 0 s1
          (after_turn-Reach 1 s0 start (omega arith) refl (not_over 0 s0 refl (omega arith) refl)
            (omega arith))
          (omega arith) refl (not_over 0 s1 refl (omega arith) refl) (omega arith))
        (omega arith) refl (not_over 0 s2 refl (omega arith) refl) (omega arith))
      (omega arith) refl (not_over 1 s3 refl (omega arith) refl) (omega arith)

-- The customer has left, since the first ice cream was rejected; the machine is busy with the second.
s4-left :
    ((s4.shop.customers 0).leaves ≡ true)
    × ((s4.shop.machines 0).order ≡ some 1)
    × (s4.shop.stock 0 ≡ some 3)
unfolding new_parlour setup new_order new_customer read_order enter_orders read_customer
    read_customers new_machine customer_turn arrive take_seat turn_away leave_short order_all sit
    give_up leave_rejected give_up_order ingredient_shortage no_service own_orders reject_no_seats
    reject_at_placement place_order collect are_all_orders_completed leave_served is_left tick
    machine_turn run_machine stop_machine look_from for_upto find_upto consider is_open
    is_possible_to_make is_short needed_at_preparation needed_at_placement add_topping no_time
    no_time_order no_toppings take_order use_toppings use_topping used work is_ready finish_order
    ◌+ℤ◌ ◌-ℤ◌
s4-left = (refl, refl, refl)

-- The first ice cream is counted, the third is settled and not counted.
two_settled :
    (orders : ℕ → Order)
    → settled (orders 0) ≡ 1
    → settled (orders 2) ≡ 1
    → 1 < tally settled 3 orders
two_settled orders first third = omega (
  arith,
  tally-suc settled 2 orders,
  tally-suc settled 1 orders,
  tally-suc settled 0 orders,
  first,
  third,
)

s4-lost : s4.shop.orders_considered < tally settled (setup day).total_orders s4.shop.orders
unfolding new_parlour setup new_order new_customer read_order enter_orders read_customer
    read_customers new_machine customer_turn arrive take_seat turn_away leave_short order_all sit
    give_up leave_rejected give_up_order ingredient_shortage no_service own_orders reject_no_seats
    reject_at_placement place_order collect are_all_orders_completed leave_served is_left tick
    machine_turn run_machine stop_machine look_from for_upto find_upto consider is_open
    is_possible_to_make is_short needed_at_preparation needed_at_placement add_topping no_time
    no_time_order no_toppings take_order use_toppings use_topping used work is_ready finish_order
    ◌+ℤ◌ ◌-ℤ◌
s4-lost = two_settled s4.shop.orders refl refl

After-lost_example :
    (s4.shop.orders_considered < (setup day).total_orders)
    × (IsOver day s4.shop → s4.shop.super ≡ true)
After-lost_example = After-lost day day-IsInput s4-Reach s4-lost Threads.at_once

Reach-counted_example :
    (s4.shop.orders_considered ≤ (setup day).total_orders)
    × (s4.shop.orders_considered ≡ (setup day).total_orders
        → (i : ℕ) → i < (setup day).total_orders
        → settled (s4.shop.orders i) ≡ 1)
Reach-counted_example = Reach-counted day day-IsInput s4-Reach

Reach-seats_example :
    (k : ℕ) × (s4.shop ≡ (play day k).shop)
    × TokenAt 2 s4.sem (play day k).last
    × ((j : ℕ) → j < 2 → turns (play day k).last s4.shop.ticks j ≡ turns_taken day k j)
    × (s4.shop.customers_sitting_in_parlour
        ≡ pos (
            seats_taken day.visits
              (setup day)
              (turns (play day k).last s4.shop.ticks)
              s4.shop.customers))
    × (seats_taken day.visits (setup day) (turns (play day k).last s4.shop.ticks) s4.shop.customers
        ≤ 1)
Reach-seats_example = Reach-seats day day-IsInput s4-Reach

Reach-stock_example :
    (r : ℕ) × (s4.shop.stock 0 ≡ some r)
    × (r + tally (uses 0) (setup day).total_orders s4.shop.orders ≡ 4)
Reach-stock_example = Reach-stock day day-IsInput 0 4 s4-Reach (omega arith) refl

read_customers-ReadingInv_example : ReadingInv day.visits 1 (reading day 1)
read_customers-ReadingInv_example =
    read_customers-ReadingInv day.visits (unread (day.visits 0)) 1 refl refl
