-- ===== src/Cafe/Tests.antt =====
-- Runs of the café of concurrency/1.c: two customers and one barista.
use mini_project_3_amey_chou.Common.{
  ◌≤◌, pos, tally, tally-suc, tally-none, int32_max, ℕ, ◌<◌, ◌≡◌, ◌≢◌, ◌⊎◌, ◌+◌, ◌*◌, refl, arith,
  [], ◌∷◌, update, find_upto,
}
use mini_project_3_amey_chou.Cafe.{
  Customer, new_customer, starts, arrives, new_shop, new_order, customer_turn, barista_turn,
  receive, give_up, announce, take_order, can_take, work, is_ready,
}
use mini_project_3_amey_chou.Ring.Threads.{
  top, waiting, start, later, go_on, take_turn, Reach-IsPlay,
}
use mini_project_3_amey_chou.Cafe.Ring.{System, Step, Reach, turn, start_system, IsPlay, IsOver}
use mini_project_3_amey_chou.Ring.{pass_token, before}
use mini_project_3_amey_chou.Cafe.Inv.{ShopInv, wasted}
use mini_project_3_amey_chou.Cafe.Leaving.{IsRoster}
use mini_project_3_amey_chou.Cafe.Simulation.{Reach-ShopInv}
use mini_project_3_amey_chou.Cafe.Totals.{coffee_wasted, sum_time_wait}
use mini_project_3_amey_chou.Cafe.Waits.{totals_lem}
use mini_project_3_amey_chou.Cafe.Progress.{begin, then_, Run-settles}

-- Everybody arrives at once, waits for 2 ticks, and wants a coffee that takes 1.
abbrev guests : ℕ → Customer
guests i = new_customer i 0 2 1

guests-IsRoster : IsRoster guests
unfolding new_customer
guests-IsRoster i = (refl, refl)

-- A step for the test at the head of the loop, then one for the turn.
abbrev after_turn : ℕ → System → System
after_turn j s = record {
  shop = turn 2 1 guests j s.shop;
  sem = pass_token (2 + 1) s.sem j;
  pc = update (update s.pc j waiting) j top;
  thread_closed = s.thread_closed;
}

after_turn-Reach :
    (j : ℕ) (s : System)
    → Reach 2 1 guests s
    → j < 3
    → s.pc j ≡ top
    → s.shop.considered ≢ 2
    → 0 < s.sem (before (2 + 1) j)
    → Reach 2 1 guests (after_turn j s)
after_turn-Reach j s r lt at more up =
    later (later r (go_on j lt at more)) (take_turn j lt (ground arith) up)

abbrev s0 : System
s0 = start_system 2 1 guests

abbrev s1 : System
s1 = after_turn 1 s0

abbrev s2 : System
s2 = after_turn 2 s1

abbrev s3 : System
s3 = after_turn 0 s2

abbrev s4 : System
s4 = after_turn 1 s3

abbrev s5 : System
s5 = after_turn 2 s4

s5-Reach : Reach 2 1 guests s5
unfolding new_customer new_shop new_order customer_turn barista_turn receive give_up announce
    take_order can_take work is_ready find_upto
s5-Reach =
    after_turn-Reach 2 s4
      (after_turn-Reach 1 s3
        (after_turn-Reach 0 s2
          (after_turn-Reach 2 s1
            (after_turn-Reach 1 s0 start (omega arith) refl (λ e. omega arith) (omega arith))
            (omega arith) refl (λ e. omega arith) (omega arith))
          (omega arith) refl (λ e. omega arith) (omega arith))
        (omega arith) refl (λ e. omega arith) (omega arith))
      (omega arith) refl (λ e. omega arith) (omega arith)

-- The barista took the order of the first customer in the first tick.
s5-output : s5.shop.output ≡ starts 0 0 1 ∷ arrives 0 0 ∷ arrives 1 0 ∷ []
unfolding new_customer new_shop new_order customer_turn barista_turn receive give_up announce
    take_order can_take work is_ready find_upto
s5-output = refl

Reach-IsPlay_example : (k : ℕ) × IsPlay 2 1 guests s5 k
Reach-IsPlay_example =
    Reach-IsPlay 3 (turn 2 1 guests) (IsOver 2 1 guests) (new_shop guests) (omega arith) s5-Reach

Reach-ShopInv_example : ShopInv 2 1 guests s5.shop
Reach-ShopInv_example =
    Reach-ShopInv 2 1 guests guests-IsRoster (omega arith) (omega arith) s5-Reach

Run-settles_example :
    ((record s0 { pc = update s0.pc 1 waiting }).shop.considered ≡ 2)
    ⊎ ((1 < 2 * ((2 + 1) * 5) + (2 + 1))
        × ((t : System) × Step 2 1 guests (record s0 { pc = update s0.pc 1 waiting }) t))
unfolding new_customer new_shop
Run-settles_example =
    Run-settles 2 1 guests guests-IsRoster (omega arith) (omega arith) (λ i lt. omega arith) 5
      (λ i lt. omega arith) (then_ begin (go_on 1 (omega arith) refl (λ e. omega arith)))

small_tolerances : tally (λ (c : Customer). c.tolerance_time + 1) 2 guests ≤ int32_max
unfolding new_customer
small_tolerances =
    let tolerance : Customer → ℕ = λ c. c.tolerance_time + 1 in
    omega (
      arith,
      tally-suc tolerance 1 guests,
      tally-suc tolerance 0 guests,
      tally-none tolerance guests,
    )

totals_lem_example :
    (coffee_wasted 1 s5.shop ≡ tally wasted 2 s5.shop.orders)
    × ((w : ℕ) × (sum_time_wait 2 s5.shop ≡ pos w)
        × (w ≤ tally (λ (c : Customer). c.tolerance_time + 1) 2 guests))
unfolding new_customer
totals_lem_example =
    totals_lem 2 1 guests guests-IsRoster (omega arith) (omega arith) (λ i hi. omega arith)
      (λ i hi. refl) s5-Reach small_tolerances
