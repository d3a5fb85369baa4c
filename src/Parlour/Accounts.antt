-- ===== src/Parlour/Accounts.antt =====
-- The states that the threads of concurrency/2.c reach.
use mini_project_3_amey_chou.Common.{
  inl, inr, ℕ, ◌+◌, ◌<◌, ◌≤◌, ◌≡◌, arith, true, some, subst, pos, tally, tally-le, tally_full,
}
use mini_project_3_amey_chou.Ring.{TokenAt}
use mini_project_3_amey_chou.Ring.Threads
use mini_project_3_amey_chou.Parlour.{Order}
use mini_project_3_amey_chou.Parlour.Opening.{
  Input, setup, new_parlour, turn, IsOver, System, Reach,
}
use mini_project_3_amey_chou.Parlour.Inv.{settled, uses, Busy, IsWorking}
use mini_project_3_amey_chou.Parlour.Seats.{seats_taken}
use mini_project_3_amey_chou.Parlour.Turns.{play, turns_taken, play-turns}
use mini_project_3_amey_chou.Parlour.Simulation.{IsInput, SimInv, turns, turn-SimInv, new-SimInv}

settled-le-one : (o : Order) → settled o ≤ 1
settled-le-one o = ground arith

module _ (x : Input) (h : IsInput x) where
  abbrev threads : ℕ
  threads = x.total_customers + x.n

  some_threads : 1 < threads
  some_threads = omega (arith, h.some_customer, h.some_machine)

  abbrev SimAlong : ℕ → System → Type 0
  SimAlong lag =
      Threads.Along threads (turn x) (IsOver x) (new_parlour x) some_threads (SimInv x h lag)
        (turn-SimInv x h lag)

  Reach-SimInv : {s : System} → Reach x s → SimAlong 0 s
  Reach-SimInv =
      Threads.Reach-Along threads (turn x) (IsOver x) (new_parlour x) some_threads (SimInv x h 0)
        (turn-SimInv x h 0) (new-SimInv x h)

  -- Let the parlour have customers and machines, the ids of the customers count from 1 in the order
  -- of the input, and no ice cream have more toppings than there are kinds. Then every reachable
  -- state is that after some number `k` of turns of the ring, with the token at the thread that had
  -- the last of them (thread 0 if there was none). The counter of the seats is the number of
  -- customers who have not left and whose arrival time is below the number of turns that they have
  -- had among the `k`, which `turns` computes from the clock; and it is at most `K`.
  pub Reach-seats :
      {s : System}
      → Reach x s
      → (k : ℕ) × (s.shop ≡ (play x k).shop)
        × TokenAt threads s.sem (play x k).last
        × ((j : ℕ) → j < threads → turns (play x k).last s.shop.ticks j ≡ turns_taken x k j)
        × (s.shop.customers_sitting_in_parlour
            ≡ pos (
                seats_taken x.visits
                  (setup x)
                  (turns (play x k).last s.shop.ticks)
                  s.shop.customers))
        × (seats_taken x.visits (setup x) (turns (play x k).last s.shop.ticks) s.shop.customers
            ≤ x.k)
  unfolding setup
  Reach-seats {s} r =
      let (k, (e, t)) =
        Threads.Reach-IsPlay threads (turn x) (IsOver x) (new_parlour x) some_threads r in
      let (lt, v) =
        Threads.played-along threads (turn x) (IsOver x) (new_parlour x) some_threads (SimInv x h 0)
          (turn-SimInv x h 0) (new-SimInv x h) k in
      (k, e, t, rw e (play-turns x h k), rw e v.0.counted, rw e v.0.room)

  -- Let the parlour have customers and machines, the ids of the customers count from 1 in the order
  -- of the input, and no ice cream have more toppings than there are kinds. Then in every reachable
  -- state, of a topping that started with `q` pieces the stock and what the machines have taken for
  -- orders are together `q`: no order that a machine takes lacks a topping, and a limited stock does
  -- not turn into the unlimited one. (An ice cream with more toppings than there are kinds names
  -- one of them twice; then a limited stock can fall below 0.)
  pub Reach-stock :
      {s : System} (t q : ℕ)
      → Reach x s
      → t < x.t
      → x.stock t ≡ some q
      → (r : ℕ) × (s.shop.stock t ≡ some r)
        × (r + tally (uses t) (setup x).total_orders s.shop.orders ≡ q)
  unfolding setup
  Reach-stock t q r ht e = let (last, token, v) = Reach-SimInv r in v.1.stocked t q ht e

  -- For an input as `IsInput` says, in every reachable state the counter of the orders is at most
  -- their number; and if it is their number, as when the threads stop, each order is settled: it is
  -- completed, or no machine has it and none will take it.
  pub Reach-counted :
      {s : System}
      → Reach x s
      → (s.shop.orders_considered ≤ (setup x).total_orders)
        × (s.shop.orders_considered ≡ (setup x).total_orders
            → (i : ℕ) → i < (setup x).total_orders
            → settled (s.shop.orders i) ≡ 1)
  Reach-counted {s} r =
      let (last, t, v) = Reach-SimInv r in
      let orders = s.shop.orders in
      let total = (setup x).total_orders in
      let most = tally-le settled total orders (λ i. settled-le-one (orders i)) in
      (
        omega (arith, v.1.counted, most),
        λ e i hi.
            tally_full settled total orders (λ i. settled-le-one (orders i))
              (omega (arith, v.1.counted, most)) i hi,
      )

  -- In every reachable state a busy machine has an order of its own that is not completed: busy
  -- machines with the same order are the same.
  pub Reach-busy :
      {s : System} (j k i : ℕ)
      → Reach x s
      → j < x.n
      → k < x.n
      → (s.shop.machines j).is_busy ≡ true
      → (s.shop.machines k).is_busy ≡ true
      → (s.shop.machines j).order ≡ some i
      → (s.shop.machines k).order ≡ some i
      → j ≡ k
  unfolding setup
  Reach-busy {s} j k i r hj hk busy_j busy_k at_j at_k =
      let (last, t, v) = Reach-SimInv r in
      let its =
        λ (m : ℕ) (hm : m < x.n) (busy : (s.shop.machines m).is_busy ≡ true)
            (at : (s.shop.machines m).order ≡ some i).
          subst (Busy (setup x).total_orders m s.shop.orders) at ((v.1.each_machine m hm).1 busy) in
      ground (arith, (its j hj busy_j at_j).1, (its k hk busy_k at_k).1)

  -- For an input as `IsInput` says, if in a reachable state an order is settled that is not counted,
  -- then in no later state, however the threads are scheduled, does the counter reach the number of
  -- orders; the test of the threads for the end then holds only by `super`, when the limited
  -- toppings are used up.
  pub After-lost :
      {s t : System}
      → Reach x s
      → s.shop.orders_considered < tally settled (setup x).total_orders s.shop.orders
      → Threads.After threads (turn x) (IsOver x) (new_parlour x) s t
      → (t.shop.orders_considered < (setup x).total_orders)
        × (IsOver x t.shop → t.shop.super ≡ true)
  After-lost {s} {t} r lost later =
      let (last, token, v) = Reach-SimInv r in
      let lagging : IsWorking (setup x) x.stock 1 s.shop = record {
        each_order = v.1.each_order;
        each_machine = v.1.each_machine;
        counted = omega (arith, lost);
        stocked = v.1.stocked;
      } in
      let (last', token', v') =
        Threads.After-Along threads (turn x) (IsOver x) (new_parlour x) some_threads (SimInv x h 1)
          (turn-SimInv x h 1) (last, token, (v.0, lagging)) later in
      let short : t.shop.orders_considered < (setup x).total_orders = omega (
        arith,
        v'.1.counted,
        tally-le settled (setup x).total_orders t.shop.orders
            (λ i. settled-le-one (t.shop.orders i)),
      ) in
      (
        short,
        λ over. elim over [
          | inl done ↦ absurd (omega (arith, short, done.0))
          | inr used_up ↦ used_up
        ],
      )
