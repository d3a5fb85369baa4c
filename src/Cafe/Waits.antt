-- ===== src/Cafe/Waits.antt =====
-- The totals that `main` of concurrency/1.c prints, for every run of the threads.
use mini_project_3_amey_chou.Common.{
  ℕ, zero, suc, ◌+◌, ◌-◌, ◌<◌, ◌≤◌, ◌≡◌, inl, inr, refl, arith, sym, ap, ◌∙◌, subst, ltb,
  Bool-cases, Option-cases, for_upto, tally, tally-suc, tally-none, pos, ◌+ℤ◌, int32, int32_max,
  int32_of_small,
}
use mini_project_3_amey_chou.Ring.{after}
use mini_project_3_amey_chou.Ring.Threads.{played, Reach-IsPlay}
use mini_project_3_amey_chou.Cafe.{Shop, Order, Barista, Customer, new_shop}
use mini_project_3_amey_chou.Cafe.Inv.{OrderInv, ShopInv, wasted}
use mini_project_3_amey_chou.Cafe.Leaving.{IsRoster}
use mini_project_3_amey_chou.Cafe.Ring.{System, Reach, play, turn, IsOver}
use mini_project_3_amey_chou.Cafe.Simulation.{play-SimInv}
use mini_project_3_amey_chou.Cafe.Settling.{play-Due}
use mini_project_3_amey_chou.Cafe.Totals.{
  coffee_wasted, wait_of, sum_time_wait, WaitInv, Waits, untaken_if, customer-Waits, barista-Waits,
  new-Waits,
}

coffee_wasted-eq-tally :
    (b : ℕ) (s : Shop) → coffee_wasted b s ≡ tally (λ (x : Barista). x.coffee_wasted) b s.baristas
unfolding coffee_wasted for_upto
coffee_wasted-eq-tally zero s = sym (tally-none (λ (x : Barista). x.coffee_wasted) s.baristas)
coffee_wasted-eq-tally (suc b) s =
    omega
      (arith, coffee_wasted-eq-tally b s, tally-suc (λ (x : Barista). x.coffee_wasted) b s.baristas)

-- A wait is from 0 up to one tick more than the tolerance.
wait_of_bound :
    (c : Customer) (o : Order)
    → OrderInv c o
    → WaitInv c o
    → c.tolerance_time + 1 ≤ int32_max
    → (w : ℕ) × (wait_of o ≡ pos w) × (w ≤ c.tolerance_time + 1)
unfolding wait_of
wait_of_bound c o v u small = elim (Option-cases o.is_taken_up) [
  | inl none_ ↦
      let w = o.customer.departure_time - c.arrival_time in
      (
        w,
        ground (arith, none_, v.arrival, u.untaken none_, int32_of_small (pos w)),
        omega (arith, u.untaken none_),
      )
  | inr (t, at) ↦
      let w = t - c.arrival_time in
      (
        w,
        ground (arith, at, v.arrival, u.taken t at, int32_of_small (pos w)),
        omega (arith, u.taken t at),
      )
]

add_pos : (a b : ℕ) → a + b ≤ int32_max → int32 (pos a +ℤ pos b) ≡ pos (a + b)
unfolding ◌+ℤ◌
add_pos a b h = ground (arith, int32_of_small (pos (a + b)))

sum_time_wait_bound :
    (n : ℕ) (customers : ℕ → Customer) (s : Shop)
    → ((i : ℕ)
        → i < n
        → (customers i).tolerance_time + 1 ≤ int32_max
        → (w : ℕ) × (wait_of (s.orders i) ≡ pos w) × (w ≤ (customers i).tolerance_time + 1))
    → tally (λ (c : Customer). c.tolerance_time + 1) n customers ≤ int32_max
    → (w : ℕ) × (sum_time_wait n s ≡ pos w)
      × (w ≤ tally (λ (c : Customer). c.tolerance_time + 1) n customers)
unfolding sum_time_wait for_upto
sum_time_wait_bound zero customers s each fits = (0, refl, omega arith)
sum_time_wait_bound (suc n) customers s each fits =
    let sum = tally-suc (λ (c : Customer). c.tolerance_time + 1) n customers in
    let (w, e, le) =
      sum_time_wait_bound n customers s (λ i lt. each i (omega arith)) (omega (arith, fits, sum)) in
    let (x, at, short) = each n (omega arith) (omega (arith, fits, sum)) in
    (
      w + x,
      ap (λ z. int32 (z +ℤ wait_of (s.orders n))) e
          ∙ ap (λ z. int32 (pos w +ℤ z)) at
          ∙ add_pos w x (omega (arith, le, short, sum, fits)),
      omega (arith, le, short, sum),
    )

module _ (n b : ℕ) (customers : ℕ → Customer) (roster : IsRoster customers) (some_customer : 0 < n)
    (some_barista : 0 < b) (some_work : (i : ℕ) → i < n → 0 < (customers i).time_to_make)
    (set_up : (i : ℕ)
      → i < n
      → (customers i).departure_time
        ≡ (customers i).arrival_time + (customers i).tolerance_time) where
  play-Waits : (k : ℕ) → Waits n customers (play n b customers k).shop
  unfolding played
  play-Waits zero = new-Waits n customers set_up
  play-Waits (suc k) =
      let s = (play n b customers k).shop in
      let last = (play n b customers k).last in
      let j = after (n + b) last in
      let (h, inv) = play-SimInv n b customers roster some_customer some_barista k in
      let due = play-Due n b customers roster some_customer some_barista some_work k in
      elim (Bool-cases (ltb j n)) [
        | inl customer ↦ rw customer (customer-Waits n customers j s (roster j).0 (play-Waits k))
        | inr barista ↦ rw barista (
            barista-Waits n customers b s inv.0 (play-Waits k)
              (λ i hi can.
                let (nobody, wanted) = untaken_if s.ticks (s.orders i) can in
                omega (arith, (due i hi).open_ nobody wanted))
              (j - n) (ground (arith, h)))
      ]

  -- Let there be a customer and a barista, the customers be numbered as `main` numbers them, every
  -- drink take time, each customer be set up to leave when the tolerance ends, and the tolerances,
  -- each with one tick more, be together an `int`. Then in every reachable state, as
  -- when `main` prints them: the coffees wasted are the finished ones that nobody got, and the sum
  -- of the waiting times does not wrap, is not negative, and is at most the sum of the tolerances
  -- plus one tick for each customer.
  pub totals_lem :
      {s : System}
      → Reach n b customers s
      → tally (λ (c : Customer). c.tolerance_time + 1) n customers ≤ int32_max
      → (coffee_wasted b s.shop ≡ tally wasted n s.shop.orders)
        × ((w : ℕ) × (sum_time_wait n s.shop ≡ pos w)
            × (w ≤ tally (λ (c : Customer). c.tolerance_time + 1) n customers))
  totals_lem {s} r fits =
      let (k, (e, t)) =
        Reach-IsPlay (n + b) (turn n b customers) (IsOver n b customers) (new_shop customers)
          (omega arith) r in
      let v : ShopInv n b customers s.shop =
        subst (ShopInv n b customers) (sym e)
          (play-SimInv n b customers roster some_customer some_barista k).1.0 in
      let w : Waits n customers s.shop = subst (Waits n customers) (sym e) (play-Waits k) in
      (
        coffee_wasted-eq-tally b s.shop ∙ v.waste,
        sum_time_wait_bound n customers s.shop
            (λ i hi. wait_of_bound (customers i) (s.shop.orders i) (v.orders i hi) (w i hi)) fits,
      )
