-- ===== src/Parlour/Inv.antt =====
-- The invariant of the machines, the orders and the stock of concurrency/2.c, and the turns of
-- machines.
use mini_project_3_amey_chou.Common.{
  ℕ, ◌+◌, ◌<◌, ◌≤◌, ◌≡◌, ◌≢◌, arith, true, false, Option, none, some, sym, subst, if◌then◌else◌,
  update, update-ne, at_update, tally, tally-update, not,
}
use mini_project_3_amey_chou.Parlour.{Order, Machine, Setup, Parlour}
use mini_project_3_amey_chou.Parlour.Toppings.{is_none}
use mini_project_3_amey_chou.Parlour.Stock.{topping_count}

-- 1 for an order that is completed, or that no machine has and none will take.
abbrev pub settled : Order → ℕ
settled o =
    if o.is_completed
    then 1
    else if not (is_none o.icecream_machine_id)
    then 0
    else if o.is_to_considered
    then 0
    else 1

-- How much of topping `i` a machine has taken for an order.
abbrev pub uses : ℕ → Order → ℕ
uses i o =
    if is_none o.icecream_machine_id then 0 else topping_count o.icecream o.icecream.toppings_num i

pub record OrderInv (t : ℕ) (o : Order) : Type 0 where
  pub done : o.is_completed ≡ true → is_none o.icecream_machine_id ≡ false
  pub fits : o.icecream.toppings_num ≤ t

-- A busy machine `k` works on an order of its own that is not completed.
abbrev pub Busy : (total k : ℕ) → (ℕ → Order) → Option ℕ → Type 0
Busy total k orders none = ⊥
Busy total k orders (some i) =
    (i < total)
    × ((orders i).icecream_machine_id ≡ some (k + 1))
    × ((orders i).is_completed ≡ false)

abbrev pub MachineInv : (total k : ℕ) → (ℕ → Order) → Machine → Type 0
MachineInv total k orders m =
    (m.icecream_machine_id ≡ k + 1) × (m.is_busy ≡ true → Busy total k orders m.order)

-- `lag` orders, at least, are settled and not counted; `initial` is the stock at the opening.
pub record WorkInv (g : Setup) (initial : ℕ → Option ℕ) (lag : ℕ) (orders : ℕ → Order)
    (machines : ℕ → Machine) (considered : ℕ) (stock : ℕ → Option ℕ) : Type 0 where
  pub each_order : (i : ℕ) → i < g.total_orders → OrderInv g.t (orders i)
  pub each_machine : (k : ℕ) → k < g.n → MachineInv g.total_orders k orders (machines k)
  pub counted : considered + lag ≤ tally settled g.total_orders orders
  pub stocked :
      (i q : ℕ)
      → i < g.t
      → initial i ≡ some q
      → (r : ℕ) × (stock i ≡ some r) × (r + tally (uses i) g.total_orders orders ≡ q)

module _ (g : Setup) (initial : ℕ → Option ℕ) (lag : ℕ) where
  abbrev pub IsWorking : Parlour → Type 0
  IsWorking s = WorkInv g initial lag s.orders s.machines s.orders_considered s.stock

  module _ (s : Parlour) (v : IsWorking s) where
    -- A write to order `i` leaves a machine that works on another one as it is.
    other-MachineInv :
        (i j : ℕ) (o : Order) (m : Machine)
        → (s.orders i).icecream_machine_id ≢ some (j + 1)
        → MachineInv g.total_orders j s.orders m
        → MachineInv g.total_orders j (update s.orders i o) m
    other-MachineInv i j o m not_its (id, with_it) = (id, λ busy. still m.order (with_it busy))
      where
        still :
            (w : Option ℕ)
            → Busy g.total_orders j s.orders w
            → Busy g.total_orders j (update s.orders i o) w
        still none u = u
        still (some p) u =
            subst
              (λ (q : Order).
                (p < g.total_orders)
                × (q.icecream_machine_id ≡ some (j + 1))
                × (q.is_completed ≡ false))
              (sym (
                update-ne s.orders i p o (λ e.
                  not_its
                    (subst (λ x. (s.orders x).icecream_machine_id ≡ some (j + 1)) (sym e) u.1))))
              u

    module _ (i : ℕ) (hi : i < g.total_orders) (o : Order) (own : OrderInv g.t o) where
      each_order_with : (j : ℕ) → j < g.total_orders → OrderInv g.t (update s.orders i o j)
      each_order_with =
          at_update (λ j (p : Order). j < g.total_orders → OrderInv g.t p) s.orders i o (λ _. own)
            (λ j ne. v.each_order j)

      -- A write to an order that no machine has, or gets.
      pub reject-Inv :
          (considered : ℕ)
          → (s.orders i).icecream_machine_id ≡ none
          → o.icecream_machine_id ≡ none
          → considered + settled (s.orders i) ≤ s.orders_considered + settled o
          → WorkInv g initial lag (update s.orders i o) s.machines considered s.stock
      reject-Inv considered nobody still_nobody count = record {
        each_order = each_order_with;
        each_machine =
            λ j hj. other-MachineInv i j o (s.machines j) (λ e. cc) (v.each_machine j hj);
        counted = omega (arith, v.counted, tally-update settled g.total_orders s.orders i o hi);
        stocked = λ t q ht e.
            let (r, at, sum) = v.stocked t q ht e in
            let before : uses t (s.orders i) ≡ 0 = ground (arith, nobody) in
            let after : uses t o ≡ 0 = ground (arith, still_nobody) in
            (
              r,
              at,
              omega
                  (arith, sum, tally-update (uses t) g.total_orders s.orders i o hi, before, after),
            );
      }

      -- A write to an order, and to machine `k`, which alone works on it.
      module _ (k : ℕ) (m : Machine) (mine : MachineInv g.total_orders k (update s.orders i o) m)
          (alone : (j : ℕ) → k ≢ j → (s.orders i).icecream_machine_id ≢ some (j + 1)) where
        each_machine_with :
            (j : ℕ)
            → j < g.n
            → MachineInv g.total_orders j (update s.orders i o) (update s.machines k m j)
        each_machine_with =
            at_update
              (λ j (x : Machine). j < g.n → MachineInv g.total_orders j (update s.orders i o) x)
              s.machines k m (λ _. mine)
              (λ j ne hj. other-MachineInv i j o (s.machines j) (alone j ne) (v.each_machine j hj))

        pub work-Inv :
            (considered : ℕ) (stock : ℕ → Option ℕ)
            → considered + settled (s.orders i) ≤ s.orders_considered + settled o
            → ((t r : ℕ)
                → t < g.t
                → s.stock t ≡ some r
                → (r' : ℕ) × (stock t ≡ some r') × (r' + uses t o ≡ r + uses t (s.orders i)))
            → WorkInv g initial lag (update s.orders i o) (update s.machines k m) considered stock
        work-Inv considered stock count enough = record {
          each_order = each_order_with;
          each_machine = each_machine_with;
          counted = omega (arith, v.counted, tally-update settled g.total_orders s.orders i o hi);
          stocked = λ t q ht e.
              let (r, at, sum) = v.stocked t q ht e in
              let (r', at', taken) = enough t r ht at in
              (
                r',
                at',
                omega (arith, sum, taken, tally-update (uses t) g.total_orders s.orders i o hi),
              );
        }
