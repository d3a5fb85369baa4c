-- ===== src/Parlour/Numbers.antt =====
-- How `main` of concurrency/2.c numbers the orders of its customers.
use mini_project_3_amey_chou.Common.{
  ℕ, zero, suc, ◌+◌, ◌-◌, ◌<◌, ◌≤◌, ◌≡◌, ◌≢◌, refl, arith, sym, subst, ◌∙◌, true, false, none,
  update, update_self, update-ne, for_upto, tally, tally-suc, tally-none, below_suc,
}
use native.Mathlib.Decide.{dec_lt}
use mini_project_3_amey_chou.Parlour.{Customer, Order}
use mini_project_3_amey_chou.Parlour.Opening.{
  Visit, Reading, Entry, new_order, new_customer, read_order, enter_orders, read_customer,
  read_customers,
}

-- Order `i` of a visit as entered in place `p` of the table: the orders are numbered from 1, and
-- nothing has happened to it yet.
abbrev pub entered_order : Visit → (i p : ℕ) → Order
entered_order v i p = record {
  is_to_considered = true;
  is_placed = none;
  is_completed = false;
  rejected = false;
  rejected_due_to_is_atplacement = false;
  rejected_due_to_is_atpreparation = false;
  rejected_due_to_no_machines = 0;
  rejected_due_to_no_seats = false;
  order_id = p + 1;
  customer_id = v.customer_id;
  customer_order_id = i + 1;
  icecream_machine_id = none;
  start_time_of_order = none;
  icecream = v.icecreams i;
}

new_order-entered : (v : Visit) (i p : ℕ) → new_order v i p ≡ entered_order v i p
unfolding new_order
new_order-entered v i p = refl

-- A customer as read, whose orders start at `base`.
pub record IsCustomer (v : Visit) (base : ℕ) (c : Customer) : Type 0 where
  pub id : c.customer_id ≡ v.customer_id
  pub arrival : c.arrival_time ≡ v.arrival_time
  pub number : c.number_of_icecreams ≡ v.number_of_icecreams
  pub numbered : (i : ℕ) → i < v.number_of_icecreams → c.order_id_s i ≡ base + i + 1

-- The customer after `m` orders.
record EntryInv (v : Visit) (e : Entry) (m : ℕ) (t : Entry) : Type 0 where
  count : t.orders_index ≡ e.orders_index + m
  id : t.customer.customer_id ≡ e.customer.customer_id
  arrival : t.customer.arrival_time ≡ e.customer.arrival_time
  number : t.customer.number_of_icecreams ≡ e.customer.number_of_icecreams
  here : t.customer.leaves ≡ e.customer.leaves
  numbered : (i : ℕ) → i < m → t.customer.order_id_s i ≡ e.orders_index + i + 1
  entered : (i : ℕ) → i < m → t.orders (e.orders_index + i) ≡ new_order v i (e.orders_index + i)
  before : (p : ℕ) → p < e.orders_index → t.orders p ≡ e.orders p

read-EntryInv : (v : Visit) (e : Entry) (m : ℕ) → EntryInv v e m (for_upto m (read_order v) e)
unfolding for_upto read_order
read-EntryInv v e zero = record {
  count = omega arith;
  id = refl;
  arrival = refl;
  number = refl;
  here = refl;
  numbered = λ i lt. absurd (omega arith);
  entered = λ i lt. absurd (omega arith);
  before = λ p lt. refl;
}
read-EntryInv v e (suc m) =
    let t = for_upto m (read_order v) e in
    let h = read-EntryInv v e m in
    record {
      count = omega (arith, h.count);
      id = h.id;
      arrival = h.arrival;
      number = h.number;
      here = h.here;
      numbered =
          below_suc
            (λ i. update t.customer.order_id_s m (t.orders_index + 1) i ≡ e.orders_index + i + 1) m
            (λ i lt. ground (arith, h.numbered i lt)) (ground (arith, h.count));
      entered =
          below_suc
            (λ i.
              update t.orders t.orders_index (new_order v m t.orders_index) (e.orders_index + i)
              ≡ new_order v i (e.orders_index + i))
            m (λ i lt. ground (arith, h.entered i lt, h.count)) (ground (arith, h.count));
      before = λ p lt. ground (arith, h.before p lt, h.count);
    }

module _ (visits : ℕ → Visit) where
  -- The number of orders of the customers before `j`.
  pub first_order : ℕ → ℕ
  first_order j = tally (λ (v : Visit). v.number_of_icecreams) j visits

  pub first_order-suc :
      (j : ℕ) → first_order (suc j) ≡ first_order j + (visits j).number_of_icecreams
  unfolding first_order
  first_order-suc j = tally-suc (λ (v : Visit). v.number_of_icecreams) j visits

  pub first_order-none : first_order 0 ≡ 0
  unfolding first_order
  first_order-none = tally-none (λ (v : Visit). v.number_of_icecreams) visits

  pub first_order-le :
      (j k : ℕ) → j < k → first_order j + (visits j).number_of_icecreams ≤ first_order k
  first_order-le j zero lt = absurd (omega arith)
  first_order-le j (suc k) lt = elim (dec_lt j k) [
    | yes below ↦ omega (arith, first_order-le j k below, first_order-suc k)
    | no last ↦
        let e : k ≡ j = omega arith in
        subst (λ k. first_order j + (visits j).number_of_icecreams ≤ first_order (suc k)) (sym e)
          (omega (arith, first_order-suc j))
  ]

  -- Customers do not share orders.
  pub own_orders_apart :
      (j k i m : ℕ)
      → i < (visits j).number_of_icecreams
      → m < (visits k).number_of_icecreams
      → j ≢ k
      → first_order j + i ≢ first_order k + m
  own_orders_apart j k i m hi hm ne e = elim (dec_lt j k) [
    | yes lt ↦ omega (arith, first_order-le j k lt)
    | no le ↦ omega (arith, first_order-le k j (omega arith))
  ]

  -- Every order is some customer's.
  pub owner :
      (c p : ℕ)
      → p < first_order c
      → (j : ℕ) × (i : ℕ) × (j < c) × (i < (visits j).number_of_icecreams) × (p ≡ first_order j + i)
  owner zero p lt = absurd (omega (arith, first_order-none))
  owner (suc c) p lt = elim (dec_lt p (first_order c)) [
    | yes below ↦ let (j, i, hj, hi, e) = owner c p below in (j, i, omega arith, hi, e)
    | no last ↦ (c, p - first_order c, omega arith, omega (arith, first_order-suc c), omega arith)
  ]

  pub record ReadingInv (c : ℕ) (r : Reading) : Type 0 where
    pub customers_read : r.customers_index ≡ c
    pub orders_read : r.orders_index ≡ first_order c
    pub customers :
        (j : ℕ)
        → j < c
        → IsCustomer (visits j) (first_order j) (r.customers j) × ((r.customers j).leaves ≡ false)
    pub orders :
        (j i : ℕ)
        → j < c
        → i < (visits j).number_of_icecreams
        → r.orders (first_order j + i) ≡ entered_order (visits j) i (first_order j + i)

  read_customer-ReadingInv :
      (c : ℕ) (r : Reading) → ReadingInv c r → ReadingInv (suc c) (read_customer (visits c) r)
  unfolding read_customer enter_orders new_customer
  read_customer-ReadingInv c r h =
      let v = visits c in
      let e : Entry = record {
        customer = new_customer v;
        orders_index = r.orders_index;
        orders = r.orders;
      } in
      let t = for_upto v.number_of_icecreams (read_order v) e in
      let k = read-EntryInv v e v.number_of_icecreams in
      record {
        customers_read = omega (arith, h.customers_read);
        orders_read = omega (arith, k.count, h.orders_read, first_order-suc c);
        customers = rw h.customers_read (
            below_suc
              (λ j.
                IsCustomer (visits j) (first_order j) (update r.customers c t.customer j)
                × ((update r.customers c t.customer j).leaves ≡ false))
              c
              (λ j lt.
                subst (λ x. IsCustomer (visits j) (first_order j) x × (x.leaves ≡ false))
                  (sym (update-ne r.customers c j t.customer (λ e. omega arith)))
                  (h.customers j lt))
              (subst (λ x. IsCustomer v (first_order c) x × (x.leaves ≡ false))
                (sym (update_self r.customers c t.customer))
                (
                  record {
                    id = k.id;
                    arrival = k.arrival;
                    number = k.number;
                    numbered = λ i lt. k.numbered i lt ∙ omega (arith, h.orders_read);
                  },
                  k.here,
                )));
        orders = λ j i lt.
            below_suc
              (λ j.
                (i : ℕ)
                → i < (visits j).number_of_icecreams
                → t.orders (first_order j + i) ≡ entered_order (visits j) i (first_order j + i))
              c
              (λ j lt i hi.
                k.before (first_order j + i) (omega (arith, h.orders_read, first_order-le j c lt))
                ∙ h.orders j i lt hi)
              (λ i hi.
                subst (λ b. t.orders (b + i) ≡ entered_order v i (b + i)) h.orders_read
                  (k.entered i hi ∙ new_order-entered v i (r.orders_index + i)))
              j lt i;
      }

  -- `main` gives the customers their orders in turn: customer `j` has the orders that follow those
  -- of the customers before, numbered from 1, each with the id of its customer, its number among the
  -- orders of that customer and its ice cream, still to be considered, and not yet placed, taken,
  -- completed or rejected. The customer keeps the numbers of its orders.
  pub read_customers-ReadingInv :
      (empty : Reading) (c : ℕ)
      → empty.customers_index ≡ 0
      → empty.orders_index ≡ 0
      → ReadingInv c (read_customers visits empty c)
  unfolding read_customers for_upto
  read_customers-ReadingInv empty zero at_none no_orders = record {
    customers_read = at_none;
    orders_read = omega (arith, no_orders, first_order-none);
    customers = λ j lt. absurd (omega arith);
    orders = λ j i lt. absurd (omega arith);
  }
  read_customers-ReadingInv empty (suc c) at_none no_orders =
      read_customer-ReadingInv c (read_customers visits empty c)
        (read_customers-ReadingInv empty c at_none no_orders)
