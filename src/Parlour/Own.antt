-- ===== src/Parlour/Own.antt =====
-- The loops over the orders of one customer of concurrency/2.c, and the invariant of the machines.
use mini_project_3_amey_chou.Common.{
  ℕ, ◌+◌, ◌<◌, ◌≤◌, ◌≡◌, ◌≢◌, refl, arith, Option, none, some, sym, ap, ◌∙◌, subst, tally,
  tally_ext, visit-off, visit-keeps, tally-visit_le, tally-visit_all,
}
use mini_project_3_amey_chou.Parlour.{Customer, Order, Setup, Parlour}
use mini_project_3_amey_chou.Parlour.Toppings.{is_none}
use mini_project_3_amey_chou.Parlour.Customers.{own_order, own_orders}
use mini_project_3_amey_chou.Parlour.Opening.{Visit}
use mini_project_3_amey_chou.Parlour.Numbers.{IsCustomer}
use mini_project_3_amey_chou.Parlour.Inv.{settled, uses, Busy, WorkInv, IsWorking}

-- A write to an order that no machine makes.
pub record KeepsWork (o p : Order) : Type 0 where
  pub machine : p.icecream_machine_id ≡ o.icecream_machine_id
  pub completed : p.is_completed ≡ o.is_completed
  pub icecream : p.icecream ≡ o.icecream

module _ (v : Visit) (base : ℕ) (c : Customer) (h : IsCustomer v base c) where
  pub own_order-eq : (i : ℕ) → i < c.number_of_icecreams → own_order c i ≡ base + i
  own_order-eq i lt = omega (arith, h.numbered i (omega (arith, h.number)))

  pub own-off :
      (f : Order → Order) (orders : ℕ → Order) (p : ℕ)
      → ((i : ℕ) → i < v.number_of_icecreams → base + i ≢ p)
      → own_orders c f orders p ≡ orders p
  unfolding own_orders
  own-off f orders p off =
      visit-off (own_order c) f c.number_of_icecreams orders p
        (λ i lt e. off i (omega (arith, h.number)) (sym (own_order-eq i lt) ∙ e))

  module _ (total : ℕ) (within : base + v.number_of_icecreams ≤ total) (f : Order → Order) where
    own_within : (i : ℕ) → i < c.number_of_icecreams → own_order c i < total
    own_within i lt = omega (arith, own_order-eq i lt, h.number)

    own_apart :
        (i j : ℕ)
        → i < c.number_of_icecreams
        → j < c.number_of_icecreams
        → i ≢ j
        → own_order c i ≢ own_order c j
    own_apart i j hi hj ne e = omega (arith, own_order-eq i hi, own_order-eq j hj)

    pub tally-own_le :
        (orders : ℕ → Order)
        → ((i : ℕ)
            → i < v.number_of_icecreams
            → settled (orders (base + i)) ≤ settled (f (orders (base + i))))
        → tally settled total orders ≤ tally settled total (own_orders c f orders)
    unfolding own_orders
    tally-own_le orders each =
        tally-visit_le (own_order c) f settled total c.number_of_icecreams orders own_within
          own_apart
          (λ i lt.
            subst (λ p. settled (orders p) ≤ settled (f (orders p))) (sym (own_order-eq i lt))
              (each i (omega (arith, h.number))))

    pub tally-own_all :
        (orders : ℕ → Order)
        → ((i : ℕ)
            → i < v.number_of_icecreams
            → (settled (orders (base + i)) ≡ 0) × (settled (f (orders (base + i))) ≡ 1))
        → tally settled total (own_orders c f orders)
          ≡ tally settled total orders + c.number_of_icecreams
    unfolding own_orders
    tally-own_all orders each =
        tally-visit_all (own_order c) f settled total c.number_of_icecreams orders own_within
          own_apart
          (λ i lt.
            subst (λ p. (settled (orders p) ≡ 0) × (settled (f (orders p)) ≡ 1))
              (sym (own_order-eq i lt)) (each i (omega (arith, h.number))))

own-KeepsWork :
    (c : Customer) (f : Order → Order)
    → ((o : Order) → KeepsWork o (f o))
    → (orders : ℕ → Order) (p : ℕ) → KeepsWork (orders p) (own_orders c f orders p)
unfolding own_orders
own-KeepsWork c f keep orders p =
    visit-keeps (own_order c) f (λ p o. KeepsWork (orders p) o)
      (λ p o k. record {
        machine = (keep o).machine ∙ k.machine;
        completed = (keep o).completed ∙ k.completed;
        icecream = (keep o).icecream ∙ k.icecream;
      })
      c.number_of_icecreams orders
      (λ p. record { machine = refl; completed = refl; icecream = refl }) p

uses-KeepsWork : (i : ℕ) (o p : Order) → KeepsWork o p → uses i o ≡ uses i p
uses-KeepsWork i o p k = cc (k.machine, k.icecream)

module _ (g : Setup) (initial : ℕ → Option ℕ) (lag : ℕ) (s : Parlour)
    (v : IsWorking g initial lag s) where
  Busy-KeepsWork :
      (orders : ℕ → Order)
      → ((p : ℕ) → KeepsWork (s.orders p) (orders p))
      → (k : ℕ) (w : Option ℕ) → Busy g.total_orders k s.orders w
      → Busy g.total_orders k orders w
  Busy-KeepsWork orders keep k none u = u
  Busy-KeepsWork orders keep k (some i) u = (u.0, (keep i).machine ∙ u.1, (keep i).completed ∙ u.2)

  -- Writes to a customer's orders keep the invariant of the machines, if they count no more orders
  -- than they settle.
  pub own-Inv :
      (c : Customer) (f : Order → Order) (considered : ℕ)
      → ((o : Order) → KeepsWork o (f o))
      → considered + tally settled g.total_orders s.orders
        ≤ s.orders_considered + tally settled g.total_orders (own_orders c f s.orders)
      → WorkInv g initial lag (own_orders c f s.orders) s.machines considered s.stock
  own-Inv c f considered keep count =
      let kept = own-KeepsWork c f keep s.orders in
      record {
        each_order = λ i hi. record {
          done = λ e.
              ap is_none (kept i).machine ∙ (v.each_order i hi).done (sym (kept i).completed ∙ e);
          fits = subst (λ x. x.toppings_num ≤ g.t) (sym (kept i).icecream) (v.each_order i hi).fits;
        };
        each_machine = λ k hk.
            let (id, with_it) = v.each_machine k hk in
            (
              id,
              λ busy.
                  Busy-KeepsWork (own_orders c f s.orders) kept k (s.machines k).order
                    (with_it busy),
            );
        counted = omega (arith, v.counted, count);
        stocked = λ t q ht e.
            let (r, at, sum) = v.stocked t q ht e in
            (r, at, ap (λ n. r + n) (sym (same_uses t (own_orders c f s.orders) kept)) ∙ sum);
      }
    where
      same_uses :
          (t : ℕ) (orders : ℕ → Order)
          → ((p : ℕ) → KeepsWork (s.orders p) (orders p))
          → tally (uses t) g.total_orders s.orders ≡ tally (uses t) g.total_orders orders
      same_uses t orders kept =
          tally_ext (uses t) g.total_orders s.orders orders
            (λ i lt. uses-KeepsWork t (s.orders i) (orders i) (kept i))
