-- ===== src/Cafe/Inv.antt =====
-- The invariant of the café of concurrency/1.c between two turns, and the turns of baristas.
use mini_project_3_amey_chou.Common.{
  ℕ, ◌+◌, ◌<◌, ◌≡◌, ◌≢◌, inl, inr, refl, arith, true, false, Option, none, some, if◌then◌else◌,
  update, sym, subst, tally, tally-update, at_update, update-ne, List, find_upto, find_upto-Found,
  Found, Bool-cases,
}
use mini_project_3_amey_chou.Cafe.{
  Shop, Order, Barista, Customer, Event, can_take, take_order, work, finish_order, finished_order,
  finished_barista, is_ready, barista_turn,
}

-- 1 for an order that is no longer considered, and for a coffee made for nobody.
abbrev pub settled : Order → ℕ
settled o = if o.is_to_be_considered then 0 else 1

abbrev pub wasted : Order → ℕ
wasted o = if o.is_completed then (if o.is_given_to_customer then 0 else 1) else 0

-- The tick at which a customer gives up.
abbrev pub limit : Customer → ℕ
limit c = c.arrival_time + c.tolerance_time + 1

-- An order against its customer: nobody works on it, or barista `k` has since time `t`.
pub record OrderInv (c : Customer) (o : Order) : Type 0 where
  pub arrival : o.customer.arrival_time ≡ c.arrival_time
  pub make : o.customer.time_to_make ≡ c.time_to_make
  pub untaken : o.barista_id ≡ none → (o.is_completed ≡ false) × (o.is_taken_up ≡ none)
  pub taken :
      (k : ℕ) → o.barista_id ≡ some k → (t : ℕ) × (o.is_taken_up ≡ some t) × (c.arrival_time < t)
  pub done : o.is_completed ≡ true → o.is_to_be_considered ≡ false
  pub open_work :
      (k : ℕ) → o.barista_id ≡ some k → o.is_completed ≡ false → o.is_to_be_considered ≡ true
  pub given : o.is_given_to_customer ≡ true → o.is_completed ≡ true

-- A busy barista `k` works on an order of its own that is not finished.
abbrev pub Busy : ℕ → (ℕ → Order) → ℕ → Option ℕ → Type 0
Busy n orders k none = ⊥
Busy n orders k (some i) =
    (i < n) × ((orders i).barista_id ≡ some k) × ((orders i).is_completed ≡ false)

pub record ShopInv (n b : ℕ) (customers : ℕ → Customer) (s : Shop) : Type 0 where
  pub orders : (i : ℕ) → i < n → OrderInv (customers i) (s.orders i)
  pub busy :
      (k : ℕ) → k < b → (s.baristas k).is_free ≡ false → Busy n s.orders k (s.baristas k).order
  pub counted : s.considered ≡ tally settled n s.orders
  pub waste : tally (λ (x : Barista). x.coffee_wasted) b s.baristas ≡ tally wasted n s.orders

-- The shop after writes to order `i` and barista `k`.
abbrev written : Shop → (i k : ℕ) → Order → Barista → (considered : ℕ) → List Event → Shop
written s i k o x considered output = record s {
  orders = update s.orders i o;
  baristas = update s.baristas k x;
  considered = considered;
  output = output;
}

module _ (n b : ℕ) (customers : ℕ → Customer) (s : Shop) (v : ShopInv n b customers s) where
  -- Such writes keep the invariant, if no other barista works on that order.
  written-ShopInv :
      (i k : ℕ) (o : Order) (x : Barista) (considered : ℕ) (output : List Event)
      → i < n
      → k < b
      → OrderInv (customers i) o
      → (x.is_free ≡ false → Busy n (update s.orders i o) k x.order)
      → ((j : ℕ) → j ≢ k → (s.orders i).barista_id ≢ some j)
      → considered + settled (s.orders i) ≡ s.considered + settled o
      → x.coffee_wasted + wasted (s.orders i) ≡ (s.baristas k).coffee_wasted + wasted o
      → ShopInv n b customers (written s i k o x considered output)
  written-ShopInv i k o x considered output hi hk own mine alone count waste = record {
    orders =
        at_update (λ j (p : Order). j < n → OrderInv (customers j) p) s.orders i o (λ _. own)
          (λ j ne. v.orders j);
    busy =
        at_update
          (λ j (y : Barista). j < b → y.is_free ≡ false → Busy n (update s.orders i o) j y.order)
          s.baristas k x (λ _. mine)
          (λ j ne lt free. still j ne (s.baristas j).order (v.busy j lt free));
    counted = omega (arith, v.counted, tally-update settled n s.orders i o hi);
    waste = omega (
      arith,
      v.waste,
      tally-update wasted n s.orders i o hi,
      tally-update (λ (y : Barista). y.coffee_wasted) b s.baristas k x hk,
    );
  }
    where
      still :
          (j : ℕ) → k ≢ j → (w : Option ℕ) → Busy n s.orders j w → Busy n (update s.orders i o) j w
      still j ne none u = u
      still j ne (some m) u =
          subst (λ (p : Order). (m < n) × (p.barista_id ≡ some j) × (p.is_completed ≡ false))
            (sym (
              update-ne s.orders i m o (λ e.
                alone j (λ x. ne (sym x))
                  (subst (λ q. (s.orders q).barista_id ≡ some j) (sym e) u.1))))
            u

  -- A free barista takes an order.
  take-ShopInv :
      (i k : ℕ)
      → i < n
      → k < b
      → can_take s.ticks (s.orders i) ≡ true
      → ShopInv n b customers (take_order k s (some i))
  unfolding take_order can_take
  take-ShopInv i k hi hk can =
      written-ShopInv i k _ _ s.considered _ hi hk
        (record {
          arrival = old.arrival;
          make = old.make;
          untaken = λ e. cc;
          taken = λ j e. (s.ticks, refl, ground (arith, old.arrival));
          done = λ e. ground (arith, untaken);
          open_work = λ j e f. ground arith;
          given = old.given;
        })
        (λ e. (hi, ground arith, ground (arith, untaken))) (λ j ne e. ground (arith, untaken))
        (ground arith) refl
    where
      old : OrderInv (customers i) (s.orders i)
      old = v.orders i hi

      nobody : (s.orders i).barista_id ≡ none
      nobody = ground arith

      untaken : ((s.orders i).is_completed ≡ false) × ((s.orders i).is_taken_up ≡ none)
      untaken = old.untaken nobody

  -- A barista finishes its order.
  finish-ShopInv :
      (i k : ℕ)
      → i < n
      → k < b
      → (s.orders i).barista_id ≡ some k
      → (s.orders i).is_completed ≡ false
      → ShopInv n b customers (finish_order k s i)
  unfolding finish_order finished_order finished_barista
  finish-ShopInv i k hi hk by_k unfinished =
      written-ShopInv i k _ _ (s.considered + 1) _ hi hk
        (record {
          arrival = ground (arith, old.arrival);
          make = ground (arith, old.make);
          untaken = λ e. ground arith;
          taken = λ j e. (taken.0, ground (arith, taken.1), taken.2);
          done = λ e. ground arith;
          open_work = λ j e f. ground arith;
          given = λ e. ground arith;
        })
        (λ e. cc) (λ j ne e. ground arith) (ground (arith, considered)) (ground (arith, not_given))
    where
      old : OrderInv (customers i) (s.orders i)
      old = v.orders i hi

      considered : (s.orders i).is_to_be_considered ≡ true
      considered = old.open_work k by_k unfinished

      taken : (t : ℕ) × ((s.orders i).is_taken_up ≡ some t) × ((customers i).arrival_time < t)
      taken = old.taken k by_k

      not_given : (s.orders i).is_given_to_customer ≡ true → ⊥
      not_given e = cc (old.given e)

  work-ShopInv :
      (k : ℕ) (w : Option ℕ) → k < b → Busy n s.orders k w → ShopInv n b customers (work k s w)
  unfolding work
  work-ShopInv k none hk u = absurd u
  work-ShopInv k (some i) hk u = elim (Bool-cases (is_ready s.ticks (s.orders i))) [
    | inl now ↦ simp (u.2, now) (finish-ShopInv i k u.0 hk u.1 u.2)
    | inr later ↦ simp (u.2, later) v
  ]

  choose-ShopInv :
      (k : ℕ) (w : Option ℕ)
      → k < b
      → Found n (λ i. can_take s.ticks (s.orders i)) w
      → ShopInv n b customers (take_order k s w)
  unfolding take_order
  choose-ShopInv k none hk f = v
  choose-ShopInv k (some i) hk f = take-ShopInv i k f.0 hk f.1

  -- The turn of a barista keeps the invariant.
  pub barista-ShopInv : (k : ℕ) → k < b → ShopInv n b customers (barista_turn n k s)
  unfolding barista_turn
  barista-ShopInv k hk = elim (Bool-cases (s.baristas k).is_free) [
    | inl free ↦ rw free (
        choose-ShopInv k (find_upto n (λ i. can_take s.ticks (s.orders i))) hk
          (find_upto-Found n (λ i. can_take s.ticks (s.orders i))))
    | inr busy ↦ rw busy (work-ShopInv k (s.baristas k).order hk (v.busy k hk busy))
  ]
