-- ===== src/Parlour/Simulation.antt =====
-- The whole simulation of concurrency/2.c, turn by turn.
use mini_project_3_amey_chou.Common.{
  ℕ, ◌+◌, ◌-◌, ◌<◌, ◌≤◌, ◌≡◌, refl, inl, inr, arith, sym, ap, ltb, leb, if◌then◌else◌, ◌∙◌, subst,
  ◌&&◌, ◌==◌, Bool-cases, pos, tally, tally-zero, tally-zero_below,
}
use mini_project_3_amey_chou.Ring.{after}
use mini_project_3_amey_chou.Parlour.{Parlour, machine_turn}
use mini_project_3_amey_chou.Parlour.Customers.{customer_turn}
use mini_project_3_amey_chou.Parlour.Opening.{
  Visit, Input, new_machine, setup, new_parlour, reading, unread, turn,
}
use mini_project_3_amey_chou.Parlour.Numbers.{
  entered_order, ReadingInv, read_customers-ReadingInv, first_order, owner,
}
use mini_project_3_amey_chou.Parlour.Inv.{uses, OrderInv}
use mini_project_3_amey_chou.Parlour.Machines.{machine-Inv}
use mini_project_3_amey_chou.Parlour.Seats.{IsFresh, seated}
use mini_project_3_amey_chou.Parlour.Arrivals.{IsSound}
use mini_project_3_amey_chou.Parlour.Departures.{customer-IsSound}
use mini_project_3_amey_chou.Parlour.Untouched.{machine-Untouched, machine-IsSeated}

-- How many turns customer `j` has had, when thread `last` had the last turn.
unfoldable pub turns : (last ticks j : ℕ) → ℕ
turns last ticks j = if ltb 0 j && leb j last then ticks + 1 else ticks

-- What the parlour takes for granted: it has customers and machines, the customers' ids count from
-- 1 in the order of the input, and no ice cream has more toppings than there are kinds.
pub record IsInput (x : Input) : Type 0 where
  pub some_customer : 0 < x.total_customers
  pub some_machine : 0 < x.n
  pub roster : (j : ℕ) → j < x.total_customers → (x.visits j).customer_id ≡ j + 1
  pub few_toppings :
      (j i : ℕ)
      → j < x.total_customers
      → i < (x.visits j).number_of_icecreams
      → ((x.visits j).icecreams i).toppings_num ≤ x.t

module _ (x : Input) (h : IsInput x) where
  read : ReadingInv x.visits x.total_customers (reading x x.total_customers)
  read = read_customers-ReadingInv x.visits (unread (x.visits 0)) x.total_customers refl refl

  pub sized : (setup x).total_orders ≡ first_order x.visits (setup x).total_customers
  unfolding setup
  sized = read.orders_read ∙ ap (first_order x.visits) (sym read.customers_read)

  pub customers-setup : (setup x).total_customers ≡ x.total_customers
  unfolding setup
  customers-setup = read.customers_read

  pub machines-setup : (setup x).n ≡ x.n
  unfolding setup
  machines-setup = refl

  abbrev pub SimInv : (lag last : ℕ) → Parlour → Type 0
  SimInv lag last s = IsSound x.visits (setup x) x.stock lag sized (turns last s.ticks) s

  fresh_order : (v : Visit) (i p : ℕ) → IsFresh (entered_order v i p)
  fresh_order v i p = record {
    considered = refl;
    unplaced = refl;
    untaken = refl;
    uncompleted = refl;
  }

  entered :
      (p : ℕ)
      → p < (setup x).total_orders
      → (j : ℕ) × (i : ℕ) × (j < x.total_customers)
        × (i < (x.visits j).number_of_icecreams)
        × ((reading x x.total_customers).orders p ≡ entered_order (x.visits j) i p)
  entered p hp =
      let (j, i, hj, hi, e) =
        owner x.visits x.total_customers p
          (omega (arith, sized, ap (first_order x.visits) customers-setup)) in
      (
        j,
        i,
        hj,
        hi,
        subst (λ p. (reading x x.total_customers).orders p ≡ entered_order (x.visits j) i p) (sym e)
            (read.orders j i hj hi),
      )

  new_order-OrderInv :
      (j i p : ℕ)
      → j < x.total_customers
      → i < (x.visits j).number_of_icecreams
      → OrderInv (setup x).t (entered_order (x.visits j) i p)
  unfolding setup
  new_order-OrderInv j i p hj hi = record { done = λ e. cc; fits = h.few_toppings j i hj hi }

  new_order-uses : (j i p t : ℕ) → uses t (entered_order (x.visits j) i p) ≡ 0
  new_order-uses j i p t = refl

  nobody :
      tally
        (λ (n : ℕ). n)
        (setup x).total_customers
        (λ j. seated (turns 0 0 j) ((reading x x.total_customers).customers j))
      ≡ 0
  unfolding turns
  nobody =
      tally-zero (λ (n : ℕ). n) (setup x).total_customers
        (λ j. seated (turns 0 0 j) ((reading x x.total_customers).customers j)) (λ j. ground arith)

  pub new-SimInv : SimInv 0 0 (new_parlour x)
  unfolding new_parlour new_machine
  new-SimInv = (
    record {
      each_customer = λ j hj. (read.customers j (omega (arith, customers-setup))).0;
      expected = λ j hj soon. (
        (read.customers j (omega (arith, customers-setup))).1,
        λ i hi.
            subst IsFresh (sym (read.orders j i (omega (arith, customers-setup)) hi))
              (fresh_order (x.visits j) i (first_order x.visits j + i)),
      );
      counted = ap pos (sym nobody);
      room = omega (arith, nobody);
    },
    record {
      each_order = λ p hp.
          let (j, i, hj, hi, e) = entered p hp in
          subst (OrderInv (setup x).t) (sym e) (new_order-OrderInv j i p hj hi);
      each_machine = λ k hk. (refl, λ busy. cc);
      counted = omega arith;
      stocked = λ t q ht e. (
        q,
        e,
        omega (
          arith,
          tally-zero_below (uses t) (setup x).total_orders (reading x x.total_customers).orders
              (λ p hp.
                let (j, i, hj, hi, e) = entered p hp in ap (uses t) e ∙ new_order-uses j i p t),
        ),
      );
    },
  )

  -- A turn of the ring.
  pub turn-SimInv :
      (lag last : ℕ) (s : Parlour)
      → last < x.total_customers + x.n
      → SimInv lag last s
      → SimInv lag
          (after (x.total_customers + x.n) last)
          (turn x (after (x.total_customers + x.n) last) s)
  unfolding turns
  turn-SimInv lag last s lt v =
      let g = setup x in
      let j = after (x.total_customers + x.n) last in
      let all = customers-setup in
      elim (Bool-cases (ltb j x.total_customers)) [
        | inl customer ↦
            let hj : j < g.total_customers = ground (arith, all) in
            let id = h.roster j (ground arith) in
            let first : ((x.visits j).customer_id - 1) ≡ j = omega (arith, id) in
            let (sound, clock) =
              customer-IsSound x.visits g x.stock lag sized (turns last s.ticks)
                (turns j (if j == 0 then s.ticks + 1 else s.ticks)) s v j hj
                (λ i hi ne. ground (arith, all, h.some_customer)) (ground arith) (ground arith) in
            rw customer (
              subst (λ n. IsSound x.visits g x.stock lag sized (turns j n) (customer_turn g j s))
                (sym (clock ∙ ap (λ n. if n == 0 then s.ticks + 1 else s.ticks) first)) sound)
        | inr machine ↦
            let k = j - x.total_customers in
            let hk : k < g.n = ground (arith, machines-setup, h.some_customer) in
            let u = machine-Untouched g x.stock lag k s v.1 hk in
            rw machine (
              machine-IsSeated g x.stock lag k s v.1 hk x.visits (turns last s.ticks)
                  (turns j (machine_turn g k s).ticks) (λ i hi. ground (arith, all, u.clock)) v.0,
              machine-Inv g x.stock lag k s hk v.1,
            )
      ]

  -- The turn of thread 0 moves the clock, and no other turn does.
  pub turn-ticks :
      (lag last : ℕ) (s : Parlour)
      → last < x.total_customers + x.n
      → SimInv lag last s
      → (let j = after (x.total_customers + x.n) last in
          (turn x j s).ticks ≡ (if j == 0 then s.ticks + 1 else s.ticks))
  unfolding turns
  turn-ticks lag last s lt v =
      let g = setup x in
      let j = after (x.total_customers + x.n) last in
      let all = customers-setup in
      elim (Bool-cases (ltb j x.total_customers)) [
        | inl customer ↦
            let hj : j < g.total_customers = ground (arith, all) in
            let id = h.roster j (ground arith) in
            let first : ((x.visits j).customer_id - 1) ≡ j = omega (arith, id) in
            let (sound, clock) =
              customer-IsSound x.visits g x.stock lag sized (turns last s.ticks)
                (turns j (if j == 0 then s.ticks + 1 else s.ticks)) s v j hj
                (λ i hi ne. ground (arith, all, h.some_customer)) (ground arith) (ground arith) in
            rw customer (clock ∙ ap (λ n. if n == 0 then s.ticks + 1 else s.ticks) first)
        | inr machine ↦
            let k = j - x.total_customers in
            let hk : k < g.n = ground (arith, machines-setup, h.some_customer) in
            let u = machine-Untouched g x.stock lag k s v.1 hk in
            rw machine (ground (arith, u.clock, h.some_customer))
      ]
