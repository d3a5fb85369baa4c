-- ===== src/Parlour/Untouched.antt =====
-- What a machine of concurrency/2.c leaves alone: the customers, and the orders of those to come.
use mini_project_3_amey_chou.Common.{
  ℕ, ◌+◌, ◌<◌, ◌≡◌, refl, inl, inr, arith, true, Option, none, some, sym, ap, ltb, leb, ◌∙◌, subst,
  pos, tally_ext, update, at_update, Bool-cases, ◌==◌, ◌&&◌,
}
use mini_project_3_amey_chou.Parlour.{
  Order, Setup, Parlour, no_time, no_toppings, take_order, is_open, consider, is_ready,
  finish_order, work, run_machine, stop_machine, machine_turn,
}
use mini_project_3_amey_chou.Parlour.Toppings.{needed_at_preparation, is_possible_to_make}
use mini_project_3_amey_chou.Parlour.Opening.{Visit}
use mini_project_3_amey_chou.Parlour.Numbers.{IsCustomer, first_order}
use mini_project_3_amey_chou.Parlour.Inv.{Busy, IsWorking}
use mini_project_3_amey_chou.Parlour.Machines.{look-keeps}
use mini_project_3_amey_chou.Parlour.Seats.{IsFresh, seated, seats_taken, IsSeated}

pub record Untouched (s t : Parlour) : Type 0 where
  pub clock : t.ticks ≡ s.ticks
  pub customers : t.customers ≡ s.customers
  pub sitting : t.customers_sitting_in_parlour ≡ s.customers_sitting_in_parlour
  pub fresh : (i : ℕ) → IsFresh (s.orders i) → IsFresh (t.orders i)

same-Untouched : (s : Parlour) → Untouched s s
same-Untouched s = record { clock = refl; customers = refl; sitting = refl; fresh = λ i h. h }

open_-stale : (o : Order) → is_open o ≡ true → IsFresh o → ⊥
unfolding is_open
open_-stale o h f = ground (arith, f.unplaced)

module _ (s t : Parlour) (u : Untouched s t) where
  -- A write to an order that is not that of a customer to come.
  write-fresh :
      (i : ℕ) (o : Order)
      → (IsFresh (t.orders i) → ⊥)
      → (p : ℕ) → IsFresh (s.orders p)
      → IsFresh (update t.orders i o p)
  write-fresh i o stale =
      at_update (λ p (q : Order). IsFresh (s.orders p) → IsFresh q) t.orders i o
        (λ f. absurd (stale (u.fresh i f))) (λ p ne f. u.fresh p f)

  consider-Untouched : (g : Setup) (k i : ℕ) → Untouched s (consider g k i t).parlour
  unfolding consider no_time no_toppings take_order
  consider-Untouched g k i =
      let o = t.orders i in
      let m = t.machines k in
      elim (Bool-cases (is_open o)) [
        | inr shut ↦ rw shut u
        | inl open_ ↦ rw open_ (
            let stale = open_-stale o open_ in
            elim (Bool-cases (leb m.end_time (t.ticks + o.icecream.time_to_prepare))) [
              | inl late ↦ rw late (record {
                clock = u.clock;
                customers = u.customers;
                sitting = u.sitting;
                fresh = write-fresh i _ stale;
              })
              | inr in_time ↦
                  rw in_time
                    (elim (Bool-cases
                      (is_possible_to_make g.t t.stock (needed_at_preparation g.t o.icecream))) [
                        | inl can ↦ rw can (record {
                          clock = u.clock;
                          customers = u.customers;
                          sitting = u.sitting;
                          fresh = write-fresh i _ stale;
                        })
                        | inr short ↦
                            rw short
                              (elim (Bool-cases
                                (t.machine_reject_which_order m.icecream_machine_id i)) [
                                  | inl noted ↦ rw noted u
                                  | inr new ↦ rw new (record {
                                    clock = u.clock;
                                    customers = u.customers;
                                    sitting = u.sitting;
                                    fresh = write-fresh i _ stale;
                                  })
                                ])
                      ])
            ])
      ]

work-Untouched :
    (total k : ℕ) (s : Parlour) (w : Option ℕ) → Busy total k s.orders w → Untouched s (work k w s)
unfolding work finish_order
work-Untouched total k s none u = absurd u
work-Untouched total k s (some i) u = elim (Bool-cases (is_ready s.ticks (s.orders i))) [
  | inr later ↦ rw later (same-Untouched s)
  | inl now ↦ rw now (record {
    clock = refl;
    customers = refl;
    sitting = refl;
    fresh =
        write-fresh s s (same-Untouched s) i _ (λ (f : IsFresh (s.orders i)). cc (f.untaken, u.1));
  })
]

module _ (g : Setup) (initial : ℕ → Option ℕ) (lag : ℕ) (k : ℕ) (s : Parlour)
    (v : IsWorking g initial lag s) (hk : k < g.n) where
  run-Untouched : Untouched s (run_machine g k s)
  unfolding run_machine
  run-Untouched =
      let m = s.machines k in
      elim (Bool-cases (leb m.start_time s.ticks && ltb s.ticks m.end_time)) [
        | inr off ↦ rw off (same-Untouched s)
        | inl at_work ↦ rw at_work (elim (Bool-cases m.is_busy) [
          | inl busy ↦
              rw busy (work-Untouched g.total_orders k s m.order ((v.each_machine k hk).1 busy))
          | inr free ↦ rw free (
              look-keeps g k (Untouched s) (λ i t hi u. consider-Untouched s t u g k i)
                g.total_orders (omega arith) s (same-Untouched s))
        ])
      ]

  pub machine-Untouched : Untouched s (machine_turn g k s)
  unfolding machine_turn stop_machine
  machine-Untouched =
      let t = run_machine g k s in
      let u = run-Untouched in
      elim (Bool-cases ((t.machines k).end_time == t.ticks)) [
        | inl over ↦ rw over (record {
          clock = u.clock;
          customers = u.customers;
          sitting = u.sitting;
          fresh = u.fresh;
        })
        | inr not_over ↦ rw not_over u
      ]

  pub machine-IsSeated :
      (visits : ℕ → Visit) (turns turns' : ℕ → ℕ)
      → ((j : ℕ) → j < g.total_customers → turns' j ≡ turns j)
      → IsSeated visits g turns s
      → IsSeated visits g turns' (machine_turn g k s)
  machine-IsSeated visits turns turns' same w =
      let t = machine_turn g k s in
      let u = machine-Untouched in
      let total : seats_taken visits g turns s.customers ≡ seats_taken visits g turns' t.customers =
        tally_ext (λ (n : ℕ). n) g.total_customers (λ j. seated (turns j) (s.customers j))
          (λ j. seated (turns' j) (t.customers j))
          (λ j hj. cc (same j hj, ap (λ c. c j) u.customers)) in
      record {
        each_customer = λ j hj.
            subst (λ c. IsCustomer (visits j) (first_order visits j) (c j)) (sym u.customers)
              (w.each_customer j hj);
        expected = λ j hj soon.
            let (stays, fresh) = w.expected j hj (omega (arith, same j hj)) in
            (
              ap (λ c. (c j).leaves) u.customers ∙ stays,
              λ i hi. u.fresh (first_order visits j + i) (fresh i hi),
            );
        counted = u.sitting ∙ w.counted ∙ ap pos total;
        room = omega (arith, w.room, total);
      }
