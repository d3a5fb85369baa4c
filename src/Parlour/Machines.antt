-- ===== src/Parlour/Machines.antt =====
-- The turns of machines of concurrency/2.c, and the invariant of machines, orders and stock.
use mini_project_3_amey_chou.Common.{
  ℕ, zero, suc, ◌+◌, ◌-◌, ◌<◌, ◌≤◌, ◌≡◌, inl, inr, refl, arith, true, false, Option, none, some,
  for_upto, Bool-cases, ltb, leb, ◌&&◌, ◌==◌,
}
use mini_project_3_amey_chou.Parlour.{
  Setup, Parlour, no_time_order, no_time, no_toppings, take_order, is_open, consider, look_from,
  is_ready, finish_order, work, run_machine, stop_machine, machine_turn,
}
use mini_project_3_amey_chou.Parlour.Toppings.{
  needed_at_preparation, is_possible_to_make, use_toppings,
}
use mini_project_3_amey_chou.Parlour.Stock.{
  topping_count, needed-eq-count, use-Stock, possible-Enough,
}
use mini_project_3_amey_chou.Parlour.Inv.{settled, Busy, IsWorking, reject-Inv, work-Inv}

module _ (g : Setup) (initial : ℕ → Option ℕ) (lag : ℕ) where
  module _ (s : Parlour) (v : IsWorking g initial lag s) where
    module _ (i : ℕ) (hi : i < g.total_orders) (open_ : is_open (s.orders i) ≡ true) where
      nobody : (s.orders i).icecream_machine_id ≡ none
      unfolding is_open
      nobody = ground arith

      unfinished : (s.orders i).is_completed ≡ false
      unfinished = ground (arith, (v.each_order i hi).done, nobody)

      unsettled : settled (s.orders i) ≡ 0
      unfolding is_open
      unsettled = ground (arith, unfinished)

      no_time-Inv : (row : ℕ) → IsWorking g initial lag (no_time g row i s)
      unfolding no_time no_time_order is_open
      no_time-Inv row =
          reject-Inv g initial lag s v i hi _
            (record {
              done = λ e. ground (arith, unfinished);
              fits = ground (arith, (v.each_order i hi).fits);
            })
            _ nobody (ground (arith, nobody)) (ground (arith, unfinished, nobody))

      no_toppings-Inv : (row : ℕ) → IsWorking g initial lag (no_toppings row i s)
      unfolding no_toppings
      no_toppings-Inv row = elim (Bool-cases (s.machine_reject_which_order row i)) [
        | inl noted ↦ rw noted v
        | inr new ↦ rw new (
            reject-Inv g initial lag s v i hi _
              (record { done = (v.each_order i hi).done; fits = (v.each_order i hi).fits }) _ nobody
              nobody (ground (arith, unsettled, unfinished, nobody)))
      ]

      take-Inv :
          (k : ℕ)
          → k < g.n
          → is_possible_to_make g.t s.stock (needed_at_preparation g.t (s.orders i).icecream) ≡ true
          → IsWorking g initial lag (take_order k i s)
      unfolding take_order use_toppings
      take-Inv k hk can =
          let x = (s.orders i).icecream in
          let id = (v.each_machine k hk).0 in
          work-Inv g initial lag s v i hi _
            (record { done = λ e. refl; fits = (v.each_order i hi).fits }) k _
            (id, λ busy. (hi, ground (arith, id), ground (arith, unfinished))) (λ j ne e. cc nobody)
            s.orders_considered _ (ground (arith, unsettled, unfinished))
            (λ t r ht at.
              let needed = needed-eq-count x g.t t (v.each_order i hi).fits in
              let enough : topping_count x x.toppings_num t ≤ r = omega (
                arith,
                possible-Enough g.t s.stock (needed_at_preparation g.t x) can t r ht at,
                needed,
              ) in
              (
                r - topping_count x x.toppings_num t,
                use-Stock x x.toppings_num s.stock t r at enough,
                ground (arith, nobody),
              ))

    consider-Inv :
        (i k : ℕ)
        → i < g.total_orders
        → k < g.n
        → IsWorking g initial lag (consider g k i s).parlour
    unfolding consider
    consider-Inv i k hi hk =
        let o = s.orders i in
        let m = s.machines k in
        elim (Bool-cases (is_open o)) [
          | inr shut ↦ rw shut v
          | inl open_ ↦
              rw open_ (elim (Bool-cases (leb m.end_time (s.ticks + o.icecream.time_to_prepare))) [
                | inl late ↦ rw late (no_time-Inv i hi open_ (m.icecream_machine_id - 1))
                | inr in_time ↦
                    rw in_time
                      (elim (Bool-cases
                        (is_possible_to_make g.t s.stock (needed_at_preparation g.t o.icecream))) [
                          | inl can ↦ rw can (take-Inv i hi open_ k hk can)
                          | inr short ↦ rw short (no_toppings-Inv i hi open_ m.icecream_machine_id)
                        ])
              ])
        ]

    finish-Inv :
        (i k : ℕ)
        → k < g.n
        → Busy g.total_orders k s.orders (some i)
        → IsWorking g initial lag (finish_order k i s)
    unfolding finish_order
    finish-Inv i k hk (hi, its, unfinished) =
        work-Inv g initial lag s v i hi _
          (record { done = λ e. ground (arith, its); fits = (v.each_order i hi).fits }) k _
          ((v.each_machine k hk).0, λ busy. cc) (λ j ne e. ground (arith, its))
          (s.orders_considered + 1) s.stock (ground (arith, its, unfinished))
          (λ t r ht at. (r, at, refl))

    work_on-Inv :
        (k : ℕ) (w : Option ℕ)
        → k < g.n
        → Busy g.total_orders k s.orders w
        → IsWorking g initial lag (work k w s)
    unfolding work
    work_on-Inv k none hk u = absurd u
    work_on-Inv k (some i) hk u = elim (Bool-cases (is_ready s.ticks (s.orders i))) [
      | inl now ↦ rw now (finish-Inv i k hk u)
      | inr later ↦ rw later v
    ]

-- What a machine keeps with each order that it looks at, it keeps when it looks for one to make.
pub look-keeps :
    (g : Setup) (k : ℕ) (P : Parlour → Type 0)
    → ((i : ℕ) (s : Parlour) → i < g.total_orders → P s → P (consider g k i s).parlour)
    → (n : ℕ) → n ≤ g.total_orders
    → (s : Parlour) → P s
    → P (look_from g k n s).parlour
unfolding look_from for_upto
look-keeps g k P keep zero le s h = h
look-keeps g k P keep (suc n) le s h =
    let l = look_from g k n s in
    let before = look-keeps g k P keep n (omega arith) s h in
    elim (Bool-cases l.stop) [
      | inl stopped ↦ rw stopped before
      | inr on ↦ rw on (keep n l.parlour (omega arith) before)
    ]

module _ (g : Setup) (initial : ℕ → Option ℕ) (lag : ℕ) where
  run-Inv :
      (k : ℕ) (s : Parlour)
      → k < g.n
      → IsWorking g initial lag s
      → IsWorking g initial lag (run_machine g k s)
  unfolding run_machine
  run-Inv k s hk v =
      let m = s.machines k in
      elim (Bool-cases (leb m.start_time s.ticks && ltb s.ticks m.end_time)) [
        | inr off ↦ rw off v
        | inl at_work ↦ rw at_work (elim (Bool-cases m.is_busy) [
          | inl busy ↦
              rw busy (work_on-Inv g initial lag s v k m.order hk ((v.each_machine k hk).1 busy))
          | inr free ↦ rw free (
              look-keeps g k (IsWorking g initial lag)
                (λ i s hi v. consider-Inv g initial lag s v i k hi hk) g.total_orders (omega arith)
                s v)
        ])
      ]

  -- The turn of a machine keeps the invariant.
  pub machine-Inv :
      (k : ℕ) (s : Parlour)
      → k < g.n
      → IsWorking g initial lag s
      → IsWorking g initial lag (machine_turn g k s)
  unfolding machine_turn stop_machine
  machine-Inv k s hk v =
      let t = run_machine g k s in
      elim (Bool-cases ((t.machines k).end_time == t.ticks)) [
        | inl over ↦ rw over (run-Inv k s hk v)
        | inr not_over ↦ rw not_over (run-Inv k s hk v)
      ]
