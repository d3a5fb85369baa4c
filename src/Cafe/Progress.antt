-- ===== src/Cafe/Progress.antt =====
-- Runs of the threads of concurrency/1.c: none is stuck before all orders are settled, and none is
-- long.
use mini_project_3_amey_chou.Common.{
  ℕ, suc, ◌+◌, ◌-◌, ◌*◌, ◌<◌, ◌≤◌, ◌≡◌, ◌≢◌, ◌⊎◌, inl, inr, refl, arith, ltb, sym, ◌∙◌, ap,
  Bool-cases, tally, tally-update, tally-zero, tally-le, tally_all, update_self, update-ne, update,
}
use native.Mathlib.Decide.{ℕ_discrete, dec_le}
use mini_project_3_amey_chou.Cafe.{new_shop, Shop, Customer}
use mini_project_3_amey_chou.Cafe.Inv.{ShopInv, settled, limit}
use mini_project_3_amey_chou.Cafe.Leaving.{IsRoster}
use mini_project_3_amey_chou.Ring.Threads.{
  start-IsPlay, Pc, top, waiting, closed, go_on, leave, take_turn, start, later, turn-IsPlay,
  Reach-IsPlay,
}
use mini_project_3_amey_chou.Cafe.Ring.{
  System, Step, Reach, start_system, play, turn, IsOver, IsPlay,
}
use mini_project_3_amey_chou.Ring.{after, before}
use mini_project_3_amey_chou.Cafe.Simulation.{Reach-ShopInv}
use mini_project_3_amey_chou.Cafe.Accounts.{all_settled}
use mini_project_3_amey_chou.Cafe.Keeps.{Keeps, barista-Keeps, customer-Keeps}
use mini_project_3_amey_chou.Cafe.Settling.{settles}

abbrev is_waiting : Pc → ℕ
is_waiting top = 0
is_waiting waiting = 1
is_waiting closed = 0

is_waiting-le-one : (p : Pc) → is_waiting p ≤ 1
is_waiting-le-one top = omega arith
is_waiting-le-one waiting = omega arith
is_waiting-le-one closed = omega arith

waiting≢closed : ◌≡◌ {A = Pc} waiting closed → ⊥
waiting≢closed e = cc

top≢closed : ◌≡◌ {A = Pc} top closed → ⊥
top≢closed e = cc

Pc-cases : (p : Pc) → (p ≡ top) ⊎ (p ≡ waiting) ⊎ (p ≡ closed)
Pc-cases top = inl refl
Pc-cases waiting = inr (inl refl)
Pc-cases closed = inr (inr refl)

module _ (n b : ℕ) (customers : ℕ → Customer) where
  -- A run of the threads, with the number of its steps.
  pub data Run : ℕ → System → Type 0 where
    begin : Run 0 (start_system n b customers)
    then_ : {m : ℕ} {s t : System} → Run m s → Step n b customers s t → Run (suc m) t

  Run-Reach : {m : ℕ} {s : System} → Run m s → Reach n b customers s
  Run-Reach begin = start
  Run-Reach (then_ r st) = later (Run-Reach r) st

  turn-Keeps : (j : ℕ) (s : Shop) → Keeps s (turn n b customers j s)
  turn-Keeps j s = elim (Bool-cases (ltb j n)) [
    | inl customer ↦ rw customer (customer-Keeps (customers j) s)
    | inr barista ↦ rw barista (barista-Keeps n (j - n) s)
  ]

  module _ (roster : IsRoster customers) (some_customer : 0 < n) (some_barista : 0 < b) where
    -- Once all orders are settled, they stay so.
    settled-turn :
        {s : System} (j : ℕ)
        → Reach n b customers s
        → ShopInv n b customers (turn n b customers j s.shop)
        → s.shop.considered ≡ n
        → (turn n b customers j s.shop).considered ≡ n
    settled-turn {s} j r v e =
        let all = (all_settled n b customers roster some_customer some_barista r).0 e in
        v.counted
        ∙ tally_all settled n (turn n b customers j s.shop).orders
            (λ i hi. ground (arith, turn-Keeps j s.shop i, all i hi))

    -- A thread that has closed has seen all orders settled.
    closed-settled :
        {s : System} → Reach n b customers s → (j : ℕ) → s.pc j ≡ closed → s.shop.considered ≡ n
    closed-settled start j e = cc
    closed-settled (later {s} r (go_on i lt at more)) j e = elim (ℕ_discrete i j) [
      | yes same ↦
          absurd (
            waiting≢closed (sym (update_self s.pc i waiting) ∙ ap (update s.pc i waiting) same ∙ e))
      | no other ↦ closed-settled r j (sym (update-ne s.pc i j waiting other) ∙ e)
    ]
    closed-settled (later r (leave i lt at done)) j e = done
    closed-settled (later {s} r (take_turn i lt at up)) j e =
        settled-turn i r
          (Reach-ShopInv n b customers roster some_customer some_barista
            (later r (take_turn i lt at up)))
          (elim (ℕ_discrete i j) [
            | yes same ↦
                absurd (top≢closed (sym (update_self s.pc i top) ∙ ap (update s.pc i top) same ∙ e))
            | no other ↦ closed-settled r j (sym (update-ne s.pc i j top other) ∙ e)
          ])

    abbrev Count : ℕ → ℕ → System → Type 0
    Count m k s = (s.shop.considered ≡ n) ⊎ (m ≡ 2 * k + tally is_waiting (n + b) s.pc)

    run-Count : {m : ℕ} {s : System} → Run m s → (k : ℕ) × IsPlay n b customers s k × Count m k s
    run-Count begin = (
      0,
      start-IsPlay (n + b) (turn n b customers) (IsOver n b customers) (new_shop customers)
          (omega arith),
      inr (omega (arith, tally-zero is_waiting (n + b) (λ (j : ℕ). top) (λ j. refl))),
    )
    run-Count (then_ {m} {s} r (go_on j lt at more)) =
        let (k, p, c) = run-Count r in
        (
          k,
          p,
          elim c [
            | inl done ↦ absurd (more done)
            | inr count ↦ inr (
                omega (
                  arith,
                  count,
                  tally-update is_waiting (n + b) s.pc j waiting lt,
                  ap is_waiting at,
                ))
          ],
        )
    run-Count (then_ r (leave j lt at done)) = let (k, p, c) = run-Count r in (k, p, inl done)
    run-Count (then_ {m} {s} r (take_turn j lt at up)) =
        let (k, p, c) = run-Count r in
        (
          suc k,
          turn-IsPlay (n + b) (turn n b customers) (IsOver n b customers) (new_shop customers)
              (omega arith) s k j p lt up,
          elim c [
            | inl done ↦ inl (
                settled-turn j (Run-Reach r)
                  (Reach-ShopInv n b customers roster some_customer some_barista
                    (later (Run-Reach r) (take_turn j lt at up)))
                  done)
            | inr count ↦ inr (
                omega
                  (arith, count, tally-update is_waiting (n + b) s.pc j top lt, ap is_waiting at))
          ],
        )

    progress :
        {s : System}
        → Reach n b customers s
        → s.shop.considered ≢ n
        → (t : System) × Step n b customers s t
    progress {s} r unsettled =
        let (k, (e, t)) =
          Reach-IsPlay (n + b) (turn n b customers) (IsOver n b customers) (new_shop customers)
            (omega arith) r in
        let j = after (n + b) (play n b customers k).last in
        let lt : j < n + b = ground (arith, t.in_ring) in
        let back : before (n + b) j ≡ (play n b customers k).last = ground (arith, t.in_ring) in
        elim (Pc-cases (s.pc j)) [
          | inl at ↦ (_, go_on j lt at unsettled)
          | inr (inl at) ↦ (_, take_turn j lt at (omega (arith, ap s.sem back, t.here)))
          | inr (inr at) ↦ absurd (unsettled (closed-settled r j at))
        ]

    -- With a customer, a barista and the roster that `main` sets up, every run of the threads
    -- settles all orders, whatever the schedule, if no coffee is made in no time: a run at whose
    -- end not all orders are settled has fewer than 2 (N + B) T + (N + B) steps and can take
    -- another, where tick `T` is behind the time at which each customer has given up and a coffee
    -- that was begun by then is made.
    pub Run-settles :
        ((i : ℕ) → i < n → 0 < (customers i).time_to_make)
        → (T : ℕ) → ((i : ℕ) → i < n → limit (customers i) + (customers i).time_to_make < T)
        → {m : ℕ} {s : System} → Run m s
        → (s.shop.considered ≡ n)
          ⊎ ((m < 2 * ((n + b) * T) + (n + b)) × ((t : System) × Step n b customers s t))
    Run-settles some_work T bound {m} {s} r = elim (ℕ_discrete s.shop.considered n) [
      | yes done ↦ inl done
      | no unsettled ↦
          let (k, (e, t), c) = run-Count r in
          inr (
            elim c [
              | inl done ↦ absurd (unsettled done)
              | inr count ↦ elim (dec_le ((n + b) * T) k) [
                | yes late ↦ absurd (
                    unsettled (
                      ap Shop.considered e
                      ∙ settles n b customers roster some_customer some_barista some_work T bound k
                          late))
                | no early ↦ omega (
                  arith,
                  count,
                  early,
                  tally-le is_waiting (n + b) s.pc (λ j. is_waiting-le-one (s.pc j)),
                )
              ]
            ],
            progress (Run-Reach r) unsettled,
          )
    ]
