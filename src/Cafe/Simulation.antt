-- ===== src/Cafe/Simulation.antt =====
-- The invariant of the whole simulation of concurrency/1.c, after every turn.
use mini_project_3_amey_chou.Common.{
  ℕ, zero, suc, ◌+◌, ◌-◌, ◌<◌, ◌≤◌, ◌≡◌, ◌⊎◌, inl, inr, refl, arith, true, false, Option, none,
  some, ◌==◌, ltb, sym, ◌∙◌, tally-zero, at_update, Bool-cases, find_upto,
}
use mini_project_3_amey_chou.Cafe.{
  Shop, Order, Barista, Customer, announce, give_up, receive, customer_turn, barista_turn,
  take_order, work, finish_order, finished_order, is_ready, can_take, new_shop, new_order,
}
use mini_project_3_amey_chou.Cafe.Inv.{Busy, ShopInv, settled, wasted, barista-ShopInv}
use mini_project_3_amey_chou.Cafe.Leaving.{Timed, IsRoster, give_up-Inv, announce-Inv, receive-Inv}
use mini_project_3_amey_chou.Cafe.Ring.{play, turn, IsOver, System, Reach}
use mini_project_3_amey_chou.Ring.Threads.{played-along, Reach-Along}
use mini_project_3_amey_chou.Ring.{after}

-- The customers that have had their turn in this tick, when thread `last` had the last turn.
abbrev pub Ran : ℕ → ℕ → Type 0
Ran last i = (0 < i) × (i ≤ last)

-- An order that nobody has and that is not considered was so before.
record Untouched (s t : Shop) : Type 0 where
  clock : t.ticks ≡ s.ticks
  open_before :
      (i : ℕ)
      → (t.orders i).barista_id ≡ none
      → (t.orders i).is_to_be_considered ≡ false
      → ((s.orders i).barista_id ≡ none) × ((s.orders i).is_to_be_considered ≡ false)

abbrev WasOpen : Shop → ℕ → Order → Type 0
WasOpen s i p =
    p.barista_id ≡ none
    → p.is_to_be_considered ≡ false
    → ((s.orders i).barista_id ≡ none) × ((s.orders i).is_to_be_considered ≡ false)

take-Untouched : (k : ℕ) (s : Shop) (w : Option ℕ) → Untouched s (take_order k s w)
unfolding take_order
take-Untouched k s none = record { clock = refl; open_before = λ i e f. (e, f) }
take-Untouched k s (some i) = record {
  clock = refl;
  open_before = at_update (WasOpen s) s.orders i _ (λ e f. cc) (λ j ne e f. (e, f));
}

finish-Untouched :
    (n k i : ℕ) (s : Shop) → (s.orders i).barista_id ≡ some k → Untouched s (finish_order k s i)
unfolding finish_order finished_order
finish-Untouched n k i s by_k = record {
  clock = refl;
  open_before = at_update (WasOpen s) s.orders i _ (λ e f. ground arith) (λ j ne e f. (e, f));
}

work-Untouched :
    (n k : ℕ) (s : Shop) (w : Option ℕ) → Busy n s.orders k w → Untouched s (work k s w)
unfolding work
work-Untouched n k s none u = absurd u
work-Untouched n k s (some i) u = elim (Bool-cases (is_ready s.ticks (s.orders i))) [
  | inl now ↦ simp (u.2, now) (finish-Untouched n k i s u.1)
  | inr later ↦ simp (u.2, later) (record { clock = refl; open_before = λ i e f. (e, f) })
]

module _ (n b : ℕ) (customers : ℕ → Customer) where
  abbrev pub SimInv : ℕ → Shop → Type 0
  SimInv last s = ShopInv n b customers s × Timed n customers (Ran last) s

  ticked-SimInv :
      (ran : ℕ → Type 0) (s : Shop)
      → ShopInv n b customers s
      → Timed n customers ran s
      → SimInv 0 (record s { ticks = s.ticks + 1 })
  ticked-SimInv ran s v timed = (
    record { orders = v.orders; busy = v.busy; counted = v.counted; waste = v.waste },
    record {
      gave_up = λ i h f c.
          inl (elim (timed.gave_up i h f c) [ inl past ↦ omega arith | inr now ↦ omega arith ]);
    },
  )

  widen-Timed :
      (ran ran' : ℕ → Type 0) (s : Shop)
      → ((i : ℕ) → i < n → ran i → ran' i)
      → Timed n customers ran s
      → Timed n customers ran' s
  widen-Timed ran ran' s f timed = record {
    gave_up = λ i h e c. elim (timed.gave_up i h e c) [
      | inl past ↦ inl past
      | inr now ↦ inr (now.0, f i h now.1)
    ];
  }

  module _ (roster : IsRoster customers) where
    abbrev body : ℕ → Shop → Shop
    body j s = receive (customers j) (give_up (customers j) (announce (customers j) s))

    body-Inv :
        (last j : ℕ) (s : Shop)
        → j < n
        → (j ≡ suc last) ⊎ (j ≡ 0)
        → SimInv last s
        → ShopInv n b customers (body j s)
          × Timed n customers (λ i. Ran last i ⊎ (i ≡ j)) (body j s)
    body-Inv last j s hj place (v, timed) =
        let (v₁, t₁) = announce-Inv n b customers (Ran last) s v timed (customers j) in
        let (v₂, t₂) =
          give_up-Inv n b customers roster (Ran last) (announce (customers j) s) v₁ t₁ j hj
            (omega arith) in
        receive-Inv n b customers (λ i. Ran last i ⊎ (i ≡ j))
          (give_up (customers j) (announce (customers j) s)) v₂ t₂ (customers j)
          (omega (arith, roster j))

    had_turn :
        (last j : ℕ)
        → (suc j ≡ suc last) ⊎ (suc j ≡ 0)
        → (i : ℕ) → i < n
        → Ran last i ⊎ (i ≡ suc j)
        → Ran (suc j) i
    had_turn last j place i h (inl r) = omega arith
    had_turn last j place i h (inr e) = omega arith

    customer-SimInv :
        (last j : ℕ) (s : Shop)
        → j < n
        → (j ≡ suc last) ⊎ (j ≡ 0)
        → SimInv last s
        → SimInv j (customer_turn (customers j) s)
    unfolding customer_turn
    customer-SimInv last zero s hj place inv =
        let (v, timed) = body-Inv last zero s hj place inv in
        let clock : ((customers zero).customer_id == 0) ≡ true = ground (arith, roster zero) in
        rw clock (ticked-SimInv (λ i. Ran last i ⊎ (i ≡ zero)) (body zero s) v timed)
    customer-SimInv last (suc j) s hj place inv =
        let (v, timed) = body-Inv last (suc j) s hj place inv in
        let no_clock : ((customers (suc j)).customer_id == 0) ≡ false =
          ground (arith, roster (suc j)) in
        rw no_clock (
          v,
          widen-Timed (λ i. Ran last i ⊎ (i ≡ suc j)) (Ran (suc j)) (body (suc j) s)
              (had_turn last j place) timed,
        )

    barista-SimInv :
        (last j k : ℕ) (s : Shop) → k < b → n ≤ j → SimInv last s → SimInv j (barista_turn n k s)
    unfolding barista_turn
    barista-SimInv last j k s hk hj (v, timed) = (barista-ShopInv n b customers s v k hk, later)
      where
        touched : Untouched s (barista_turn n k s)
        touched = elim (Bool-cases (s.baristas k).is_free) [
          | inl free ↦
              rw free (take-Untouched k s (find_upto n (λ i. can_take s.ticks (s.orders i))))
          | inr busy ↦ rw busy (work-Untouched n k s (s.baristas k).order (v.busy k hk busy))
        ]

        later : Timed n customers (Ran j) (barista_turn n k s)
        later = record {
          gave_up = λ i h e f.
              let (e', f') = touched.open_before i e f in
              elim (timed.gave_up i h e' f') [
                | inl past ↦ inl (omega (arith, touched.clock))
                | inr now ↦ inr (now.0 ∙ sym touched.clock, (now.1.0, omega arith))
              ];
        }

  new-SimInv : SimInv 0 (new_shop customers)
  unfolding new_shop new_order
  new-SimInv = (
    record {
      orders = λ i h. record {
        arrival = refl;
        make = refl;
        untaken = λ e. (refl, refl);
        taken = λ k e. cc;
        done = λ e. cc;
        open_work = λ k e f. refl;
        given = λ e. cc;
      };
      busy = λ k h e. cc;
      counted = sym (tally-zero settled n _ (λ i. refl));
      waste =
          tally-zero (λ (x : Barista). x.coffee_wasted) b _ (λ i. refl)
          ∙ sym (tally-zero wasted n _ (λ i. refl));
    },
    record { gave_up = λ i h e f. cc },
  )

  module _ (roster : IsRoster customers) (some_customer : 0 < n) (some_barista : 0 < b) where
    turn-SimInv :
        (last : ℕ) (s : Shop)
        → last < n + b
        → SimInv last s
        → SimInv (after (n + b) last) (turn n b customers (after (n + b) last) s)
    turn-SimInv last s h inv = elim (Bool-cases (ltb (after (n + b) last) n)) [
      | inl customer ↦
          rw customer
            (customer-SimInv roster last (after (n + b) last) s (ground arith) (ground arith) inv)
      | inr barista ↦ rw barista (
          barista-SimInv roster last (after (n + b) last) (after (n + b) last - n) s (ground arith)
            (ground arith) inv)
    ]

    pub play-SimInv :
        (k : ℕ)
        → ((play n b customers k).last < n + b)
          × SimInv (play n b customers k).last (play n b customers k).shop
    play-SimInv =
        played-along (n + b) (turn n b customers) (IsOver n b customers) (new_shop customers)
          (omega arith) SimInv turn-SimInv new-SimInv

    -- In every reachable state, whatever the schedule: each order agrees with its customer and its
    -- barista, a busy barista has an unfinished order of its own, the counter of settled orders is
    -- the number of orders that are no longer considered, and the coffees wasted by the baristas
    -- are the finished ones that nobody got.
    pub Reach-ShopInv : {s : System} → Reach n b customers s → ShopInv n b customers s.shop
    Reach-ShopInv r =
        (Reach-Along (n + b) (turn n b customers) (IsOver n b customers) (new_shop customers)
          (omega arith) SimInv turn-SimInv new-SimInv r).2.0
