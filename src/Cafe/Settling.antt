-- ===== src/Cafe/Settling.antt =====
-- The simulation of concurrency/1.c settles every order.
use mini_project_3_amey_chou.Common.{
  ℕ, zero, suc, ◌+◌, ◌-◌, ◌*◌, ◌<◌, ◌≤◌, ◌≡◌, ◌⊎◌, inl, inr, refl, arith, true, false, Option, none,
  some, ◌==◌, ltb, leb, ◌&&◌, if◌then◌else◌, sym, ◌∙◌, Bool-cases, Option-cases, tally_all,
  find_upto,
}
use native.Mathlib.Decide.{dec_lt}
use native.Mathlib.Nat.{mul-le-mul_right}
use mini_project_3_amey_chou.Cafe.{
  Shop, Customer, announce, give_up, receive, customer_turn, barista_turn, take_order, work,
  can_take, finish_order, new_shop, new_order,
}
use mini_project_3_amey_chou.Cafe.Inv.{settled, limit}
use mini_project_3_amey_chou.Cafe.Leaving.{IsRoster, announce-Inv}
use mini_project_3_amey_chou.Cafe.Ring.{play, turn}
use mini_project_3_amey_chou.Ring.Threads.{played}
use mini_project_3_amey_chou.Ring.{after}
use mini_project_3_amey_chou.Cafe.Simulation.{Ran, SimInv, play-SimInv}
use mini_project_3_amey_chou.Cafe.Due.{
  Due, weaken-Due, tick-Due, announce-Due, receive-Due, give_up-Due,
}
use mini_project_3_amey_chou.Cafe.Making.{some≢none, barista-Due}

-- The threads that have had their turn in this tick, when `last` had the last turn.
abbrev pub ran : ℕ → ℕ → ℕ
ran last j = if ltb 0 j && leb j last then 1 else 0

eq_of : (x y : ℕ) → (x == y) ≡ true → x ≡ y
eq_of x y h = ground arith

round_up : (t m l k : ℕ) → suc l ≡ m → t * m + l ≡ k → (t + 1) * m + 0 ≡ suc k
round_up t m l k e h = omega arith

one_on : (t m l k : ℕ) → t * m + l ≡ k → (if suc l == 0 then t + 1 else t) * m + suc l ≡ suc k
one_on t m l k h = ground arith

module _ (n b : ℕ) (customers : ℕ → Customer) (roster : IsRoster customers) (some_customer : 0 < n)
    (some_barista : 0 < b) (some_work : (i : ℕ) → i < n → 0 < (customers i).time_to_make) where
  abbrev now : (last j : ℕ) → ℕ → ℕ
  now last j x = if x == j then 1 else ran last x

  -- Before the clock moves.
  body-Due :
      (last j : ℕ) (s : Shop)
      → j < n
      → SimInv n b customers last s
      → Due n b customers (ran last) s
      → Due n b customers
          (now last j)
          (receive (customers j) (give_up (customers j) (announce (customers j) s)))
  body-Due last j s hj (v, timed) d =
      receive-Due n b customers (now last j) (give_up (customers j) (announce (customers j) s))
        (customers j)
        (give_up-Due n b customers (announce (customers j) s)
          (announce-Inv n b customers (Ran last) s v timed (customers j)).0 (ran last) (now last j)
          j (ground arith) (λ x ne. ground arith)
          (announce-Due n b customers (ran last) s (customers j) d) hj (roster j).0)

  customer-Due :
      (last j : ℕ) (s : Shop)
      → j < n
      → (j ≡ suc last) ⊎ ((j ≡ 0) × (suc last ≡ n + b))
      → SimInv n b customers last s
      → Due n b customers (ran last) s
      → Due n b customers (ran j) (customer_turn (customers j) s)
  unfolding customer_turn
  customer-Due last zero s hj place inv d =
      let clock : ((customers zero).customer_id == 0) ≡ true = ground (arith, roster zero) in
      let t = receive (customers zero) (give_up (customers zero) (announce (customers zero) s)) in
      rw clock (
        weaken-Due n b customers (λ x. 0) (ran zero) (record t { ticks = t.ticks + 1 })
          (λ x. ground arith)
          (tick-Due n b customers (now last zero) t (λ x h. all_now last x place h)
            (body-Due last zero s hj inv d)))
    where
      all_now :
          (last x : ℕ)
          → (zero ≡ suc last) ⊎ ((zero ≡ 0) × (suc last ≡ n + b))
          → x < n + b
          → now last zero x ≡ 1
      all_now last x place h = ground arith
  customer-Due last (suc j) s hj place inv d =
      let no_clock : ((customers (suc j)).customer_id == 0) ≡ false =
        ground (arith, roster (suc j)) in
      rw no_clock (
        weaken-Due n b customers (now last (suc j)) (ran (suc j))
          (receive (customers (suc j))
            (give_up (customers (suc j)) (announce (customers (suc j)) s)))
          (λ x. advance last j x place) (body-Due last (suc j) s hj inv d))
    where
      advance :
          (last j x : ℕ)
          → (suc j ≡ suc last) ⊎ ((suc j ≡ 0) × (suc last ≡ n + b))
          → ran (suc j) x ≤ now last (suc j) x
      advance last j x place = ground arith

  turn-Due :
      (last : ℕ) (s : Shop)
      → last < n + b
      → SimInv n b customers last s
      → Due n b customers (ran last) s
      → Due n b customers (ran (after (n + b) last)) (turn n b customers (after (n + b) last) s)
  turn-Due last s h inv d = elim (Bool-cases (ltb (after (n + b) last) n)) [
    | inl customer ↦
        rw customer (customer-Due last (after (n + b) last) s (ground arith) (ground arith) inv d)
    | inr barista ↦ rw barista (
        barista-Due n b customers s inv.0 (ran last) (ran (after (n + b) last)) (after (n + b) last)
          (ground arith) (λ x ne. ground arith) d (after (n + b) last - n) (ground arith)
          (ground arith) some_work)
  ]

  new-Due : Due n b customers (ran 0) (new_shop customers)
  unfolding new_shop new_order
  new-Due i hi = record { open_ = λ e f. ground arith; held = λ k e f. absurd (some≢none (sym e)) }

  pub play-Due :
      (k : ℕ) → Due n b customers (ran (play n b customers k).last) (play n b customers k).shop
  unfolding played
  play-Due zero = new-Due
  play-Due (suc k) =
      let (h, inv) = play-SimInv n b customers roster some_customer some_barista k in
      turn-Due (play n b customers k).last (play n b customers k).shop h inv (play-Due k)

  -- What is left of an order whose time is over.
  settled-late :
      (last : ℕ) (s : Shop)
      → SimInv n b customers last s
      → Due n b customers (ran last) s
      → (i : ℕ) → i < n
      → limit (customers i) + (customers i).time_to_make < s.ticks
      → (s.orders i).is_to_be_considered ≡ false
  settled-late last s (v, timed) d i hi late = elim (Bool-cases (s.orders i).is_to_be_considered) [
    | inr shut ↦ shut
    | inl wanted ↦ elim (Option-cases (s.orders i).barista_id) [
      | inl nobody ↦ absurd (omega (arith, (d i hi).open_ nobody wanted))
      | inr (k, by) ↦ elim (Bool-cases (s.orders i).is_completed) [
        | inl done ↦ (v.orders i hi).done done
        | inr unfinished ↦
            let (hk, busy, with_it, (t, at, le, due)) = (d i hi).held k by unfinished in
            absurd (omega (arith, le, due))
      ]
    ]
  ]

  take_order-ticks : (k : ℕ) (s : Shop) (w : Option ℕ) → (take_order k s w).ticks ≡ s.ticks
  unfolding take_order
  take_order-ticks k s none = refl
  take_order-ticks k s (some w) = refl

  work-ticks : (k : ℕ) (s : Shop) (w : Option ℕ) → (work k s w).ticks ≡ s.ticks
  unfolding work finish_order
  work-ticks k s none = refl
  work-ticks k s (some w) = ground arith

  barista_turn-ticks : (k : ℕ) (s : Shop) → (barista_turn n k s).ticks ≡ s.ticks
  unfolding barista_turn
  barista_turn-ticks k s = elim (Bool-cases (s.baristas k).is_free) [
    | inl free ↦ rw free (take_order-ticks k s (find_upto n (λ i. can_take s.ticks (s.orders i))))
    | inr busy ↦ rw busy (work-ticks k s (s.baristas k).order)
  ]

  customer_turn-ticks :
      (j : ℕ) (s : Shop)
      → (customer_turn (customers j) s).ticks ≡ (if j == 0 then s.ticks + 1 else s.ticks)
  unfolding customer_turn give_up announce receive
  customer_turn-ticks j s = ground (arith, roster j)

  turn-ticks :
      (j : ℕ) (s : Shop)
      → (turn n b customers j s).ticks ≡ (if j == 0 then s.ticks + 1 else s.ticks)
  turn-ticks j s = elim (Bool-cases (ltb j n)) [
    | inl customer ↦ rw customer (customer_turn-ticks j s)
    | inr barista ↦ rw barista (barista_turn-ticks (j - n) s ∙ sym (rw (not_first j barista) refl))
  ]
    where
      not_first : (j : ℕ) → ltb j n ≡ false → (j == 0) ≡ false
      not_first j h = ground arith

  -- The turns so far, from the clock and the place in the ring.
  turn_count :
      (k : ℕ) → (play n b customers k).shop.ticks * (n + b) + (play n b customers k).last ≡ k
  unfolding played new_shop
  turn_count zero = omega arith
  turn_count (suc k) =
      let p = play n b customers k in
      let h = (play-SimInv n b customers roster some_customer some_barista k).0 in
      elim (Bool-cases (suc p.last == (n + b))) [
        | inl around ↦ rw (turn-ticks (after (n + b) p.last) p.shop) (
            rw around (
              round_up p.shop.ticks (n + b) p.last k (eq_of (suc p.last) (n + b) around)
                (turn_count k)))
        | inr on ↦
            rw (turn-ticks (after (n + b) p.last) p.shop)
              (rw on (one_on p.shop.ticks (n + b) p.last k (turn_count k)))
      ]

  -- The clock ticks once in a round.
  late_enough : (T k : ℕ) → (n + b) * T ≤ k → T ≤ (play n b customers k).shop.ticks
  late_enough T k h = elim (dec_lt (play n b customers k).shop.ticks T) [
    | no late ↦ omega arith
    | yes early ↦ absurd (
        omega (
          arith,
          mul-le-mul_right (n + b) early,
          turn_count k,
          (play-SimInv n b customers roster some_customer some_barista k).0,
        ))
  ]

  -- If no coffee is made in no time and tick `T` is behind the time at which each customer has
  -- given up and a coffee that was begun by then is made, then every order is settled once the
  -- threads have had `T` rounds of turns: the test on which the threads leave their loops holds,
  -- and it holds from then on.
  pub settles :
      (T : ℕ)
      → ((i : ℕ) → i < n → limit (customers i) + (customers i).time_to_make < T)
      → (k : ℕ) → (n + b) * T ≤ k
      → (play n b customers k).shop.considered ≡ n
  settles T bound k h =
      let inv = (play-SimInv n b customers roster some_customer some_barista k).1 in
      let late = late_enough T k h in
      inv.0.counted
      ∙ tally_all settled n (play n b customers k).shop.orders (λ i hi. ground (
        arith,
        settled-late (play n b customers k).last (play n b customers k).shop inv (play-Due k) i hi
            (omega (arith, bound i hi, late)),
      ))
