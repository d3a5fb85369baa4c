-- ===== src/Cafe/Keeps.antt =====
-- The turns of concurrency/1.c never take back that an order is settled.
use mini_project_3_amey_chou.Common.{
  ℕ, ◌≤◌, inl, inr, arith, Option, none, some, ◌==◌, Bool-cases, at_update, not, ◌&&◌, update,
}
use mini_project_3_amey_chou.Cafe.{
  Shop, Order, Customer, announce, give_up, given_up, receive, customer_turn, barista_turn,
  take_order, work, finish_order, finished_order,
}
use mini_project_3_amey_chou.Cafe.Inv.{settled, limit}

-- A settled order stays so.
abbrev pub Keeps : Shop → Shop → Type 0
Keeps s t = (i : ℕ) → settled (s.orders i) ≤ settled (t.orders i)

write-Keeps :
    (s : Shop) (i : ℕ) (o : Order)
    → settled (s.orders i) ≤ settled o
    → (j : ℕ) → settled (s.orders j) ≤ settled (update s.orders i o j)
write-Keeps s i o h =
    at_update (λ j (p : Order). settled (s.orders j) ≤ settled p) s.orders i o h
      (λ j ne. omega arith)

take-Keeps : (k : ℕ) (s : Shop) (w : Option ℕ) → Keeps s (take_order k s w)
unfolding take_order
take-Keeps k s none i = omega arith
take-Keeps k s (some w) i = write-Keeps s w _ (omega arith) i

work-Keeps : (k : ℕ) (s : Shop) (w : Option ℕ) → Keeps s (work k s w)
unfolding work finish_order finished_order
work-Keeps k s none i = omega arith
work-Keeps k s (some w) i =
    ground (arith, write-Keeps s w (finished_order (s.orders w)) (ground arith) i)

pub barista-Keeps : (n k : ℕ) (s : Shop) → Keeps s (barista_turn n k s)
unfolding barista_turn
barista-Keeps n k s = elim (Bool-cases (s.baristas k).is_free) [
  | inl free ↦ rw free (take-Keeps k s _)
  | inr busy ↦ rw busy (work-Keeps k s (s.baristas k).order)
]

announce-Keeps : (c : Customer) (s : Shop) → Keeps s (announce c s)
unfolding announce
announce-Keeps c s i = ground arith

given_up-settled : (ticks : ℕ) (o : Order) → settled o ≤ settled (given_up ticks o)
unfolding given_up
given_up-settled ticks o = ground arith

give_up-Keeps : (c : Customer) (s : Shop) → Keeps s (give_up c s)
unfolding give_up
give_up-Keeps c s i = elim (Bool-cases (s.ticks == limit c)) [
  | inl now ↦ rw now (write-Keeps s c.order_id _ (given_up-settled s.ticks (s.orders c.order_id)) i)
  | inr other ↦ rw other (omega arith)
]

receive-Keeps : (c : Customer) (s : Shop) → Keeps s (receive c s)
unfolding receive
receive-Keeps c s i =
    let o = s.orders c.order_id in
    elim (Bool-cases (o.is_given_to_customer && not o.order_printed)) [
      | inl got ↦ rw got (write-Keeps s c.order_id _ (omega arith) i)
      | inr not_yet ↦ rw not_yet (omega arith)
    ]

pub customer-Keeps : (c : Customer) (s : Shop) → Keeps s (customer_turn c s)
unfolding customer_turn
customer-Keeps c s i = elim (Bool-cases (c.customer_id == 0)) [
  | inl first ↦ rw first (body c s i)
  | inr other ↦ rw other (body c s i)
]
  where
    body : (c : Customer) (s : Shop) → Keeps s (receive c (give_up c (announce c s)))
    body c s i = omega (
      arith,
      announce-Keeps c s i,
      give_up-Keeps c (announce c s) i,
      receive-Keeps c (give_up c (announce c s)) i,
    )
