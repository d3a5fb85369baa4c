-- ===== src/Parlour/Seats.antt =====
-- The seats of concurrency/2.c, and the customers who have not come yet.
use mini_project_3_amey_chou.Common.{
  ℕ, ◌+◌, ◌<◌, ◌≤◌, ◌≡◌, ◌≢◌, arith, true, false, none, sym, ap, ltb, if◌then◌else◌, ◌∙◌, subst,
  tally, tally_change, ℤ, pos,
}
use native.Mathlib.Decide.{ℕ_discrete}
use mini_project_3_amey_chou.Parlour.{Customer, Order, Setup, Parlour}
use mini_project_3_amey_chou.Parlour.Opening.{Visit}
use mini_project_3_amey_chou.Parlour.Numbers.{IsCustomer, first_order}

-- An order of a customer who has not come yet.
pub record IsFresh (o : Order) : Type 0 where
  pub considered : o.is_to_considered ≡ true
  pub unplaced : o.is_placed ≡ none
  pub untaken : o.icecream_machine_id ≡ none
  pub uncompleted : o.is_completed ≡ false

-- 1 for a customer with a seat, one who has arrived in the first `turns` ticks and has not left.
abbrev pub seated : (turns : ℕ) → Customer → ℕ
seated turns c = if c.leaves then 0 else if ltb c.arrival_time turns then 1 else 0

module _ (visits : ℕ → Visit) (g : Setup) where
  abbrev pub seats_taken : (ℕ → ℕ) → (ℕ → Customer) → ℕ
  seats_taken turns customers =
      tally (λ (n : ℕ). n) g.total_customers (λ j. seated (turns j) (customers j))

  abbrev pub IsExpected : (turns j : ℕ) → Customer → (ℕ → Order) → Type 0
  IsExpected turns j c orders =
      turns ≤ (visits j).arrival_time
      → (c.leaves ≡ false)
        × ((i : ℕ)
            → i < (visits j).number_of_icecreams
            → IsFresh (orders (first_order visits j + i)))

  -- `turns j` is how many turns customer `j` has had.
  pub record SeatInv (turns : ℕ → ℕ) (customers : ℕ → Customer) (orders : ℕ → Order) (sitting : ℤ)
      : Type 0 where
    pub each_customer :
        (j : ℕ) → j < g.total_customers → IsCustomer (visits j) (first_order visits j) (customers j)
    pub expected : (j : ℕ) → j < g.total_customers → IsExpected (turns j) j (customers j) orders
    pub counted : sitting ≡ pos (seats_taken turns customers)
    pub room : seats_taken turns customers ≤ g.k

  abbrev pub IsSeated : (ℕ → ℕ) → Parlour → Type 0
  IsSeated turns s = SeatInv turns s.customers s.orders s.customers_sitting_in_parlour

  -- What the turn of customer `j` changes.
  module _ (turns turns' : ℕ → ℕ) (s : Parlour) (v : IsSeated turns s) (j : ℕ)
      (hj : j < g.total_customers)
      (others : (x : ℕ) → x < g.total_customers → j ≢ x → turns' x ≡ turns x)
      (customers : ℕ → Customer) (other_customers : (x : ℕ) → j ≢ x → customers x ≡ s.customers x)
      (own_customer : IsCustomer (visits j) (first_order visits j) (customers j))
      (orders : ℕ → Order)
      (other_orders : (x i : ℕ)
        → j ≢ x
        → i < (visits x).number_of_icecreams
        → orders (first_order visits x + i) ≡ s.orders (first_order visits x + i)) where
    pub turn-SeatInv :
        (sitting : ℤ) (taken : ℕ)
        → IsExpected (turns' j) j (customers j) orders
        → sitting ≡ pos taken
        → taken + seated (turns j) (s.customers j)
          ≡ seats_taken turns s.customers + seated (turns' j) (customers j)
        → taken ≤ g.k
        → SeatInv turns' customers orders sitting
    turn-SeatInv sitting taken own_expected count change room =
        let total : seats_taken turns' customers ≡ taken = omega (
          arith,
          change,
          tally_change (λ (n : ℕ). n) g.total_customers (λ x. seated (turns x) (s.customers x))
              (λ x. seated (turns' x) (customers x)) j hj
              (λ x hx ne. cc (others x hx ne, other_customers x ne)),
        ) in
        record {
          each_customer = λ x hx. elim (ℕ_discrete j x) [
            | yes e ↦
                subst (λ x. IsCustomer (visits x) (first_order visits x) (customers x)) e
                  own_customer
            | no ne ↦
                subst (IsCustomer (visits x) (first_order visits x)) (sym (other_customers x ne))
                  (v.each_customer x hx)
          ];
          expected = λ x hx. elim (ℕ_discrete j x) [
            | yes e ↦ subst (λ x. IsExpected (turns' x) x (customers x) orders) e own_expected
            | no ne ↦ λ soon.
                let (stays, fresh) =
                  v.expected x hx
                    (subst (λ n. n ≤ (visits x).arrival_time) (others x hx ne) soon) in
                (
                  ap (λ (c : Customer). c.leaves) (other_customers x ne) ∙ stays,
                  λ i hi. subst IsFresh (sym (other_orders x i ne hi)) (fresh i hi),
                )
          ];
          counted = count ∙ ap pos (sym total);
          room = omega (arith, total);
        }
