-- ===== src/Parlour/Toppings.antt =====
-- The ice creams of concurrency/2.c and the stock of toppings; in a stock, `none` is -1, which stands
-- for "unlimited".
use mini_project_3_amey_chou.Common.{
  ℕ, zero, suc, ◌+◌, ◌-◌, Bool, true, false, Option, none, some, ltb, if◌then◌else◌, update,
  for_upto, find_upto,
}

-- `struct icecream`: the time of its flavour, and the ids of its toppings, which count from 1.
pub record Icecream : Type 0 where
  pub time_to_prepare : ℕ
  pub toppings_num : ℕ
  pub topping : ℕ → ℕ

abbrev pub is_none : Option ℕ → Bool
is_none none = true
is_none (some x) = false

-- `temp_toppings[topping_id - 1] += 1`
unfoldable pub add_topping : Icecream → ℕ → (ℕ → ℕ) → ℕ → ℕ
add_topping x j temp = update temp (x.topping j - 1) (temp (x.topping j - 1) + 1)

-- `temp_toppings` of a machine, which looks at the first `T` toppings at most.
unfoldable pub needed_at_preparation : (t : ℕ) → Icecream → ℕ → ℕ
needed_at_preparation t x =
    for_upto t (λ j temp. if ltb j x.toppings_num then add_topping x j temp else temp) (λ i. 0)

-- `quantity != -1 && quantity < needed`
unfoldable pub is_short : Option ℕ → ℕ → Bool
is_short none needed = false
is_short (some quantity) needed = ltb quantity needed

-- The scan for a shortage, which stops at the first.
unfoldable pub is_possible_to_make : (t : ℕ) → (ℕ → Option ℕ) → (ℕ → ℕ) → Bool
is_possible_to_make t stock needed = is_none (find_upto t (λ i. is_short (stock i) (needed i)))

-- `if (quantity != -1) quantity -= 1`, where 0 - 1 is -1.
unfoldable pub used : Option ℕ → Option ℕ
used none = none
used (some zero) = none
used (some (suc quantity)) = some quantity

unfoldable pub use_topping : Icecream → ℕ → (ℕ → Option ℕ) → ℕ → Option ℕ
use_topping x j stock = update stock (x.topping j - 1) (used (stock (x.topping j - 1)))

unfoldable pub use_toppings : Icecream → (ℕ → Option ℕ) → ℕ → Option ℕ
use_toppings x stock = for_upto x.toppings_num (use_topping x) stock
