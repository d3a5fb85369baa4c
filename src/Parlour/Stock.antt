-- ===== src/Parlour/Stock.antt =====
-- The toppings of concurrency/2.c: what an order needs, and what making it takes from the stock.
use mini_project_3_amey_chou.Common.{
  ℕ, zero, suc, ◌-◌, ◌<◌, ◌≤◌, ◌≡◌, arith, true, Option, none, some, ap, ◌∙◌, for_upto,
  for_upto_guard, find_upto, find_upto-Found, Found,
}
use mini_project_3_amey_chou.Parlour.Toppings.{
  Icecream, add_topping, needed_at_preparation, is_short, is_possible_to_make, used, use_topping,
  is_none,
}

-- How often topping `t` is among the first `m`.
pub topping_count : Icecream → ℕ → ℕ → ℕ
topping_count x m t = for_upto m (add_topping x) (λ i. 0) t

-- The guard `j < toppings_num` of the loop up to `T` leaves the toppings of the order, if it has no
-- more than `T`.
pub needed-eq-count :
    (x : Icecream) (t i : ℕ)
    → x.toppings_num ≤ t
    → needed_at_preparation t x i ≡ topping_count x x.toppings_num i
unfolding needed_at_preparation topping_count
needed-eq-count x t i le =
    ap (λ f. f i) (for_upto_guard x.toppings_num (add_topping x) (λ i. 0) t le)

-- Making `m` toppings' worth takes each from the stock as often as it is among them.
pub use-Stock :
    (x : Icecream) (m : ℕ) (stock : ℕ → Option ℕ) (t q : ℕ)
    → stock t ≡ some q
    → topping_count x m t ≤ q
    → for_upto m (use_topping x) stock t ≡ some (q - topping_count x m t)
unfolding for_upto use_topping topping_count add_topping used
use-Stock x zero stock t q e le = e ∙ ap some (omega arith)
use-Stock x (suc m) stock t q e le = ground (arith, use-Stock x m stock t q e)

-- An order that passes the test leaves no topping short.
pub possible-Enough :
    (t : ℕ) (stock : ℕ → Option ℕ) (needed : ℕ → ℕ)
    → is_possible_to_make t stock needed ≡ true
    → (i q : ℕ) → i < t
    → stock i ≡ some q
    → needed i ≤ q
unfolding is_possible_to_make is_short
possible-Enough t stock needed can i q lt e =
    elim (find_upto t (λ i. is_short (stock i) (needed i)))
        as (λ o. Found t (λ i. is_short (stock i) (needed i)) o → is_none o ≡ true → needed i ≤ q) [
          | none ↦ λ f h. ground (arith, f i lt)
          | some k ↦ λ f h. cc
        ]
      (find_upto-Found t (λ i. is_short (stock i) (needed i))) can
