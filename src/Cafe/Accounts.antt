-- ===== src/Cafe/Accounts.antt =====
-- What the customers of concurrency/1.c can count on.
use mini_project_3_amey_chou.Common.{
  ℕ, ◌<◌, ◌≤◌, ◌≡◌, ◌↔◌, arith, false, some, sym, ◌∙◌, subst, tally_full, tally_all,
}
use mini_project_3_amey_chou.Cafe.{Order, Customer}
use mini_project_3_amey_chou.Cafe.Inv.{Busy, ShopInv, settled}
use mini_project_3_amey_chou.Cafe.Leaving.{IsRoster}
use mini_project_3_amey_chou.Cafe.Ring.{System, Reach}
use mini_project_3_amey_chou.Cafe.Simulation.{Reach-ShopInv}

settled-le-one : (o : Order) → settled o ≤ 1
settled-le-one o = ground arith

module _ (n b : ℕ) (customers : ℕ → Customer) (roster : IsRoster customers) (some_customer : 0 < n)
    (some_barista : 0 < b) where
  -- The threads' test `is_to_be_considered_counter == N` holds in a reachable state exactly if no
  -- order is still to be considered.
  pub all_settled :
      {s : System}
      → Reach n b customers s
      → (s.shop.considered ≡ n) ↔ ((i : ℕ) → i < n → (s.shop.orders i).is_to_be_considered ≡ false)
  all_settled {s} r = (
    λ e i lt. ground (
      arith,
      tally_full settled n s.shop.orders (λ k. settled-le-one (s.shop.orders k)) (sym v.counted ∙ e)
          i lt,
    ),
    λ h. v.counted ∙ tally_all settled n s.shop.orders (λ i lt. ground (arith, h i lt)),
  )
    where
      v : ShopInv n b customers s.shop
      v = Reach-ShopInv n b customers roster some_customer some_barista r

  -- No order is prepared by two baristas: in a reachable state, baristas that are busy with the
  -- same order are the same.
  pub one_barista :
      {s : System} {i : ℕ}
      → Reach n b customers s
      → (j k : ℕ) → j < b
      → k < b
      → (s.shop.baristas j).is_free ≡ false
      → (s.shop.baristas k).is_free ≡ false
      → (s.shop.baristas j).order ≡ some i
      → (s.shop.baristas k).order ≡ some i
      → j ≡ k
  one_barista {s} {i} r j k hj hk busy_j busy_k at_j at_k =
      cc (by j hj busy_j at_j, by k hk busy_k at_k)
    where
      v : ShopInv n b customers s.shop
      v = Reach-ShopInv n b customers roster some_customer some_barista r

      by :
          (m : ℕ)
          → m < b
          → (s.shop.baristas m).is_free ≡ false
          → (s.shop.baristas m).order ≡ some i
          → (s.shop.orders i).barista_id ≡ some m
      by m hm busy at = (subst (Busy n s.shop.orders m) at (v.busy m hm busy)).1
