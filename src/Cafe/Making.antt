-- ===== src/Cafe/Making.antt =====
-- The times by which the orders of concurrency/1.c are settled: what the turn of a barista keeps.
use mini_project_3_amey_chou.Common.{
  ℕ, ◌+◌, ◌<◌, ◌≤◌, ◌≡◌, ◌≢◌, inl, inr, refl, arith, true, false, Option, none, some, update,
  update-ne, update_self, at_update, Bool-cases, find_upto, find_upto-Found, Found, sym, ◌∙◌, subst,
  ap,
}
use native.Mathlib.Decide.{ℕ_discrete}
use mini_project_3_amey_chou.Cafe.{
  Shop, Order, Barista, Customer, can_take, take_order, work, finish_order, finished_order,
  finished_barista, is_ready, barista_turn,
}
use mini_project_3_amey_chou.Cafe.Inv.{Busy, ShopInv, limit}
use mini_project_3_amey_chou.Cafe.Due.{OrderDue, Due}

is_ready-ne :
    (ticks : ℕ) (o : Order) (t : ℕ)
    → o.is_taken_up ≡ some t
    → is_ready ticks o ≡ false
    → ticks ≢ t + o.customer.time_to_make
unfolding is_ready
is_ready-ne ticks o t e f = λ g. ground arith

some_inj : {i j : ℕ} → ◌≡◌ {A = Option ℕ} (some i) (some j) → i ≡ j
some_inj e = cc

pub some≢none : {i : ℕ} → ◌≡◌ {A = Option ℕ} (some i) none → ⊥
some≢none e = cc

module _ (n b : ℕ) (customers : ℕ → Customer) where
  module _ (s : Shop) (v : ShopInv n b customers s) (ran ran' : ℕ → ℕ) (j : ℕ) (once : ran' j ≤ 1)
      (others : (x : ℕ) → x ≢ j → ran' x ≤ ran x) (d : Due n b customers ran s) where
    module _ (k : ℕ) (hk : k < b) (here : j ≡ n + k)
        (some_work : (i : ℕ) → i < n → 0 < (customers i).time_to_make) where
      -- An order that barista `k` does not work on.
      others-Due :
          (i : ℕ) (baristas : ℕ → Barista)
          → i < n
          → ((s.orders i).barista_id ≡ some k → (s.orders i).is_completed ≡ false → ⊥)
          → ((m : ℕ) → k ≢ m → baristas m ≡ s.baristas m)
          → OrderDue n b customers ran' s.ticks baristas i (s.orders i)
      others-Due i baristas hi apart same = record {
        open_ = λ e f. omega (arith, (d i hi).open_ e f, others i (λ e. omega (arith, here)));
        held = λ m e f.
            let (hm, busy, with_it, (t, at, le, due)) = (d i hi).held m e f in
            let ne : k ≢ m = λ g. apart (e ∙ ap (λ (x : ℕ). some x) (sym g)) f in
            (
              hm,
              ap Barista.is_free (same m ne) ∙ busy,
              ap Barista.order (same m ne) ∙ with_it,
              (t, at, le, omega (arith, due, others (n + m) (λ e. ne (omega (arith, here))))),
            );
      }

      free-apart :
          (s.baristas k).is_free ≡ true
          → (i : ℕ) → i < n
          → (s.orders i).barista_id ≡ some k
          → (s.orders i).is_completed ≡ false
          → ⊥
      free-apart free i hi e f = cc (((d i hi).held k e f).1)

      -- What barista `k` and its new order have at the end of the turn.
      taken-Due :
          (w : ℕ) (o : Order) (x : Barista)
          → w < n
          → (s.ticks ≤ limit (customers w))
          → o.barista_id ≡ some k
          → o.is_taken_up ≡ some s.ticks
          → x.is_free ≡ false
          → x.order ≡ some w
          → OrderDue n b customers ran' s.ticks (update s.baristas k x) w o
      taken-Due w o x hw le by at busy with_it = record {
        open_ = λ e f. absurd (some≢none (sym by ∙ e));
        held = λ m e f.
            subst
              (λ (m : ℕ).
                (m < b)
                × ((update s.baristas k x m).is_free ≡ false)
                × ((update s.baristas k x m).order ≡ some w)
                × ((t : ℕ) × (o.is_taken_up ≡ some t)
                    × (t ≤ limit (customers w))
                    × (s.ticks + ran' (n + m) ≤ t + (customers w).time_to_make)))
              (some_inj (sym by ∙ e))
              (
                hk,
                ap Barista.is_free (update_self s.baristas k x) ∙ busy,
                ap Barista.order (update_self s.baristas k x) ∙ with_it,
                (s.ticks, at, le, omega (arith, once, some_work w hw, ap ran' here)),
              );
      }

      take-Due :
          (w : Option ℕ)
          → (s.baristas k).is_free ≡ true
          → Found n (λ i. can_take s.ticks (s.orders i)) w
          → Due n b customers ran' (take_order k s w)
      unfolding take_order can_take
      take-Due none free f =
          λ i hi. others-Due i s.baristas hi (free-apart free i hi) (λ m ne. refl)
      take-Due (some w) free f = λ i hi.
          let nobody : (s.orders w).barista_id ≡ none = ground (arith, f.1) in
          let wanted : (s.orders w).is_to_be_considered ≡ true = ground (arith, f.1) in
          at_update
            (λ i (p : Order).
              i < n
              → OrderDue n b customers ran' s.ticks
                  (update s.baristas k (record (s.baristas k) { order = some w; is_free = false }))
                  i p)
            s.orders w (record (s.orders w) { barista_id = some k; is_taken_up = some s.ticks })
            (λ _.
              taken-Due w _ _ f.0 (omega (arith, (d w f.0).open_ nobody wanted)) refl refl refl
                refl)
            (λ i ne h.
              others-Due i _ h (free-apart free i h) (λ m ne. update-ne s.baristas k m _ ne))
            i hi

      busy-apart :
          (w : ℕ)
          → (s.baristas k).order ≡ some w
          → (i : ℕ) → i < n
          → w ≢ i
          → (s.orders i).barista_id ≡ some k
          → (s.orders i).is_completed ≡ false
          → ⊥
      busy-apart w at i hi ne e f = ne (cc (at, ((d i hi).held k e f).2))

      finish-Due :
          (w : ℕ)
          → (s.baristas k).order ≡ some w
          → w < n
          → (s.orders w).barista_id ≡ some k
          → Due n b customers ran' (finish_order k s w)
      unfolding finish_order finished_order finished_barista
      finish-Due w at hw by i hi =
          at_update
            (λ i (p : Order).
              i < n
              → OrderDue n b customers ran' s.ticks
                  (update s.baristas k (finished_barista (s.orders w) (s.baristas k))) i p)
            s.orders w (finished_order (s.orders w))
            (λ _. record { open_ = λ e f. ground (arith, by); held = λ m e f. ground arith })
            (λ i ne h.
              others-Due i _ h (busy-apart w at i h ne) (λ m ne. update-ne s.baristas k m _ ne))
            i hi

      -- A coffee that is not ready takes at least one more tick.
      wait-Due :
          (w : ℕ)
          → (s.baristas k).order ≡ some w
          → w < n
          → (s.orders w).barista_id ≡ some k
          → (s.orders w).is_completed ≡ false
          → is_ready s.ticks (s.orders w) ≡ false
          → Due n b customers ran' s
      wait-Due w at hw by unfinished not_ready i hi = elim (ℕ_discrete w i) [
        | no ne ↦ others-Due i s.baristas hi (busy-apart w at i hi ne) (λ m ne. refl)
        | yes e ↦
            subst (λ (i : ℕ). OrderDue n b customers ran' s.ticks s.baristas i (s.orders i)) e
              (record {
                open_ = λ e f. cc;
                held = λ m e f.
                    let (hm, busy, with_it, (t, at, le, due)) = (d w hw).held m e f in
                    (
                      hm,
                      busy,
                      with_it,
                      (
                        t,
                        at,
                        le,
                        omega (
                          arith,
                          due,
                          is_ready-ne s.ticks (s.orders w) t at not_ready,
                          (v.orders w hw).make,
                          once,
                          ap ran' (here ∙ ap (λ (x : ℕ). n + x) (some_inj (sym by ∙ e))),
                        ),
                      ),
                    );
              })
      ]

      work-Due :
          (w : Option ℕ)
          → (s.baristas k).order ≡ w
          → Busy n s.orders k w
          → Due n b customers ran' (work k s w)
      unfolding work
      work-Due none at u = absurd u
      work-Due (some w) at u = elim (Bool-cases (is_ready s.ticks (s.orders w))) [
        | inl now ↦ simp (u.2, now) (finish-Due w at u.0 u.1)
        | inr later ↦ simp (u.2, later) (wait-Due w at u.0 u.1 u.2 later)
      ]

      pub barista-Due : Due n b customers ran' (barista_turn n k s)
      unfolding barista_turn
      barista-Due = elim (Bool-cases (s.baristas k).is_free) [
        | inl free ↦ rw free (
            take-Due (find_upto n (λ i. can_take s.ticks (s.orders i))) free
              (find_upto-Found n (λ i. can_take s.ticks (s.orders i))))
        | inr busy ↦ rw busy (work-Due (s.baristas k).order refl (v.busy k hk busy))
      ]
