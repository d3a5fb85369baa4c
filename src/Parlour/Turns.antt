-- ===== src/Parlour/Turns.antt =====
-- How many turns a thread of concurrency/2.c has had, from the clock and the thread that had the
-- last turn.
use mini_project_3_amey_chou.Common.{
  ℕ, zero, suc, ◌+◌, ◌<◌, ◌≡◌, arith, ◌==◌, if◌then◌else◌, ap, ◌∙◌,
}
use mini_project_3_amey_chou.Ring.{after}
use mini_project_3_amey_chou.Ring.Threads
use mini_project_3_amey_chou.Parlour.{Parlour}
use mini_project_3_amey_chou.Parlour.Opening.{Input, new_parlour, turn, IsOver}
use mini_project_3_amey_chou.Parlour.Simulation.{
  IsInput, SimInv, turns, turn-SimInv, turn-ticks, new-SimInv,
}

module _ (x : Input) where
  abbrev pub play : ℕ → Threads.Played Parlour
  play = Threads.played (x.total_customers + x.n) (turn x) (IsOver x) (new_parlour x)

  -- How many of the first `k` turns of the ring are those of thread `j`.
  pub turns_taken : (k j : ℕ) → ℕ
  turns_taken zero j = 0
  turns_taken (suc k) j = turns_taken k j + (if (play (suc k)).last == j then 1 else 0)

  count_turn :
      (threads last ticks ticks' j : ℕ)
      → last < threads
      → j < threads
      → ticks' ≡ (if after threads last == 0 then ticks + 1 else ticks)
      → turns (after threads last) ticks' j
        ≡ turns last ticks j + (if after threads last == j then 1 else 0)
  unfolding turns
  count_turn threads last ticks ticks' j lt hj clock = ground (arith, clock)

  module _ (h : IsInput x) where
    abbrev threads : ℕ
    threads = x.total_customers + x.n

    some_threads : 1 < threads
    some_threads = omega (arith, h.some_customer, h.some_machine)

    -- After `k` turns of the ring.
    pub play-turns :
        (k j : ℕ) → j < threads → turns (play k).last (play k).shop.ticks j ≡ turns_taken k j
    unfolding turns_taken turns Threads.played new_parlour
    play-turns zero j hj = ground arith
    play-turns (suc k) j hj =
        let (lt, v) =
          Threads.played-along threads (turn x) (IsOver x) (new_parlour x) some_threads
            (SimInv x h 0) (turn-SimInv x h 0) (new-SimInv x h) k in
        count_turn threads (play k).last (play k).shop.ticks (play (suc k)).shop.ticks j lt hj
          (turn-ticks x h 0 (play k).last (play k).shop lt v)
        ∙ ap (λ n. n + (if (play (suc k)).last == j then 1 else 0)) (play-turns k j hj)
