-- ===== src/Cafe/Ring.antt =====
-- The threads of concurrency/1.c in their ring of semaphores: customers 0 … n - 1, then baristas
-- 0 … b - 1. `sem j` is `sem_customers[j]`, or `sem_baristas[j - n]`.
use mini_project_3_amey_chou.Common.{ℕ, ◌+◌, ◌-◌, ◌≡◌, ltb, if◌then◌else◌}
use mini_project_3_amey_chou.Ring.Threads
use mini_project_3_amey_chou.Cafe.{Shop, Customer, barista_turn, customer_turn, new_shop}

abbrev pub System : Type 0
System = Threads.System Shop

module _ (n b : ℕ) (customers : ℕ → Customer) where
  abbrev pub threads : ℕ
  threads = n + b

  -- The body of a turn, under `sem_lock`.
  abbrev pub turn : ℕ → Shop → Shop
  turn j s = if ltb j n then customer_turn (customers j) s else barista_turn n (j - n) s

  -- The test at the head of a thread's loop.
  abbrev pub IsOver : Shop → Type 0
  IsOver s = s.considered ≡ n

  abbrev pub Step : System → System → Type 0
  Step = Threads.Step threads turn IsOver (new_shop customers)

  abbrev pub Reach : System → Type 0
  Reach = Threads.Reach threads turn IsOver (new_shop customers)

  abbrev pub start_system : System
  start_system = Threads.start_system threads turn IsOver (new_shop customers)

  abbrev pub play : ℕ → Threads.Played Shop
  play = Threads.played threads turn IsOver (new_shop customers)

  abbrev pub IsPlay : System → ℕ → Type 0
  IsPlay = Threads.IsPlay threads turn IsOver (new_shop customers)
