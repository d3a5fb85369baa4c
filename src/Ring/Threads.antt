-- ===== src/Ring/Threads.antt =====
-- The threads of concurrency/1.c and concurrency/2.c: which thread may take a turn in the ring of
-- semaphores, and the simulation that the threads play. A turn runs from `sem_wait` to `sem_post` of
-- the one lock (`sem_lock`, `mutex`), so it is one atomic step.
use mini_project_3_amey_chou.Common.{
  ℕ, zero, suc, ◌+◌, ◌<◌, ◌≡◌, refl, arith, update, subst, sym, ap₂,
}
use mini_project_3_amey_chou.Ring.{
  before, after, pass_token, TokenAt, token-before, token-next, start-TokenAt,
}

-- A thread is at the head of its loop, past the test there and before its turn, or closed.
pub data Pc : Type 0 where
  top waiting closed : Pc

-- `sem j` is the semaphore that thread `j` posts.
pub record System (S : Type 0) : Type 0 where
  pub shop : S
  pub sem : ℕ → ℕ
  pub pc : ℕ → Pc
  pub thread_closed : ℕ

-- The simulation: the thread that had the last turn, and the shop after it.
pub record Played (S : Type 0) : Type 0 where
  pub last : ℕ
  pub shop : S

-- Threads by their places in the ring; `IsOver` is the test at the head of their loops.
module _ {S : Type 0} (threads : ℕ) (turn : ℕ → S → S) (IsOver : S → Type 0) (opening : S) where
  pub data Step (s : System S) : System S → Type 0 where
    go_on :
        (j : ℕ)
        → j < threads
        → s.pc j ≡ top
        → ¬ IsOver s.shop
        → Step s (record s { pc = update s.pc j waiting })
    leave :
        (j : ℕ)
        → j < threads
        → s.pc j ≡ top
        → IsOver s.shop
        → Step s (record s { pc = update s.pc j closed; thread_closed = s.thread_closed + 1 })
    take_turn :
        (j : ℕ)
        → j < threads
        → s.pc j ≡ waiting
        → 0 < s.sem (before threads j)
        → Step s (record s {
          shop = turn j s.shop;
          sem = pass_token threads s.sem j;
          pc = update s.pc j top;
        })

  -- After the `sem_post` of `main`.
  abbrev pub start_system : System S
  start_system = record {
    shop = opening;
    sem = update (λ j. 0) 0 1;
    pc = λ j. top;
    thread_closed = 0;
  }

  pub data Reach : System S → Type 0 where
    start : Reach start_system
    later : {s t : System S} → Reach s → Step s t → Reach t

  -- What happens later.
  pub data After (s : System S) : System S → Type 0 where
    at_once : After s s
    and_then : {t u : System S} → After s t → Step t u → After s u

  unfoldable pub played : ℕ → Played S
  played zero = record { last = 0; shop = opening }
  played (suc k) =
      let p = played k in
      record { last = after threads p.last; shop = turn (after threads p.last) p.shop }

  abbrev pub IsPlay : System S → ℕ → Type 0
  IsPlay s k = (s.shop ≡ (played k).shop) × TokenAt threads s.sem (played k).last

  module _ (some_threads : 1 < threads) where
    pub start-IsPlay : IsPlay start_system 0
    unfolding played
    start-IsPlay = (refl, start-TokenAt threads some_threads)

    -- The thread that takes a turn is the next one in the ring.
    pub turn-IsPlay :
        (s : System S) (k j : ℕ)
        → IsPlay s k
        → j < threads
        → 0 < s.sem (before threads j)
        → (turn j s.shop ≡ (played (suc k)).shop)
          × TokenAt threads (pass_token threads s.sem j) (played (suc k)).last
    unfolding played
    turn-IsPlay s k j (e, t) lt up =
        let last = (played k).last in
        let (next, t') =
          token-next threads some_threads s.sem last j t lt
            (token-before threads some_threads s.sem last j t up) in
        (ap₂ turn next e, subst (TokenAt threads (pass_token threads s.sem j)) next t')

    -- Every schedule plays the one simulation: in each reachable state the shop is that after some
    -- number of turns taken in the order of the ring, and exactly one semaphore is up, that of the
    -- thread which had the last turn. So no two threads are ever in a turn together.
    pub Reach-IsPlay : {s : System S} → Reach s → (k : ℕ) × IsPlay s k
    Reach-IsPlay start = (0, start-IsPlay)
    Reach-IsPlay (later r (go_on j lt at more)) = Reach-IsPlay r
    Reach-IsPlay (later r (leave j lt at over)) = Reach-IsPlay r
    Reach-IsPlay (later {s} r (take_turn j lt at up)) =
        let (k, p) = Reach-IsPlay r in (suc k, turn-IsPlay s k j p lt up)

    -- What holds at the opening and is kept by each turn in the order of the ring.
    module _ (P : ℕ → S → Type 0)
        (keep : (last : ℕ) (s : S)
          → last < threads
          → P last s
          → P (after threads last) (turn (after threads last) s)) where
      pub played-along :
          P 0 opening → (k : ℕ) → ((played k).last < threads) × P (played k).last (played k).shop
      unfolding played
      played-along first zero = (omega arith, first)
      played-along first (suc k) =
          let (h, p) = played-along first k in
          (ground (arith, h), keep (played k).last (played k).shop h p)

      -- The same for the threads, whatever the schedule: it holds of the shop, and the token is at
      -- the thread that had the last turn.
      abbrev pub Along : System S → Type 0
      Along s = (last : ℕ) × TokenAt threads s.sem last × P last s.shop

      step-Along : {s t : System S} → Along s → Step s t → Along t
      step-Along a (go_on j lt at more) = a
      step-Along a (leave j lt at over) = a
      step-Along {s} (last, t, p) (take_turn j lt at up) =
          let (next, t') =
            token-next threads some_threads s.sem last j t lt
              (token-before threads some_threads s.sem last j t up) in
          (j, t', subst (λ i. P i (turn i s.shop)) (sym next) (keep last s.shop t.in_ring p))

      pub After-Along : {s t : System S} → Along s → After s t → Along t
      After-Along a at_once = a
      After-Along a (and_then r st) = step-Along (After-Along a r) st

      pub Reach-Along : {s : System S} → P 0 opening → Reach s → Along s
      Reach-Along first start = (0, start-TokenAt threads some_threads, first)
      Reach-Along first (later r st) = step-Along (Reach-Along first r) st
