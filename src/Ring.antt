-- ===== src/Ring.antt =====
-- A ring of semaphores with one token, as the threads of concurrency/1.c and concurrency/2.c take
-- turns: thread `j` waits for the semaphore of the thread before it, and then posts its own.
pub mod Threads
use mini_project_3_amey_chou.Common.{
  ℕ, suc, ◌+◌, ◌-◌, ◌<◌, ◌≡◌, ◌≢◌, refl, arith, ◌==◌, if◌then◌else◌, update,
}
use native.Mathlib.Decide.{ℕ_discrete}

module _ (threads : ℕ) where
  -- The semaphore that thread `j` waits on.
  abbrev pub before : ℕ → ℕ
  before j = if j == 0 then threads - 1 else j - 1

  abbrev pub after : ℕ → ℕ
  after j = if suc j == threads then 0 else suc j

  -- `sem_wait` of the semaphore before, and `sem_post` of its own.
  abbrev pub pass_token : (ℕ → ℕ) → ℕ → ℕ → ℕ
  pass_token sem j =
      let waited = update sem (before j) (sem (before j) - 1) in update waited j (waited j + 1)

  -- One token in the ring, at the thread that had the last turn.
  pub record TokenAt (sem : ℕ → ℕ) (last : ℕ) : Type 0 where
    pub in_ring : last < threads
    pub here : sem last ≡ 1
    pub nowhere_else : (j : ℕ) → j ≢ last → sem j ≡ 0

  module _ (some_threads : 1 < threads) where
    pub token-before :
        (sem : ℕ → ℕ) (last j : ℕ) → TokenAt sem last → 0 < sem (before j) → before j ≡ last
    token-before sem last j t h = elim (ℕ_discrete (before j) last) [
      | yes e ↦ e
      | no ne ↦ absurd (omega (arith, t.nowhere_else (before j) ne))
    ]

    pub token-next :
        (sem : ℕ → ℕ) (last j : ℕ)
        → TokenAt sem last
        → j < threads
        → before j ≡ last
        → (j ≡ after last) × TokenAt (pass_token sem j) j
    token-next sem last j t lt e = (
      ground (arith, t.in_ring),
      record {
        in_ring = lt;
        here = ground (arith, t.nowhere_else j);
        nowhere_else = λ i ne. ground (arith, t.nowhere_else i, t.here);
      },
    )

    -- After the `sem_post` of `main`.
    pub start-TokenAt : TokenAt (update (λ j. 0) 0 1) 0
    start-TokenAt = record {
      in_ring = omega arith;
      here = refl;
      nowhere_else = λ j h. ground arith;
    }
