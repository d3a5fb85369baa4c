-- ===== src/Pipe.antt =====
-- Pipes of initial-xv6/src/kernel/pipe.c: `struct pipe`, `pipewrite`, `piperead` and `pipeclose`.
-- A call keeps the lock of the pipe until it sleeps, so the code up to a sleep or a return is one
-- atomic step; a caller that wakes up goes on with the bytes it has left. The calls of `wakeup` are
-- those of Life, and are not repeated here.
mod Fifo
mod Transfer
mod Reading
mod Tests
use mini_project_3_amey_chou.Common.{
  ℕ, zero, suc, ◌+◌, ◌-◌, ◌%◌, ◌^◌, Bool, true, false, Option, none, some, List, [], ◌∷◌, ◌==◌,
  if◌then◌else◌, update, not, ◌&&◌, ◌||◌, ℤ, pos, negsuc, ltb_ℤ,
}
use mini_project_3_amey_chou.Phys.{Phys, Run, ok, panic, M, pure, and_then, ◌>>=◌, ◌>>◌}
use mini_project_3_amey_chou.Kalloc.{kfree}
use mini_project_3_amey_chou.Vm.Copy.{copyin, copyout}

-- `struct pipe`, without its lock; a flag that is 0 or 1 is a Boolean.
pub record PipeState : Type 0 where
  pub data_at : ℕ → ℕ  -- `data[]`
  pub nread : ℕ
  pub nwrite : ℕ
  pub readopen : Bool
  pub writeopen : Bool

-- `PIPESIZE`
abbrev pub pipesize : ℕ
pipesize = 512

-- What `pipealloc` writes to the page of a new pipe.
unfoldable pub new_pipe : (ℕ → ℕ) → PipeState
new_pipe page = record { data_at = page; nread = 0; nwrite = 0; readopen = true; writeopen = true }

-- `pi->nwrite == pi->nread + PIPESIZE`, on `uint`
unfoldable pub is_full : PipeState → Bool
is_full pi = pi.nwrite == (pi.nread + pipesize) % 2 ^ 32

-- `pi->nread == pi->nwrite`
unfoldable pub is_empty : PipeState → Bool
is_empty pi = pi.nread == pi.nwrite

-- `pi->data[pi->nwrite++ % PIPESIZE] = ch`
unfoldable pub push : ℕ → PipeState → PipeState
push ch pi = record pi {
  data_at = update pi.data_at (pi.nwrite % pipesize) ch;
  nwrite = (pi.nwrite + 1) % 2 ^ 32;
}

-- `ch = pi->data[pi->nread++ % PIPESIZE]`
unfoldable pub pop : PipeState → ℕ × PipeState
pop pi = (pi.data_at (pi.nread % pipesize), record pi { nread = (pi.nread + 1) % 2 ^ 32 })

-- How a step ends: the call returns, or it sleeps after `i` bytes.
pub data Progress : Type 0 where
  returns : ℤ → Progress
  sleeps : (i : ℕ) → Progress

abbrev pub first_byte : List ℕ → ℕ
first_byte [] = 0
first_byte (c ∷ cs) = c

-- The loop of `pipewrite` with `rounds` bytes to go, `i` bytes written. `killed i` is the answer of
-- `killed(pr)` in that round.
unfoldable pub write_from :
    (rounds i pagetable addr : ℕ) → (killed : ℕ → Bool) → PipeState → M (PipeState × Progress)
write_from zero i pagetable addr killed pi s = ok (pi, returns (pos i)) s
write_from (suc r) i pagetable addr killed pi s = elim (not pi.readopen || killed i) [
  | true ↦ ok (pi, returns (negsuc 0)) s
  | false ↦ elim (is_full pi) [
    | true ↦ ok (pi, sleeps i) s
    | false ↦ and_then (copyin pagetable (addr + i) 1 s) (λ read s'. elim read [
      | none ↦ ok (pi, returns (pos i)) s'
      | some cs ↦ write_from r (suc i) pagetable addr killed (push (first_byte cs) pi) s'
    ])
  ]
]

-- The rounds of a loop `while (i < n)` from 0, with `n` an `int`.
abbrev pub rounds_of : ℤ → ℕ
rounds_of (pos n) = n
rounds_of (negsuc n) = 0

unfoldable pub pipewrite :
    (pagetable addr : ℕ) → (n : ℤ) → (killed : ℕ → Bool) → PipeState → M (PipeState × Progress)
pipewrite pagetable addr n killed pi = write_from (rounds_of n) 0 pagetable addr killed pi

-- `== -1`
abbrev pub is_minus_one : ℤ → Bool
is_minus_one (negsuc zero) = true
is_minus_one _ = false

-- The copying loop of `piperead`.
unfoldable pub read_from : (rounds i pagetable addr : ℕ) → PipeState → M (PipeState × Progress)
read_from zero i pagetable addr pi s = ok (pi, returns (pos i)) s
read_from (suc r) i pagetable addr pi s = elim (is_empty pi) [
  | true ↦ ok (pi, returns (pos i)) s
  | false ↦ and_then (copyout pagetable (addr + i) ((pop pi).0 ∷ []) s) (λ e s'.
      elim (is_minus_one e) [
        | true ↦ ok ((pop pi).1, returns (pos i)) s'
        | false ↦ read_from r (suc i) pagetable addr (pop pi).1 s'
      ])
]

-- `piperead`, from the test of an empty pipe on.
unfoldable pub piperead :
    (pagetable addr : ℕ) → (n : ℤ) → (killed : Bool) → PipeState → M (PipeState × Progress)
piperead pagetable addr n killed pi s = elim (is_empty pi && pi.writeopen) [
  | true ↦ ok (pi, if killed then returns (negsuc 0) else sleeps 0) s
  | false ↦ read_from (rounds_of n) 0 pagetable addr pi s
]

-- `pipeclose` of the pipe in page `pa`.
unfoldable pub pipeclose : (pa : ℕ) → (writable : Bool) → PipeState → M PipeState
pipeclose pa writable pi =
    let closed =
      if writable then record pi { writeopen = false } else record pi { readopen = false } in
    if not closed.readopen && not closed.writeopen then (kfree pa >> pure closed) else pure closed
