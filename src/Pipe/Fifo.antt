-- ===== src/Pipe/Fifo.antt =====
-- The ring of a pipe as a queue: its counters wrap at 2 ^ 32, its places at PIPESIZE.
use mini_project_3_amey_chou.Common.{
  ℕ, zero, suc, ◌+◌, ◌-◌, ◌%◌, ◌^◌, ◌<◌, ◌≤◌, ◌≡◌, ◌≢◌, refl, arith, false, List, [], ◌∷◌, ◌++◌,
  ◌==◌, update, update-ne, update_self, ◌∙◌, ap, ap₂,
}
use mini_project_3_amey_chou.Pipe.{PipeState, pipesize, is_full, is_empty, push, pop}

-- The bytes at `k` places from `r` on.
abbrev pub queued : (ℕ → ℕ) → (r k : ℕ) → List ℕ
queued d r zero = []
queued d r (suc k) = d (r % pipesize) ∷ queued d (suc r) k

-- How many bytes are queued, on `uint`.
abbrev pub fill : PipeState → ℕ
fill pi = (pi.nwrite + (2 ^ 32 - pi.nread)) % 2 ^ 32

abbrev pub contents : PipeState → List ℕ
contents pi = queued pi.data_at pi.nread (fill pi)

pub record IsPipe (pi : PipeState) : Type 0 where
  pub read_bound : pi.nread < 2 ^ 32
  pub write_bound : pi.nwrite < 2 ^ 32
  pub bounded : fill pi ≤ pipesize

unequal : (a b : ℕ) → (a == b) ≡ false → a ≢ b
unequal a b h = ground arith

queued-cong : (d : ℕ → ℕ) (r q k : ℕ) → r % 512 ≡ q % 512 → queued d r k ≡ queued d q k
queued-cong d r q zero e = refl
queued-cong d r q (suc k) e = ap₂ ◌∷◌ (ap d e) (queued-cong d (suc r) (suc q) k (omega arith))

queued-snoc : (d : ℕ → ℕ) (r k : ℕ) → queued d r (suc k) ≡ queued d r k ++ (d ((r + k) % 512) ∷ [])
queued-snoc d r zero = ap (λ j. d (j % 512) ∷ []) (omega arith)
queued-snoc d r (suc k) =
    ap (λ l. d (r % 512) ∷ l)
      (queued-snoc d (suc r) k ∙ ap (λ j. queued d (suc r) k ++ (d (j % 512) ∷ [])) (omega arith))

queued-update :
    (d : ℕ → ℕ) (r k i c : ℕ)
    → ((j : ℕ) → j < k → i ≡ (r + j) % 512 → ⊥)
    → queued (update d i c) r k ≡ queued d r k
queued-update d r zero i c away = refl
queued-update d r (suc k) i c away =
    ap₂ ◌∷◌ (update-ne d i (r % 512) c (λ e. away 0 (omega arith) (omega arith)))
      (queued-update d (suc r) k i c (λ j lt e. away (suc j) (omega arith) (omega arith)))

fill-push :
    (pi : PipeState) (c : ℕ) → IsPipe pi → is_full pi ≡ false → fill (push c pi) ≡ suc (fill pi)
unfolding push is_full
fill-push pi c v room = omega (
  arith,
  v.read_bound,
  v.write_bound,
  v.bounded,
  unequal pi.nwrite ((pi.nread + 512) % 2 ^ 32) room,
)

fill-room : (pi : PipeState) → IsPipe pi → is_full pi ≡ false → fill pi < 512
unfolding is_full
fill-room pi v room = omega (
  arith,
  v.read_bound,
  v.write_bound,
  v.bounded,
  unequal pi.nwrite ((pi.nread + 512) % 2 ^ 32) room,
)

-- The place of the next byte, and that no queued byte is there.
next_place : (pi : PipeState) → IsPipe pi → (pi.nread + fill pi) % 512 ≡ pi.nwrite % 512
next_place pi v = omega (arith, v.read_bound, v.write_bound)

-- A byte written to a pipe that is not full goes to the end of the queue.
pub push_lem :
    (pi : PipeState) (c : ℕ)
    → IsPipe pi
    → is_full pi ≡ false
    → IsPipe (push c pi) × (contents (push c pi) ≡ contents pi ++ (c ∷ []))
unfolding push is_full
push_lem pi c v room = (
  record {
    read_bound = v.read_bound;
    write_bound = omega arith;
    bounded = omega (arith, fill-push pi c v room, fill-room pi v room);
  },
  ap (queued d pi.nread) (fill-push pi c v room)
      ∙ queued-snoc d pi.nread (fill pi)
      ∙ ap₂ ◌++◌
          (queued-update pi.data_at pi.nread (fill pi) (pi.nwrite % 512) c
            (λ j lt e. omega (arith, e, lt, next_place pi v, fill-room pi v room)))
          (ap (λ b. b ∷ []) (ap d (next_place pi v) ∙ update_self pi.data_at (pi.nwrite % 512) c)),
)
  where
    d : ℕ → ℕ
    d = update pi.data_at (pi.nwrite % 512) c

-- A byte read from a pipe that is not empty is the first of the queue.
pub pop_lem :
    (pi : PipeState)
    → IsPipe pi
    → is_empty pi ≡ false
    → IsPipe (pop pi).1 × (contents pi ≡ (pop pi).0 ∷ contents (pop pi).1)
unfolding pop is_empty
pop_lem pi v some_there = (
  record {
    read_bound = omega arith;
    write_bound = v.write_bound;
    bounded = omega (arith, shrinks, v.bounded);
  },
  ap (queued pi.data_at pi.nread) shrinks
      ∙ ap (λ l. pi.data_at (pi.nread % 512) ∷ l)
          (queued-cong pi.data_at (suc pi.nread) ((pi.nread + 1) % 2 ^ 32) (fill (pop pi).1)
            (omega arith)),
)
  where
    shrinks : fill pi ≡ suc (fill (pop pi).1)
    shrinks =
        omega (arith, v.read_bound, v.write_bound, v.bounded, unequal pi.nread pi.nwrite some_there)
