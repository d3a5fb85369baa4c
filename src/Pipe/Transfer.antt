-- ===== src/Pipe/Transfer.antt =====
-- `pipewrite` of initial-xv6/src/kernel/pipe.c: a run of user bytes into the queue.
use mini_project_3_amey_chou.Common.{
  ℕ, zero, suc, ◌+◌, ◌<◌, ◌≤◌, ◌≡◌, ◌⊎◌, inl, inr, refl, arith, Bool, true, false, Option, none,
  some, List, [], ◌∷◌, ◌++◌, not, ◌||◌, Bool-cases, sym, ◌∙◌, ap, subst, ℤ, pos, negsuc, pos_part,
  length, append-nil,
}
use native.Mathlib.Decide.{ℕ_discrete}
use mini_project_3_amey_chou.Phys.{Phys, Run, ok, and_then}
use mini_project_3_amey_chou.Vm.Copyin.{user_byte, singleton, copyin_byte}
use mini_project_3_amey_chou.Pipe.{
  PipeState, Progress, returns, sleeps, is_full, push, first_byte, write_from, rounds_of, pipewrite,
}
use mini_project_3_amey_chou.Pipe.Fifo.{IsPipe, contents, push_lem}

push_snoc : (l m : List ℕ) (c : ℕ) (bs : List ℕ) → m ≡ l ++ (c ∷ []) → m ++ bs ≡ l ++ (c ∷ bs)
push_snoc l m c bs e = ap (λ k. k ++ bs) e ∙ snoc l
  where
    snoc : (k : List ℕ) → (k ++ (c ∷ [])) ++ bs ≡ k ++ (c ∷ bs)
    snoc [] = refl
    snoc (x ∷ k) = ap (λ r. x ∷ r) (snoc k)

pub rounds_of-pos_part : (n : ℤ) → rounds_of n ≡ pos_part n
rounds_of-pos_part (pos n) = refl
rounds_of-pos_part (negsuc n) = refl

-- A write of `n` bytes from `addr` on, of a process whose memory is `s`, to a pipe that has a reader
-- or not.
module _ (pagetable addr n : ℕ) (killed : ℕ → Bool) (has_reader : Bool) (s : Phys) where
  -- The user's bytes from byte `i` of the write on begin with `bs`.
  abbrev pub UserBytes : (i : ℕ) → List ℕ → Type 0
  UserBytes i [] = Unit
  UserBytes i (c ∷ bs) = (user_byte s pagetable (addr + i) ≡ some c) × UserBytes (suc i) bs

  -- Before byte `k` the write has to stop: nobody can read, or the writer is killed.
  abbrev pub gone : ℕ → Bool
  gone k = not has_reader || killed k

  -- Why the write stops with `k` bytes done: it is complete; or it has to; or it sleeps at a full
  -- pipe; or there is no user byte to go on with.
  abbrev pub WriteEnd : (k : ℕ) → PipeState → Progress → Type 0
  WriteEnd k pi' e =
      ((k ≡ n) × (e ≡ returns (pos k)))
      ⊎ ((k < n)
          × (((gone k ≡ true) × (e ≡ returns (negsuc 0)))
              ⊎ ((gone k ≡ false) × (is_full pi' ≡ true) × (e ≡ sleeps k))
              ⊎ ((gone k ≡ false)
                  × (is_full pi' ≡ false)
                  × (user_byte s pagetable (addr + k) ≡ none)
                  × (e ≡ returns (pos k)))))

  -- With `i` bytes done, the write appends the user's bytes `bs`, one by one, to the pipe.
  abbrev pub Wrote : (i : ℕ) → PipeState → Run (PipeState × Progress) → Type 0
  Wrote i pi r =
      (bs : List ℕ) × (k : ℕ) × (pi' : PipeState) × (e : Progress) × (r ≡ ok (pi', e) s)
      × IsPipe pi'
      × (contents pi' ≡ contents pi ++ bs)
      × (k ≡ i + length bs)
      × UserBytes i bs
      × ((j : ℕ) → i ≤ j → j < k → gone j ≡ false)
      × WriteEnd k pi' e

  Wrote-none :
      (i : ℕ) (pi : PipeState) (e : Progress)
      → IsPipe pi
      → WriteEnd i pi e
      → Wrote i pi (ok (pi, e) s)
  Wrote-none i pi e v end = (
    [],
    i,
    pi,
    e,
    refl,
    v,
    sym (append-nil (contents pi)),
    omega arith,
    tt,
    λ j lo hi. absurd (omega arith),
    end,
  )

  Wrote-one :
      (i c : ℕ) (pi : PipeState) (r : Run (PipeState × Progress))
      → contents (push c pi) ≡ contents pi ++ (c ∷ [])
      → user_byte s pagetable (addr + i) ≡ some c
      → gone i ≡ false
      → Wrote (suc i) (push c pi) r
      → Wrote i pi r
  Wrote-one i c pi r e byte_ go (bs, k, pi', end, eq, v, joined, count, bytes, before, why) = (
    c ∷ bs,
    k,
    pi',
    end,
    eq,
    v,
    joined ∙ push_snoc (contents pi) (contents (push c pi)) c bs e,
    omega (arith, count),
    (byte_, bytes),
    λ j lo hi. elim (ℕ_discrete i j) [
      | yes same ↦ subst (λ m. gone m ≡ false) same go
      | no ne ↦ before j (omega arith) hi
    ],
    why,
  )

  -- One round, when the write may go on and the pipe has room.
  write_byte :
      (r i : ℕ) (pi : PipeState)
      → i < n
      → IsPipe pi
      → gone i ≡ false
      → is_full pi ≡ false
      → ((c : ℕ)
          → IsPipe (push c pi)
          → Wrote (suc i) (push c pi) (write_from r (suc i) pagetable addr killed (push c pi) s))
      → (o : Option ℕ) → user_byte s pagetable (addr + i) ≡ o
      → Wrote i pi (
          and_then (ok (singleton o) s) (λ read s'. elim read [
            | none ↦ ok (pi, returns (pos i)) s'
            | some cs ↦ write_from r (suc i) pagetable addr killed (push (first_byte cs) pi) s'
          ]))
  write_byte r i pi lt v go room rest none e =
      Wrote-none i pi _ v (inr (lt, inr (inr (go, room, e, refl))))
  write_byte r i pi lt v go room rest (some c) e =
      let (v', snoc) = push_lem pi c v room in Wrote-one i c pi _ snoc e go (rest c v')

  write_from_lem :
      (r i : ℕ) (pi : PipeState)
      → i + r ≡ n
      → IsPipe pi
      → pi.readopen ≡ has_reader
      → Wrote i pi (write_from r i pagetable addr killed pi s)
  unfolding write_from push
  write_from_lem zero i pi e v open_ = Wrote-none i pi _ v (inl (omega arith, refl))
  write_from_lem (suc r) i pi e v open_ = elim (Bool-cases (gone i)) [
    | inl dead ↦
        rw (write_from, open_, dead) (Wrote-none i pi _ v (inr (omega arith, inl (dead, refl))))
    | inr live ↦ elim (Bool-cases (is_full pi)) [
      | inl full ↦
          rw (write_from, open_, live, full)
            (Wrote-none i pi _ v (inr (omega arith, inr (inl (live, full, refl)))))
      | inr room ↦
          rw (write_from, open_, live, room, copyin_byte pagetable (addr + i) s)
            (write_byte r i pi (omega arith) v live room
              (λ c v'. write_from_lem r (suc i) (push c pi) (omega arith) v' open_)
              (user_byte s pagetable (addr + i)) refl)
    ]
  ]

module _ (pagetable addr : ℕ) where
  -- A step of `pipewrite` appends the user's bytes from `addr` on, in order, to the queue, keeps the
  -- pipe in shape and changes no memory. It returns their number if that is `n` (0 if `n` is
  -- negative) or the next byte is in no page of the user; it sleeps after them at a full pipe; and
  -- it returns -1 exactly if bytes are left and nobody can read the pipe or the writer is killed
  -- before the next byte.
  pub pipewrite_lem :
      (n : ℤ) (killed : ℕ → Bool) (pi : PipeState) (s : Phys)
      → IsPipe pi
      → Wrote pagetable addr
          (pos_part n)
          killed
          pi.readopen
          s
          0
          pi
          (pipewrite pagetable addr n killed pi s)
  unfolding pipewrite
  pipewrite_lem n killed pi s v = rw (rounds_of-pos_part n) (
      write_from_lem pagetable addr (pos_part n) killed pi.readopen s (pos_part n) 0 pi
        (omega arith) v refl)
