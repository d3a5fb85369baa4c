-- ===== src/Pipe/Reading.antt =====
-- `piperead` of initial-xv6/src/kernel/pipe.c: a run of bytes out of the queue, to the user.
use mini_project_3_amey_chou.Common.{
  ℕ, suc, ◌+◌, ◌<◌, ◌≡◌, ◌≢◌, ◌⊎◌, true, List, [], ◌∷◌, ◌++◌, ℤ, pos, negsuc, length,
}
use mini_project_3_amey_chou.Phys.{Phys, Run, ok, panic}
use mini_project_3_amey_chou.Vm.Copy.{copyout}
use mini_project_3_amey_chou.Pipe.{PipeState, Progress, returns, is_empty}
use mini_project_3_amey_chou.Pipe.Fifo.{IsPipe, contents}

-- A read of `n` bytes to `addr`.
module _ (pagetable addr n : ℕ) where
  -- The bytes are copied to the user one after the other, from byte `i` of the read on, and no copy
  -- fails; memory is `s` before and `s'` after.
  abbrev pub CopiedOut : (i : ℕ) → List ℕ → (s s' : Phys) → Type 0
  CopiedOut i [] s s' = s ≡ s'
  CopiedOut i (c ∷ bs) s s' =
      (e : ℤ) × (s1 : Phys) × (copyout pagetable (addr + i) (c ∷ []) s ≡ ok e s1)
      × (e ≢ negsuc 0)
      × CopiedOut (suc i) bs s1 s'

  -- Why the read stops, with `k` bytes done and memory `s1`, and what has left the queue: the bytes
  -- `bs` that are done, if the read is complete or the queue is empty; and one byte more, if that
  -- byte could not be copied.
  abbrev pub ReadEnd : (k : ℕ) → List ℕ → Phys → (pi pi' : PipeState) → (s' : Phys) → Type 0
  ReadEnd k bs s1 pi pi' s' =
      ((contents pi ≡ bs ++ contents pi')
        × (s1 ≡ s')
        × ((k ≡ n) ⊎ ((k < n) × (is_empty pi' ≡ true))))
      ⊎ ((k < n)
          × (c : ℕ) × (contents pi ≡ bs ++ (c ∷ contents pi'))
          × (copyout pagetable (addr + k) (c ∷ []) s1 ≡ ok (negsuc 0) s'))

  -- The machine stops in the copy of the byte `c` that follows `bs` in the queue.
  abbrev pub Stopped : (k : ℕ) → List ℕ → Phys → PipeState → Type 0
  Stopped k bs s1 pi =
      (k < n)
      × (c : ℕ) × (rest : List ℕ) × (contents pi ≡ bs ++ (c ∷ rest))
      × (copyout pagetable (addr + k) (c ∷ []) s1 ≡ panic)

  abbrev pub ReadOut : (i : ℕ) → PipeState → Phys → Run (PipeState × Progress) → Type 0
  ReadOut i pi s r =
      (bs : List ℕ) × (k : ℕ) × (s1 : Phys) × CopiedOut i bs s s1
      × (k ≡ i + length bs)
      × (((r ≡ panic) × Stopped k bs s1 pi)
          ⊎ ((pi' : PipeState) × (s' : Phys) × (r ≡ ok (pi', returns (pos k)) s')
              × IsPipe pi'
              × ReadEnd k bs s1 pi pi' s'))
