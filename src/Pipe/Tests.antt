-- ===== src/Pipe/Tests.antt =====
-- A pipe whose counters are about to wrap, with two bytes in it, a user with a page, and the
-- theorems there.
use mini_project_3_amey_chou.Common.{
  ◌-◌, ◌*◌, ◌^◌, ◌≡◌, refl, arith, true, false, [], ◌∷◌, update, pos,
}
use mini_project_3_amey_chou.Phys.{Phys}
use mini_project_3_amey_chou.Vm.{mk_pte, has_bit}
use mini_project_3_amey_chou.Vm.Lookup.{translate, lookup_from}
use mini_project_3_amey_chou.Pipe.{PipeState, pipewrite}
use mini_project_3_amey_chou.Pipe.Fifo.{IsPipe, contents}
use mini_project_3_amey_chou.Pipe.Transfer.{UserBytes, Wrote, pipewrite_lem}

abbrev wrapping : PipeState
wrapping = record {
  data_at = update (update (λ i. 0) 511 65) 0 66;
  nread = 2 ^ 32 - 1;
  nwrite = 1;
  readopen = true;
  writeopen = true;
}

-- Tables in pages 10, 11 and 12; address 0x5000 is in page 20 of the user, which begins with the
-- bytes 'a', 'b' and 'c'.
abbrev memory : Phys
memory = record {
  word =
      update
        (update
          (update (update (λ p i. 0) 10 (update (λ i. 0) 0 (mk_pte (11 * 4096) 1))) 11
            (update (λ i. 0) 0 (mk_pte (12 * 4096) 1)))
          12 (update (λ i. 0) 5 (mk_pte (20 * 4096) 0b1_0111)))
        20 (update (λ i. 0) 0 0x636261);
  temp = λ p. pos 1;
  freelist = [];
}

memory-bytes : UserBytes 10 0x5000 3 (λ i. false) true memory 0 (97 ∷ 98 ∷ 99 ∷ [])
unfolding translate lookup_from has_bit
memory-bytes = (refl, (refl, (refl, tt)))

wrapping-contents : contents wrapping ≡ 65 ∷ 66 ∷ []
wrapping-contents = refl

wrapping-IsPipe : IsPipe wrapping
wrapping-IsPipe = record {
  read_bound = omega arith;
  write_bound = omega arith;
  bounded = omega arith;
}

pipewrite_lem_example :
    Wrote 10 0x5000 3
      (λ i. false)
      true
      memory
      0
      wrapping
      (pipewrite 10 0x5000 (pos 3) (λ i. false) wrapping memory)
pipewrite_lem_example = pipewrite_lem 10 0x5000 (pos 3) (λ i. false) wrapping memory wrapping-IsPipe
