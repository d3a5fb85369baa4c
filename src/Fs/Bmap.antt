-- ===== src/Fs/Bmap.antt =====
-- `bmap` of initial-xv6/src/kernel/fs.c against the table of the blocks of a file.
use mini_project_3_amey_chou.Common.{
  ℕ, ◌+◌, ◌-◌, ◌<◌, ◌≤◌, ◌≡◌, ◌≢◌, ◌⊎◌, inl, inr, refl, arith, false, none, some, ◌==◌, update,
  update_self, update-ne, sym, ap, ◌∙◌, subst, Bool-cases,
}
use native.Mathlib.Decide.{dec_lt}
use mini_project_3_amey_chou.Fs.{Fs}
use mini_project_3_amey_chou.Fs.Inode.{
  ndirect, nindirect, Inode, word, put_word, write_word, Mapped, own_block, entry_block, bmap,
}
use mini_project_3_amey_chou.Fs.Allocs.{IsLaidOut, IsOwned, Alloc, AllUsed, alloc_lem}
use mini_project_3_amey_chou.Fs.Table.{
  file_block, word-put_word, word-put_word_other, word-zero, write_word-in_use, Maps,
  file_block-same,
}

module _ (ip : Inode) (fs : Fs) (l : IsLaidOut fs) where
  -- An entry of the inode itself.
  direct-Maps :
      (bn : ℕ)
      → bn < ndirect
      → (ip.addrs ndirect ≢ 0 → IsOwned fs (ip.addrs ndirect))
      → Maps ip fs bn (own_block bn ip fs)
  unfolding own_block file_block
  direct-Maps bn lt indirect = elim (Bool-cases (ip.addrs bn == 0)) [
    | inr there ↦ rw there (record {
      others = λ k ne. refl;
      entered = ground arith;
      found = λ e. ground arith;
      fresh = λ e ne. absurd (ground arith);
      full = λ e. absurd (ground arith);
    })
    | inl none_ ↦ elim (alloc_lem fs l) [
      | inl (all, e) ↦
          rw (none_, e)
            (record {
              others = λ k ne. refl;
              entered = ground arith;
              found = λ e. absurd (ground arith);
              fresh = λ e ne. absurd (ne refl);
              full = λ e. all;
            })
      | inr (b, fs', e, a) ↦
          let some_ : (b == 0) ≡ false = ground (arith, a.nonzero) in
          rw (none_, e, some_)
            (record {
              others = λ k ne.
                  file_block-same ip (record { addrs = update ip.addrs bn b }) fs fs' k
                    (λ lt. update-ne ip.addrs bn k b (λ e. ne (sym e)))
                    (update-ne ip.addrs bn ndirect b (λ e. omega arith))
                    (λ some_. (a.keeps (ip.addrs ndirect) (indirect some_)).0);
              entered = ground arith;
              found = λ e. absurd (ground arith);
              fresh = λ e ne. (a.inside, a.was_free, a.used, a.zeroed);
              full = λ e. absurd (a.nonzero e);
            })
    ]
  ]

-- The indirect block is at `a`.
module _ (ip : Inode) (fs : Fs) (l : IsLaidOut fs) (a : ℕ) (at : ip.addrs ndirect ≡ a)
    (there : a ≢ 0) (o : IsOwned fs a) where
  table : (fs : Fs) (i : ℕ) → file_block ip fs (ndirect + i) ≡ word (fs.block a) i
  unfolding file_block
  table fs i =
      let minus : (ndirect + i) - ndirect ≡ i = omega arith in
      let same_entry = ap (λ k. word (fs.block (ip.addrs ndirect)) k) minus in
      let same_block = ap (λ b. word (fs.block b) i) at in
      ground (arith, same_entry, same_block, there)

  entered-Maps :
      (b : ℕ) (fs' : Fs)
      → Alloc fs b fs'
      → (i : ℕ) → file_block ip fs (ndirect + i) ≡ 0
      → Maps ip fs (ndirect + i) (record { addr = b; inode = ip; fs = write_word a i b fs' })
  unfolding write_word file_block
  entered-Maps b fs' c i empty = record {
    others = λ k ne. elim (dec_lt k ndirect) [
      | yes lt ↦ direct_same k lt
      | no past ↦
          let e : ndirect + (k - ndirect) ≡ k = omega arith in
          subst (λ k. file_block ip (write_word a i b fs') k ≡ file_block ip fs k) e
            (other_entry (k - ndirect) (λ f. omega (arith, ne)))
    ];
    entered =
        table (write_word a i b fs') i
        ∙ ap (λ x. word x i) written
        ∙ word-put_word (fs'.block a) i b c.fits;
    found = λ e. absurd (e empty);
    fresh = λ e ne. (
      c.inside,
      c.was_free,
      write_word-in_use fs' a i b b ((c.keeps a o).1.apart b c.owned.inside) ∙ c.used,
      λ k. ap (λ (x : ℕ → ℕ). x k) unwritten ∙ c.zeroed k,
    );
    full = λ e. absurd (c.nonzero e);
  }
    where
      written : (write_word a i b fs').block a ≡ put_word i b (fs'.block a)
      written = update_self fs'.block a (put_word i b (fs'.block a))

      unwritten : (write_word a i b fs').block b ≡ fs'.block b
      unwritten = update-ne fs'.block a b (put_word i b (fs'.block a)) (c.keeps a o).2

      direct_same :
          (k : ℕ) → k < ndirect → file_block ip (write_word a i b fs') k ≡ file_block ip fs k
      direct_same k lt = ground arith

      other_entry :
          (j : ℕ)
          → i ≢ j
          → file_block ip (write_word a i b fs') (ndirect + j) ≡ file_block ip fs (ndirect + j)
      other_entry j ne =
          table (write_word a i b fs') j
          ∙ ap (λ x. word x j) written
          ∙ word-put_word_other (fs'.block a) i j b ne
          ∙ ap (λ x. word x j) (c.keeps a o).0
          ∙ sym (table fs j)

  entry-Maps :
      (i : ℕ) → Maps ip fs (ndirect + i) (entry_block i (record { addr = a; inode = ip; fs = fs }))
  unfolding entry_block
  entry-Maps i =
      let here = table fs i in
      let some_a : (a == 0) ≡ false = ground (arith, there) in
      rw some_a (elim (Bool-cases (word (fs.block a) i == 0)) [
        | inr entry ↦ rw entry (record {
          others = λ k ne. refl;
          entered = here;
          found = λ e. sym here;
          fresh = λ e ne. absurd (ne (sym here ∙ e));
          full = λ e. absurd (ground (arith, e, entry));
        })
        | inl none_ ↦
            let empty : file_block ip fs (ndirect + i) ≡ 0 = here ∙ ground (arith, none_) in
            elim (alloc_lem fs l) [
              | inl (all, e) ↦
                  rw (none_, e)
                    (record {
                      others = λ k ne. refl;
                      entered = empty;
                      found = λ e. absurd (e empty);
                      fresh = λ e ne. absurd (ne refl);
                      full = λ e. all;
                    })
              | inr (b, fs', e, c) ↦
                  let some_ : (b == 0) ≡ false = ground (arith, c.nonzero) in
                  rw (none_, e, some_) (entered-Maps b fs' c i empty)
            ]
      ])

module _ (ip : Inode) (fs : Fs) (l : IsLaidOut fs)
    (indirect : ip.addrs ndirect ≢ 0 → IsOwned fs (ip.addrs ndirect)) where
  no_entry :
      (ip : Inode) (fs : Fs) (k : ℕ) → ip.addrs ndirect ≡ 0 → ndirect ≤ k → file_block ip fs k ≡ 0
  unfolding file_block
  no_entry ip fs k e le = ground arith

  -- An indirect block that is allocated first is empty.
  first_entry :
      (b : ℕ) (fs' : Fs)
      → ip.addrs ndirect ≡ 0
      → Alloc fs b fs'
      → (k : ℕ)
      → file_block (record { addrs = update ip.addrs ndirect b }) fs' k ≡ file_block ip fs k
  unfolding file_block
  first_entry b fs' none_ c k = elim (dec_lt k ndirect) [
    | yes lt ↦ ground arith
    | no past ↦ ground (arith, word-zero (fs'.block b) (k - ndirect) c.zeroed)
  ]

  nothing-Maps :
      (i : ℕ)
      → ip.addrs ndirect ≡ 0
      → AllUsed fs
      → Maps ip fs (ndirect + i) (entry_block i (record { addr = 0; inode = ip; fs = fs }))
  unfolding entry_block
  nothing-Maps i e all =
      let none_ = no_entry ip fs (ndirect + i) e (omega arith) in
      record {
        others = λ k ne. refl;
        entered = none_;
        found = λ ne. absurd (ne none_);
        fresh = λ e ne. absurd (ne refl);
        full = λ e. all;
      }

  indirect-Maps : (i : ℕ) → Maps ip fs (ndirect + i) (entry_block i (own_block ndirect ip fs))
  unfolding own_block
  indirect-Maps i = elim (Bool-cases (ip.addrs ndirect == 0)) [
    | inr there ↦
        let some_ : ip.addrs ndirect ≢ 0 = λ e. ground arith in
        rw there (entry-Maps ip fs l (ip.addrs ndirect) refl some_ (indirect some_) i)
    | inl none_ ↦
        let zero_ : ip.addrs ndirect ≡ 0 = ground (arith, none_) in
        elim (alloc_lem fs l) [
          | inl (all, e) ↦ rw (none_, e) (nothing-Maps i zero_ all)
          | inr (b, fs', e, c) ↦
              let some_ : (b == 0) ≡ false = ground (arith, c.nonzero) in
              rw (none_, e, some_)
                (after_first zero_ b fs' c (record { addrs = update ip.addrs ndirect b })
                  (first_entry b fs' zero_ c)
                  (entry-Maps (record { addrs = update ip.addrs ndirect b }) fs' c.laid_out b
                    (update_self ip.addrs ndirect b) c.nonzero c.owned i))
        ]
  ]
    where
      after_first :
          ip.addrs ndirect ≡ 0
          → (b : ℕ) (fs' : Fs) → Alloc fs b fs'
          → (ip' : Inode) → ((k : ℕ) → file_block ip' fs' k ≡ file_block ip fs k)
          → {m : Mapped} → Maps ip' fs' (ndirect + i) m
          → Maps ip fs (ndirect + i) m
      after_first zero_ b fs' c ip' same h = record {
        others = λ k ne. h.others k ne ∙ same k;
        entered = h.entered;
        found = λ ne. h.found (λ e. ne (sym (same (ndirect + i)) ∙ e)) ∙ same (ndirect + i);
        fresh = λ e ne.
            let (inside, was_free, used, zeroed) = h.fresh (same (ndirect + i) ∙ e) ne in
            (omega (arith, inside, c.same_size), c.before _ inside was_free, used, zeroed);
        full = h.full;
      }

  -- `bmap` finds the block `bn` of a file, or, if there is none, puts a block there that was free
  -- and is cleared; every other block of the file stays. It returns 0 only if no block is left, and
  -- panics exactly from 12 + 256 blocks on. This holds if the bitmap marks itself, block 0 and the
  -- file's indirect block.
  pub bmap_lem :
      (bn : ℕ)
      → ((bn < ndirect + nindirect) × ((m : Mapped) × (bmap bn ip fs ≡ some m) × Maps ip fs bn m))
        ⊎ ((ndirect + nindirect ≤ bn) × (bmap bn ip fs ≡ none))
  unfolding bmap
  bmap_lem bn = elim (dec_lt bn ndirect) [
    | yes direct ↦
        inl
          (omega arith, (own_block bn ip fs, ground arith, direct-Maps ip fs l bn direct indirect))
    | no past ↦ elim (dec_lt bn (ndirect + nindirect)) [
      | yes within ↦
          let e : ndirect + (bn - ndirect) ≡ bn = omega arith in
          inl (
            within,
            (
              entry_block (bn - ndirect) (own_block ndirect ip fs),
              ground arith,
              subst (λ k. Maps ip fs k (entry_block (bn - ndirect) (own_block ndirect ip fs))) e
                  (indirect-Maps (bn - ndirect)),
            ),
          )
      | no beyond ↦ inr (omega arith, ground arith)
    ]
  ]
