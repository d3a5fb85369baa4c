-- ===== src/Vm/Break.antt =====
-- `custom_cow`, the page fault handler of copy-on-write: what it does to the mapping, to the pages
-- and to their reference counts.
use mini_project_3_amey_chou.Common.{
  ℕ, suc, ◌*◌, ◌/◌, ◌^◌, ◌<◌, ◌≡◌, ◌≢◌, arith, true, false, if◌then◌else◌, some, inl, inr, ltb, ◌∙◌,
  [], pos, int32_max, update, ap, subst, sym, update_self, update-ne,
}
use mini_project_3_amey_chou.Phys.{Phys, ok, and_then, pg_round_down, copy_page, with_word}
use mini_project_3_amey_chou.Kalloc.{kalloc, kfree}
use mini_project_3_amey_chou.Kalloc.Counts.{count, IsConsistent, Refs, kalloc_empty}
use mini_project_3_amey_chou.Kalloc.Calls.{Allocated, Freed, kalloc_lem, kfree_lem}
use mini_project_3_amey_chou.Vm.{
  has_bit, pte_v, pte_w, pte_cow, pte2pa, pte_flags, mk_pte, maxva, PteRef,
}
use mini_project_3_amey_chou.Vm.Bits.{has_bit-flags, private_flags_lem}
use mini_project_3_amey_chou.Vm.Cow.{private_flags, replace_page, break_entry, custom_cow}
use mini_project_3_amey_chou.Vm.Lookup.{entry, lookup, walk-eq}

-- The page that an entry maps.
abbrev pub mapped : ℕ → ℕ
mapped e = pte2pa e / 4096

-- A user address in range whose entry, at `r`, is valid.
pub record IsMapped (s : Phys) (pagetable va : ℕ) (r : PteRef) : Type 0 where
  pub in_range : pg_round_down va < maxva
  pub found : lookup s pagetable (pg_round_down va) ≡ some r
  pub valid : has_bit pte_v (entry s r) ≡ true

custom_cow-eq :
    (s : Phys) (pagetable va : ℕ) (r : PteRef)
    → IsMapped s pagetable va r
    → custom_cow pagetable va s ≡ (
        if has_bit pte_cow (entry s r)
        then and_then (kalloc s) (replace_page r (entry s r))
        else ok (pos 1) s)
unfolding custom_cow break_entry
custom_cow-eq s pagetable va r m =
    rw (not_above, walk-eq pagetable (pg_round_down va) s m.in_range, m.found, m.valid)
      (ground arith)
  where
    not_above : ltb maxva (pg_round_down va) ≡ false
    not_above = ground (arith, m.in_range)

-- A copy made by `custom_cow`: of the page that the entry at `r` maps, into page `new`. `n` is the
-- number of references that the old page keeps.
pub record Broken (s : Phys) (r : PteRef) (new n : ℕ) (s' : Phys) : Type 0 where
  pub was_unused : Refs s new 0
  pub mapping : entry s' r ≡ mk_pte (new * 4096) (private_flags (pte_flags (entry s r)))
  pub copied : s'.word new ≡ s.word (mapped (entry s r))
  pub new_refs : Refs s' new 1
  pub old_refs : Refs s' (mapped (entry s r)) n
  pub old_kept : 0 < n → s'.word (mapped (entry s r)) ≡ s.word (mapped (entry s r))
  pub table_kept : (i : ℕ) → r.index ≢ i → s'.word r.page i ≡ s.word r.page i
  pub others_kept : (q : ℕ) → q ≢ new → q ≢ mapped (entry s r) → q ≢ r.page → s'.word q ≡ s.word q
  pub others_refs : (q : ℕ) → q ≢ new → q ≢ mapped (entry s r) → s'.temp q ≡ s.temp q
  pub consistent : IsConsistent s'

-- The entry at `r` is valid, writable and not copy-on-write.
abbrev pub IsPrivate : Phys → PteRef → Type 0
IsPrivate s r =
    (has_bit pte_v (entry s r) ≡ true)
    × (has_bit pte_w (entry s r) ≡ true)
    × (has_bit pte_cow (entry s r) ≡ false)

Broken-IsPrivate :
    (s s' : Phys) (r : PteRef) (new n : ℕ)
    → has_bit pte_v (entry s r) ≡ true
    → Broken s r new n s'
    → IsPrivate s' r
Broken-IsPrivate s s' r new n valid broken =
    let flags_small : pte_flags (entry s r) < 2 ^ 10 = omega arith in
    let (w, cow, v, u, small) = private_flags_lem (pte_flags (entry s r)) flags_small in
    let flags : pte_flags (entry s' r) ≡ private_flags (pte_flags (entry s r)) =
      ap pte_flags broken.mapping ∙ low_bits new (private_flags (pte_flags (entry s r))) small in
    let (v', u', cow', w') = has_bit-flags (entry s' r) in
    (
      sym v' ∙ ap (has_bit pte_v) flags ∙ v ∙ (has_bit-flags (entry s r)).0 ∙ valid,
      sym w' ∙ ap (has_bit pte_w) flags ∙ w,
      sym cow' ∙ ap (has_bit pte_cow) flags ∙ cow,
    )
  where
    low_bits : (p f : ℕ) → f < 2 ^ 10 → pte_flags (mk_pte (p * 4096) f) ≡ f
    low_bits p f h = omega arith

-- A page table page in use: not free, and not itself mapped by the entry.
pub record IsTablePage (s : Phys) (r : PteRef) : Type 0 where
  pub in_use : count r.page s.freelist ≡ 0
  pub not_mapped : r.page ≢ mapped (entry s r)

module _ (s s₁ s₄ : Phys) (r : PteRef) (new n : ℕ) (a : Allocated s new s₁) (t : IsTablePage s r)
    (refs : Refs s (mapped (entry s r)) (suc n)) where
  abbrev old : ℕ
  old = mapped (entry s r)

  -- The state after the copy and the store.
  abbrev s₃ : Phys
  s₃ =
      with_word (copy_page s₁ new old) r.page r.index
        (mk_pte (new * 4096) (private_flags (pte_flags (entry s r))))

  new-ne-old : new ≢ old
  new-ne-old e = ground (arith, a.was_unused, refs)

  new-ne-table : new ≢ r.page
  new-ne-table e = ground (arith, a.was_free, t.in_use)

  stored-IsConsistent : IsConsistent s₃
  stored-IsConsistent = record {
    once = a.consistent.once;
    free_unused = a.consistent.free_unused;
    nonneg = a.consistent.nonneg;
  }

  stored-Refs : Refs s₃ old (suc n)
  stored-Refs = a.kept.temps old new-ne-old ∙ refs

  abbrev copies : ℕ → ℕ → ℕ
  copies = (copy_page s₁ new old).word

  abbrev new_entry : ℕ
  new_entry = mk_pte (new * 4096) (private_flags (pte_flags (entry s r)))

  word-table : s₃.word r.page ≡ update (s.word r.page) r.index new_entry
  word-table =
      update_self copies r.page (update (copies r.page) r.index new_entry)
      ∙ ap (λ f. update f r.index new_entry)
          (update-ne s₁.word new r.page (s₁.word old) new-ne-table
            ∙ a.kept.contents r.page new-ne-table)

  word-new : s₃.word new ≡ s.word old
  word-new =
      update-ne copies r.page new (update (copies r.page) r.index new_entry)
        (λ e. new-ne-table (sym e))
      ∙ update_self s₁.word new (s₁.word old)
      ∙ a.kept.contents old new-ne-old

  word-other : (q : ℕ) → q ≢ new → q ≢ r.page → s₃.word q ≡ s.word q
  word-other q x z =
      update-ne copies r.page q (update (copies r.page) r.index new_entry) (λ e. z (sym e))
      ∙ update-ne s₁.word new q (s₁.word old) (λ e. x (sym e))
      ∙ a.kept.contents q (λ e. x (sym e))

  Freed-Broken : Freed n s₃ old s₄ → Broken s r new n s₄
  Freed-Broken f = record {
    was_unused = a.was_unused;
    mapping =
        ap (λ (w : ℕ → ℕ). w r.index)
          (f.kept.contents r.page (λ e. t.not_mapped (sym e)) ∙ word-table)
        ∙ update_self (s.word r.page) r.index new_entry;
    copied = f.kept.contents new (λ e. new-ne-old (sym e)) ∙ word-new;
    new_refs = f.kept.temps new (λ e. new-ne-old (sym e)) ∙ a.one;
    old_refs = f.refs;
    old_kept =
        λ h. (f.in_use h).0 ∙ word-other old (λ e. new-ne-old (sym e)) (λ e. t.not_mapped (sym e));
    table_kept = λ i h.
        ap (λ (w : ℕ → ℕ). w i) (f.kept.contents r.page (λ e. t.not_mapped (sym e)) ∙ word-table)
        ∙ update-ne (s.word r.page) r.index i new_entry h;
    others_kept = λ q x y z. f.kept.contents q (λ e. y (sym e)) ∙ word-other q x z;
    others_refs = λ q x y. f.kept.temps q (λ e. y (sym e)) ∙ a.kept.temps q (λ e. x (sym e));
    consistent = f.consistent;
  }

address-page : (e : ℕ) → pte2pa e ≡ mapped e * 4096
address-page e = omega arith

replace_page-eq :
    (s₁ s₄ : Phys) (r : PteRef) (e new : ℕ)
    → kfree (mapped e * 4096) (
        with_word
          (copy_page s₁ new (mapped e))
          r.page
          r.index
          (mk_pte (new * 4096) (private_flags (pte_flags e))))
      ≡ ok tt s₄
    → replace_page r e (some new) s₁ ≡ ok (pos 0) s₄
unfolding replace_page
replace_page-eq s₁ s₄ r e new h =
    rw (subst (λ a. kfree a stored ≡ ok tt s₄) (sym (address-page e)) h)
  where
    stored : Phys
    stored =
        with_word (copy_page s₁ new (mapped e)) r.page r.index
          (mk_pte (new * 4096) (private_flags (pte_flags e)))

no_page :
    (s : Phys) (r : PteRef)
    → s.freelist ≡ []
    → and_then (kalloc s) (replace_page r (entry s r)) ≡ ok (pos 1) s
unfolding replace_page
no_page s r h = rw (kalloc_empty s h)

-- A write fault at a mapped user address: if its page is not copy-on-write, or no page is free,
-- `custom_cow` returns 1 and changes nothing; otherwise it returns 0, and the entry maps a page of
-- its own, valid, writable and no longer copy-on-write, that holds a copy of the old page. The old page
-- loses one reference and keeps its contents while others refer to it; no other page, entry or
-- count changes.
pub custom_cow_lem :
    (s : Phys) (pagetable va : ℕ) (r : PteRef) (n : ℕ)
    → IsMapped s pagetable va r
    → IsConsistent s
    → IsTablePage s r
    → Refs s (mapped (entry s r)) (suc n)
    → n < int32_max
    → (has_bit pte_cow (entry s r) ≡ false → custom_cow pagetable va s ≡ ok (pos 1) s)
      × (s.freelist ≡ [] → custom_cow pagetable va s ≡ ok (pos 1) s)
      × (has_bit pte_cow (entry s r) ≡ true
          → s.freelist ≢ []
          → (new : ℕ) × (s' : Phys) × (custom_cow pagetable va s ≡ ok (pos 0) s')
            × Broken s r new n s'
            × IsPrivate s' r)
custom_cow_lem s pagetable va r n m c t refs h = (
  λ no_cow. custom_cow-eq s pagetable va r m ∙ rw no_cow,
  λ none_free. custom_cow-eq s pagetable va r m ∙ rw (no_page s r none_free) (ground arith),
  λ cow some_free. elim (kalloc_lem s c) [
    | inl x ↦ absurd (some_free x.0)
    | inr x ↦
        let (new, s₁, e, a) = x in
        let (s₄, k, f) =
          kfree_lem (s₃ s s₁ s r new n a t refs) (mapped (entry s r)) n
            (stored-IsConsistent s s₁ s r new n a t refs) (stored-Refs s s₁ s r new n a t refs) h in
        (
          new,
          s₄,
          custom_cow-eq s pagetable va r m
              ∙ rw (cow, e) (replace_page-eq s₁ s₄ r (entry s r) new k),
          Freed-Broken s s₁ s₄ r new n a t refs f,
          Broken-IsPrivate s s₄ r new n m.valid (Freed-Broken s s₁ s₄ r new n a t refs f),
        )
  ],
)
