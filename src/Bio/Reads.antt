-- ===== src/Bio/Reads.antt =====
-- `bread` of initial-xv6/src/kernel/bio.c: which buffer it gives, and what that buffer holds.
use mini_project_3_amey_chou.Common.{
  ℕ, ◌+◌, ◌<◌, ◌≡◌, ◌≢◌, inl, inr, refl, arith, Bool, true, false, Option, none, some,
  if◌then◌else◌, update_self, update-ne, Bool-cases, ap, ap₂, sym, ◌∙◌, subst, ◌%◌, ◌^◌,
}
use mini_project_3_amey_chou.Log.{Block}
use mini_project_3_amey_chou.Bio.{
  Buf, Cache, nbuf, holds, is_unheld, first_where, last_where, Got, got, waits, no_buffers,
  lock_buf, use_cached, recycle, bget, fill_buf, bread, set_buf,
}
use mini_project_3_amey_chou.Bio.Lookup.{
  Hit, LastHit, first_where-Hit, last_where-LastHit, LastHit-Hit,
}
use mini_project_3_amey_chou.Bio.Views.{
  Shows, View, IsSound, holds-dev, holds-blockno, false≢true, Choice, Serves, Source, settle,
}

-- What a call of `bread` gives.
abbrev pub Reads : (c : Cache) (dev blockno : ℕ) → Got → Type 0
Reads c dev blockno (got i c') =
    Serves c dev blockno i c'
    × ((c'.buf i).locked ≡ true)
    × ((c.buf i).locked ≡ false)
    × ((c'.buf i).valid ≡ true)
    × ((x : Block) → View c dev blockno x → (c'.buf i).contents ≡ x)
Reads c dev blockno (waits i c') = Serves c dev blockno i c' × ((c.buf i).locked ≡ true)
Reads c dev blockno no_buffers =
    (i : ℕ) → i < nbuf → (holds dev blockno (c.buf i) ≡ false) × ((c.buf i).refcnt ≢ 0)

-- After the lock, the rest of `bread`.
abbrev after_lock : Got → Got
after_lock g = elim g [
  | got j d ↦ got j (fill_buf j d)
  | waits j d ↦ waits j d
  | no_buffers ↦ no_buffers
]

-- From the lock of the buffer on, where `b` is what `bget` has made of buffer `i`.
module _ (c : Cache) (v : IsSound c) (dev blockno i : ℕ) (real : 0 < dev) (hi : i < nbuf) (b : Buf)
    (choice : Choice c dev blockno i) (m : holds dev blockno b ≡ true) (used : 0 < b.refcnt)
    (lock_same : b.locked ≡ (c.buf i).locked)
    (source : b.valid ≡ true → Shows dev blockno (c.buf i) × (b.contents ≡ (c.buf i).contents))
    (fresh : b.valid ≡ false → (k : ℕ) → k < nbuf → Shows dev blockno (c.buf k) → ⊥) where
  keeps : Shows dev blockno (c.buf i) → b.valid ≡ true
  keeps s = elim (Bool-cases b.valid) [ inl e ↦ e | inr e ↦ absurd (fresh e i hi s) ]

  Serves-waits : Serves c dev blockno i (set_buf c i b)
  Serves-waits =
      settle c v dev blockno i real hi b choice m used (λ e. inr (source e)) keeps (set_buf c i b)
        (update_self c.buf i b) (λ j ne. update-ne c.buf i j b ne) refl refl

  abbrev taken : Cache
  taken = let d = set_buf c i b in set_buf d i (record (d.buf i) { locked = true })

  abbrev filled : Buf
  filled =
      if b.valid
      then record b { locked = true }
      else record b { locked = true; contents = c.disks b.dev b.blockno; valid = true }

  fill_buf-at : (fill_buf i taken).buf i ≡ filled
  unfolding fill_buf
  fill_buf-at = ground arith

  fill_buf-off : (j : ℕ) → i ≢ j → (fill_buf i taken).buf j ≡ c.buf j
  unfolding fill_buf
  fill_buf-off j ne = ground arith

  fill_buf-order : (fill_buf i taken).order ≡ c.order
  unfolding fill_buf
  fill_buf-order = ground arith

  fill_buf-disks : (fill_buf i taken).disks ≡ c.disks
  unfolding fill_buf
  fill_buf-disks = ground arith

  filled-valid : filled.valid ≡ true
  filled-valid = ground arith

  filled-locked : filled.locked ≡ true
  filled-locked = ground arith

  filled-refcnt : filled.refcnt ≡ b.refcnt
  filled-refcnt = ground arith

  filled-holds : holds dev blockno filled ≡ true
  unfolding holds
  filled-holds = ground (arith, m)

  filled-Source : Source c v dev blockno i real hi filled
  filled-Source = elim (Bool-cases b.valid) [
    | inl e ↦ inr ((source e).0, rw e ((source e).1))
    | inr e ↦
        inl
          (rw e (ap₂ c.disks (holds-dev dev blockno b m) (holds-blockno dev blockno b m)), fresh e)
  ]

  Serves-got : Serves c dev blockno i (fill_buf i taken)
  Serves-got =
      settle c v dev blockno i real hi filled choice filled-holds
        (subst (λ (n : ℕ). 0 < n) (sym filled-refcnt) used) (λ _. filled-Source) (λ _. filled-valid)
        (fill_buf i taken) fill_buf-at fill_buf-off fill_buf-order fill_buf-disks

  by_lock :
      (l : Bool)
      → l ≡ (c.buf i).locked
      → Reads c dev blockno (after_lock (if l then waits i (set_buf c i b) else got i taken))
  by_lock true e = (Serves-waits, sym e)
  by_lock false e =
      let at : (fill_buf i taken).buf i ≡ filled = fill_buf-at in
      let val = ap Buf.valid at ∙ filled-valid in
      let s = Serves-got in
      (
        s,
        ap Buf.locked at ∙ filled-locked,
        sym e,
        val,
        λ x w. (s.views dev blockno x w).cached i hi (s.matched, val),
      )

  pub lock_buf-Reads : Reads c dev blockno (after_lock (lock_buf (set_buf c i b) i))
  unfolding lock_buf
  lock_buf-Reads =
      by_lock ((set_buf c i b).buf i).locked (ap Buf.locked (update_self c.buf i b) ∙ lock_same)

-- Where no buffer is unused.
no_buffers-Reads :
    (c : Cache) (v : IsSound c) (dev blockno : ℕ)
    → Hit (λ i. holds dev blockno (c.buf i)) c.order none
    → LastHit (λ i. is_unheld (c.buf i)) c.order none
    → Reads c dev blockno no_buffers
unfolding is_unheld
no_buffers-Reads c v dev blockno miss busy i hi =
    (miss i (v.covers i hi), λ e. grind (arith, busy i (v.covers i hi)))

holds_of :
    (dev blockno : ℕ) (b : Buf) → b.dev ≡ dev → b.blockno ≡ blockno → holds dev blockno b ≡ true
unfolding holds
holds_of dev blockno b e f = ground arith

-- In a sound cache whose counts are below 2^32 - 1, `bread` of a block of a device but 0 gives, or
-- waits for, the buffer that held the block, or else the least recently used of the unused ones; it
-- keeps the other buffers, the list, the disks, the soundness, and what every block shows to its
-- readers. A buffer it gives is locked, was not locked before, is valid, and holds what the block
-- shows. It panics only where every buffer is in use and none holds the block.
pub bread_lem :
    (c : Cache) (dev blockno : ℕ)
    → IsSound c
    → 0 < dev
    → ((i : ℕ) → i < nbuf → (c.buf i).refcnt + 1 < 2 ^ 32)
    → Reads c dev blockno (bread dev blockno c)
unfolding bread bget use_cached recycle
bread_lem c dev blockno v real small =
    by_first (first_where (λ i. holds dev blockno (c.buf i)) c.order)
      (first_where-Hit (λ i. holds dev blockno (c.buf i)) c.order)
      (last_where (λ i. is_unheld (c.buf i)) c.order)
      (last_where-LastHit (λ i. is_unheld (c.buf i)) c.order)
  where
    by_first :
        (o : Option ℕ)
        → Hit (λ i. holds dev blockno (c.buf i)) c.order o
        → (u : Option ℕ) → LastHit (λ i. is_unheld (c.buf i)) c.order u
        → Reads c dev blockno
            (after_lock (elim o [ some i ↦ use_cached c i | none ↦ recycle dev blockno c u ]))
    by_first (some i) h u g =
        let hi = v.inside i h.1 in
        let b = record (c.buf i) { refcnt = ((c.buf i).refcnt + 1) % 2 ^ 32 } in
        lock_buf-Reads c v dev blockno i real hi b (inl h.0)
          (holds_of dev blockno b (holds-dev dev blockno (c.buf i) h.0)
            (holds-blockno dev blockno (c.buf i) h.0))
          (omega (arith, small i hi)) refl (λ e. ((h.0, e), refl))
          (λ e k lt s. false≢true (
            sym e
            ∙ ap (λ (j : ℕ). (c.buf j).valid) (v.unique dev blockno i k real hi lt h.0 s.0)
            ∙ s.1))
    by_first none h none g = no_buffers-Reads c v dev blockno h g
    by_first none h (some i) g =
        let hi = v.inside i (LastHit-Hit (λ j. is_unheld (c.buf j)) c.order i g).1 in
        let nowhere : (j : ℕ) → j < nbuf → holds dev blockno (c.buf j) ≡ false =
          λ j lt. h j (v.covers j lt) in
        let b = record (c.buf i) { dev = dev; blockno = blockno; valid = false; refcnt = 1 } in
        lock_buf-Reads c v dev blockno i real hi b (inr (nowhere, g))
          (holds_of dev blockno b refl refl) (omega arith) refl (λ e. absurd (false≢true e))
          (λ e k lt s. false≢true (sym (nowhere k lt) ∙ s.0))
