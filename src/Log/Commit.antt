-- ===== src/Log/Commit.antt =====
-- `commit` of initial-xv6/src/kernel/log.c, cut off by a crash at any write.
use mini_project_3_amey_chou.Common.{
  ℕ, zero, suc, ◌+◌, ◌<◌, ◌≤◌, ◌≡◌, ◌⊎◌, inl, inr, refl, arith, false, Option, none, some, List, [],
  ◌∷◌, ◌==◌, update, update_self, update-ne, for_upto, find_upto, Option-cases, Bool-cases, ap, sym,
  ◌∙◌, subst,
}
use native.Mathlib.Decide.{ℕ_discrete}
use mini_project_3_amey_chou.Log.{
  Block, Disk, Store, Log, write_block, install_trans, install_block, write_head, encode_head,
  log_block, write_log, commit,
}
use mini_project_3_amey_chou.Log.Overlay.{
  overlay, effective, clean-effective, encode_head-count, encode_head-entry,
}
use mini_project_3_amey_chou.Log.Install.{
  Home, All, Transaction, Logged, Installed, Outcome, Installed-Outcome, install_all, erase_lem,
}
use mini_project_3_amey_chou.Log.Crash.{HasLog, SameHome, booted, recover_lem}

-- A log that is about to commit: the header on disk is empty, and the blocks fit and are no log
-- blocks. The writes are counted from here.
pub record IsReady (l : Log) : Type 0 where
  pub fits : l.n < l.size
  pub home : (t : ℕ) → t < l.n → Home l.start l.size (l.block t)
  pub clean : l.store.disk l.start 0 ≡ 0
  pub uncounted : l.store.past ≡ []

-- The disk that the transaction is to make: a logged block as its buffer shows it, any other as it
-- is.
abbrev pub written : Log → Disk
written l b = elim (find_upto l.n (λ t. l.block t == b)) [
  | some t ↦ l.store.view b
  | none ↦ l.store.disk b
]

-- One write to the disk is the commit: after a crash before it, a boot leads to the old disk, and
-- after a crash behind it to the new one.
abbrev pub OldOrNew : Log → Disk → Type 0
OldOrNew l d =
    SameHome l.start l.size (booted l.start l.size d) l.store.disk
    ⊎ SameHome l.start l.size (booted l.start l.size d) (written l)

module _ (l : Log) (v : IsReady l) where
  abbrev src : ℕ → Block
  src t = l.store.view (l.block t)

  abbrev found_view : (b : ℕ) → Option ℕ → Block
  found_view b o = elim o [ some t ↦ l.store.view b | none ↦ l.store.disk b ]

  overlay-found :
      (n b : ℕ)
      → overlay l.block src n l.store.disk b ≡ found_view b (find_upto n (λ t. l.block t == b))
  unfolding overlay find_upto
  overlay-found zero b = refl
  overlay-found (suc n) b = elim (Option-cases (find_upto n (λ t. l.block t == b))) [
    | inr (t, e) ↦ elim (Bool-cases (l.block n == b)) [
      | inl hit ↦ rw (hit, e) (ap l.store.view (ground arith))
      | inr miss ↦ rw (miss, e) (overlay-found n b ∙ ap (found_view b) e)
    ]
    | inl e ↦ elim (Bool-cases (l.block n == b)) [
      | inl hit ↦ rw (hit, e, hit) (ap l.store.view (ground arith))
      | inr miss ↦ rw (miss, e, miss) (overlay-found n b ∙ ap (found_view b) e)
    ]
  ]

  overlay-written : (b : ℕ) → overlay l.block src l.n l.store.disk b ≡ written l b
  overlay-written b = overlay-found l.n b

  P : Disk → Type 0
  P d =
      HasLog l.start l.size d
      × (SameHome l.start l.size (effective l.start d) l.store.disk
          ⊎ SameHome l.start l.size (effective l.start d) (written l))

  P-OldOrNew : (d : Disk) → P d → OldOrNew l d
  unfolding P
  P-OldOrNew d (has, inl old) = inl (λ b h. (recover_lem l.start l.size d has).0 b h ∙ old b h)
  P-OldOrNew d (has, inr new) = inr (λ b h. (recover_lem l.start l.size d has).0 b h ∙ new b h)

  clean-P :
      (d : Disk)
      → d l.start 0 ≡ 0
      → SameHome l.start l.size d l.store.disk ⊎ SameHome l.start l.size d (written l)
      → P d
  unfolding P
  clean-P d e same = (
    record { fits = omega (arith, e, v.fits); home = λ t lt. absurd (omega (arith, e)) },
    elim same [
      | inl old ↦ inl (λ b h. clean-effective l.start d b e ∙ old b h)
      | inr new ↦ inr (λ b h. clean-effective l.start d b e ∙ new b h)
    ],
  )

  -- After `i` blocks have been copied to the log.
  record Copied (i : ℕ) (s : Store) : Type 0 where
    head_kept : s.disk l.start 0 ≡ 0
    homes : SameHome l.start l.size s.disk l.store.disk
    home_shown : SameHome l.start l.size s.view l.store.view
    copies : (t : ℕ) → t < i → s.disk (l.start + t + 1) ≡ src t
    shown : (t : ℕ) → t < i → s.view (l.start + t + 1) ≡ src t
    history : All P s.past

  log_block-Copied :
      (i : ℕ) (s : Store) → i < l.n → Copied i s → Copied (suc i) (log_block l.start l.block i s)
  unfolding log_block write_block
  log_block-Copied i s lt c = record {
    head_kept = head_kept;
    homes = homes;
    home_shown =
        λ b h. update-ne s.view _ b x (λ e. omega (arith, e, h, lt, v.fits)) ∙ c.home_shown b h;
    copies = λ t l'. elim (ℕ_discrete t i) [
      | yes e ↦
          ap (λ j. update s.disk (l.start + i + 1) x (l.start + j + 1)) e
          ∙ update_self s.disk _ x
          ∙ c.home_shown (l.block i) (v.home i lt)
          ∙ ap src (sym e)
      | no ne ↦
          update-ne s.disk _ (l.start + t + 1) x (λ e. ne (omega arith)) ∙ c.copies t (omega arith)
    ];
    shown = λ t l'. elim (ℕ_discrete t i) [
      | yes e ↦
          ap (λ j. update s.view (l.start + i + 1) x (l.start + j + 1)) e
          ∙ update_self s.view _ x
          ∙ c.home_shown (l.block i) (v.home i lt)
          ∙ ap src (sym e)
      | no ne ↦
          update-ne s.view _ (l.start + t + 1) x (λ e. ne (omega arith)) ∙ c.shown t (omega arith)
    ];
    history = (clean-P (update s.disk (l.start + i + 1) x) head_kept (inl homes), c.history);
  }
    where
      x : Block
      x = s.view (l.block i)

      head_kept : update s.disk (l.start + i + 1) x l.start 0 ≡ 0
      head_kept =
          ap (λ (h : Block). h 0)
            (update-ne s.disk (l.start + i + 1) l.start x (λ e. omega (arith, e)))
          ∙ c.head_kept

      homes : SameHome l.start l.size (update s.disk (l.start + i + 1) x) l.store.disk
      homes b h =
          update-ne s.disk (l.start + i + 1) b x (λ e. omega (arith, e, h, lt, v.fits))
          ∙ c.homes b h

  copy_all : (i : ℕ) → i ≤ l.n → Copied i (for_upto i (log_block l.start l.block) l.store)
  unfolding for_upto
  copy_all zero le = record {
    head_kept = v.clean;
    homes = λ b h. refl;
    home_shown = λ b h. refl;
    copies = λ t lt. absurd (omega arith);
    shown = λ t lt. absurd (omega arith);
    history = subst (All P) (sym v.uncounted) tt;
  }
  copy_all (suc i) le = log_block-Copied i _ le (copy_all i (omega arith))

  s1 : Store
  s1 = for_upto l.n (log_block l.start l.block) l.store

  hdr : Block
  hdr = encode_head l.n l.block (s1.view l.start)

  hdr-Transaction : Transaction l.start l.size l.n l.block hdr
  unfolding hdr
  hdr-Transaction = record {
    fits = v.fits;
    home = v.home;
    count = encode_head-count l.n l.block (s1.view l.start);
    places = λ t lt. encode_head-entry l.n l.block (s1.view l.start) t lt;
  }

  new-P :
      (d : Disk)
      → Logged l.start l.size l.n l.block src hdr hdr-Transaction d
      → Outcome l.start l.size l.n l.block src hdr hdr-Transaction l.store.disk d
      → P d
  unfolding P
  new-P d g out = (
    record {
      fits = subst (λ k. k < l.size) (sym count) v.fits;
      home = λ t lt.
          subst (Home l.start l.size) (sym (place t (subst (λ k. t < k) count lt)))
            (v.home t (subst (λ k. t < k) count lt));
    },
    inr (λ b h. out b h ∙ overlay-written b),
  )
    where
      count : d l.start 0 ≡ l.n
      count = ap (λ (h : Block). h 0) g.header ∙ hdr-Transaction.count

      place : (t : ℕ) → t < l.n → d l.start (t + 1) ≡ l.block t
      place t lt = ap (λ (h : Block). h (t + 1)) g.header ∙ hdr-Transaction.places t lt

  s2 : Store
  s2 = write_block l.start hdr s1

  s2-Installed : Installed l.start l.size l.n l.block src hdr hdr-Transaction l.store.disk 0 s2 P
  unfolding s2 s1 write_block overlay
  s2-Installed = record {
    logged = logged;
    shown = λ t lt.
        update-ne s1.view l.start (l.start + t + 1) hdr (λ e. omega (arith, e)) ∙ c.shown t lt;
    homes = homes;
    history = (
      new-P (update s1.disk l.start hdr) logged (
          Installed-Outcome l.start l.size l.n l.block src hdr hdr-Transaction l.store.disk 0
            (update s1.disk l.start hdr) (omega arith) logged homes),
      c.history,
    );
  }
    where
      c : Copied l.n s1
      c = copy_all l.n (omega arith)

      logged :
          Logged l.start l.size l.n l.block src hdr hdr-Transaction (update s1.disk l.start hdr)
      logged = record {
        header = update_self s1.disk l.start hdr;
        entries = λ t lt.
            update-ne s1.disk l.start (l.start + t + 1) hdr (λ e. omega (arith, e)) ∙ c.copies t lt;
      }

      homes : (b : ℕ) → Home l.start l.size b → update s1.disk l.start hdr b ≡ l.store.disk b
      homes b h = update-ne s1.disk l.start b hdr (λ e. omega (arith, e, h, v.fits)) ∙ c.homes b h

  s3 : Store
  s3 = for_upto l.n (install_block l.start l.block false) s2

  s4 : Store
  s4 = write_block l.start (encode_head 0 l.block (s3.view l.start)) s3

  -- The writes of a commit of at least one block.
  s4_lem : All P s4.past × SameHome l.start l.size s4.disk (written l) × (s4.disk l.start 0 ≡ 0)
  unfolding s4 s3 write_block
  s4_lem =
      let (count, homes, out) =
        erase_lem l.start l.size l.n l.block src hdr hdr-Transaction l.store.disk P s3 l.block
          s3-Installed in
      let same : SameHome l.start l.size s4.disk (written l) =
        λ b h. homes b h ∙ overlay-written b in
      ((clean-P s4.disk count (inr same), s3-Installed.history), same, count)
    where
      s3-Installed :
          Installed l.start l.size l.n l.block src hdr hdr-Transaction l.store.disk l.n s3 P
      s3-Installed =
          install_all l.start l.size l.n l.block src hdr hdr-Transaction l.store.disk P new-P false
            l.n s2 (omega arith) s2-Installed

  All-OldOrNew : (ds : List Disk) → All P ds → All (OldOrNew l) ds
  All-OldOrNew [] a = tt
  All-OldOrNew (d ∷ ds) a = (P-OldOrNew d a.0, All-OldOrNew ds a.1)

  -- A commit of a log whose blocks fit, are no log blocks, and whose header on disk is empty, is
  -- atomic. Whatever content the disk has when a crash comes, at any write of the commit, a boot
  -- leads, outside of the log, to the old disk or to the whole of the transaction; and after the
  -- last write the transaction is in place and the log empty, on disk and in memory.
  pub commit_lem :
      All (OldOrNew l) (commit l).store.past
      × SameHome l.start l.size (commit l).store.disk (written l)
      × ((commit l).store.disk l.start 0 ≡ 0)
      × ((commit l).n ≡ 0)
  unfolding find_upto commit write_head install_trans write_log s1 s2 s3 s4 hdr
  commit_lem = elim (Bool-cases (l.n == 0)) [
    | inl none_ ↦
        let n0 : l.n ≡ 0 = ground arith in
        rw none_ (
          subst (All (OldOrNew l)) (sym v.uncounted) tt,
          λ b h. ap (λ k. found_view b (find_upto k (λ t. l.block t == b))) (sym n0),
          v.clean,
          n0,
        )
    | inr some_ ↦ rw some_ (All-OldOrNew s4.past s4_lem.0, s4_lem.1, s4_lem.2, refl)
  ]
