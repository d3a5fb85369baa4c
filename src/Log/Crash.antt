-- ===== src/Log/Crash.antt =====
-- Crashes of initial-xv6/src/kernel/log.c: recovery from any disk, and a commit that is cut off at
-- any write.
use mini_project_3_amey_chou.Common.{
  ℕ, ◌+◌, ◌<◌, ◌≡◌, refl, arith, true, [], update, for_upto, sym, ◌∙◌, subst,
}
use mini_project_3_amey_chou.Log.{
  Block, Disk, Store, write_block, install_trans, read_head, write_head, encode_head,
  recover_from_log, initlog, install_block,
}
use mini_project_3_amey_chou.Log.Overlay.{overlay, effective, read_entries}
use mini_project_3_amey_chou.Log.Install.{
  Home, All, Transaction, Logged, Logged-effective, Installed, Outcome, install_all, erase_lem,
}

-- The header of disk `d` is in bounds.
pub record HasLog (start size : ℕ) (d : Disk) : Type 0 where
  pub fits : d start 0 < size
  pub home : (t : ℕ) → t < d start 0 → Home start size (d start (t + 1))

-- The disk after a boot from `d`.
abbrev pub booted : (start size : ℕ) → Disk → Disk
booted start size d = (initlog start size d).store.disk

abbrev pub SameHome : (start size : ℕ) → Disk → Disk → Type 0
SameHome start size d e = (b : ℕ) → Home start size b → d b ≡ e b

module _ (start size : ℕ) (d : Disk) (v : HasLog start size d) where
  abbrev blk : ℕ → ℕ
  blk = for_upto (d start 0) (λ i b. update b i (d start (i + 1))) (λ i. 0)

  abbrev src : ℕ → Block
  src t = d (start + t + 1)

  head-Transaction : Transaction start size (d start 0) blk (d start)
  head-Transaction = record {
    fits = v.fits;
    home = λ t lt.
        subst (Home start size) (sym (read_entries (d start 0) (d start) (λ i. 0) t lt))
          (v.home t lt);
    count = refl;
    places = λ t lt. sym (read_entries (d start 0) (d start) (λ i. 0) t lt);
  }

  -- If the log on disk fits and lists no log blocks, a boot puts every block outside of the log in
  -- its place and empties the log. A crash during the boot does no harm: every disk on the way
  -- stands for the same blocks.
  pub recover_lem :
      SameHome start size (booted start size d) (effective start d)
      × (booted start size d start 0 ≡ 0)
      × All
          (λ e. SameHome start size (effective start e) (effective start d))
          (initlog start size d).store.past
  unfolding overlay initlog recover_from_log read_head install_trans write_head write_block
  recover_lem =
      let (count, homes, out) =
        erase_lem start size n blk src (d start) head-Transaction d Same sn blk installed in
      (
        λ b h.
            homes b h
            ∙ sym (Logged-effective start size n blk src (d start) head-Transaction d logged b),
        count,
        (same (update sn.disk start (encode_head 0 blk (sn.view start))) out, installed.history),
      )
    where
      n : ℕ
      n = d start 0

      s0 : Store
      s0 = record { view = d; disk = d; past = []; pins = λ b. 0 }

      sn : Store
      sn = for_upto n (install_block start blk true) s0

      Same : Disk → Type 0
      Same e = SameHome start size (effective start e) (effective start d)

      logged : Logged start size n blk src (d start) head-Transaction d
      logged = record { header = refl; entries = λ t lt. refl }

      same : (e : Disk) → Outcome start size n blk src (d start) head-Transaction d e → Same e
      same e out b h =
          out b h
          ∙ sym (Logged-effective start size n blk src (d start) head-Transaction d logged b)

      installed : Installed start size n blk src (d start) head-Transaction d n sn Same
      installed =
          install_all start size n blk src (d start) head-Transaction d Same (λ e _. same e) true n
            s0 (omega arith)
            (record { logged = logged; shown = λ t lt. refl; homes = λ b h. refl; history = tt })
