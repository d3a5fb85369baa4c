-- ===== src/Log/Install.antt =====
-- Installing a logged transaction: what the disk holds after each write of `install_trans`.
use mini_project_3_amey_chou.Common.{
  ℕ, zero, suc, ◌+◌, ◌<◌, ◌≤◌, ◌≡◌, ◌⊎◌, arith, Bool, true, false, List, [], ◌∷◌, update,
  update_self, update-ne, for_upto, ap, sym, ◌∙◌,
}
use native.Mathlib.Decide.{ℕ_discrete}
use mini_project_3_amey_chou.Log.{
  Block, Disk, Store, write_block, unpin_block, install_block, encode_head,
}
use mini_project_3_amey_chou.Log.Overlay.{
  overlay, effective, overlay-base, overlay-overlay, overlay-cong, overlay-hit, overlay-miss,
  clean-effective, encode_head-count,
}

-- A block outside of the log.
abbrev pub Home : (start size b : ℕ) → Type 0
Home start size b = (b < start) ⊎ (start + size ≤ b)

abbrev pub All : (Disk → Type 0) → List Disk → Type 0
All P [] = Unit {0}
All P (d ∷ l) = P d × All P l

-- A transaction of `n` blocks: where they go, what they hold, and the header that says so.
pub record Transaction (start size n : ℕ) (blk : ℕ → ℕ) (hdr : Block) : Type 0 where
  pub fits : n < size
  pub home : (t : ℕ) → t < n → Home start size (blk t)
  pub count : hdr 0 ≡ n
  pub places : (t : ℕ) → t < n → hdr (t + 1) ≡ blk t

module _ (start size n : ℕ) (blk : ℕ → ℕ) (src : ℕ → Block) (hdr : Block)
    (tr : Transaction start size n blk hdr) where
  -- The transaction is in the log of disk `d`.
  pub record Logged (d : Disk) : Type 0 where
    pub header : d start ≡ hdr
    pub entries : (t : ℕ) → t < n → d (start + t + 1) ≡ src t

  pub Logged-effective :
      (d : Disk) → Logged d → (b : ℕ) → effective start d b ≡ overlay blk src n d b
  Logged-effective d v b =
      ap (λ k. overlay (λ t. d start (t + 1)) (λ t. d (start + t + 1)) k d b)
        (ap (λ (h : Block). h 0) v.header ∙ tr.count)
      ∙ overlay-cong (λ t. d start (t + 1)) blk (λ t. d (start + t + 1)) src n d b
          (λ t lt. ap (λ (h : Block). h (t + 1)) v.header ∙ tr.places t lt) v.entries

  module _ (base : Disk) where
    -- The outcome: the transaction on top of `base`, outside of the log.
    abbrev pub Outcome : Disk → Type 0
    Outcome d = (b : ℕ) → Home start size b → effective start d b ≡ overlay blk src n base b

    -- After `i` blocks have been installed.
    pub record Installed (i : ℕ) (s : Store) (P : Disk → Type 0) : Type 0 where
      pub logged : Logged s.disk
      pub shown : (t : ℕ) → t < n → s.view (start + t + 1) ≡ src t
      pub homes : (b : ℕ) → Home start size b → s.disk b ≡ overlay blk src i base b
      pub history : All P s.past

    pub Installed-Outcome :
        (i : ℕ) (d : Disk)
        → i ≤ n
        → Logged d
        → ((b : ℕ) → Home start size b → d b ≡ overlay blk src i base b)
        → Outcome d
    Installed-Outcome i d le v homes b h =
        Logged-effective d v b
        ∙ overlay-base blk src n d (overlay blk src i base) b (homes b h)
        ∙ overlay-overlay blk src n i base b le

    module _ (P : Disk → Type 0) (good : (d : Disk) → Logged d → Outcome d → P d) where
      install-Installed :
          (recovering : Bool) (i : ℕ) (s : Store)
          → i < n
          → Installed i s P
          → Installed (suc i) (install_block start blk recovering i s) P
      unfolding install_block write_block unpin_block
      install-Installed recovering i s lt v =
          elim recovering as (λ r. Installed (suc i) (install_block start blk r i s) P) [
            | true ↦ record {
              logged = logged;
              shown = shown;
              homes = homes;
              history = (good d logged (Installed-Outcome (suc i) d lt logged homes), v.history);
            }
            | false ↦ record {
              logged = logged;
              shown = shown;
              homes = homes;
              history = (good d logged (Installed-Outcome (suc i) d lt logged homes), v.history);
            }
          ]
        where
          x : Block
          x = s.view (start + i + 1)

          d : Disk
          d = update s.disk (blk i) x

          logged : Logged d
          logged = record {
            header =
                update-ne s.disk (blk i) start x (λ e. omega (arith, e, tr.home i lt, tr.fits))
                ∙ v.logged.header;
            entries = λ t l.
                update-ne s.disk (blk i) (start + t + 1) x
                  (λ e. omega (arith, e, l, tr.home i lt, tr.fits))
                ∙ v.logged.entries t l;
          }

          shown : (t : ℕ) → t < n → update s.view (blk i) x (start + t + 1) ≡ src t
          shown t l =
              update-ne s.view (blk i) (start + t + 1) x
                (λ e. omega (arith, e, l, tr.home i lt, tr.fits))
              ∙ v.shown t l

          homes : (b : ℕ) → Home start size b → d b ≡ overlay blk src (suc i) base b
          homes b h = elim (ℕ_discrete (blk i) b) [
            | yes e ↦
                ap d (sym e)
                ∙ update_self s.disk (blk i) x
                ∙ v.shown i lt
                ∙ sym (overlay-hit blk src i base b (ground arith))
            | no ne ↦
                update-ne s.disk (blk i) b x ne
                ∙ v.homes b h
                ∙ sym (overlay-miss blk src i base b (ground arith))
          ]

      -- All rounds of `install_trans`.
      pub install_all :
          (recovering : Bool) (i : ℕ) (s : Store)
          → i ≤ n
          → Installed 0 s P
          → Installed i (for_upto i (install_block start blk recovering) s) P
      unfolding for_upto
      install_all recovering zero s le v = v
      install_all recovering (suc i) s le v =
          install-Installed recovering i (for_upto i (install_block start blk recovering) s) le
            (install_all recovering i s (omega arith) v)

    -- The header that ends it: the log is empty, and the blocks are at home.
    pub erase_lem :
        (P : Disk → Type 0) (s : Store) (block : ℕ → ℕ)
        → Installed n s P
        → let d : Disk = update s.disk start (encode_head 0 block (s.view start)) in
          (d start 0 ≡ 0)
          × ((b : ℕ) → Home start size b → d b ≡ overlay blk src n base b)
          × Outcome d
    erase_lem P s block v = (count, homes, λ b h. clean-effective start d b count ∙ homes b h)
      where
        d : Disk
        d = update s.disk start (encode_head 0 block (s.view start))

        count : d start 0 ≡ 0
        count =
            ap (λ (h : Block). h 0) (update_self s.disk start _)
            ∙ encode_head-count 0 block (s.view start)

        homes : (b : ℕ) → Home start size b → d b ≡ overlay blk src n base b
        homes b h = update-ne s.disk start b _ (λ e. omega (arith, e, h, tr.fits)) ∙ v.homes b h
