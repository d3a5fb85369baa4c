-- ===== src/File/Refs.antt =====
-- The reference counts of initial-xv6/src/kernel/file.c.
use mini_project_3_amey_chou.Common.{
  ℕ, zero, suc, ◌<◌, ◌≡◌, ◌≢◌, refl, arith, true, false, Option, none, some, if◌then◌else◌, update,
  update_self, update-ne, find_upto, find_upto-Found, Found, ap, ap₂, sym, ◌∙◌, ℤ, pos, ltb_ℤ,
  int32_max, at_update,
}
use mini_project_3_amey_chou.Proc.{incr}
use mini_project_3_amey_chou.Kalloc.{decr}
use mini_project_3_amey_chou.Kalloc.Counts.{incr-pos, decr-pos}
use mini_project_3_amey_chou.File.{
  File, FileTable, Kind, fd_none, fd_pipe, fd_inode, fd_device, nfile, is_free, take_slot,
  filealloc, filedup, Closing, nothing, close_pipe, put_inode, closing, fileclose,
}

-- What `filealloc` gives: the first free slot, with one reference and no other change, or none if
-- every slot is in use.
abbrev pub Opened : FileTable → FileTable × Option ℕ → Type 0
Opened t (u, none) = ((i : ℕ) → i < nfile → is_free (t i) ≡ false) × (u ≡ t)
Opened t (u, some k) =
    (k < nfile)
    × (is_free (t k) ≡ true)
    × ((i : ℕ) → i < k → is_free (t i) ≡ false)
    × (u k ≡ record (t k) { ref = pos 1 })
    × ((i : ℕ) → k ≢ i → u i ≡ t i)

take_slot-Opened :
    (t : FileTable) (o : Option ℕ) → Found nfile (λ i. is_free (t i)) o → Opened t (take_slot t o)
unfolding take_slot
take_slot-Opened t none f = (f, refl)
take_slot-Opened t (some k) f = (f.0, f.1, f.2, update_self t k _, λ i ne. update-ne t k i _ ne)

-- `filealloc` takes the first free slot of the table, with one reference, and changes no other; it
-- returns 0, and changes nothing, if no slot is free.
pub filealloc_lem : (t : FileTable) → Opened t (filealloc t)
unfolding filealloc
filealloc_lem t =
    take_slot-Opened t (find_upto nfile (λ i. is_free (t i)))
      (find_upto-Found nfile (λ i. is_free (t i)))

-- What is left of a file that had n + 1 references, and what there is to do.
abbrev pub left : ℕ → File → File
left zero f = record f { ref = pos 0; kind = fd_none }
left (suc n) f = record f { ref = pos (suc n) }

abbrev pub last_close : Kind → File → Closing
last_close fd_none f = nothing
last_close fd_pipe f = close_pipe f.pipe f.writable
last_close fd_inode f = put_inode f.ip
last_close fd_device f = put_inode f.ip

abbrev pub to_do : ℕ → File → Closing
to_do zero f = last_close f.kind f
to_do (suc n) f = nothing

abbrev closed : FileTable → ℕ → File → Option (FileTable × Closing)
closed t i f =
    if ltb_ℤ (pos 0) f.ref
    then some (update t i f, nothing)
    else some (update t i (record f { ref = pos 0; kind = fd_none }), closing f f.kind)

same_closing : (f : File) (z : ℤ) (k : Kind) → closing (record f { ref = z }) k ≡ last_close k f
unfolding closing
same_closing f z fd_none = refl
same_closing f z fd_pipe = refl
same_closing f z fd_inode = refl
same_closing f z fd_device = refl

closed-pos :
    (t : FileTable) (i n : ℕ)
    → closed t i (record (t i) { ref = pos n }) ≡ some (update t i (left n (t i)), to_do n (t i))
closed-pos t i zero =
    ap (λ a. some (update t i (left zero (t i)), a)) (same_closing (t i) (pos 0) (t i).kind)
closed-pos t i (suc n) = ground arith

is_live : (n : ℕ) (z : ℤ) → z ≡ pos (suc n) → ltb_ℤ z (pos 1) ≡ false
is_live n z e = ap (λ y. ltb_ℤ y (pos 1)) e ∙ ground arith

-- `fileclose` of a file with n + 1 references never panics. It leaves n of them; only with the last
-- does the slot become free, and then there is left to do: for a pipe `pipeclose` of it, at the end
-- that the file could write to or not, for an inode or a device `iput` of the inode, and otherwise
-- nothing. No other slot changes.
pub fileclose_lem :
    (t : FileTable) (i n : ℕ)
    → n < int32_max
    → (t i).ref ≡ pos (suc n)
    → fileclose i t ≡ some (update t i (left n (t i)), to_do n (t i))
unfolding fileclose
fileclose_lem t i n h e =
    ap₂ (λ b z. if b then none else closed t i (record (t i) { ref = z })) (is_live n (t i).ref e)
      (ap decr e ∙ decr-pos n h)
    ∙ closed-pos t i n

-- A file that is duplicated and closed once is as before, in a table that is as before.
pub fileclose-filedup :
    (t : FileTable) (i n : ℕ)
    → suc n < int32_max
    → (t i).ref ≡ pos (suc n)
    → (u : FileTable) × (w : FileTable) × (filedup i t ≡ some u)
      × (fileclose i u ≡ some (w, nothing))
      × ((j : ℕ) → w j ≡ t j)
unfolding filedup
fileclose-filedup t i n h e = (
  u,
  update u i (left (suc n) (u i)),
  ap₂ (λ b z. if b then none else some (update t i (record (t i) { ref = z })))
      (is_live n (t i).ref e) (ap incr e ∙ incr-pos (suc n) h),
  fileclose_lem u i (suc n) h (ap (λ (f : File). f.ref) (update_self t i _)),
  at_update (λ j q. q ≡ t j) u i (left (suc n) (u i))
      (ap (λ (q : File). record q { ref = pos (suc n) }) (update_self t i _)
        ∙ ap (λ z. record (t i) { ref = z }) (sym e))
      (λ j ne. update-ne t i j _ ne),
)
  where
    u : FileTable
    u = update t i (record (t i) { ref = pos (suc (suc n)) })
