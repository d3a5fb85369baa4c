-- ===== src/Life/Fork/Files.antt =====
-- The open files of parent and child after `fork` of initial-xv6/src/kernel/proc.c.
use mini_project_3_amey_chou.Common.{
  ℕ, zero, suc, ◌+◌, ◌<◌, ◌≤◌, ◌≡◌, ◌≢◌, inl, inr, refl, arith, false, Option, none, some,
  if◌then◌else◌, update, update_self, update-ne, at_update, ap, ap₂, sym, ◌∙◌, subst, ℤ, pos, ltb_ℤ,
  int32_max, tally, tally-suc, tally-none, tally-le, same_ptr, Option-cases,
}
use native.Mathlib.Decide.{ℕ_discrete}
use mini_project_3_amey_chou.Proc.{incr}
use mini_project_3_amey_chou.Kalloc.Counts.{incr-pos}
use mini_project_3_amey_chou.File.{File, FileTable, filedup}
use mini_project_3_amey_chou.Life.Fork.{dup_files}

-- 1 for a descriptor of file `f`.
abbrev pub points : ℕ → Option ℕ → ℕ
points f o = if same_ptr o (some f) then 1 else 0

live : (n : ℕ) → 0 < n → (z : ℤ) → z ≡ pos n → ltb_ℤ z (pos 1) ≡ false
live n h z e = ap (λ y. ltb_ℤ y (pos 1)) e ∙ ground arith

hit : (f : ℕ) (o : Option ℕ) → o ≡ some f → points f o ≡ 1
hit f o e = ap (points f) e ∙ ground arith

miss : (f g : ℕ) (o : Option ℕ) → o ≡ some f → f ≢ g → points g o ≡ 0
miss f g o e ne = ap (points g) e ∙ ground arith

unset : (g : ℕ) (o : Option ℕ) → o ≡ none → points g o ≡ 0
unset g o e = ap (points g) e

filedup-pos :
    (t : FileTable) (i n : ℕ)
    → 0 < n
    → n < int32_max
    → (t i).ref ≡ pos n
    → filedup i t ≡ some (update t i (record (t i) { ref = pos (n + 1) }))
unfolding filedup
filedup-pos t i n h k e =
    ap₂ (λ b z. if b then none else some (update t i (record (t i) { ref = z })))
      (live n h (t i).ref e) (ap incr e ∙ incr-pos n k ∙ ap pos (omega arith))

points-le : (f : ℕ) (o : Option ℕ) → points f o ≤ 1
points-le f o = ground arith

abbrev with_files :
    FileTable × (ℕ → Option ℕ) → ℕ → ℕ → Option FileTable → Option (FileTable × (ℕ → Option ℕ))
with_files r n f none = none
with_files r n f (some u) = some (u, update r.1 n (some f))

module _ (ofile child : ℕ → Option ℕ) (t : FileTable) (refs : ℕ → ℕ) where
  -- After the first `n` descriptors: each file has a reference more for each of them that is to it,
  -- and the child has those descriptors.
  abbrev pub Duplicated : ℕ → FileTable × (ℕ → Option ℕ) → Type 0
  Duplicated n r =
      ((f : ℕ) → (r.0 f).ref ≡ pos (refs f + tally (points f) n ofile))
      × ((i f : ℕ) → i < n → ofile i ≡ some f → r.1 i ≡ some f)

  step-Duplicated :
      (n : ℕ) (r : FileTable × (ℕ → Option ℕ)) (f : ℕ)
      → ofile n ≡ some f
      → Duplicated n r
      → Duplicated (suc n) (
        update r.0 f (record (r.0 f) { ref = pos (refs f + tally (points f) n ofile + 1) }),
        update r.1 n (some f),
      )
  step-Duplicated n r f e (count, fds) = (
    at_update (λ g (q : File). q.ref ≡ pos (refs g + tally (points g) (suc n) ofile)) r.0 f _
        (ap pos (omega (arith, tally-suc (points f) n ofile, hit f (ofile n) e)))
        (λ g ne.
          count g ∙ ap pos (omega (arith, tally-suc (points g) n ofile, miss f g (ofile n) e ne))),
    λ i g lt eq. elim (ℕ_discrete n i) [
      | yes here ↦
          subst (λ j. update r.1 n (some f) j ≡ some g) here
            (update_self r.1 n (some f) ∙ sym e ∙ ap ofile here ∙ eq)
      | no ne ↦ update-ne r.1 n i (some f) ne ∙ fds i g (omega arith) eq
    ],
  )

  skip-Duplicated :
      (n : ℕ) (r : FileTable × (ℕ → Option ℕ))
      → ofile n ≡ none
      → Duplicated n r
      → Duplicated (suc n) r
  skip-Duplicated n r e (count, fds) = (
    λ f. count f ∙ ap pos (omega (arith, tally-suc (points f) n ofile, unset f (ofile n) e)),
    λ i f lt eq. elim (ℕ_discrete n i) [
      | yes here ↦ absurd (cc (e, eq, ap ofile here))
      | no ne ↦ fds i f (omega arith) eq
    ],
  )

  -- If every open file has a reference, and no count is near the bound of `int`, the loop of `fork`
  -- over the first `n` descriptors does not panic: each file has one reference more for each of
  -- them that is to it, and the child has those descriptors.
  pub dup_files_lem :
      ((f : ℕ) → (t f).ref ≡ pos (refs f))
      → ((i f : ℕ) → ofile i ≡ some f → 0 < refs f)
      → (n : ℕ) → ((f : ℕ) → refs f + n < int32_max)
      → (r : FileTable × (ℕ → Option ℕ)) × (dup_files n ofile child t ≡ some r) × Duplicated n r
  unfolding dup_files
  dup_files_lem ok_refs open_ zero room = (
    (t, child),
    refl,
    (
      λ f. ok_refs f ∙ ap pos (omega (arith, tally-none (points f) ofile)),
      λ i f lt. absurd (omega arith),
    ),
  )
  dup_files_lem ok_refs open_ (suc n) room =
      let (r, e, (count, fds)) = dup_files_lem ok_refs open_ n (λ f. omega (arith, room f)) in
      elim (Option-cases (ofile n)) [
        | inl unset_ ↦ (r, rw (dup_files, e, unset_) refl, skip-Duplicated n r unset_ (count, fds))
        | inr (f, set) ↦ (
          (
            update r.0 f (record (r.0 f) { ref = pos (refs f + tally (points f) n ofile + 1) }),
            update r.1 n (some f),
          ),
          rw (dup_files, e, set)
              (ap (with_files r n f) (
                filedup-pos r.0 f (refs f + tally (points f) n ofile) (omega (arith, open_ n f set))
                  (omega (arith, room f, tally-le (points f) n ofile (λ i. points-le f (ofile i))))
                  (count f))),
          step-Duplicated n r f set (count, fds),
        )
      ]
