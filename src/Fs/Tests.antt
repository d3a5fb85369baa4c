-- ===== src/Fs/Tests.antt =====
-- The bitmap and the paths of initial-xv6/src/kernel/fs.c on concrete input.
use mini_project_3_amey_chou.Common.{
  ℕ, ◌<◌, ◌≤◌, some, none, ◌≡◌, ◌⊎◌, ◌==◌, true, List, [], ◌∷◌, refl, arith, if◌then◌else◌,
  find_upto,
}
use mini_project_3_amey_chou.Vm.{has_bit}
use mini_project_3_amey_chou.Fs.{Fs, in_use, balloc, search, group_size}
use mini_project_3_amey_chou.Fs.Alloc.{IsFormatted, Taken, balloc_lem}
use mini_project_3_amey_chou.Fs.Inode.{Inode, Mapped, bmap}
use mini_project_3_amey_chou.Fs.Allocs.{IsLaidOut}
use mini_project_3_amey_chou.Fs.Table.{Maps}
use mini_project_3_amey_chou.Fs.Bmap.{bmap_lem}
use mini_project_3_amey_chou.Fs.PathNames.{
  path_names, components, skipelem, skip_slashes, split_elem, path_names_lem,
}

-- Blocks 0 to 2 are in use, the bitmap is block 1.
abbrev small : Fs
small = record { size = 5; bmapstart = 1; block = λ b i. if b == 1 then 7 else 9 }

balloc-small : (balloc small).0 ≡ 3
unfolding balloc search group_size in_use has_bit find_upto
balloc-small = refl

small-IsFormatted : IsFormatted small
unfolding in_use has_bit
small-IsFormatted c lt = (ground arith, ground arith)

balloc_lem_example :
    (((c : ℕ) → c < small.size → in_use small c ≡ true) × (balloc small ≡ (0, small)))
    ⊎ ((b : ℕ) × (fs' : Fs) × (balloc small ≡ (b, fs')) × Taken small b fs')
balloc_lem_example = balloc_lem small small-IsFormatted

-- `//a/bb/`
abbrev path : List ℕ
path = b'/' ∷ b'/' ∷ b'a' ∷ b'/' ∷ b'b' ∷ b'b' ∷ b'/' ∷ []

path_names-path : path_names 8 path ≡ (b'a' ∷ []) ∷ (b'b' ∷ b'b' ∷ []) ∷ []
unfolding path_names skipelem skip_slashes split_elem
path_names-path = refl

path_names_lem_example : path_names 8 path ≡ components path
path_names_lem_example = path_names_lem 8 path (omega arith)

small-IsLaidOut : IsLaidOut small
unfolding in_use has_bit
small-IsLaidOut = record { formatted = small-IsFormatted; boot = refl; small = omega arith }

-- A file with nothing in it.
abbrev empty_file : Inode
empty_file = record { addrs = λ k. 0 }

bmap_lem_example :
    ((13 < 268) × ((m : Mapped) × (bmap 13 empty_file small ≡ some m) × Maps empty_file small 13 m))
    ⊎ ((268 ≤ 13) × (bmap 13 empty_file small ≡ none))
bmap_lem_example = bmap_lem empty_file small small-IsLaidOut (λ ne. absurd (ne refl)) 13
