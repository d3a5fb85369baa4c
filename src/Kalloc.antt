-- ===== src/Kalloc.antt =====
-- The page allocator of initial-xv6/src/kernel/kalloc.c, with the reference counts that
-- copy-on-write fork added. The locks `kmem.lock` and `temp_lock` are held round each access, so a
-- call is one atomic step of the state.
pub mod Counts
pub mod Calls
mod Owners
mod Boot
mod Tests
use mini_project_3_amey_chou.Common.{
  ℕ, zero, suc, ◌+◌, ◌*◌, ◌/◌, ◌-◌, ◌≡◌, Option, none, some, List, [], ◌∷◌, ℤ, pos, ◌-ℤ◌, int32,
  ltb_ℤ, if◌then◌else◌, update, leb,
}
use mini_project_3_amey_chou.Phys.{
  Phys, Run, ok, panic, M, pure, stop, and_then, ◌>>=◌, ◌>>◌, memset_page, pgsize, fill,
  pg_round_up,
}
use mini_project_3_amey_chou.Proc.{incr}

-- `x--` on an `int`
unfoldable pub decr : ℤ → ℤ
unfolding int32 ◌-ℤ◌
decr x = int32 (x -ℤ pos 1)

abbrev pub set_temp : Phys → ℕ → ℤ → Phys
set_temp s pno v = record s { temp = update s.temp pno v }

unfoldable pub check_and_increment : ℕ → M (Unit {0})
check_and_increment pno s =
    if ltb_ℤ (s.temp pno) (pos 0) then panic else ok tt (set_temp s pno (incr (s.temp pno)))

-- `r->next = kmem.freelist; kmem.freelist = r;`
abbrev pub push_free : ℕ → M (Unit {0})
push_free page s = ok tt (record s { freelist = page ∷ s.freelist })

-- `kfree`, at a page-aligned address.
unfoldable pub kfree : (pa : ℕ) → M (Unit {0})
kfree pa s =
    let pno = pa / 4096 in
    let flag = s.temp pno in
    if ltb_ℤ (pos 0) flag
    then (if ltb_ℤ (pos 1) flag
        then ok tt (set_temp s pno (decr flag))
        else and_then (memset_page pno 1 (set_temp s pno (decr flag))) (λ _. push_free pno))
    else panic

-- The pop of `kalloc`: `r = kmem.freelist; if(r) kmem.freelist = r->next;`
abbrev pub pop_free : Phys → List ℕ → Option ℕ × Phys
pop_free s [] = (none, s)
pop_free s (page ∷ rest) = (some page, record s { freelist = rest })

-- `if(r) { memset(r, 5, PGSIZE); … check_and_increment(r / PGSIZE); } return r;`
unfoldable pub finish_alloc : Option ℕ → M (Option ℕ)
finish_alloc none = pure none
finish_alloc (some page) = do memset_page page 5; check_and_increment page; pure (some page)

-- `kalloc`: the number of the page, or `none` for the null pointer.
unfoldable pub kalloc : M (Option ℕ)
kalloc s = let (r, s') = pop_free s s.freelist in finish_alloc r s'

-- `freerange`: `kfree` of each whole page from `PGROUNDUP(pa_start)` while `p + PGSIZE <= pa_end`.
unfoldable pub free_pages : ℕ → (p : ℕ) → M (Unit {0})
free_pages zero p = pure tt
free_pages (suc n) p = do kfree p; free_pages n (p + 4096)

unfoldable pub freerange : (pa_start pa_end : ℕ) → M (Unit {0})
freerange pa_start pa_end =
    free_pages ((pa_end - pg_round_up pa_start) / 4096) (pg_round_up pa_start)

-- `PHYSTOP`, and `TEMP`: the number of entries of `temp[]`.
abbrev pub phystop : ℕ
phystop = 0x8000_0000 + 128 * 1024 * 1024

-- `kinit`: every count is 1, so that `freerange` can free every page from `end` on.
unfoldable pub kinit : (end : ℕ) → M (Unit {0})
kinit end s =
    freerange end phystop
      (record s { temp = λ pno. if leb (phystop / 4096) pno then s.temp pno else pos 1 })
