-- ===== src/Paging/Frames.antt =====
-- sys/paging.c, lines 16-95, and include/sys/mem.h: the table of physical pages and its free list.
pub mod FreeList
pub mod Pool
pub mod Boot
use osproject.Prelude.{
  ℕ, zero, suc, ◌+◌, ◌-◌, ◌*◌, ◌/◌, ◌%◌, ◌^◌, Bool, ◌&&◌, Option, none, some, ltb, ◌==◌,
  if◌then◌else◌,
}
use osproject.Prelude.State.{Op, pure, ◌>>=◌}
use osproject.Prelude.Loops.{update}

-- `struct freelist`; `next` is an index into `pagelist`, `none` for NULL.
pub record Frame : Type 0 where
  pub address : ℕ
  pub free : ℕ
  pub ref_count : ℕ
  pub next : Option ℕ

-- The length of `pagelist`.
abbrev pub table_pages : ℕ
table_pages = 75000

-- The globals of paging.c with the 64-bit words of physical memory, by their physical address. The
-- kernel reads them at 0xffffffff80000000 above it. `pml4e` is the physical address of the kernel's
-- top table. The table has `table_pages` entries; what is at a higher index stands for the bytes behind it.
pub record Memory : Type 0 where
  pub pagelist : ℕ → Frame
  pub head : Option ℕ
  pub word : ℕ → ℕ
  pub pml4e : ℕ

-- `pagelist[i] = f`.
unfoldable pub set_frame : ℕ → Frame → Memory → Memory
set_frame i f m = record m { pagelist = update m.pagelist i f }

-- One more reader of the page, or one less.
unfoldable pub set_ref_count : ℕ → ℕ → Memory → Memory
unfolding set_frame
set_ref_count i n m = set_frame i (record (m.pagelist i) { ref_count = n }) m

-- `free`: a shared page loses one reader; else the page becomes the head of the free list. An
-- address that is not the start of its page does nothing. The index is an `int`, here its 32-bit pattern.
unfoldable pub free : ℕ → Memory → Memory
unfolding set_frame set_ref_count
free add m =
    let i = add / 4096 % 2 ^ 32 in
    let f = m.pagelist i in
    if (f.address == add) && ltb 1 f.ref_count
    then set_ref_count i (f.ref_count - 1) m
    else if f.address == add
    then record (set_frame i (record f { free = 1; next = m.head }) m) { head = some i }
    else m

unfoldable pub getrefcount : ℕ → Memory → ℕ
getrefcount add m = (m.pagelist (add / 4096)).ref_count

unfoldable pub increfcount : ℕ → Memory → Memory
unfolding set_ref_count getrefcount
increfcount add m = set_ref_count (add / 4096) (getrefcount add m + 1) m

-- `allocate_page`: the head of the free list, with one reader. With no page left the kernel spins.
unfoldable pub allocate_page : Op Memory ℕ
unfolding set_frame
allocate_page m = elim m.head [
  | none ↦ none
  | some i ↦
      let f = m.pagelist i in
      some
        (f.address, record (set_frame i (record f { free = 0; ref_count = 1 }) m) { head = f.next })
]
