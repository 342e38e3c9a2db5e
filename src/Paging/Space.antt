-- ===== src/Paging/Space.antt =====
-- sys/paging.c, lines 357-433: copying an address space for `fork`, and giving one back.
pub mod Boot
use osproject.Prelude.{ℕ, ◌+◌, ◌-◌, ◌/◌, ◌%◌, ◌^◌, Bool, some, ◌==◌, if◌then◌else◌}
use osproject.Prelude.State.{Op, pure, ◌>>=◌, ◌>>◌, for_op, when}
use osproject.Paging.Frames.{Memory, free, increfcount}
use osproject.Paging.Tables.{page_of, entry, present, slot, load, store, clear_table}
use osproject.Paging.Tables.Kmalloc.{physical, allocate_page_for_process}

-- `e & (1 << k)`, `e | (1 << k)` and `e & ~(1 << k)`.
abbrev pub bit_of : ℕ → ℕ → Bool
bit_of e k = e / 2 ^ k % 2 == 1

abbrev pub set_bit : ℕ → ℕ → ℕ
set_bit e k = if bit_of e k then e else e + 2 ^ k

abbrev pub clear_bit : ℕ → ℕ → ℕ
clear_bit e k = if bit_of e k then e - 2 ^ k else e

-- `(e & 0xFFFFFFFFFFFFFFFD) | 0x200`: no longer writable, and marked as copied on write.
abbrev pub shared_entry : ℕ → ℕ
shared_entry e = set_bit (clear_bit e 1) 9

unfoldable pub change : (Memory → Memory) → Op Memory (Unit {0})
change f m = some (tt, f m)

-- Entry `l` of the parent's table `p1` and the child's table `c1`.
unfoldable pub copy_entry : ℕ → ℕ → ℕ → Op Memory (Unit {0})
unfolding load store change increfcount
copy_entry p1 c1 l = do
  e ← load (slot p1 l)
  when (present e) (do
    change (increfcount (page_of e))
    store (slot p1 l) (shared_entry e)
    store (slot c1 l) (shared_entry e))

-- A new cleared table for the child, at slot `a`; what is returned is its physical address.
unfoldable pub copy_table : ℕ → Op Memory ℕ
unfolding clear_table store allocate_page_for_process
copy_table a = do
  c ← allocate_page_for_process
  clear_table (physical c)
  store a (entry (physical c) 7)
  pure (physical c)

-- One entry of a table of the second, third and fourth level, with everything below it.
unfoldable pub copy_level2 : ℕ → ℕ → ℕ → Op Memory (Unit {0})
unfolding copy_entry copy_table for_op load
copy_level2 p2 c2 k = do
  e ← load (slot p2 k)
  when (present e) (do c1 ← copy_table (slot c2 k); for_op 512 0 (copy_entry (page_of e) c1))

unfoldable pub copy_level3 : ℕ → ℕ → ℕ → Op Memory (Unit {0})
unfolding copy_level2
copy_level3 p3 c3 j = do
  e ← load (slot p3 j)
  when (present e) (do c2 ← copy_table (slot c3 j); for_op 512 0 (copy_level2 (page_of e) c2))

unfoldable pub copy_level4 : ℕ → ℕ → ℕ → Op Memory (Unit {0})
unfolding copy_level3
copy_level4 p4 c4 i = do
  e ← load (slot p4 i)
  when (present e) (do c3 ← copy_table (slot c4 i); for_op 512 0 (copy_level3 (page_of e) c3))

-- `copytables`, on the top tables of the two tasks.
unfoldable pub copytables : ℕ → ℕ → Op Memory (Unit {0})
unfolding copy_level4
copytables p4 c4 = do
  k ← load (slot p4 511)
  store (slot c4 511) k
  for_op 511 0 (copy_level4 p4 c4)

-- `dealloc_pml4`: each page under the table is given back, each entry cleared.
unfoldable pub dealloc_entry : ℕ → ℕ → Op Memory (Unit {0})
unfolding load store change free
dealloc_entry p1 l = do
  e ← load (slot p1 l)
  when (present e) (change (free (page_of e)))
  store (slot p1 l) 0

-- The same for an entry that leads to a table, whose own entries go first.
unfoldable pub dealloc_under : (ℕ → ℕ → Op Memory (Unit {0})) → ℕ → ℕ → Op Memory (Unit {0})
unfolding load store change free for_op
dealloc_under below p i = do
  e ← load (slot p i)
  when (present e)
      (do for_op 512 0 (below (page_of e)); f ← load (slot p i); change (free (page_of f)))
  store (slot p i) 0

unfoldable pub dealloc_pml4 : ℕ → Op Memory (Unit {0})
unfolding dealloc_entry dealloc_under
dealloc_pml4 pm4 = for_op 511 0 (dealloc_under (dealloc_under (dealloc_under dealloc_entry)) pm4)
