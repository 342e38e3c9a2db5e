-- ===== src/Paging/Tables.antt =====
-- sys/paging.c, lines 126-295: four-level page tables in physical memory.
pub mod Kmalloc
pub mod Walk
pub mod Mapped
pub mod Process
use osproject.Prelude.{ℕ, ◌+◌, ◌*◌, ◌/◌, ◌%◌, ◌^◌, Bool, ◌&&◌, some, ltb, leb, ◌==◌, if◌then◌else◌}
use osproject.Prelude.State.{Op, pure, ◌>>=◌, ◌>>◌}
use osproject.Prelude.Loops.{update}
use osproject.Paging.Frames.{Memory, allocate_page}

-- `(v >> 39) & 0x1FF` and so on, the index into the table of each level.
abbrev pub index4 : ℕ → ℕ
index4 v = v / 2 ^ 39 % 512

abbrev pub index3 : ℕ → ℕ
index3 v = v / 2 ^ 30 % 512

abbrev pub index2 : ℕ → ℕ
index2 v = v / 2 ^ 21 % 512

abbrev pub index1 : ℕ → ℕ
index1 v = v / 2 ^ 12 % 512

-- `e & 0xFFFFFFFFFFFFF000`.
abbrev pub page_of : ℕ → ℕ
page_of e = e / 4096 * 4096

-- `(p & 0xFFFFFFFFFFFFF000) | flags`, for flags below 4096: the low twelve bits are empty.
abbrev pub entry : ℕ → ℕ → ℕ
entry p flags = page_of p + flags

-- `e & 1`.
abbrev pub present : ℕ → Bool
present e = e % 2 == 1

-- `table[i]` at the kernel's view of a physical page.
abbrev pub slot : ℕ → ℕ → ℕ
slot table i = table + 8 * i

unfoldable pub load : ℕ → Op Memory ℕ
load a m = some (m.word a, m)

unfoldable pub store : ℕ → ℕ → Op Memory (Unit {0})
store a w m = some (tt, record m { word = update m.word a w })

-- `memset(table, 0, 4096)`.
unfoldable pub clear_table : ℕ → Op Memory (Unit {0})
clear_table t m =
    some (tt, record m { word = λ a. if leb t a && ltb a (t + 4096) then 0 else m.word a })

-- A new table, entered at `a`. `map` leaves it with what the page held before.
unfoldable pub new_table : ℕ → ℕ → Op Memory ℕ
unfolding store
new_table a flags = do p ← allocate_page; store a (entry p flags); pure p

-- The same in `init_pages_for_process`, which clears it.
unfoldable pub new_clear_table : ℕ → ℕ → Op Memory ℕ
unfolding store clear_table
new_clear_table a flags = do p ← allocate_page; store a (entry p flags); clear_table p; pure p

-- The control flow that `map` and `init_pages_for_process` share, over how a table is made and which
-- flags a leaf gets. Each tests the entry of one level, and once one is absent makes every table
-- below it without looking.
module _ (make : ℕ → Op Memory ℕ) (flags vaddr_s phy : ℕ) where
  unfoldable pub map_leaf : ℕ → Op Memory (Unit {0})
  unfolding store
  map_leaf p1 = store (slot p1 (index1 vaddr_s)) (entry phy flags)

  -- `p2` is a table of the second level.
  unfoldable pub make_below2 : ℕ → Op Memory (Unit {0})
  unfolding map_leaf
  make_below2 p2 = do p1 ← make (slot p2 (index2 vaddr_s)); map_leaf p1

  unfoldable pub make_below3 : ℕ → Op Memory (Unit {0})
  unfolding make_below2
  make_below3 p3 = do p2 ← make (slot p3 (index3 vaddr_s)); make_below2 p2

  unfoldable pub make_below4 : ℕ → Op Memory (Unit {0})
  unfolding make_below3
  make_below4 p4 = do p3 ← make (slot p4 (index4 vaddr_s)); make_below3 p3

  unfoldable pub map_level2 : ℕ → Op Memory (Unit {0})
  unfolding make_below2 load
  map_level2 p2 = do
    e ← load (slot p2 (index2 vaddr_s))
    if present e then map_leaf (page_of e) else make_below2 p2

  unfoldable pub map_level3 : ℕ → Op Memory (Unit {0})
  unfolding make_below3 map_level2
  map_level3 p3 = do
    e ← load (slot p3 (index3 vaddr_s))
    if present e then map_level2 (page_of e) else make_below3 p3

  unfoldable pub map_level4 : ℕ → Op Memory (Unit {0})
  unfolding make_below4 map_level3
  map_level4 p4 = do
    e ← load (slot p4 (index4 vaddr_s))
    if present e then map_level3 (page_of e) else make_below4 p4

-- `map`: the kernel's own page table `pml4e`; 3 is present and writable.
unfoldable pub map_page : ℕ → ℕ → Op Memory (Unit {0})
unfolding map_level4 new_table
map_page vaddr_s phy m = map_level4 (λ a. new_table a 3) 3 vaddr_s phy m.pml4e m

-- `init_pages_for_process`: the table at `pml4`, with the kernel's half entered first; 7 adds the
-- user's access.
unfoldable pub init_pages_for_process : ℕ → ℕ → ℕ → Op Memory (Unit {0})
unfolding map_level4 new_clear_table load store
init_pages_for_process vaddr_s phy pml4 m =
    (do
      k ← load (slot m.pml4e 511)
      store (slot pml4 511) (entry k 7)
      map_level4 (λ a. new_clear_table a 7) 7 vaddr_s phy pml4)
      m

-- The two table pointers of `getPTE`: the last-level table that maps `v` under `pml4`.
unfoldable pub get_pte : ℕ → ℕ → Op Memory ℕ
unfolding load
get_pte v pml4 = do
  e4 ← load (slot pml4 (index4 v))
  e3 ← load (slot (page_of e4) (index3 v))
  e2 ← load (slot (page_of e3) (index2 v))
  pure (page_of e2)
