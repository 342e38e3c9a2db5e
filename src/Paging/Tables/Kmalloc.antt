-- ===== src/Paging/Tables/Kmalloc.antt =====
-- `allocate_page_for_process` and `kmalloc` of sys/paging.c.
use osproject.Prelude.{ℕ, zero, suc, ◌+◌, ◌-◌, ◌/◌, ◌%◌, ◌^◌}
use osproject.Prelude.State.{Op, pure, ◌>>=◌, ◌>>◌}
use osproject.Paging.Frames.{Memory, allocate_page}
use osproject.Paging.Tables.{map_page}

-- Where the kernel sees physical memory.
abbrev pub kernel_base : ℕ
kernel_base = 0xffffffff80000000

-- `0xffffffff80000000 + p` in 64 bits.
abbrev pub kernel_view : ℕ → ℕ
kernel_view p = (kernel_base + p) % 2 ^ 64

-- `v - 0xffffffff80000000` in 64 bits.
abbrev pub physical : ℕ → ℕ
physical v = (v + 2 ^ 64 - kernel_base) % 2 ^ 64

unfoldable pub allocate_page_for_process : Op Memory ℕ
unfolding allocate_page map_page
allocate_page_for_process = do
  ax ← allocate_page
  map_page (kernel_view ax) ax
  pure (kernel_view ax)

-- `for (i = 0; i < no_pages; i++) allocate_page_for_process();`.
unfoldable pub allocate_pages : ℕ → Op Memory (Unit {0})
allocate_pages zero = pure tt
allocate_pages (suc n) = do _ ← allocate_page_for_process; allocate_pages n

-- The address of the first of `size / 4096 + 1` pages.
unfoldable pub kmalloc : ℕ → Op Memory ℕ
unfolding allocate_page_for_process allocate_pages
kmalloc size = do add ← allocate_page_for_process; allocate_pages (size / 4096); pure add
