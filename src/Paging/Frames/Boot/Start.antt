-- ===== src/Paging/Frames/Boot/Start.antt =====
-- The pool of pages that `mem_map` of sys/paging.c leaves to the rest of paging.c.
use osproject.Prelude.{ℕ, ◌*◌, ◌&&◌, ltb, leb, Bool}

-- The pages from `p` on of a region that ends at `limit`.
abbrev pub in_region : ℕ → ℕ → ℕ → Bool
in_region p limit i = leb p i && ltb (i * 4096) limit
