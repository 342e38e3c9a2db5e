-- ===== src/Heap.antt =====
-- libc/malloc.c: the allocator of user programs.
pub mod FirstFit
pub mod Fresh
pub mod GiveBack
use osproject.Prelude.{
  ℕ, zero, suc, ◌+◌, ◌-◌, ◌*◌, ◌/◌, ◌%◌, ◌^◌, Bool, true, false, ◌&&◌, ◌||◌, not, Option, none,
  some, ltb, leb, ◌==◌, if◌then◌else◌,
}
use osproject.Prelude.State.{Op, pure, ◌>>=◌, ◌>>◌}
use osproject.Prelude.Loops.{update}

-- The headers by their addresses, `freep` with 0 for NULL, the address of `base`, and the end of the heap,
-- which the kernel moves.
pub record Heap : Type 0 where
  pub ptr : ℕ → ℕ
  pub size : ℕ → ℕ
  pub freep : ℕ
  pub base : ℕ
  pub brk : ℕ

-- `p + n` for a `Header *`.
abbrev pub plus : ℕ → ℕ → ℕ
plus p n = p + 16 * n

unfoldable pub set_ptr : ℕ → ℕ → Heap → Heap
set_ptr p q h = record h { ptr = update h.ptr p q }

unfoldable pub set_size : ℕ → ℕ → Heap → Heap
set_size p n h = record h { size = update h.size p n }

-- The loop of `free` from `p` on: the block behind which `bp` belongs. `none` is a loop longer than `fuel`.
unfoldable pub find_place : ℕ → ℕ → ℕ → Heap → Option ℕ
find_place zero bp p h = none
find_place (suc fuel) bp p h =
    let rest = find_place fuel bp (h.ptr p) h in
    if ltb p bp && ltb bp (h.ptr p)
    then some p
    else if leb (h.ptr p) p && (ltb p bp || ltb bp (h.ptr p))
    then some p
    else rest

-- `bp` joins the block above it, or points to it.
unfoldable pub join_upper : ℕ → ℕ → Heap → Heap
unfolding set_ptr set_size
join_upper bp p h =
    if plus bp (h.size bp) == h.ptr p
    then set_ptr bp (h.ptr (h.ptr p)) (set_size bp ((h.size bp + h.size (h.ptr p)) % 2 ^ 32) h)
    else set_ptr bp (h.ptr p) h

-- The block below joins `bp`, or points to it.
unfoldable pub join_lower : ℕ → ℕ → Heap → Heap
unfolding set_ptr set_size
join_lower bp p h =
    if plus p (h.size p) == bp
    then set_ptr p (h.ptr bp) (set_size p ((h.size p + h.size bp) % 2 ^ 32) h)
    else set_ptr p bp h

-- `free`.
unfoldable pub libc_free : ℕ → ℕ → Heap → Option Heap
unfolding find_place join_upper join_lower
libc_free fuel ap h =
    let bp = ap - 16 in
    elim (find_place fuel bp h.freep h) [
      | none ↦ none
      | some p ↦ some (record (join_lower bp p (join_upper bp p h)) { freep = p })
    ]

-- `sbrk`: the kernel adds whole pages behind the old end, which it returns.
unfoldable pub sbrk : ℕ → Heap → ℕ × Heap
sbrk increment h = (h.brk, record h { brk = h.brk + 4096 * (increment / 4096 + 1) })

-- `NALLOC`.
abbrev pub nalloc : ℕ
nalloc = 1024

-- `morecore`, for a number of units whose bytes fit an `int`.
unfoldable pub morecore : ℕ → ℕ → Heap → Option Heap
unfolding sbrk libc_free set_size
morecore fuel nu h =
    let n = if ltb nu nalloc then nalloc else nu in
    let (up, h') = sbrk (n * 16) h in
    if ltb (n * 16) (2 ^ 31) then libc_free fuel (plus up 1) (set_size up n h') else none

-- What `malloc` makes of a block `p` that is large enough, behind `prevp`.
unfoldable pub take_block : ℕ → ℕ → ℕ → Heap → ℕ × Heap
unfolding set_ptr set_size
take_block nunits prevp p h =
    if h.size p == nunits
    then (plus p 1, record (set_ptr prevp (h.ptr p) h) { freep = prevp })
    else let left = h.size p - nunits in
      (
        plus (plus p left) 1,
        record (set_size (plus p left) nunits (set_size p left h)) { freep = prevp },
      )

-- The loop of `malloc` from `p` on; after `morecore` it goes on behind `freep`.
unfoldable pub search_block : ℕ → ℕ → ℕ → ℕ → Heap → Option (ℕ × Heap)
unfolding take_block morecore
search_block zero nunits prevp p h = none
search_block (suc fuel) nunits prevp p h =
    if leb nunits (h.size p) then some (take_block nunits prevp p h) else elim (p == h.freep) [
      | false ↦ search_block fuel nunits p (h.ptr p) h
      | true ↦ elim (morecore fuel nunits h) [
        | none ↦ none
        | some h' ↦ search_block fuel nunits h'.freep (h'.ptr h'.freep) h'
      ]
    ]

-- `nunits`.
abbrev pub units_of : ℕ → ℕ
units_of nbytes = ((nbytes + 15) % 2 ^ 64 / 16 + 1) % 2 ^ 32

-- `malloc` up to its loop: the first call makes `base` the only block.
unfoldable pub with_base : Heap → Heap
unfolding set_ptr set_size
with_base h =
    if h.freep == 0
    then record (set_size h.base 0 (set_ptr h.base h.base h)) { freep = h.base }
    else h

-- `malloc`; `none` is a loop of more than `fuel` rounds.
unfoldable pub libc_malloc : ℕ → ℕ → Heap → Option (ℕ × Heap)
unfolding with_base search_block
libc_malloc fuel nbytes h =
    let h' = with_base h in search_block fuel (units_of nbytes) h'.freep (h'.ptr h'.freep) h'
