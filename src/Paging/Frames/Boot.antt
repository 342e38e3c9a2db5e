-- ===== src/Paging/Frames/Boot.antt =====
-- `mem_map` of sys/paging.c: the pages of one region that the boot loader reports.
pub mod Second
pub mod Entries
pub mod Build
pub mod Start
use osproject.Prelude.{
  ℕ, zero, suc, ◌+◌, ◌/◌, ◌%◌, ◌^◌, Bool, ◌&&◌, Option, none, some, ltb, if◌then◌else◌,
}
use osproject.Paging.Frames.{Frame, Memory, table_pages, set_frame}

-- The loop's variables: `last` is the end of the free list built by this call, `none` for NULL.
pub record Scan : Type 0 where
  pub ptr : ℕ
  pub last : Option ℕ
  pub memory : Memory

abbrev pub fresh_frame : ℕ → ℕ → ℕ → Frame
fresh_frame ptr free ref_count = record {
  address = ptr;
  free = free;
  ref_count = ref_count;
  next = none;
}

-- A page above the kernel's own data and below the end of its region is free.
abbrev pub usable : ℕ → ℕ → ℕ → Bool
usable physfree limit ptr = ltb physfree ptr && ltb ((ptr + 4096) % 2 ^ 64) limit

-- `last->next = &pagelist[count]`, which faults when `last` is NULL.
unfoldable pub link_last : Option ℕ → ℕ → Memory → Option Memory
unfolding set_frame
link_last none count m = none
link_last (some l) count m = some (set_frame l (record (m.pagelist l) { next = some count }) m)

-- One round of the loop; `none` is an entry behind the end of `pagelist`, or `link_last`.
unfoldable pub mem_map_step : ℕ → ℕ → Scan → Option Scan
unfolding set_frame link_last
mem_map_step physfree limit s =
    let count = s.ptr / 4096 in
    let next = (s.ptr + 4096) % 2 ^ 64 in
    if ltb count table_pages
    then (if usable physfree limit s.ptr
        then elim s.memory.head [
          | none ↦ some (record {
            ptr = next;
            last = some count;
            memory = record (set_frame count (fresh_frame s.ptr 1 0) s.memory) {
              head = some count;
            };
          })
          | some h ↦
              elim (link_last s.last count (set_frame count (fresh_frame s.ptr 1 0) s.memory)) [
                | none ↦ none
                | some m ↦ some (record { ptr = next; last = some count; memory = m })
              ]
        ]
        else some (record {
          ptr = next;
          last = s.last;
          memory = set_frame count (fresh_frame s.ptr 0 1) s.memory;
        }))
    else none

-- `for (ptr = sbase; ptr < sbase + slim; ptr += 4096)`.
unfoldable pub mem_map_loop : ℕ → ℕ → ℕ → Scan → Option Scan
mem_map_loop zero physfree limit s = some s
mem_map_loop (suc fuel) physfree limit s =
    if ltb s.ptr limit
    then elim (mem_map_step physfree limit s) [
      | none ↦ none
      | some s' ↦ mem_map_loop fuel physfree limit s'
    ]
    else some s

-- `mem_map`; `pagelist_bytes` is `sizeof(pagelist)`. A region of `slim` bytes has at most
-- `slim / 4096 + 1` rounds.
unfoldable pub mem_map : ℕ → ℕ → ℕ → ℕ → Memory → Option Memory
unfolding mem_map_loop mem_map_step
mem_map pagelist_bytes sbase slim physfree m =
    elim (mem_map_loop (slim / 4096 + 1) ((physfree + pagelist_bytes) % 2 ^ 64)
      ((sbase + slim) % 2 ^ 64) (record { ptr = sbase; last = none; memory = m })) [
        | none ↦ none
        | some s ↦ some s.memory
      ]
