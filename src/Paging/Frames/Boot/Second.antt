-- ===== src/Paging/Frames/Boot/Second.antt =====
-- `mem_map` of sys/paging.c on a region after the first.
use osproject.Prelude.{ℕ, zero, suc, ◌+◌, ◌/◌, ◌%◌, ◌<◌, ◌≡◌, refl, true, none, some, ltb, arith}
use osproject.Paging.Frames.{Memory, table_pages}
use osproject.Paging.Frames.Boot.{Scan, usable, link_last, mem_map_step, mem_map_loop, mem_map}

-- A usable page with a free list that this call did not begin.
step-none :
    (physfree limit h : ℕ) (s : Scan)
    → ltb (s.ptr / 4096) table_pages ≡ true
    → usable physfree limit s.ptr ≡ true
    → s.memory.head ≡ some h
    → s.last ≡ none
    → mem_map_step physfree limit s ≡ none
unfolding mem_map_step link_last
step-none physfree limit h s room fits list no_last = rw (room, fits, list, no_last) refl

loop-none :
    (fuel physfree limit h : ℕ) (s : Scan)
    → 0 < fuel
    → ltb s.ptr limit ≡ true
    → ltb (s.ptr / 4096) table_pages ≡ true
    → usable physfree limit s.ptr ≡ true
    → s.memory.head ≡ some h
    → s.last ≡ none
    → mem_map_loop fuel physfree limit s ≡ none
unfolding mem_map_loop
loop-none zero physfree limit h s lt below room fits list no_last = absurd (omega arith)
loop-none (suc fuel) physfree limit h s lt below room fits list no_last =
    rw (below, step-none physfree limit h s room fits list no_last) refl

-- If the free list is not empty when `mem_map` is called, and the region begins above the kernel's own data
-- with a page that is not its last and that the table has, and no sum exceeds 64 bits, `mem_map` goes through a NULL pointer.
pub mem_map-none :
    (pagelist_bytes sbase slim physfree h : ℕ) (m : Memory)
    → m.head ≡ some h
    → physfree + pagelist_bytes < sbase
    → 4096 < slim
    → sbase / 4096 < 75000
    → sbase + slim < 18446744073709551616
    → mem_map pagelist_bytes sbase slim physfree m ≡ none
unfolding mem_map
mem_map-none pagelist_bytes sbase slim physfree h m list above long room fits =
    let start : (physfree + pagelist_bytes) % 18446744073709551616 ≡ physfree + pagelist_bytes =
      omega arith in
    let end : (sbase + slim) % 18446744073709551616 ≡ sbase + slim = omega arith in
    let next : (sbase + 4096) % 18446744073709551616 ≡ sbase + 4096 = omega arith in
    let ok : usable (physfree + pagelist_bytes) (sbase + slim) sbase ≡ true =
      ground (arith, next) in
    rw (start, end, mem_map)
      (rw
        (
          loop-none (slim / 4096 + 1) (physfree + pagelist_bytes) (sbase + slim) h
              (record { ptr = sbase; last = none; memory = m }) (omega arith) (ground arith)
              (ground arith) ok list refl,
          mem_map,
        )
        refl)
