-- ===== src/Examples/Pages.antt =====
-- A machine with four free pages, and the theorems of paging.c on it.
use osproject.Prelude.{
  ℕ, ◌+◌, ◌*◌, ◌/◌, ◌<◌, ◌≤◌, ◌≡◌, ◌≢◌, refl, true, false, [], ◌∷◌, none, some, arith, ltb, ◌==◌,
  if◌then◌else◌,
}
use osproject.Paging.Frames.{Memory, getrefcount, allocate_page}
use osproject.Paging.Frames.FreeList.{has, IsFreeList, allocate_page-IsFreeList}
use osproject.Paging.Tables.{page_of, slot, init_pages_for_process}
use osproject.Prelude.{leb, ◌&&◌, List}
use osproject.Paging.Frames.Boot.{mem_map}
use osproject.Paging.Frames.Boot.Entries.{is_free}
use osproject.Paging.Frames.Boot.Build.{mem_map-IsFreeList}
use osproject.Paging.Tables.Walk.{walk4}
use osproject.Paging.Tables.Mapped.{used4}
use osproject.Paging.Tables.Process.{entered, init_pages_for_process-walk4}
use osproject.Paging.Space.{shared_entry, bit_of, set_bit, clear_bit, copy_entry}
use osproject.Fault.CopyOnWrite.{copy_entry-shared, unshared_entry}

-- Pages 8 to 11 are free; the kernel's top table is page 1.
abbrev pub machine : Memory
machine = record {
  pagelist = λ i. record {
    address = i * 4096;
    free = 1;
    ref_count = 1;
    next = if ltb i 11 then some (i + 1) else none;
  };
  head = some 8;
  word = λ a. if ltb a 4096 then 5 else 0;
  pml4e = 4096;
}

pub machine-IsFreeList : IsFreeList machine (8 ∷ 9 ∷ 10 ∷ 11 ∷ [])
machine-IsFreeList = (
  refl,
  refl,
  refl,
  omega arith,
  refl,
  (
    refl,
    refl,
    refl,
    omega arith,
    refl,
    (refl, refl, refl, omega arith, refl, (refl, refl, refl, omega arith, refl, refl)),
  ),
)

init_pages_for_process-walk4_example :
    (m' : Memory) × (init_pages_for_process 0x400123 0x5000 (2 * 4096) machine ≡ some (tt, m'))
    × (walk4 m'.word (2 * 4096) 0x400123 ≡ some (page_of 0x5000))
    × ((b : ℕ)
        → b / 4096 ≢ 2
        → has (b / 4096) (used4 (entered machine 2) 2 0x400123 8 9 10) ≡ false
        → m'.word b ≡ entered machine 2 b)
init_pages_for_process-walk4_example =
    init_pages_for_process-walk4 machine 2 0x400123 0x5000 8 9 10 (11 ∷ []) machine-IsFreeList
      (refl, (refl, (refl, (refl, tt))))

allocate_page-IsFreeList_example :
    (m' : Memory) × (allocate_page machine ≡ some (8 * 4096, m'))
    × IsFreeList m' (9 ∷ 10 ∷ 11 ∷ [])
    × (m'.pagelist 8
        ≡ record { address = 8 * 4096; free = 0; ref_count = 1; next = (machine.pagelist 8).next })
    × ((j : ℕ) → (8 == j) ≡ false → m'.pagelist j ≡ machine.pagelist j)
    × (m'.word ≡ machine.word)
    × (m'.pml4e ≡ machine.pml4e)
allocate_page-IsFreeList_example =
    allocate_page-IsFreeList machine 8 (9 ∷ 10 ∷ 11 ∷ []) machine-IsFreeList

-- The table of page 0 has the entry 5 in each slot; the child's table is page 2.
copy_entry-shared_example :
    (m' : Memory) × (copy_entry 0 8192 3 machine ≡ some (tt, m'))
    × (m'.word (slot 0 3) ≡ m'.word (slot 8192 3))
    × (page_of (m'.word (slot 8192 3)) ≡ page_of (machine.word (slot 0 3)))
    × (bit_of (m'.word (slot 8192 3)) 1 ≡ false)
    × (bit_of (m'.word (slot 8192 3)) 9 ≡ true)
    × (getrefcount (page_of (machine.word (slot 0 3))) m'
        ≡ getrefcount (page_of (machine.word (slot 0 3))) machine + 1)
copy_entry-shared_example = copy_entry-shared 0 8192 3 machine (omega arith) refl

unshared_entry_example : clear_bit (set_bit (shared_entry 0x5007) 1) 9 ≡ 0x5007
unshared_entry_example = unshared_entry 0x5007 refl refl

-- Before the first region is read.
abbrev bare_machine : Memory
bare_machine = record machine { head = none }

mem_map-IsFreeList_example :
    (m' : Memory) × (xs : List ℕ) × (mem_map 0x1000 (512 * 4096) 0x10000 0x100000 bare_machine
      ≡ some m')
    × IsFreeList m' xs
    × ((i : ℕ)
        → has i xs ≡ (leb 512 i && is_free (0x100000 + 0x1000) (512 * 4096 + 0x10000) (i * 4096)))
    × ((i : ℕ)
        → 512 ≤ i
        → i * 4096 < 512 * 4096 + 0x10000
        → ((m'.pagelist i).address ≡ i * 4096)
          × ((m'.pagelist i).ref_count ≡ (if has i xs then 0 else 1)))
mem_map-IsFreeList_example =
    mem_map-IsFreeList 0x1000 0x10000 0x100000 512 bare_machine refl (omega arith) (omega arith)
