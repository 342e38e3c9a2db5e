-- ===== src/Exec/Elf.antt =====
-- include/sys/elf64.h and the loop over program headers that `create_process` and `execvpe` share.
use osproject.Prelude.{
  ℕ, zero, suc, ◌+◌, ◌-◌, ◌*◌, ◌/◌, ◌%◌, ◌^◌, List, [], ◌∷◌, some, ltb, ◌==◌, if◌then◌else◌,
}
use osproject.Prelude.State.{Op, pure, ◌>>=◌, ◌>>◌}
use osproject.Paging.Frames.{Memory, allocate_page}
use osproject.Paging.Tables.{page_of, init_pages_for_process}
use osproject.Paging.Tables.Kmalloc.{kmalloc}
use osproject.Process.{Vma}
use osproject.Process.Fork.{vma_bytes}

-- The number that stands in `n` bytes at `a`, the lowest first.
unfoldable pub little_endian : (ℕ → ℕ) → ℕ → ℕ → ℕ
little_endian byte zero a = 0
little_endian byte (suc n) a = byte a + 256 * little_endian byte n (a + 1)

-- The fields of `Elf64_Ehdr` that are used, with the header's address.
pub record Ehdr : Type 0 where
  pub address : ℕ
  pub e_entry : ℕ
  pub e_phoff : ℕ
  pub e_phnum : ℕ

-- The fields of `Elf64_Phdr` that are used.
pub record Phdr : Type 0 where
  pub p_type : ℕ
  pub p_offset : ℕ
  pub p_vaddr : ℕ
  pub p_filesz : ℕ
  pub p_memsz : ℕ

unfoldable pub ehdr_at : (ℕ → ℕ) → ℕ → Ehdr
unfolding little_endian
ehdr_at byte a = record {
  address = a;
  e_entry = little_endian byte 8 (a + 24);
  e_phoff = little_endian byte 8 (a + 32);
  e_phnum = little_endian byte 2 (a + 56);
}

unfoldable pub phdr_at : (ℕ → ℕ) → ℕ → Phdr
unfolding little_endian
phdr_at byte a = record {
  p_type = little_endian byte 4 a;
  p_offset = little_endian byte 8 (a + 8);
  p_vaddr = little_endian byte 8 (a + 16);
  p_filesz = little_endian byte 8 (a + 32);
  p_memsz = little_endian byte 8 (a + 40);
}

-- What the processor copies while the new address space is loaded: `bytes` bytes from `from`, and
-- `zeros` zeros behind them.
pub record Copy : Type 0 where
  pub to : ℕ
  pub from : ℕ
  pub bytes : ℕ
  pub zeros : ℕ

-- The `memcpy` and `memset` of a segment; `eh + ep->p_offset` counts in headers of 64 bytes.
unfoldable pub copy_of : Ehdr → Phdr → Copy
copy_of eh ep = record {
  to = ep.p_vaddr;
  from = (eh.address + 64 * ep.p_offset) % 2 ^ 64;
  bytes = ep.p_filesz;
  zeros = (ep.p_memsz + 2 ^ 64 - ep.p_filesz) % 2 ^ 64;
}

-- What loading changes: the areas, the list's first one first, and the copies, the last one first.
pub record Image : Type 0 where
  pub vm : List Vma
  pub copies : List Copy

-- `for (; k < vm_end; k += 4096)`: a new page for each page of the segment.
unfoldable pub map_pages : ℕ → ℕ → ℕ → ℕ → Op Memory (Unit {0})
unfolding allocate_page init_pages_for_process
map_pages zero k vm_end pml4 m = some (tt, m)
map_pages (suc n) k vm_end pml4 m =
    let round =
      (do
        yy ← allocate_page
        init_pages_for_process k yy pml4
        map_pages n ((k + 4096) % 2 ^ 64) vm_end pml4)
        m in
    if ltb k vm_end then round else some (tt, m)

-- A segment of type 1 gets an area, pages and its bytes; the others are passed over.
unfoldable pub load_segment : Ehdr → Phdr → ℕ → Image → Op Memory Image
unfolding map_pages kmalloc copy_of
load_segment eh ep pml4 image =
    if ep.p_type == 1
    then (do
      node ← kmalloc vma_bytes
      let vm_end = (ep.p_vaddr + ep.p_memsz) % 2 ^ 64
      let first = page_of ep.p_vaddr
      map_pages ((vm_end - first) / 4096 + 1) first vm_end pml4
      pure (record {
        vm = record { node = node; vm_start = ep.p_vaddr; vm_end = vm_end } ∷ image.vm;
        copies = copy_of eh ep ∷ image.copies;
      }))
    else pure image

-- `for (i = no_ph; i > 0; i--)`: the last header first.
unfoldable pub load_segments : (ℕ → ℕ) → Ehdr → ℕ → ℕ → Image → Op Memory Image
unfolding load_segment phdr_at
load_segments byte eh pml4 zero image = pure image
load_segments byte eh pml4 (suc i) image = do
  image' ← load_segment eh (phdr_at byte ((eh.address + eh.e_phoff + 56 * i) % 2 ^ 64)) pml4 image
  load_segments byte eh pml4 i image'

-- The two areas behind the segments: the heap, which is empty, and the stack, with its first page.
abbrev pub heap_base : ℕ
heap_base = 0x4B0FFFFF0000

abbrev pub stack_limit : ℕ
stack_limit = 0x100FFEFF0000

abbrev pub stack_base : ℕ
stack_base = 0x100FFFFF0000

unfoldable pub add_areas : ℕ → Image → Op Memory Image
unfolding kmalloc allocate_page init_pages_for_process
add_areas pml4 image = do
  heap ← kmalloc vma_bytes
  s_add ← allocate_page
  init_pages_for_process stack_base s_add pml4
  stack ← kmalloc vma_bytes
  pure (record image {
    vm =
        record { node = stack; vm_start = stack_base; vm_end = stack_limit }
        ∷ record { node = heap; vm_start = heap_base; vm_end = heap_base }
        ∷ image.vm;
  })

-- Everything that is loaded for the program whose header is `eh`, into the table at `pml4`.
unfoldable pub load_program : (ℕ → ℕ) → Ehdr → ℕ → List Vma → Op Memory Image
unfolding load_segments add_areas
load_program byte eh pml4 vm = do
  image ← load_segments byte eh pml4 eh.e_phnum (record { vm = vm; copies = [] })
  add_areas pml4 image
