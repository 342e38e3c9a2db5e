-- ===== src/Process/Fork.antt =====
-- `copytask` and `fork` of sys/process.c, and `malloc`, which grows the heap of the current process.
pub mod Child
use osproject.Prelude.{
  ℕ, zero, suc, ◌+◌, ◌-◌, ◌*◌, ◌/◌, ◌%◌, ◌^◌, List, [], ◌∷◌, Option, none, some, ltb, ◌==◌,
  if◌then◌else◌,
}
use osproject.Prelude.State.{Op, pure, ◌>>=◌, ◌>>◌}
use osproject.Text.{strcpy}
use osproject.Paging.Frames.{Memory, allocate_page}
use osproject.Paging.Tables.{clear_table, init_pages_for_process}
use osproject.Paging.Tables.Kmalloc.{physical, allocate_page_for_process, kmalloc}
use osproject.Paging.Space.{copytables}
use osproject.Process.{Task, Vma, Kernel, running, current, put, new_pid}
use osproject.Process.Wait.{on_memory}

-- `sizeof(struct vm_area_struct)`.
abbrev pub vma_bytes : ℕ
vma_bytes = 48

-- The `while` loop of `copytask`: the areas in the same order, each in a struct of its own.
unfoldable pub copy_areas : List Vma → Op Memory (List Vma)
unfolding kmalloc
copy_areas [] = pure []
copy_areas (a ∷ vm) = do
  node ← kmalloc vma_bytes
  rest ← copy_areas vm
  pure (record a { node = node } ∷ rest)

-- A text that does not fit its array is written past the end, where the model stops.
unfoldable pub or_fault : {S A : Type 0} → Option A → Op S A
or_fault none s = none
or_fault (some a) s = some (a, s)

unfoldable pub get : {S : Type 0} → Op S S
get s = some (s, s)

-- `c = t`.
unfoldable pub assign : ℕ → Task → Op Kernel (Unit {0})
assign c t k = some (tt, put c t k)

-- `copytask` into slot `c`.
unfoldable pub copytask : ℕ → Op Kernel (Unit {0})
unfolding copy_areas or_fault get assign on_memory
copytask c = do
  k ← get
  v ← on_memory allocate_page_for_process
  on_memory (clear_table (physical v))
  name ← or_fault (strcpy (k.q c).name (current k).name)
  curr_dir ← or_fault (strcpy (k.q c).curr_dir (current k).curr_dir)
  on_memory (copytables (current k).pml4e (physical v))
  vm ← on_memory (copy_areas (current k).vm)
  assign c (record (k.q c) {
    ppid = (current k).pid;
    pml4e = physical v;
    name = name;
    curr_dir = curr_dir;
    vm = vm;
  })

-- What `fork` takes from the machine: the return address, the stack pointer, and where the kernel stack
-- of each slot ends.
pub record Machine : Type 0 where
  pub rip : ℕ
  pub rsp : ℕ
  pub kstack_top : ℕ → ℕ

-- The child's stack pointer, as far below the top of its own stack as the parent's is.
unfoldable pub child_rsp : Machine → ℕ → ℕ → ℕ
child_rsp m parent child =
    (m.kstack_top child + 2 ^ 64 - (m.kstack_top parent + 2 ^ 64 - m.rsp) % 2 ^ 64) % 2 ^ 64

-- The bottom of a user stack.
abbrev pub stack_base : ℕ
stack_base = 0x100FFFFF0000

-- `fork`, in the slot that `newPID` found; without a free slot it goes on at `q[-1]`, a fault.
unfoldable pub fork : Machine → Op Kernel ℕ
unfolding copytask child_rsp new_pid
fork m = do
  k ← get
  pid ← or_fault (new_pid k.q)
  assign pid (record (k.q pid) { pid = pid })
  copytask pid
  k' ← get
  assign pid
      (record (k'.q pid) { ustack = stack_base; rsp = stack_base + 511 * 8; state = running })
  k'' ← get
  assign k''.r (record (current k'') { child_count = (current k'').child_count + 1 })
  k3 ← get
  assign pid (record (k3.q pid) {
    kstack = λ i.
        if i == 14 then 9999 else if ltb i 512 then (current k3).kstack i else (k3.q pid).kstack i;
    reg_rip = m.rip;
    reg_rsp = child_rsp m k3.r pid;
  })
  pure pid

-- `malloc`: the pages are mapped at the end of the second area, the heap; the old end is returned.
unfoldable pub map_heap : ℕ → ℕ → ℕ → Op Memory ℕ
unfolding allocate_page init_pages_for_process
map_heap zero pml4e end = pure end
map_heap (suc n) pml4e end = do
  s_add ← allocate_page
  init_pages_for_process end s_add pml4e
  map_heap n pml4e (end + 4096)

-- With fewer than two areas the kernel reads through NULL.
unfoldable pub malloc_in : ℕ → List Vma → Op Kernel ℕ
unfolding map_heap get assign
malloc_in no_of_bytes [] k = none
malloc_in no_of_bytes (top ∷ []) k = none
malloc_in no_of_bytes (top ∷ heap ∷ vm) k =
    (do
      end ← on_memory (map_heap (no_of_bytes / 4096 + 1) (current k).pml4e heap.vm_end)
      k' ← get
      assign k'.r (record (current k') { vm = top ∷ record heap { vm_end = end } ∷ vm })
      pure heap.vm_end)
      k

unfoldable pub malloc : ℕ → Op Kernel ℕ
unfolding malloc_in
malloc no_of_bytes k = malloc_in no_of_bytes (current k).vm k
