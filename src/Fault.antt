-- ===== src/Fault.antt =====
-- `isr14` of sys/idt.c: the page fault handler.
pub mod CopyOnWrite
use osproject.Prelude.{
  ℕ, ◌+◌, ◌-◌, ◌/◌, ◌%◌, ◌^◌, Bool, true, false, ◌&&◌, ◌||◌, List, [], ◌∷◌, Option, none, some, ltb,
  ◌==◌, if◌then◌else◌,
}
use osproject.Prelude.State.{Op, pure, ◌>>=◌, ◌>>◌}
use osproject.Paging.Frames.{Memory, allocate_page, free, getrefcount}
use osproject.Paging.Tables.{page_of, slot, index1, load, store, get_pte, init_pages_for_process}
use osproject.Paging.Space.{bit_of, set_bit, clear_bit, change}
use osproject.Process.{Task, Vma, Kernel, current}
use osproject.Process.Life.{exit}
use osproject.Process.Wait.{on_memory}

-- Whether the address lies in one of the areas.
unfoldable pub in_area : ℕ → List Vma → Bool
in_area bb [] = false
in_area bb (v ∷ vm) = (ltb v.vm_start bb && ltb bb v.vm_end) || in_area bb vm

-- The two tests before the tables are looked at; the first area is the stack, which grows down from its
-- start. With no area the handler reads through NULL.
unfoldable pub is_allowed : ℕ → List Vma → Option Bool
unfolding in_area
is_allowed bb [] = none
is_allowed bb (v ∷ vm) =
    some ((ltb bb (v.vm_start + 4096) && ltb v.vm_end bb) || in_area bb (v ∷ vm))

-- `memcpy(…, 4096)` from the page that the fault is in, word by word.
unfoldable pub copy_page : ℕ → ℕ → Memory → Memory
copy_page to from m = record m {
  word = λ a. if ltb a to || ltb (to + 4095) a then m.word a else m.word (from + (a - to));
}

-- The writer gets a copy of the page `add`, which loses a reader.
unfoldable pub split_page : ℕ → ℕ → ℕ → Op Memory (Unit {0})
unfolding copy_page change allocate_page init_pages_for_process free
split_page bb pml4e add = do
  p_n ← allocate_page
  change (copy_page p_n add)
  init_pages_for_process (page_of bb) p_n pml4e
  change (free add)

-- A write to a shared page: with two readers the writer gets a copy, the last reader gets the page
-- back, and with any other number the handler spins.
unfoldable pub copy_on_write : ℕ → ℕ → ℕ → Op Memory (Unit {0})
unfolding split_page load store getrefcount
copy_on_write bb pml4e k = do
  e ← load (slot k (index1 bb))
  readers ← λ m. some (getrefcount (page_of e) m, m)
  if readers == 2
      then split_page bb pml4e (page_of e)
      else if readers == 1
      then store (slot k (index1 bb)) (clear_bit (set_bit e 1) 9)
      else λ m. none

-- A fault below the stack's start maps a new page.
unfoldable pub grow_stack : ℕ → ℕ → Op Memory (Unit {0})
unfolding allocate_page init_pages_for_process
grow_stack bb pml4e = do p_n ← allocate_page; init_pages_for_process (page_of bb) p_n pml4e

-- How the handler leaves: the faulting instruction is run again, or the process has ended.
pub data Outcome : Type 0 where
  retry killed : Outcome

unfoldable pub kill_current : Op Kernel Outcome
unfolding exit
kill_current k = some (killed, exit k)

-- Whether the entry is marked for copying, and what follows.
unfoldable pub handle_allowed : ℕ → Vma → Op Kernel Outcome
unfolding copy_on_write grow_stack kill_current on_memory get_pte load
handle_allowed bb stack k =
    (do
      t ← on_memory (get_pte bb (current k).pml4e)
      e ← on_memory (load (slot t (index1 bb)))
      if bit_of e 9
          then (do on_memory (copy_on_write bb (current k).pml4e t); pure retry)
          else if ltb bb stack.vm_start && ltb stack.vm_end bb
          then (do on_memory (grow_stack bb (current k).pml4e); pure retry)
          else kill_current)
      k

unfoldable pub isr14_in : ℕ → List Vma → Op Kernel Outcome
unfolding is_allowed handle_allowed
isr14_in bb [] k = none
isr14_in bb (v ∷ vm) k = elim (is_allowed bb (v ∷ vm)) [
  | none ↦ none
  | some ok ↦ (if ok then handle_allowed bb v else kill_current) k
]

-- `isr14` at the address that CR2 holds.
unfoldable pub isr14 : ℕ → Op Kernel Outcome
unfolding isr14_in
isr14 bb k = isr14_in bb (current k).vm k
