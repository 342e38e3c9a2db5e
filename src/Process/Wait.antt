-- ===== src/Process/Wait.antt =====
-- `removeProcess`, `wait` and `waitpid` of sys/process.c.
pub mod Total
pub mod Reap
use osproject.Prelude.{ℕ, Bool, ◌&&◌, List, [], ◌∷◌, Option, none, some, ◌==◌, if◌then◌else◌}
use osproject.Prelude.State.{Op, pure, ◌>>=◌, ◌>>◌}
use osproject.Prelude.Loops.{first_from}
use osproject.Paging.Frames.{Memory, free}
use osproject.Paging.Space.{change, dealloc_pml4}
use osproject.Paging.Tables.Kmalloc.{physical}
use osproject.Process.{
  Task, Vma, Kernel, zombie, ready, wait, is, max, current, set_state, yield_to,
}

-- An operation on memory alone.
unfoldable pub on_memory : {A : Type 0} → Op Memory A → Op Kernel A
on_memory m k = elim (m k.memory) [ none ↦ none | some (a, n) ↦ some (a, record k { memory = n }) ]

-- The structs of a list of areas go back to the allocator.
unfoldable pub free_areas : List Vma → Op Memory (Unit {0})
unfolding change
free_areas [] = pure tt
free_areas (v ∷ vm) = do change (free (physical v.node)); free_areas vm

-- `removeProcess`.
unfoldable pub remove_process : ℕ → Op Kernel (Unit {0})
unfolding on_memory free_areas
remove_process i k =
    (do
      on_memory (free_areas (k.q i).vm)
      on_memory (dealloc_pml4 (k.q i).pml4e)
      on_memory (change (free (k.q i).pml4e)))
      k

-- A zombie that belongs to the current process.
unfoldable pub is_dead_child : Kernel → ℕ → Bool
is_dead_child k i = ((k.q i).ppid == (current k).pid) && is (k.q i).state zombie

-- `removeProcess(i); q[i].state = READY; return i;`.
unfoldable pub reap : ℕ → Op Kernel ℕ
reap i = do remove_process i; λ k. some (i, set_state i ready k)

-- One look through the table; `none` when no child has died.
unfoldable pub wait_scan : Op Kernel (Option ℕ)
wait_scan k = elim (first_from max 0 (is_dead_child k)) [
  | none ↦ some (none, k)
  | some i ↦ elim (reap i k) [ none ↦ none | some (j, k') ↦ some (some j, k') ]
]

-- `wait` from its entry, or from the top of its loop, to its return or its `yield`.
unfoldable pub wait_enter : Op Kernel (Option ℕ)
wait_enter = do
  found ← wait_scan
  elim found [ some i ↦ pure (some i) | none ↦ λ k. some (none, yield_to (set_state k.r wait k)) ]

-- From the return of `yield` on: a second look before the loop begins anew.
unfoldable pub wait_resume : Op Kernel (Option ℕ)
wait_resume = do found ← wait_scan; elim found [ some i ↦ pure (some i) | none ↦ wait_enter ]

-- `waitpid` to its return or its first `yield`.
unfoldable pub waitpid_enter : ℕ → Op Kernel (Option ℕ)
waitpid_enter i k =
    let done = (do j ← reap i; pure (some j)) k in
    if is_dead_child k i then done else some (none, yield_to (set_state k.r wait k))

-- From the return of a `yield` to the next: the state is not set to WAIT again.
unfoldable pub waitpid_resume : ℕ → Op Kernel (Option ℕ)
waitpid_resume i k =
    let done = (do j ← reap i; pure (some j)) k in
    if is_dead_child k i then done else some (none, yield_to k)
