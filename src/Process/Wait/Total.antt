-- ===== src/Process/Wait/Total.antt =====
-- Giving memory back always comes to an end: the loops of `dealloc_pml4` and `removeProcess` neither
-- spin nor fault.
use osproject.Prelude.{ℕ, zero, suc, ◌+◌, ◌≡◌, refl, Bool, true, false, List, [], ◌∷◌, some}
use osproject.Prelude.State.{Op, ◌>>=◌, for_op, when}
use osproject.Paging.Frames.{Memory, free}
use osproject.Paging.Tables.{load, store, present, page_of, slot}
use osproject.Paging.Tables.Kmalloc.{physical}
use osproject.Paging.Space.{change, dealloc_entry, dealloc_under, dealloc_pml4}
use osproject.Process.{Vma, Kernel}
use osproject.Process.Wait.{on_memory, free_areas, remove_process}

abbrev pub Total : {S A : Type 0} → Op S A → Type 0
Total {S} {A} op = (s : S) → (a : A) × (s' : S) × (op s ≡ some (a, s'))

bind-Total :
    {S A B : Type 0} (m : Op S A) (f : A → Op S B)
    → Total m
    → ((a : A) → Total (f a))
    → Total (m >>= f)
bind-Total m f tm tf s =
    let (a, s', e) = tm s in let (b, s'', e') = tf a s' in (b, s'', rw (e, ◌>>=◌) e')

for_op-Total :
    {S : Type 0} (n i : ℕ) (body : ℕ → Op S (Unit {0}))
    → ((j : ℕ) → Total (body j))
    → Total (for_op n i body)
unfolding for_op
for_op-Total zero i body h = λ s. (tt, s, refl)
for_op-Total (suc n) i body h =
    bind-Total (body i) (λ _. for_op n (i + 1) body) (h i) (λ _. for_op-Total n (i + 1) body h)

when-Total : {S : Type 0} (b : Bool) (m : Op S (Unit {0})) → Total m → Total (when b m)
when-Total true m h = h
when-Total false m h = λ s. (tt, s, refl)

load-Total : (a : ℕ) → Total (load a)
unfolding load
load-Total a s = (s.word a, s, refl)

store-Total : (a w : ℕ) → Total (store a w)
unfolding store
store-Total a w s = (tt, _, refl)

change-Total : (f : Memory → Memory) → Total (change f)
unfolding change
change-Total f s = (tt, f s, refl)

dealloc_entry-Total : (p l : ℕ) → Total (dealloc_entry p l)
unfolding dealloc_entry
dealloc_entry-Total p l = bind-Total (load (slot p l)) _ (load-Total _) λ e.
    bind-Total (when (present e) (change (free (page_of e)))) _
      (when-Total (present e) _ (change-Total _)) λ _. store-Total (slot p l) 0

dealloc_under-Total :
    (below : ℕ → ℕ → Op Memory (Unit {0}))
    → ((p l : ℕ) → Total (below p l))
    → (p i : ℕ) → Total (dealloc_under below p i)
unfolding dealloc_under
dealloc_under-Total below h p i = bind-Total (load (slot p i)) _ (load-Total _) λ e.
    bind-Total (when (present e) _) _
      (when-Total (present e) _ (
        bind-Total (for_op 512 0 (below (page_of e))) _ (for_op-Total 512 0 _ (h (page_of e)))
          λ _. bind-Total (load (slot p i)) _ (load-Total _) λ f. change-Total (free (page_of f))))
      λ _. store-Total (slot p i) 0

pub dealloc_pml4-Total : (p : ℕ) → Total (dealloc_pml4 p)
unfolding dealloc_pml4
dealloc_pml4-Total p =
    for_op-Total 511 0 _
      (dealloc_under-Total _ (dealloc_under-Total _ (dealloc_under-Total _ dealloc_entry-Total)) p)

free_areas-Total : (vm : List Vma) → Total (free_areas vm)
unfolding free_areas
free_areas-Total [] = λ s. (tt, s, refl)
free_areas-Total (v ∷ vm) =
    bind-Total (change (free (physical v.node))) _ (change-Total _) λ _. free_areas-Total vm

-- What is done to memory alone keeps the process table.
on_memory-Total :
    {A : Type 0} (m : Op Memory A)
    → Total m
    → (k : Kernel) → (a : A) × (n : Memory) × (on_memory m k ≡ some (a, record k { memory = n }))
unfolding on_memory
on_memory-Total m h k = let (a, n, e) = h k.memory in (a, n, rw (e, on_memory))

-- `removeProcess` always returns, and it changes nothing but memory.
pub remove_process-Total :
    (i : ℕ) (k : Kernel) → (n : Memory) × (remove_process i k ≡ some (tt, record k { memory = n }))
unfolding remove_process
remove_process-Total i k =
    let (_, a, ea) = on_memory-Total (free_areas (k.q i).vm) (free_areas-Total (k.q i).vm) k in
    let (_, b, eb) =
      on_memory-Total (dealloc_pml4 (k.q i).pml4e) (dealloc_pml4-Total (k.q i).pml4e)
        (record k { memory = a }) in
    let (_, c, ec) =
      on_memory-Total (change (free (k.q i).pml4e)) (change-Total (free (k.q i).pml4e))
        (record k { memory = b }) in
    (c, rw (ea, ◌>>=◌) (rw (eb, ◌>>=◌) ec))
