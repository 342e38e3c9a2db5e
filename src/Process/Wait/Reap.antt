-- ===== src/Process/Wait/Reap.antt =====
-- `wait` of sys/process.c finds the child that `exit` left.
use osproject.Prelude.{
  ℕ, ◌<◌, ◌≡◌, ◌≢◌, ◌∙◌, sym, true, false, Option, none, some, arith, Option-cases, inl, inr,
}
use osproject.Prelude.State.{◌>>=◌}
use osproject.Prelude.Loops.{first_from, first_from-some, first_from-none}
use osproject.Paging.Frames.{Memory}
use mathlib.Core.Path.{subst}
use osproject.Process.{Kernel, zombie, ready, wait, max, current, set_state, yield_to}
use osproject.Process.Life.{exit}
use osproject.Process.Life.Exit.{waker, exit-Death}
use osproject.Process.Wait.{is_dead_child, reap, wait_scan, wait_enter, wait_resume}
use osproject.Process.Wait.Total.{remove_process-Total}

-- What is left when child `i` is reaped: its slot is free, and only memory has changed besides.
abbrev pub reaped : ℕ → Memory → Kernel → Kernel
reaped i n k = set_state i ready (record k { memory = n })

pub reap_lem : (i : ℕ) (k : Kernel) → (n : Memory) × (reap i k ≡ some (i, reaped i n k))
unfolding reap
reap_lem i k = let (n, e) = remove_process-Total i k in (n, rw (e, ◌>>=◌))

-- `wait`, from its entry to its return or its first `yield`: it returns at once exactly if some child
-- is a zombie, with the least such slot, which is then free; otherwise it waits and yields.
pub data Waits (k : Kernel) : Option (Option ℕ × Kernel) → Type 0 where
  returns :
      (i : ℕ) (n : Memory)
      → i < max
      → is_dead_child k i ≡ true
      → ((j : ℕ) → j < i → is_dead_child k j ≡ false)
      → Waits k (some (some i, reaped i n k))
  blocks :
      ((j : ℕ) → j < max → is_dead_child k j ≡ false)
      → Waits k (some (none, yield_to (set_state k.r wait k)))

pub scan_found :
    (k : Kernel) (i : ℕ)
    → first_from max 0 (is_dead_child k) ≡ some i
    → (n : Memory) × (wait_scan k ≡ some (some i, reaped i n k))
unfolding wait_scan
scan_found k i e = let (n, er) = reap_lem i k in (n, rw (e, wait_scan) (rw er))

pub scan_missed :
    (k : Kernel) → first_from max 0 (is_dead_child k) ≡ none → wait_scan k ≡ some (none, k)
unfolding wait_scan
scan_missed k e = rw (e, wait_scan)

-- `wait`, from its entry to its return or its first `yield`, either returns the least slot that is a dead
-- child of the current process, which is then ready, with nothing else changed but memory, or there is no
-- dead child, and the process waits and yields.
pub wait_enter-Waits : (k : Kernel) → Waits k (wait_enter k)
unfolding wait_enter
wait_enter-Waits k = elim (Option-cases (first_from max 0 (is_dead_child k))) [
  | inl e ↦
      rw (scan_missed k e, ◌>>=◌)
        (blocks λ j h. first_from-none max 0 (is_dead_child k) e j (omega arith) h)
  | inr (i, e) ↦
      let (n, er) = scan_found k i e in
      let (_, lt, hit, miss) = first_from-some max 0 (is_dead_child k) {k = i} e in
      rw (er, ◌>>=◌) (returns i n lt hit λ j h. miss j (omega arith) h)
]

-- When a process has called `exit` and its parent, whose pid is its slot in the table and differs from the
-- dead process's slot and pid, is resumed in `wait`, then `wait` returns a dead child without blocking
-- again.
pub wait_resume-exit :
    (k : Kernel) (p : ℕ)
    → k.r < max
    → p < max
    → p ≢ k.r
    → (current k).ppid ≡ p
    → (current k).pid ≢ p
    → (k.q p).pid ≡ p
    → let k' = record (exit k) { r = p } in
      (i : ℕ) × (k'' : Kernel) × (wait_resume k' ≡ some (some i, k'')) × (is_dead_child k' i ≡ true)
unfolding wait_resume is_dead_child
wait_resume-exit k p hr hp ne parent other own =
    let waking : waker k.r (current k).pid k ≡ p = ground arith in
    let d = exit-Death k hr (subst (λ x. x < max) (sym waking) hp) in
    let k' = record (exit k) { r = p } in
    let mine : ((exit k).q k.r).ppid ≡ p = d.orphans k.r hr ∙ waking in
    let still : ((exit k).q p).pid ≡ p = d.pids p hp ∙ own in
    resumed k' k.r hr (dead_child k' k.r (mine ∙ sym still) d.dead)
  where
    dead_child :
        (k' : Kernel) (j : ℕ)
        → (k'.q j).ppid ≡ (current k').pid
        → (k'.q j).state ≡ zombie
        → is_dead_child k' j ≡ true
    dead_child k' j e z = ground arith

    resumed :
        (k' : Kernel) (j : ℕ)
        → j < max
        → is_dead_child k' j ≡ true
        → (i : ℕ) × (k'' : Kernel) × (wait_resume k' ≡ some (some i, k''))
          × (is_dead_child k' i ≡ true)
    resumed k' j h dead = elim (Option-cases (first_from max 0 (is_dead_child k'))) [
      | inl e ↦
          let missed = first_from-none max 0 (is_dead_child k') e j (omega arith) h in absurd (cc)
      | inr (i, e) ↦
          let (n, er) = scan_found k' i e in
          let (_, _, hit, _) = first_from-some max 0 (is_dead_child k') {k = i} e in
          (i, reaped i n k', rw (er, ◌>>=◌), hit)
    ]
