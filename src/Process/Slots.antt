-- ===== src/Process/Slots.antt =====
-- Loops over all slots of the process table, and `newPID` of sys/process.c.
use osproject.Prelude.{
  ℕ, zero, suc, ◌+◌, ◌≤◌, ◌<◌, ◌≡◌, refl, ap, ◌∙◌, true, false, Option, none, some, arith,
  Option-cases, inl, inr, sym,
}
use native.Mathlib.Decide.{ℕ_discrete}
use mathlib.Core.Path.{subst}
use osproject.Prelude.Loops.{
  update, update_self, update_other, for_range, first_from, first_from-some, first_from-none,
}
use osproject.Process.{Task, ready, is, max, sweep, new_pid}

module _ (g : Task → Task) where
  sweep_before :
      (n i : ℕ) (q : ℕ → Task) (j : ℕ)
      → j < i
      → for_range n i (λ i t. update t i (g (t i))) q j ≡ q j
  unfolding for_range
  sweep_before zero i q j h = refl
  sweep_before (suc n) i q j h =
      sweep_before n (i + 1) (update q i (g (q i))) j (omega arith)
      ∙ update_other q i (g (q i)) j (omega arith)

  sweep_in :
      (n i : ℕ) (q : ℕ → Task) (j : ℕ)
      → i ≤ j
      → j < i + n
      → for_range n i (λ i t. update t i (g (t i))) q j ≡ g (q j)
  unfolding for_range
  sweep_in zero i q j h k = absurd (omega arith)
  sweep_in (suc n) i q j h k = elim (ℕ_discrete i j) [
    | yes e ↦
        sweep_before n (i + 1) (update q i (g (q i))) j (omega arith)
        ∙ subst (λ x. update q i (g (q i)) x ≡ g (q x)) e (update_self q i (g (q i)))
    | no ne ↦
        sweep_in n (i + 1) (update q i (g (q i))) j (omega arith) (omega arith)
        ∙ ap g (update_other q i (g (q i)) j ne)
  ]

  sweep_after :
      (n i : ℕ) (q : ℕ → Task) (j : ℕ)
      → i + n ≤ j
      → for_range n i (λ i t. update t i (g (t i))) q j ≡ q j
  unfolding for_range
  sweep_after zero i q j h = refl
  sweep_after (suc n) i q j h =
      sweep_after n (i + 1) (update q i (g (q i))) j (omega arith)
      ∙ update_other q i (g (q i)) j (omega arith)

-- Each slot of the table is changed once.
pub sweep-at : (g : Task → Task) (q : ℕ → Task) (j : ℕ) → j < max → sweep g q j ≡ g (q j)
unfolding sweep
sweep-at g q j h = sweep_in g max 0 q j (omega arith) h

pub sweep_outside : (g : Task → Task) (q : ℕ → Task) (j : ℕ) → max ≤ j → sweep g q j ≡ q j
unfolding sweep
sweep_outside g q j h = sweep_after g max 0 q j h

-- What `newPID` may return for a table: the least free slot, or none when no slot is free.
pub data LeastFree (q : ℕ → Task) : Option ℕ → Type 0 where
  found :
      (i : ℕ)
      → i < max
      → is (q i).state ready ≡ true
      → ((j : ℕ) → j < i → is (q j).state ready ≡ false)
      → LeastFree q (some i)
  full : ((j : ℕ) → j < max → is (q j).state ready ≡ false) → LeastFree q none

-- For every table, `newPID` finds the least slot that is ready; it fails exactly when no slot of the
-- table is ready.
pub new_pid-LeastFree : (q : ℕ → Task) → LeastFree q (new_pid q)
unfolding new_pid
new_pid-LeastFree q = elim (Option-cases (first_from max 0 (λ i. is (q i).state ready))) [
  | inl e ↦
      subst (LeastFree q) (sym e)
        (full (λ j h. first_from-none max 0 (λ i. is (q i).state ready) e j (omega arith) h))
  | inr (i, e) ↦
      let (_, lt, hit, miss) = first_from-some max 0 (λ i. is (q i).state ready) {k = i} e in
      subst (LeastFree q) (sym e) (found i lt hit (λ j h. miss j (omega arith) h))
]
