-- ===== src/Process/Yield.antt =====
-- `yield` of sys/proc_man.c: which process goes on.
use osproject.Prelude.{
  ℕ, zero, suc, ◌+◌, ◌-◌, ◌%◌, ◌≤◌, ◌<◌, ◌≡◌, ◌≢◌, ◌∙◌, sym, ◌⊎◌, inl, inr, true, false, arith,
  ◌==◌, ==_iff, Bool-cases,
}
use native.Mathlib.Decide.{ℕ_discrete}
use mathlib.Core.Path.{subst}
use osproject.Process.{Task, Kernel, running, is, max, current, find_next, yield_to}

-- The slots from `i` on, round the table: `j` is `d` steps away, none of the slots before it runs, and
-- it runs itself or is `last`.
abbrev pub NextFrom : (ℕ → Task) → ℕ → ℕ → ℕ → Type 0
NextFrom q last i j =
    (d : ℕ) × (j ≡ (i + d) % max)
    × (d ≤ (last + max - i) % max)
    × ((e : ℕ) → e < d → is (q ((i + e) % max)).state running ≡ false)
    × ((j ≡ last) ⊎ (is (q j).state running ≡ true))

find_next-NextFrom :
    (fuel : ℕ) (q : ℕ → Task) (last i : ℕ)
    → last < max
    → i < max
    → (last + max - i) % max < fuel
    → NextFrom q last i (find_next fuel q last i)
unfolding find_next
find_next-NextFrom zero q last i p o f = absurd (omega arith)
find_next-NextFrom (suc fuel) q last i p o f = elim (ℕ_discrete i last) [
  | yes e ↦
      rw ((==_iff i last).1 e) (0, omega arith, omega arith, λ k h. absurd (omega arith), inl e)
  | no ne ↦ elim (Bool-cases (is (q i).state running)) [
    | inl hit ↦
        rw (miss_eq ne, hit) (0, omega arith, omega arith, λ k h. absurd (omega arith), inr hit)
    | inr miss ↦
        let (d, at, near, before, end) =
          find_next-NextFrom fuel q last ((i + 1) % max) p (omega arith) (omega arith) in
        rw (miss_eq ne, miss) (d + 1, at ∙ omega arith, omega arith, earlier d before miss, end)
  ]
]
  where
    miss_eq : i ≢ last → (i == last) ≡ false
    miss_eq ne = ground arith

    earlier :
        (d : ℕ)
        → ((e : ℕ) → e < d → is (q (((i + 1) % max + e) % max)).state running ≡ false)
        → is (q i).state running ≡ false
        → (e : ℕ) → e < d + 1
        → is (q ((i + e) % max)).state running ≡ false
    earlier d before miss e h = elim (ℕ_discrete e 0) [
      | yes z ↦ let here : (i + e) % max ≡ i = omega arith in rw here miss
      | no nz ↦
          let there : (i + e) % max ≡ ((i + 1) % max + (e - 1)) % max = omega arith in
          rw there (before (e - 1) (omega arith))
    ]

-- If the current pid is an index of the table, `yield` goes on with the first running slot after it, round
-- the table; it goes on with the current one only if no slot in between runs.
pub yield_to-NextFrom :
    (k : Kernel)
    → (current k).pid < max
    → NextFrom k.q (current k).pid (((current k).pid + 1) % max) (yield_to k).r
unfolding yield_to
yield_to-NextFrom k h =
    find_next-NextFrom max k.q (current k).pid (((current k).pid + 1) % max) h (omega arith)
      (omega arith)

-- If the current pid is an index of the table and any slot of the table runs, the slot that `yield` picks
-- runs.
pub yield_to_runs :
    (k : Kernel) (j : ℕ)
    → (current k).pid < max
    → j < max
    → is (k.q j).state running ≡ true
    → is (k.q (yield_to k).r).state running ≡ true
yield_to_runs k j h lt runs = finish (yield_to-NextFrom k h)
  where
    p : ℕ
    p = (current k).pid

    finish :
        NextFrom k.q (current k).pid (((current k).pid + 1) % max) (yield_to k).r
        → is (k.q (yield_to k).r).state running ≡ true
    finish (d, at, near, before, inr hit) = hit
    finish (d, at, near, before, inl same) = elim (ℕ_discrete j (current k).pid) [
      | yes e ↦ rw (same, sym e) runs
      | no ne ↦
          let e = (j + max - ((current k).pid + 1) % max) % max in
          let back : (((current k).pid + 1) % max + e) % max ≡ j = omega arith in
          let miss : is (k.q j).state running ≡ false =
            subst (λ x. is (k.q x).state running ≡ false) back (before e (omega arith)) in
          cc
    ]
