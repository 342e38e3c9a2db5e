-- ===== src/Process/System/Blocking.antt =====
-- `wait` and `waitpid` of sys/process.c and the process table.
use osproject.Prelude.{
  ℕ, ◌<◌, ◌≡◌, refl, sym, ◌∙◌, false, Option, none, some, inl, inr, Bool-cases, Option-cases,
}
use mathlib.Core.Path.{subst}
use osproject.Prelude.State.{Op, pure, ◌>>=◌, >>=-eq-some}
use osproject.Prelude.Loops.{first_from, first_from-some}
use osproject.Process.{Task, Kernel, ready, wait, max, set_state, yield_to, listed}
use osproject.Paging.Frames.{Memory}
use osproject.Process.Wait.{
  wait_enter, wait_resume, wait_scan, is_dead_child, waitpid_enter, waitpid_resume,
}
use osproject.Process.Wait.Reap.{
  reaped, reap_lem, scan_found, scan_missed, Waits, returns, blocks, wait_enter-Waits,
}
use osproject.Process.System.{IsTable, put-IsTable, yield_to-IsTable}

ready_listed : (t : Task) → listed (record t { state = ready }) ≡ false
unfolding listed
ready_listed t = refl

reaped-IsTable : (i : ℕ) (n : Memory) (k : Kernel) → i < max → IsTable k → IsTable (reaped i n k)
reaped-IsTable i n k lt h =
    put-IsTable (record k { memory = n }) i _
      (record { inside = h.inside; own = h.own; good = h.good }) refl
      ((h.good i lt).0, inl (ready_listed (k.q i)))

blocked-IsTable : (k : Kernel) → IsTable k → IsTable (yield_to (set_state k.r wait k))
blocked-IsTable k h =
    yield_to-IsTable _ (put-IsTable k k.r _ h refl ((h.good k.r h.inside).0, inr h.own))

after :
    {A S : Type 0} {a b : A} {s t : S}
    → ◌≡◌ {A = Option (A × S)} (some (a, s)) (some (b, t))
    → s ≡ t
after e = cc

pub wait_enter-IsTable :
    (k k' : Kernel) (o : Option ℕ) → wait_enter k ≡ some (o, k') → IsTable k → IsTable k'
wait_enter-IsTable k k' o e h = ended (wait_enter k) e (wait_enter-Waits k)
  where
    ended : (end : Option (Option ℕ × Kernel)) → end ≡ some (o, k') → Waits k end → IsTable k'
    ended end at (returns i n lt hit miss) = subst IsTable (after at) (reaped-IsTable i n k lt h)
    ended end at (blocks miss) = subst IsTable (after at) (blocked-IsTable k h)

wait_scan-IsTable :
    (k k' : Kernel) (o : Option ℕ) → wait_scan k ≡ some (o, k') → IsTable k → IsTable k'
wait_scan-IsTable k k' o e h = elim (Option-cases (first_from max 0 (is_dead_child k))) [
  | inl none_dead ↦ subst IsTable (after (sym (scan_missed k none_dead) ∙ e)) h
  | inr (i, at) ↦
      let (n, er) = scan_found k i at in
      let (_, lt, _, _) = first_from-some max 0 (is_dead_child k) {k = i} at in
      subst IsTable (after (sym er ∙ e)) (reaped-IsTable i n k lt h)
]

pub wait_resume-IsTable :
    (k k' : Kernel) (o : Option ℕ) → wait_resume k ≡ some (o, k') → IsTable k → IsTable k'
unfolding wait_resume
wait_resume-IsTable k k' o e h =
    let (found, n, at, e') = >>=-eq-some wait_scan _ k k' o e in
    again found n e' (wait_scan-IsTable k n found at h)
  where
    again :
        (found : Option ℕ) (n : Kernel)
        → ◌≡◌ {A = Option (Option ℕ × Kernel)}
            ((elim found as (λ x. Op Kernel (Option ℕ)) [
              | none ↦ wait_enter
              | some i ↦ pure (some i)
            ])
              n)
            (some (o, k'))
        → IsTable n
        → IsTable k'
    again none n e h = wait_enter-IsTable n k' o e h
    again (some i) n e h = subst IsTable (after e) h

pub waitpid_enter-IsTable :
    (i : ℕ) (k k' : Kernel) (o : Option ℕ)
    → i < max
    → waitpid_enter i k ≡ some (o, k')
    → IsTable k
    → IsTable k'
unfolding waitpid_enter
waitpid_enter-IsTable i k k' o lt e h =
    let (n, er) = reap_lem i k in
    elim (Bool-cases (is_dead_child k i)) [
      | inl dead ↦ subst IsTable (after (rw (er, dead, ◌>>=◌) at e)) (reaped-IsTable i n k lt h)
      | inr alive ↦ subst IsTable (after (rw alive at e)) (blocked-IsTable k h)
    ]

pub waitpid_resume-IsTable :
    (i : ℕ) (k k' : Kernel) (o : Option ℕ)
    → i < max
    → waitpid_resume i k ≡ some (o, k')
    → IsTable k
    → IsTable k'
unfolding waitpid_resume
waitpid_resume-IsTable i k k' o lt e h =
    let (n, er) = reap_lem i k in
    elim (Bool-cases (is_dead_child k i)) [
      | inl dead ↦ subst IsTable (after (rw (er, dead, ◌>>=◌) at e)) (reaped-IsTable i n k lt h)
      | inr alive ↦ subst IsTable (after (rw alive at e)) (yield_to-IsTable k h)
    ]
