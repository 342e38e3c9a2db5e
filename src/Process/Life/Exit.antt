-- ===== src/Process/Life/Exit.antt =====
-- `exit` and `kill` of sys/process.c: what becomes of the process, its children and its parent.
use osproject.Prelude.{
  ℕ, ◌<◌, ◌≡◌, ◌≢◌, refl, ap, ◌∙◌, sym, false, ◌&&◌, arith, ◌==◌, ==_iff, Bool-cases, if◌then◌else◌,
  inl, inr, ◌⊎◌,
}
use osproject.Prelude.Loops.{update_self, update_other}
use osproject.Process.{
  Task, Kernel, running, zombie, wait, is, max, current, sweep, set_state, yield_to,
}
use osproject.Process.Slots.{sweep-at}
use osproject.Process.Life.{reparent, wake_waiter, die, exit, kill}

-- The table after the death of slot `i`, slot by slot.
abbrev pub after_death : ℕ → ℕ → Kernel → ℕ → Task
after_death i pid k j = reparent pid ((set_state i zombie k).q j)

-- The slot whose parent is to be woken is read after the children have moved.
abbrev pub waker : ℕ → ℕ → Kernel → ℕ
waker i pid k = if (k.q i).ppid == pid then 0 else (k.q i).ppid

woken :
    (f : ℕ → Task) (k : Kernel) (p j : ℕ)
    → k.q p ≡ f p
    → k.q j ≡ f j
    → (wake_waiter p k).q j
      ≡ (if (p == j) && is (f p).state wait then record (f j) { state = running } else f j)
woken f k p j ep ej = elim (Bool-cases (is (f p).state wait)) [
  | inl waits ↦
      rw (ep, waits)
        (elim (Bool-cases (p == j)) [
          | inl same ↦ let e : p ≡ j = (==_iff p j).0 same in rw (same, e)
          | inr other ↦ rw (other, ej)
        ])
  | inr busy ↦
      rw (ep, busy)
        (elim (Bool-cases (p == j)) [ inl same ↦ rw (same, ej) | inr other ↦ rw (other, ej) ])
]

die-at :
    (i pid : ℕ) (k : Kernel) (j : ℕ)
    → i < max
    → j < max
    → waker i pid k < max
    → (die i pid k).q j ≡ (
        if (waker i pid k == j) && is (after_death i pid k (waker i pid k)).state wait
        then record (after_death i pid k j) { state = running }
        else after_death i pid k j)
unfolding die
die-at i pid k j hi hj hp =
    let marked = set_state i zombie k in
    let moved = record marked { q = sweep (reparent pid) marked.q } in
    let own : (moved.q i).ppid ≡ waker i pid k =
      ap (λ (t : Task). t.ppid) (sweep-at (reparent pid) marked.q i hi)
      ∙ ap (λ (t : Task). if t.ppid == pid then 0 else t.ppid)
          (update_self k.q i (record (k.q i) { state = zombie })) in
    ap (λ p. (wake_waiter p moved).q j) own
    ∙ woken (after_death i pid k) moved (waker i pid k) j (sweep-at (reparent pid) marked.q _ hp)
        (sweep-at (reparent pid) marked.q j hj)

-- What a death leaves, slot by slot: slot `i` is a zombie, every child of `pid` belongs to process 0,
-- pids stay, the parent runs if it was waiting, and the other slots keep the rest.
pub record Death (i pid : ℕ) (k k' : Kernel) : Type 0 where
  pub dead : (k'.q i).state ≡ zombie
  pub orphans :
      (j : ℕ) → j < max → (k'.q j).ppid ≡ (if (k.q j).ppid == pid then 0 else (k.q j).ppid)
  pub pids : (j : ℕ) → j < max → (k'.q j).pid ≡ (k.q j).pid
  pub parent_wakes :
      waker i pid k ≢ i
      → (k.q (waker i pid k)).state ≡ wait
      → (k'.q (waker i pid k)).state ≡ running
  pub others :
      (j : ℕ)
      → j < max
      → j ≢ i
      → (j ≢ waker i pid k) ⊎ (is (k.q j).state wait ≡ false)
      → k'.q j ≡ reparent pid (k.q j)

module _ (i pid : ℕ) (k : Kernel) (hi : i < max) (hp : waker i pid k < max) where
  die-dead : ((die i pid k).q i).state ≡ zombie
  die-dead = ap (λ (t : Task). t.state) (die-at i pid k i hi hi hp) ∙ dead_at (waker i pid k)
    where
      dead_at :
          (p : ℕ)
          → (if (p == i) && is (after_death i pid k p).state wait
              then record (after_death i pid k i) { state = running }
              else after_death i pid k i).state
            ≡ zombie
      dead_at p = ground arith

  die-orphans :
      (j : ℕ)
      → j < max
      → ((die i pid k).q j).ppid ≡ (if (k.q j).ppid == pid then 0 else (k.q j).ppid)
  die-orphans j hj = ap (λ (t : Task). t.ppid) (die-at i pid k j hi hj hp) ∙ ground arith

  die-pids : (j : ℕ) → j < max → ((die i pid k).q j).pid ≡ (k.q j).pid
  die-pids j hj = ap (λ (t : Task). t.pid) (die-at i pid k j hi hj hp) ∙ ground arith

  die-parent :
      waker i pid k ≢ i
      → (k.q (waker i pid k)).state ≡ wait
      → ((die i pid k).q (waker i pid k)).state ≡ running
  die-parent ne waits =
      ap (λ (t : Task). t.state) (die-at i pid k (waker i pid k) hi hp hp)
      ∙ up (waker i pid k) ne waits
    where
      up :
          (p : ℕ)
          → p ≢ i
          → (k.q p).state ≡ wait
          → (if (p == p) && is (after_death i pid k p).state wait
              then record (after_death i pid k p) { state = running }
              else after_death i pid k p).state
            ≡ running
      up p ne waits = rw ((==_iff p p).1 refl) (ground arith)

  die-others :
      (j : ℕ)
      → j < max
      → j ≢ i
      → (j ≢ waker i pid k) ⊎ (is (k.q j).state wait ≡ false)
      → (die i pid k).q j ≡ reparent pid (k.q j)
  die-others j hj ne stays =
      die-at i pid k j hi hj hp
      ∙ same (waker i pid k) stays
      ∙ ap (reparent pid)
          (update_other k.q i (record (k.q i) { state = zombie }) j (λ e. ne (sym e)))
    where
      kept : (after_death i pid k j).state ≡ (k.q j).state
      kept =
          ap (λ (t : Task). t.state)
            (update_other k.q i (record (k.q i) { state = zombie }) j (λ e. ne (sym e)))

      same :
          (p : ℕ)
          → (j ≢ p) ⊎ (is (k.q j).state wait ≡ false)
          → (if (p == j) && is (after_death i pid k p).state wait
              then record (after_death i pid k j) { state = running }
              else after_death i pid k j)
            ≡ after_death i pid k j
      same p (inl other) = let apart : (p == j) ≡ false = ground arith in rw apart
      same p (inr busy) = elim (Bool-cases (p == j)) [
        | inr apart ↦ rw apart
        | inl e ↦
            let here : p ≡ j = (==_iff p j).0 e in
            let not_waiting : is (after_death i pid k p).state wait ≡ false =
              rw (here, kept) busy in
            rw (e, not_waiting)
      ]

  pub die-Death : Death i pid k (die i pid k)
  die-Death = record {
    dead = die-dead;
    orphans = die-orphans;
    pids = die-pids;
    parent_wakes = die-parent;
    others = die-others;
  }

-- If the current slot, and the slot of its parent after its children have moved to process 0, lie in the
-- table, `exit` leaves the table of a death: the slot is a zombie, each child of its pid belongs to process
-- 0, pids stay, a waiting parent runs, and the other slots keep the rest.
pub exit-Death :
    (k : Kernel)
    → k.r < max
    → waker k.r (current k).pid k < max
    → Death k.r (current k).pid k (exit k)
unfolding exit yield_to
exit-Death k hr hp =
    let d = die-Death k.r (current k).pid k hr hp in
    record {
      dead = d.dead;
      orphans = d.orphans;
      pids = d.pids;
      parent_wakes = d.parent_wakes;
      others = d.others;
    }

-- If `pid`, and the slot of its parent after its children have moved to process 0, lie in the table, `kill`
-- leaves the table of the death of slot `pid`, whatever that slot held, and returns 1.
pub kill-Death :
    (k : Kernel) (pid : ℕ)
    → pid < max
    → waker pid pid k < max
    → Death pid pid k (kill pid k).0 × ((kill pid k).1 ≡ 1)
unfolding kill
kill-Death k pid hi hp = (die-Death pid pid k hi hp, refl)
