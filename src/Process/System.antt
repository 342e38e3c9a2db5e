-- ===== src/Process/System.antt =====
-- The process table under every operation of sys/process.c that the processes can call, in any order, and
-- the interrupts between them.
pub mod Blocking
pub mod Reach
use osproject.Prelude.{
  ℕ, ◌+◌, ◌%◌, ◌^◌, ◌≤◌, ◌<◌, ◌≡◌, ◌≢◌, refl, sym, ap, ◌∙◌, Bool, true, false, ◌&&◌, ◌||◌, Option,
  none, some, ◌==◌, ==_iff, if◌then◌else◌, ◌⊎◌, inl, inr, Bool-cases, Option-cases, arith,
}
use mathlib.Core.Path.{subst}
use native.Mathlib.Decide.{ℕ_discrete, dec_lt}
use osproject.Prelude.State.{Op, pure, ◌>>=◌, >>=-eq-some}
use osproject.Prelude.Int.{ℤ, pos}
use osproject.Prelude.Loops.{update, update_self, update_other, first_from, first_from-some}
use osproject.Process.{
  Task, Kernel, State, running, sleeping, zombie, ready, wait, suspended, is, max, current, put,
  set_state, sweep, find_next, yield_to, listed,
}
use osproject.Process.Slots.{sweep-at}
use osproject.Process.Yield.{NextFrom, yield_to-NextFrom}
use osproject.Process.Life.{
  reparent, die, exit, kill, sleep, wake_process, count_down, wake_up, Timer, timer_leave,
}
use osproject.Process.Life.Exit.{Death, waker, die-Death}
use osproject.Paging.Frames.{Memory}
use osproject.Process.Wait.{
  wait_enter, wait_resume, wait_scan, is_dead_child, waitpid_enter, waitpid_resume,
}
use osproject.Process.Wait.Reap.{
  reaped, reap_lem, scan_found, scan_missed, Waits, returns, blocks, wait_enter-Waits,
}
use osproject.Process.Fork.{Machine, fork}
use osproject.Process.Fork.Child.{Child, fork-Child}

-- Slot `j`: its parent's pid is an index of the table, and if it is in use, its pid is `j`.
abbrev pub Good : ℕ → Task → Type 0
Good j t = (t.ppid < max) × ((listed t ≡ false) ⊎ (t.pid ≡ j))

-- The table is sound: each slot is, and the current process is the one that its pid names.
pub record IsTable (k : Kernel) : Type 0 where
  pub inside : k.r < max
  pub own : (current k).pid ≡ k.r
  pub good : (j : ℕ) → j < max → Good j (k.q j)

-- A table whose slots are good, and in which the pid of the current process is unchanged.
pub put-IsTable :
    (k : Kernel) (i : ℕ) (t : Task)
    → IsTable k
    → t.pid ≡ (k.q i).pid
    → Good i t
    → IsTable (put i t k)
put-IsTable k i t h same g = record {
  inside = h.inside;
  own = elim (ℕ_discrete i k.r) [
    | yes e ↦
        subst (λ x. (update k.q i t x).pid ≡ x) e
          (ap (λ (s : Task). s.pid) (update_self k.q i t)
            ∙ same
            ∙ subst (λ x. (k.q x).pid ≡ x) (sym e) h.own)
    | no ne ↦ ap (λ (s : Task). s.pid) (update_other k.q i t k.r ne) ∙ h.own
  ];
  good = λ j lt. elim (ℕ_discrete i j) [
    | yes e ↦
        subst (λ x. Good x (update k.q i t x)) e (subst (Good i) (sym (update_self k.q i t)) g)
    | no ne ↦ subst (Good j) (sym (update_other k.q i t j ne)) (h.good j lt)
  ];
}

runs_listed : (t : Task) → is t.state running ≡ true → listed t ≡ false → ⊥
unfolding listed
runs_listed t runs unused = ground arith

pub yield_to-IsTable : (k : Kernel) → IsTable k → IsTable (yield_to k)
unfolding yield_to
yield_to-IsTable k h = next (yield_to-NextFrom k (rw h.own h.inside))
  where
    next :
        NextFrom k.q (current k).pid (((current k).pid + 1) % max) (yield_to k).r
        → IsTable (yield_to k)
    next (d, at, near, before, end) = record {
      inside = rw at (omega arith);
      own = elim end [
        | inl last ↦ subst (λ x. (k.q x).pid ≡ x) (sym (last ∙ h.own)) h.own
        | inr runs ↦ elim (h.good (yield_to k).r (rw at (omega arith))).1 [
          | inl unused ↦ absurd (runs_listed (k.q (yield_to k).r) runs unused)
          | inr e ↦ e
        ]
      ];
      good = h.good;
    }

-- A change of the current or of another slot's state, for a slot that is in use.
state-Good :
    (j : ℕ) (s : State) (t : Task) → listed t ≡ true → Good j t → Good j (record t { state = s })
state-Good j s t used g = (g.0, ground arith)

unused_listed : (t : Task) → t.state ≡ zombie → listed t ≡ false
unfolding listed
unused_listed t e = rw e refl

unused-not_waiting : (t : Task) → listed t ≡ false → is t.state wait ≡ false
unfolding listed
unused-not_waiting t e = ground arith

sleeping_listed : (t : Task) → is t.state sleeping ≡ true → listed t ≡ true
unfolding listed
sleeping_listed t e = ground arith

listed-reparent : (pid : ℕ) (t : Task) → listed (reparent pid t) ≡ listed t
unfolding listed
listed-reparent pid t = refl

lower : (pid x : ℕ) → x < max → (if x == pid then 0 else x) < max
lower pid x lt = ground arith

Death-IsTable : (i pid : ℕ) (k k' : Kernel) → Death i pid k k' → k'.r ≡ k.r → IsTable k → IsTable k'
Death-IsTable i pid k k' d same h = record {
  inside = rw same h.inside;
  own = rw same (d.pids k.r h.inside ∙ h.own);
  good = λ j lt. (
    rw (d.orphans j lt) (lower pid (k.q j).ppid (h.good j lt).0),
    elim (h.good j lt).1 [
      | inr e ↦ inr (d.pids j lt ∙ e)
      | inl unused ↦ inl (elim (ℕ_discrete j i) [
        | yes e ↦ subst (λ x. listed (k'.q x) ≡ false) (sym e) (unused_listed (k'.q i) d.dead)
        | no ne ↦
            ap listed (d.others j lt ne (inr (unused-not_waiting (k.q j) unused)))
            ∙ listed-reparent pid (k.q j)
            ∙ unused
      ])
    ],
  );
}

die_r : (i pid : ℕ) (k : Kernel) → (die i pid k).r ≡ k.r
unfolding die
die_r i pid k = ground arith

die-IsTable : (i pid : ℕ) (k : Kernel) → i < max → IsTable k → IsTable (die i pid k)
die-IsTable i pid k lt h =
    Death-IsTable i pid k (die i pid k)
      (die-Death i pid k lt (lower pid (k.q i).ppid (h.good i lt).0)) (die_r i pid k) h

pub exit-IsTable : (k : Kernel) → IsTable k → IsTable (exit k)
unfolding exit
exit-IsTable k h =
    yield_to-IsTable (die k.r (current k).pid k) (die-IsTable k.r (current k).pid k h.inside h)

pub kill-IsTable : (pid : ℕ) (k : Kernel) → pid < max → IsTable k → IsTable (kill pid k).0
unfolding kill
kill-IsTable pid k lt h = die-IsTable pid pid k lt h

pub sleep-IsTable : (seconds : ℕ) (k : Kernel) → IsTable k → IsTable (sleep seconds k)
unfolding sleep
sleep-IsTable seconds k h = elim (Bool-cases (seconds == 0)) [
  | inl now ↦ rw now h
  | inr later ↦
      rw later
        (yield_to-IsTable _ (put-IsTable k k.r _ h refl ((h.good k.r h.inside).0, inr h.own)))
]

pub wake_process-IsTable : (k : Kernel) → IsTable k → IsTable (wake_process k)
unfolding wake_process
wake_process-IsTable k h = elim (Option-cases (first_from max 0 (λ i. is (k.q i).state sleeping))) [
  | inl none_sleeps ↦ rw (none_sleeps, wake_process) h
  | inr (i, e) ↦
      let (_, lt, sleeps, _) = first_from-some max 0 (λ i. is (k.q i).state sleeping) {k = i} e in
      rw (e, wake_process)
        (put-IsTable k i _ h refl
          (state-Good i running (k.q i) (sleeping_listed (k.q i) sleeps) (h.good i lt)))
]

second-Good : (j : ℕ) (t : Task) → Good j t → Good j (wake_up (count_down t))
unfolding count_down wake_up listed
second-Good j t g = ground arith

second_pid : (t : Task) → (wake_up (count_down t)).pid ≡ t.pid
unfolding count_down wake_up
second_pid t = ground arith

pub timer_leave-IsTable : (t : Timer) (k : Kernel) → IsTable k → IsTable (timer_leave t k).1
unfolding timer_leave
timer_leave-IsTable t k h =
    let second : Task → Task = λ s. wake_up (count_down s) in
    record {
      inside = h.inside;
      own =
          ap (λ (s : Task). s.pid) (sweep-at second k.q k.r h.inside)
          ∙ second_pid (k.q k.r)
          ∙ h.own;
      good = λ j lt.
          subst (Good j) (sym (sweep-at second k.q j lt)) (second-Good j (k.q j) (h.good j lt));
    }
