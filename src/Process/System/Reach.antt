-- ===== src/Process/System/Reach.antt =====
-- `fork` and the process table, and sequences of the operations of sys/process.c.
use osproject.Prelude.{ℕ, ◌<◌, ◌≡◌, refl, sym, ◌∙◌, Option, some, inl, inr}
use mathlib.Core.Path.{subst}
use native.Mathlib.Decide.{ℕ_discrete}
use osproject.Process.{Task, Kernel, running, max, current, yield_to, listed}
use osproject.Process.Life.{exit, kill, sleep, wake_process, Timer, timer_leave}
use osproject.Process.Wait.{wait_enter, wait_resume, waitpid_enter, waitpid_resume}
use osproject.Process.Fork.{Machine, fork}
use osproject.Process.Fork.Child.{Child, fork-Child}
use osproject.Process.System.{
  IsTable, Good, yield_to-IsTable, exit-IsTable, kill-IsTable, sleep-IsTable, wake_process-IsTable,
  timer_leave-IsTable,
}
use osproject.Process.System.Blocking.{
  wait_enter-IsTable, wait_resume-IsTable, waitpid_enter-IsTable, waitpid_resume-IsTable,
}

same_listed : (t s : Task) → t.state ≡ s.state → listed t ≡ listed s
unfolding listed
same_listed t s e = rw e refl

fork-IsTable : (m : Machine) (k k' : Kernel) (c : ℕ) → Child c k k' → IsTable k → IsTable k'
fork-IsTable m k k' c d h = record {
  inside = rw d.same h.inside;
  own = rw d.same ((d.others k.r (λ e. d.apart (sym e))).0 ∙ h.own);
  good = λ j lt. elim (ℕ_discrete j c) [
    | yes e ↦ subst (λ x. Good x (k'.q x)) (sym e) (rw (d.ppid, h.own) h.inside, inr d.pid)
    | no ne ↦
        let (pid, ppid, state) = d.others j ne in
        (
          rw ppid (h.good j lt).0,
          elim (h.good j lt).1 [
            | inl unused ↦ inl (same_listed (k'.q j) (k.q j) state ∙ unused)
            | inr at ↦ inr (pid ∙ at)
          ],
        )
  ];
}

-- What processes and interrupts do to the table. Only a running process calls `fork`.
pub data Step (k : Kernel) : Kernel → Type 0 where
  yields : Step k (yield_to k)
  exits : Step k (exit k)
  kills : (pid : ℕ) → pid < max → Step k (kill pid k).0
  sleeps : (seconds : ℕ) → Step k (sleep seconds k)
  wakes : Step k (wake_process k)
  ticks : (t : Timer) → Step k (timer_leave t k).1
  waits : (o : Option ℕ) (k' : Kernel) → wait_enter k ≡ some (o, k') → Step k k'
  waits_on : (o : Option ℕ) (k' : Kernel) → wait_resume k ≡ some (o, k') → Step k k'
  waits_for :
      (i : ℕ) (o : Option ℕ) (k' : Kernel) → i < max → waitpid_enter i k ≡ some (o, k') → Step k k'
  waits_on_for :
      (i : ℕ) (o : Option ℕ) (k' : Kernel) → i < max → waitpid_resume i k ≡ some (o, k') → Step k k'
  forks :
      (m : Machine) (c : ℕ) (k' : Kernel)
      → (current k).state ≡ running
      → fork m k ≡ some (c, k')
      → Step k k'

-- The tables that come after `k`.
pub data Reach (k : Kernel) : Kernel → Type 0 where
  now : Reach k k
  later : (k' k'' : Kernel) → Reach k k' → Step k' k'' → Reach k k''

step-IsTable : (k k' : Kernel) → Step k k' → IsTable k → IsTable k'
step-IsTable k _ yields h = yield_to-IsTable k h
step-IsTable k _ exits h = exit-IsTable k h
step-IsTable k _ (kills pid lt) h = kill-IsTable pid k lt h
step-IsTable k _ (sleeps seconds) h = sleep-IsTable seconds k h
step-IsTable k _ wakes h = wake_process-IsTable k h
step-IsTable k _ (ticks t) h = timer_leave-IsTable t k h
step-IsTable k _ (waits o k' e) h = wait_enter-IsTable k k' o e h
step-IsTable k _ (waits_on o k' e) h = wait_resume-IsTable k k' o e h
step-IsTable k _ (waits_for i o k' lt e) h = waitpid_enter-IsTable i k k' o lt e h
step-IsTable k _ (waits_on_for i o k' lt e) h = waitpid_resume-IsTable i k k' o lt e h
step-IsTable k _ (forks m c k' runs e) h = fork-IsTable m k k' c (fork-Child m k k' c runs e) h

-- From a table in which each slot's parent pid is an index of the table, each slot in use has its index as
-- pid, and the current process is the one its pid names, every sequence of `yield`, `exit`, `kill` of a pid
-- in the table, `sleep`, `wake_process`, the timer's tick, `wait` and `waitpid` on entry and after a `yield`,
-- and `fork` by a running process leads to such a table again.
pub Reach-IsTable : (k k' : Kernel) → Reach k k' → IsTable k → IsTable k'
Reach-IsTable k _ now h = h
Reach-IsTable k _ (later k' k'' before step) h =
    step-IsTable k' k'' step (Reach-IsTable k k' before h)
