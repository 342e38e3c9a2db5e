-- ===== src/Examples/Processes.antt =====
-- A table with a parent that waits and a child that runs, and the theorems of process.c on it.
use osproject.Prelude.{ℕ, ◌≡◌, refl, true, [], some, arith, ◌==◌, if◌then◌else◌}
use osproject.Prelude.Int.{pos}
use osproject.Process.{Task, Kernel, State, running, ready, wait, suspended, yield_to}
use osproject.Process.Yield.{NextFrom, yield_to-NextFrom}
use osproject.Process.Life.{exit, sleep}
use osproject.Process.Life.Exit.{Death, exit-Death}
use osproject.Process.Life.Clock.{seconds, sleep-seconds}
use osproject.Process.Wait.{wait_resume, is_dead_child}
use osproject.Process.Wait.Reap.{wait_resume-exit}
use osproject.Examples.Pages.{machine}

-- A task of that pid, parent and state, with nothing open.
abbrev pub task : ℕ → ℕ → State → Task
task pid ppid state = record {
  name = [];
  kstack = λ i. 0;
  ustack = 0;
  time = pos 0;
  state = state;
  pid = pid;
  ppid = ppid;
  rsp = 0;
  pml4e = 8192;
  child_count = 0;
  vm = [];
  curr_dir = [];
  fd = λ i. record {
    fd = 0;
    file_name = [];
    aval = 0;
    offset = 0;
    entry = 0;
    flags = 0;
    size = 0;
    address = 0;
  };
  fd_c = 0;
  reg_rip = 0;
  reg_rsp = 0;
}

-- Slot 1 runs; slot 2 is its parent and waits; slot 0 runs too, and the others are free.
abbrev pub family : Kernel
family = record {
  q = λ i.
      if i == 1
      then task 1 2 running
      else if i == 2
      then task 2 0 wait
      else if i == 0
      then task 0 0 running
      else task i 0 ready;
  r = 1;
  memory = machine;
}

yield_to-NextFrom_example : NextFrom family.q 1 2 (yield_to family).r
yield_to-NextFrom_example = yield_to-NextFrom family (omega arith)

exit-Death_example : Death 1 1 family (exit family)
exit-Death_example = exit-Death family (omega arith) (omega arith)

sleep-seconds_example :
    (((seconds 2 (record { count = 0; sec = 7 }, sleep 4 family)).1.q 1).state ≡ suspended)
    × (((seconds 4 (record { count = 0; sec = 7 }, sleep 4 family)).1.q 1).state ≡ running)
sleep-seconds_example =
    sleep-seconds 2 3 (record { count = 0; sec = 7 }) family (omega arith) (omega arith)
      (omega arith)

wait_resume-exit_example :
    (i : ℕ) × (k'' : Kernel) × (wait_resume (record (exit family) { r = 2 }) ≡ some (some i, k''))
    × (is_dead_child (record (exit family) { r = 2 }) i ≡ true)
wait_resume-exit_example =
    wait_resume-exit family 2 (omega arith) (omega arith) (omega arith) refl (omega arith) refl
