-- ===== src/Process/Life.antt =====
-- sys/process.c, lines 412-464 and 484-500, sys/timer.c and `wake_process` of sys/terminal.c: how a
-- process ends, sleeps and wakes.
pub mod Exit
pub mod Clock
use osproject.Prelude.{
  ℕ, ◌+◌, ◌-◌, ◌%◌, ◌^◌, Bool, true, false, ◌&&◌, not, none, some, ◌==◌, if◌then◌else◌,
}
use osproject.Prelude.Int.{ℤ, pos, negsuc, signed32, pos_part}
use osproject.Prelude.Loops.{first_from}
use osproject.Process.{
  Task, Kernel, State, running, sleeping, zombie, wait, suspended, is, max, current, put, set_state,
  sweep, yield_to,
}

-- `if (q[i].ppid == pid) q[i].ppid = 0`.
abbrev pub reparent : ℕ → Task → Task
reparent pid t = record t { ppid = if t.ppid == pid then 0 else t.ppid }

-- `if (q[i].state == WAIT) q[i].state = RUNNING`.
abbrev pub wake_waiter : ℕ → Kernel → Kernel
wake_waiter i k = if is (k.q i).state wait then set_state i running k else k

-- What `exit` and `kill` do to slot `i`, whose pid is `pid`: it becomes a zombie, its children go to
-- process 0, and its parent is woken.
unfoldable pub die : ℕ → ℕ → Kernel → Kernel
die i pid k =
    let marked = set_state i zombie k in
    let moved = record marked { q = sweep (reparent pid) marked.q } in
    wake_waiter (moved.q i).ppid moved

-- `exit`, up to the switch of stacks.
unfoldable pub exit : Kernel → Kernel
unfolding die
exit k = yield_to (die k.r (current k).pid k)

-- `kill`, which always returns 1.
unfoldable pub kill : ℕ → Kernel → Kernel × ℕ
unfolding die
kill pid k = (die pid pid k, 1)

-- `sleep`: the unsigned argument becomes an `int`.
unfoldable pub sleep : ℕ → Kernel → Kernel
sleep seconds k =
    if seconds == 0
    then k
    else yield_to
        (put k.r (record (current k) { time = signed32 (seconds % 2 ^ 32); state = suspended }) k)

-- `wake_process`: the first sleeping slot runs again.
unfoldable pub wake_process : Kernel → Kernel
wake_process k = elim (first_from max 0 (λ i. is (k.q i).state sleeping)) [
  | none ↦ k
  | some i ↦ set_state i running k
]

-- The two tests that the timer makes on each slot.
abbrev pub is_positive : ℤ → Bool
is_positive (pos n) = not (n == 0)
is_positive (negsuc n) = false

abbrev pub is_zero : ℤ → Bool
is_zero (pos n) = n == 0
is_zero (negsuc n) = false

abbrev pub decrement : ℤ → ℤ
decrement t = pos (pos_part t - 1)

unfoldable pub count_down : Task → Task
count_down t =
    if is t.state suspended && is_positive t.time then record t { time = decrement t.time } else t

unfoldable pub wake_up : Task → Task
wake_up t = if is_zero t.time && is t.state suspended then record t { state = running } else t

-- `timer_handler`'s own variables.
pub record Timer : Type 0 where
  pub count : ℕ
  pub sec : ℕ

-- `timer_handler` up to its `yield`: at the 18th interrupt the process gives up the processor, and the
-- rest of the handler waits until it is resumed.
unfoldable pub timer_enter : Timer → Kernel → Timer × Kernel × Bool
timer_enter t k =
    let next = record t { count = (t.count + 1) % 2 ^ 32 } in
    if next.count == 18 then (next, yield_to k, true) else (next, k, false)

-- The rest: the clock goes on by a second and each sleeper with it. (The digits on the screen are
-- left out.)
unfoldable pub timer_leave : Timer → Kernel → Timer × Kernel
unfolding count_down wake_up
timer_leave t k = (
  record { count = 0; sec = t.sec + 1 },
  record k { q = sweep (λ s. wake_up (count_down s)) k.q },
)
