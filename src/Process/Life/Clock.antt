-- ===== src/Process/Life/Clock.antt =====
-- `sleep` of sys/process.c against the timer of sys/timer.c.
use osproject.Prelude.{
  ℕ, zero, suc, ◌+◌, ◌-◌, ◌%◌, ◌^◌, ◌≤◌, ◌<◌, ◌≡◌, refl, ap, ◌∙◌, true, false, arith, ◌==◌, ltb,
}
use osproject.Prelude.Int.{pos}
use osproject.Prelude.Loops.{update_self}
use osproject.Process.{Task, Kernel, running, suspended, max, current, yield_to}
use osproject.Process.Slots.{sweep-at}
use osproject.Process.Life.{sleep, count_down, wake_up, Timer, timer_enter, timer_leave}

-- What one second of the clock does to a slot.
abbrev second : Task → Task
second t = wake_up (count_down t)

abbrev asleep : ℕ → Task → Task
asleep n t = record t { time = pos n; state = suspended }

second-asleep : (n : ℕ) (t : Task) → second (asleep (suc (suc n)) t) ≡ asleep (suc n) t
unfolding count_down wake_up
second-asleep n t = ground arith

second_last : (t : Task) → (second (asleep 1 t)).state ≡ running
unfolding count_down wake_up
second_last t = refl

-- The timer's handler runs to its end `n` times.
pub seconds : ℕ → Timer × Kernel → Timer × Kernel
unfolding timer_leave
seconds zero s = s
seconds (suc n) s = seconds n (timer_leave s.0 s.1)

leave-at : (t : Timer) (k : Kernel) (j : ℕ) → j < max → (timer_leave t k).1.q j ≡ second (k.q j)
unfolding timer_leave
leave-at t k j h = sweep-at second k.q j h

-- A slot that sleeps for `n + m` seconds still sleeps after `m` of them.
seconds-asleep :
    (m n : ℕ) (t : Timer) (k : Kernel) (j : ℕ) (s : Task)
    → j < max
    → k.q j ≡ asleep (suc (n + m)) s
    → (seconds m (t, k)).1.q j ≡ asleep (suc n) s
unfolding seconds
seconds-asleep zero n t k j s h e = let flat : n + 0 ≡ n = omega arith in rw (← flat) e
seconds-asleep (suc m) n t k j s h e =
    let next : n + suc m ≡ suc (n + m) = omega arith in
    seconds-asleep m n (timer_leave t k).0 (timer_leave t k).1 j s h (
      leave-at t k j h
      ∙ ap second (e ∙ ap (λ (x : ℕ). asleep (suc x) s) next)
      ∙ second-asleep (n + m) s)

seconds_last :
    (n : ℕ) (t : Timer) (k : Kernel) (j : ℕ) (s : Task)
    → j < max
    → k.q j ≡ asleep (suc n) s
    → ((seconds (suc n) (t, k)).1.q j).state ≡ running
unfolding seconds
seconds_last zero t k j s h e =
    ap (λ (x : Task). x.state) (leave-at t k j h ∙ ap second e) ∙ second_last s
seconds_last (suc n) t k j s h e =
    seconds_last n (timer_leave t k).0 (timer_leave t k).1 j s h
      (leave-at t k j h ∙ ap second e ∙ second-asleep n s)

sleep-at :
    (n : ℕ) (k : Kernel) → suc n < 2 ^ 31 → (sleep (suc n) k).q k.r ≡ asleep (suc n) (current k)
unfolding sleep yield_to
sleep-at n k h =
    let small : suc n % 2 ^ 32 ≡ suc n = omega arith in
    let positive : ltb (suc n) (2 ^ 31) ≡ true = ground arith in
    let later : (suc n == 0) ≡ false = ground arith in
    rw (later, small, positive) (update_self k.q k.r _)

-- A process that calls `sleep` for `n + 1` seconds (below 2^31) is suspended after each `m ≤ n` runs of
-- the timer's handler to its end, and runs again after `n + 1`.
pub sleep-seconds :
    (m n : ℕ) (t : Timer) (k : Kernel)
    → m ≤ n
    → k.r < max
    → suc n < 2 ^ 31
    → (((seconds m (t, sleep (suc n) k)).1.q k.r).state ≡ suspended)
      × (((seconds (suc n) (t, sleep (suc n) k)).1.q k.r).state ≡ running)
sleep-seconds m n t k le h small = (
  let split : suc n ≡ suc ((n - m) + m) = omega arith in
      ap (λ (x : Task). x.state)
        (seconds-asleep m (n - m) t (sleep (suc n) k) k.r (current k) h
          (sleep-at n k small ∙ ap (λ (x : ℕ). asleep x (current k)) split)),
  seconds_last n t (sleep (suc n) k) k.r (current k) h (sleep-at n k small),
)

-- `n` timer interrupts while the rest of a handler still waits in `yield`.
pub ticks : ℕ → Timer → Kernel → Timer × Kernel
unfolding timer_enter
ticks zero t k = (t, k)
ticks (suc n) t k = let (t', k', _) = timer_enter t k in ticks n t' k'

tick_past :
    (t : Timer) (k : Kernel)
    → 18 ≤ t.count
    → t.count + 1 < 2 ^ 32
    → timer_enter t k ≡ (record t { count = t.count + 1 }, k, false)
unfolding timer_enter
tick_past t k past fits =
    let small : (t.count + 1) % 2 ^ 32 ≡ t.count + 1 = omega arith in
    let not_now : (t.count + 1 == 18) ≡ false = ground arith in rw (small, not_now)

-- Once `count` has reached 18, `n` further timer interrupts switch no process, as long as `count` does not
-- pass 2^32: the handler sets it back only when the process that it took off the processor is resumed.
pub ticks_stall :
    (n : ℕ) (t : Timer) (k : Kernel) → 18 ≤ t.count → t.count + n < 2 ^ 32 → (ticks n t k).1 ≡ k
unfolding ticks
ticks_stall zero t k past fits = refl
ticks_stall (suc n) t k past fits =
    rw (tick_past t k past (omega arith), ticks)
      (ticks_stall n (record t { count = t.count + 1 }) k (omega arith) (omega arith))
