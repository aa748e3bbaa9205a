-- ===== src/Examples/Timers.antt =====
-- The theorems on timers at concrete kernels.
use lltrisc_v.Prelude.{
  ℕ, ◌+◌, ◌%◌, ◌==◌, ◌||◌, mem, ◌-◌, ◌^◌, ◌≡◌, refl, ap, true, false, [], ◌∷◌, some, none, arith,
  nodup,
}
use lltrisc_v.Kernel.State.{Kernel, Timeout, thread_timeout, callback, etimeout}
use lltrisc_v.Timer.{timer_init, timer_start, timer_check, timer_unlink, insert_sorted, check_loop}
use lltrisc_v.Timer.Order.{IsOrdered, timer_start-IsOrdered}
use lltrisc_v.Timer.Check.{LeavesTimers, Checked, timer_check-due, IsSpinning, check_loop-spins}
use lltrisc_v.Kernel.Lists.{unlink, set_error}
use lltrisc_v.Scheduler.{insert_thread}
use lltrisc_v.Scheduler.Highest.{schedule-same}
use lltrisc_v.Thread.{run_timeout, timeout}
use lltrisc_v.Clock.{tick_set}
use lltrisc_v.Examples.States.{blank}

-- Two one-shot timers, of 3 and 9 ticks; the longer one was started first.
abbrev two_timers : Kernel
two_timers = timer_start 4 (
    timer_start 5 (
      timer_init 4 (callback 1 40) 3 false false
        (timer_init 5 (callback 1 50) 9 false false blank)))

-- The tick at which the shorter one is due.
abbrev due_now : Kernel
due_now = tick_set 3 two_timers

-- The kernel's own functions of threads, and an application whose callbacks do nothing.
abbrev call : Timeout → Kernel → Kernel
call = run_timeout (λ f x k. k)

timeout-LeavesTimers :
    (t : ℕ) (k : Kernel)
    → ((timeout t k).timer ≡ k.timer)
      × ((timeout t k).timer_list ≡ k.timer_list)
      × ((timeout t k).fired_list ≡ k.fired_list)
      × ((timeout t k).tick ≡ k.tick)
unfolding timeout insert_thread
timeout-LeavesTimers t k =
    let s = schedule-same (insert_thread t (unlink t (set_error t etimeout k))) in
    (s.timer, s.timer_list, s.fired_list, s.tick)

call-LeavesTimers : LeavesTimers call
unfolding run_timeout
call-LeavesTimers = record { timer = timers; timer_list = rows; fired_list = fired; tick = ticks }
  where
    timers : (f : Timeout) (k : Kernel) → (call f k).timer ≡ k.timer
    timers (thread_timeout t) k = (timeout-LeavesTimers t k).0
    timers (callback f x) k = refl

    rows : (f : Timeout) (k : Kernel) → (call f k).timer_list ≡ k.timer_list
    rows (thread_timeout t) k = (timeout-LeavesTimers t k).1
    rows (callback f x) k = refl

    fired : (f : Timeout) (k : Kernel) → (call f k).fired_list ≡ k.fired_list
    fired (thread_timeout t) k = (timeout-LeavesTimers t k).2
    fired (callback f x) k = refl

    ticks : (f : Timeout) (k : Kernel) → (call f k).tick ≡ k.tick
    ticks (thread_timeout t) k = (timeout-LeavesTimers t k).3
    ticks (callback f x) k = refl

two_timers-row : two_timers.timer_list ≡ 4 ∷ 5 ∷ []
unfolding timer_init timer_start timer_unlink insert_sorted
two_timers-row = refl

two_timers-once : nodup two_timers.timer_list ≡ true
two_timers-once = ap nodup two_timers-row

due_now-once : nodup due_now.timer_list ≡ true
unfolding tick_set
due_now-once = two_timers-once

timer_check-due_example :
    (k' : Kernel) × (timer_check call 3 due_now ≡ some k')
    × Checked call call-LeavesTimers due_now.timer_list (record due_now { fired_list = [] }) k'
unfolding tick_set timer_init timer_start timer_unlink insert_sorted
timer_check-due_example =
    timer_check-due call call-LeavesTimers 3 due_now due_now-once (refl, (refl, tt)) (omega arith)

-- A periodic timer of no ticks.
abbrev spinning : Kernel
spinning = timer_start 4 (timer_init 4 (callback 1 40) 0 true false blank)

spinning-IsSpinning : IsSpinning call call-LeavesTimers 4 spinning
unfolding timer_init timer_start timer_unlink insert_sorted
spinning-IsSpinning = record {
  row = refl;
  fired = refl;
  periodic = refl;
  activated = refl;
  instant = refl;
  due = refl;
  fits = omega arith;
}

check_loop-spins_example : check_loop call 100 spinning.tick spinning ≡ none
check_loop-spins_example =
    check_loop-spins call call-LeavesTimers 100 4 spinning spinning-IsSpinning

-- Just before the tick wraps, one timer runs beyond the wrap.
abbrev wrapping : Kernel
wrapping = timer_start 5 (timer_init 5 (callback 1 50) 9 false false (tick_set (2 ^ 32 - 4) blank))

wrapping-once : nodup wrapping.timer_list ≡ true
unfolding tick_set timer_init timer_start timer_unlink insert_sorted
wrapping-once = refl

timer_start-IsOrdered_example :
    let k' = timer_start 5 wrapping in
    IsOrdered k'.timer (2 ^ 32 - 4) k'.timer_list
    × ((k'.timer 5).activated ≡ true)
    × ((k'.timer 5).timeout_tick ≡ (wrapping.tick + (wrapping.timer 5).init_tick) % 2 ^ 32)
    × (nodup k'.timer_list ≡ true)
    × ((u : ℕ) → mem u k'.timer_list ≡ ((5 == u) || mem u wrapping.timer_list))
unfolding tick_set timer_init timer_start timer_unlink insert_sorted
timer_start-IsOrdered_example =
    timer_start-IsOrdered wrapping 5 (2 ^ 32 - 4) (omega arith)
      (record { fits = omega arith; near = omega arith }) wrapping-once
      (record { fits = omega arith; near = omega arith }, tt, tt)
