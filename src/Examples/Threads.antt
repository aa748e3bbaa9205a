-- ===== src/Examples/Threads.antt =====
-- The theorems on the scheduler, the threads and the clock at concrete kernels.
use lltrisc_v.Prelude.{ℕ, ◌+◌, ◌≤◌, ◌<◌, ◌≡◌, refl, true, false, List, ◌∷◌, some, none, arith}
use lltrisc_v.Bits.{test_bit}
use lltrisc_v.Bits.Ffs.{rt_ffs, lowest_bit_bitmap, rt_ffs-first}
use lltrisc_v.Kernel.State.{Kernel, Switch, has_stat, thread_ready}
use lltrisc_v.Scheduler.{
  schedule, scheduler_init, scheduler_start, insert_thread, start_with, highest_ready_priority,
}
use lltrisc_v.Scheduler.Highest.{IsRunnable, schedule-highest}
use lltrisc_v.Timer.{timer_init, timer_stop, timer_unlink, next_due}
use lltrisc_v.Thread.{
  thread_init_call, thread_startup, thread_resume, thread_sleep, change_priority,
}
use lltrisc_v.Clock.{tick_increase}
use lltrisc_v.Clock.Safe.{IsTimed}
use lltrisc_v.Clock.Due.{HasPeriods}
use lltrisc_v.Clock.Tick.{tick_increase-ends}
use lltrisc_v.Clock.Sleep.{thread_sleep-IsTimed}
use lltrisc_v.Examples.States.{
  started, running, running-IsScheduled, running-IsTimed, running-current, running-ready,
  running-own, late, late-IsTimed, late-HasPeriods, late-current, late-due, no_callback,
  no_callback-IsQuiet,
}

running-IsRunnable : IsRunnable running
running-IsRunnable = record { ready = 1; is_ready = running-ready }

running-unlocked : running.lock_nest ≡ 0
unfolding thread_init_call timer_init scheduler_init thread_startup thread_resume insert_thread
    timer_stop timer_unlink scheduler_start start_with highest_ready_priority rt_ffs
    lowest_bit_bitmap
running-unlocked = refl

schedule-highest_example :
    (t : ℕ) × (rest : List ℕ) × ((schedule running).current_thread ≡ some t)
    × (running.priority_table (running.thread t).current_priority ≡ t ∷ rest)
    × (has_stat thread_ready (running.thread t) ≡ true)
    × ((u : ℕ)
        → has_stat thread_ready (running.thread u) ≡ true
        → (running.thread t).current_priority ≤ (running.thread u).current_priority)
    × ((schedule running).fault ≡ running.fault)
schedule-highest_example =
    schedule-highest running running-IsScheduled running-IsRunnable running-unlocked

started-IsRunnable : IsRunnable started
unfolding thread_init_call timer_init scheduler_init thread_startup thread_resume insert_thread
    timer_stop timer_unlink scheduler_start start_with highest_ready_priority rt_ffs
    lowest_bit_bitmap
started-IsRunnable = record { ready = 2; is_ready = refl }

abbrev first_switch : Switch
first_switch = record { from = some 1; to = 2 }

abbrev other_switch : Switch
other_switch = record { from = some 2; to = 3 }

thread_sleep-IsTimed_example : IsTimed (thread_sleep 5 running)
thread_sleep-IsTimed_example =
    thread_sleep-IsTimed running 1 5 running-IsTimed running-current running-ready running-own

tick_increase-ends_example :
    (k' : Kernel) × (tick_increase no_callback 2 late ≡ some k')
    × IsTimed k'
    × HasPeriods k'
    × (next_due k'.tick k' ≡ none)
tick_increase-ends_example =
    tick_increase-ends no_callback no_callback-IsQuiet 2 2 late late-current late-IsTimed
      late-HasPeriods (omega (arith, late-due))

-- Thread 2 with the priority of thread 1, which runs.
abbrev pair : Kernel
pair = change_priority 2 2 running

rt_ffs-first_example :
    (b : ℕ) × (rt_ffs 40 ≡ b + 1)
    × (b < 32)
    × (test_bit 40 b ≡ true)
    × ((q : ℕ) → q < b → test_bit 40 q ≡ false)
rt_ffs-first_example = rt_ffs-first 40 (omega arith) (omega arith)
