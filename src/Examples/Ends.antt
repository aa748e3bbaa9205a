-- ===== src/Examples/Ends.antt =====
-- The theorems on the end of a thread and on delays, at the running thread of two.
use lltrisc_v.Prelude.{
  ℕ, ◌+◌, ◌-◌, ◌%◌, ◌^◌, ◌≤◌, ◌<◌, ◌≡◌, refl, true, false, none, [], ◌∷◌, arith, ◌==◌, mem,
}
use lltrisc_v.Kernel.State.{Kernel, eok, has_stat, thread_close, thread_init, thread_suspend}
use lltrisc_v.Scheduler.{schedule}
use lltrisc_v.Scheduler.Invariant.{IsScheduled}
use lltrisc_v.Scheduler.Highest.{SameQueues}
use lltrisc_v.Thread.Exit.{
  App, IsQuiet, IsClosed, thread_cleanup_execute, thread_exit, thread_detach, thread_exit-IsClosed,
  thread_detach-cases,
}
use lltrisc_v.Timer.Check.{is_due}
use lltrisc_v.Clock.Delay.{thread_delay_until, thread_delay_until-due}
use lltrisc_v.Examples.States.{
  running, running-IsScheduled, running-current, running-ready, running-once, running-tick,
}

running-started : has_stat thread_init (running.thread 1) ≡ false
running-started = ground (arith, running-ready)

-- Thread 7 is a static object, and no thread has a cleanup function.
abbrev plain : App
plain = record { cleanup = λ t. none; is_system = λ t. t == 7 }

plain-IsQuiet : IsQuiet plain
unfolding thread_cleanup_execute
plain-IsQuiet = record { queues = λ t k. ground arith; timers = λ t k. refl }

thread_exit-IsClosed_example :
    let (defunct', k') = thread_exit plain (9 ∷ []) running in
    IsClosed k' 1
    × IsScheduled k'
    × (defunct' ≡ 1 ∷ 9 ∷ [])
    × ((l : Kernel) × SameQueues l k' × (k' ≡ schedule l))
thread_exit-IsClosed_example =
    thread_exit-IsClosed plain (9 ∷ []) running 1 plain-IsQuiet running-IsScheduled running-current
      running-started running-once

thread_detach-cases_example :
    let (result, defunct', k') = thread_detach plain 1 [] running in
    (result ≡ eok)
    × (has_stat thread_close (running.thread 1) ≡ true → (defunct' ≡ []) × (k' ≡ running))
    × (has_stat thread_close (running.thread 1) ≡ false
        → has_stat thread_init (running.thread 1) ≡ false
        → IsClosed k' 1 × IsScheduled k' × (defunct' ≡ 1 ∷ []))
thread_detach-cases_example =
    thread_detach-cases plain 1 [] running plain-IsQuiet running-IsScheduled running-once

thread_delay_until-due_example :
    let (asleep, tick', k') = thread_delay_until running.tick 5 running in
    let m = (running.thread 1).thread_timer in
    let passed = (running.tick + 2 ^ 32 - running.tick) % 2 ^ 32 in
    (passed < 5
      → (asleep ≡ true)
        × (has_stat thread_suspend (k'.thread 1) ≡ true)
        × ((p : ℕ) → mem 1 (k'.priority_table p) ≡ false)
        × (mem m k'.timer_list ≡ true)
        × ((k'.timer m).timeout_tick ≡ (running.tick + 5) % 2 ^ 32)
        × ((d : ℕ)
            → d ≤ 5 - passed
            → is_due ((running.tick + d) % 2 ^ 32) (k'.timer m) ≡ (d == 5 - passed)))
    × (5 ≤ passed → (asleep ≡ false) × (tick' ≡ running.tick) × (k' ≡ running))
thread_delay_until-due_example =
    thread_delay_until-due running 1 running.tick 5 running-IsScheduled running-current
      running-ready running-once (omega (arith, running-tick)) (omega (arith, running-tick))
      (omega arith)
